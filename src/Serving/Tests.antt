-- ===== src/Serving/Tests.antt =====
-- Tests of the host of queries, and the statements of Batch and Pointwise at concrete inputs.
use Prim.Native.String.{◌++◌ as ◌<>◌}
use effect_frame.Base.{
  ℕ, Option, none, some, List, [], ◌∷◌, String, ◌==◌, ◌≡◌, refl, map_from, if◌then◌else◌,
}
use effect_frame.Vocabulary.{QueryKey, Result, failure, success}
use effect_frame.Query.{unknown_query, query_version_mismatch, invalid_query_args, query_failed}
use effect_frame.Policy.{Principal, anonymous, Resolved, allow_all}
use effect_frame.Serving.{
  QueryBatchResult, result_slot, failure_slot, refreshed, refresh_failed, QueryContract,
  Implementation, run_batch, implement_query, implement_batched_query,
}
use effect_frame.Serving.Requests.{
  batch, by_name, check, sort_keys, add_to, run_groups, set_single, set_batched, canonical_args,
}
use effect_frame.Serving.Batch.{valid_args, one_of, beside, run_batch_lem}
use effect_frame.Serving.Answers.{members, all_canonical, answer}
use effect_frame.Serving.Pointwise.{batch_lem}

abbrev totals : QueryContract
totals = record { name = "totals"; version = 1; policy = "open"; depends = "ledger" ∷ [] }

abbrev rows : QueryContract
rows = record { name = "rows"; version = 2; policy = "open"; depends = [] }

abbrev decode_row : String → Result String String
decode_row text = if text == "bad" then failure "no row" else success text

abbrev same_text : String → String
same_text text = text

abbrev joined : List String → String
joined [] = ""
joined (text ∷ texts) = text <> joined texts

-- One call loads all rows; a row that is gone fails alone.
abbrev load : List String → Result String (String → Result String String)
load args =
    success (λ row. if row == "gone" then failure "gone" else success (row <> ":" <> joined args))

abbrev totals_live : Implementation
totals_live = implement_query totals decode_row same_text same_text (λ text. success (text <> "!"))

abbrev rows_live : Implementation
rows_live = implement_batched_query rows decode_row same_text same_text load

abbrev queries : List (Resolved Unit Implementation)
queries =
    record { entry = totals_live; policy = allow_all }
    ∷ record { entry = rows_live; policy = allow_all }
    ∷ []

abbrev who : Principal Unit
who = anonymous

-- A text that is no JSON, as "?" here, throws.
abbrev canonical : String → Option String
canonical text = if text == "?" then none else some text

abbrev at : String → ℕ → String → QueryKey
at name version args = record { query = name; version = version; args = args }

abbrev asked : List QueryKey
asked =
    at "rows" 2 "a"
    ∷ at "totals" 1 "t"
    ∷ at "rows" 1 "a"
    ∷ at "rows" 2 "gone"
    ∷ at "none" 1 "?"
    ∷ at "rows" 2 "bad"
    ∷ []

abbrev rows_answer : List String → String → QueryBatchResult
rows_answer args text =
    one_of rows decode_row same_text same_text
      (beside rows decode_row same_text same_text load
        (valid_args rows decode_row same_text same_text args))
      (decode_row text)

abbrev one : Implementation → List String → String → QueryBatchResult
one m = rows_answer

run_batch_lem_example :
    run_batch rows decode_row same_text same_text load ("a" ∷ "bad" ∷ "gone" ∷ [])
    ≡ result_slot "a:agone"
      ∷ failure_slot (invalid_query_args "rows" "no row")
      ∷ failure_slot (query_failed "rows" "gone")
      ∷ []
unfolding valid_args
run_batch_lem_example =
    run_batch_lem rows decode_row same_text same_text load ("a" ∷ "bad" ∷ "gone" ∷ [])

batch_lem_example :
    batch queries who canonical asked
    ≡ some (
        refreshed (at "rows" 2 "a") "a:agone"
        ∷ refreshed (at "totals" 1 "t") "t!"
        ∷ refresh_failed (at "rows" 1 "a") (query_version_mismatch "rows" 2 1)
        ∷ refresh_failed (at "rows" 2 "gone") (query_failed "rows" "gone")
        ∷ refresh_failed (at "none" 1 "?") (unknown_query "none")
        ∷ refresh_failed (at "rows" 2 "bad") (invalid_query_args "rows" "no row")
        ∷ [])
unfolding all_canonical answer members check by_name valid_args implement_query
    implement_batched_query
batch_lem_example =
    batch_lem queries who canonical one asked
      (tt, (run_batch_lem rows decode_row same_text same_text load, tt))

-- One key of arguments that are no JSON leaves the others without an answer.
not_json : batch queries who canonical (at "totals" 1 "t" ∷ at "rows" 2 "?" ∷ []) ≡ none
unfolding batch sort_keys check by_name add_to run_groups set_single set_batched canonical_args
    map_from implement_query implement_batched_query
not_json = refl
