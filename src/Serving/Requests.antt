-- ===== src/Serving/Requests.antt =====
-- packages/effect-frame/src/actor/query-host.ts: `make`, the requests that a host of queries serves.
use effect_frame.Base.{
  ℕ, Bool, false, Option, none, some, List, [], ◌∷◌, ◌++◌, String, eqb, ◌==◌, filter, map_from, any,
  if◌then◌else◌,
}
use effect_frame.Engine.{◌>>=◌}
use effect_frame.Vocabulary.{QueryKey, Result, failure, success}
use effect_frame.Query.{
  QueryFailure, unknown_query, query_version_mismatch, query_failed, unauthorized,
}
use effect_frame.Policy
use effect_frame.Policy.{Principal, Policy, Resolved, Verdict, allowed, query, read}
use effect_frame.Serving.{
  QueryBatchResult, result_slot, failure_slot, Refreshed, refreshed, refresh_failed, Implementation,
  Mode, single, batched, written, get_or,
}

-- The keys that share an implementation, each with its place in the request. An implementation is found
-- by its query's name alone, so the name stands for its identity.
pub record Group : Type 0 where
  pub implementation : Implementation
  pub entries : List (ℕ × QueryKey)

abbrev pub later : {A : Type 0} → Option A → Option A → Option A
later none earlier = earlier
later (some found) earlier = some found

abbrev pub is_query : String → Implementation → Bool
is_query name implementation = implementation.contract.name == name

unfoldable pub add_to : Implementation → ℕ × QueryKey → List Group → List Group
add_to implementation prepared [] =
    record { implementation = implementation; entries = prepared ∷ [] } ∷ []
add_to implementation prepared (group ∷ groups) =
    let rest = add_to implementation prepared groups in
    if is_query implementation.contract.name group.implementation
    then record group { entries = group.entries ++ prepared ∷ [] } ∷ groups
    else group ∷ rest

abbrev pub answered : QueryKey → Result QueryFailure String → Refreshed
answered key (failure error) = refresh_failed key error
answered key (success text) = refreshed key text

abbrev pub of_slot : QueryKey → QueryBatchResult → Refreshed
of_slot key (result_slot text) = refreshed key text
of_slot key (failure_slot error) = refresh_failed key error

abbrev pub omitted_argument : QueryKey → Refreshed
omitted_argument key =
    refresh_failed key (query_failed key.query "batch resolver omitted an argument")

abbrev pub omitted_query_refresh : QueryKey → Refreshed
omitted_query_refresh key = refresh_failed key (query_failed key.query "query batch omitted a key")

-- What an implementation's slots become, in the order of its entries.
unfoldable pub set_batched :
    List (ℕ × QueryKey) → List QueryBatchResult → List (ℕ × Refreshed) → List (ℕ × Refreshed)
set_batched [] slots results = results
set_batched ((index, key) ∷ entries) [] results =
    set_batched entries [] ((index, omitted_argument key) ∷ results)
set_batched ((index, key) ∷ entries) (slot ∷ slots) results =
    set_batched entries slots ((index, of_slot key slot) ∷ results)

-- A text that is no JSON throws, and so ends the whole request.
module _ (canonicalize : String → Option String) where
  unfoldable pub set_single :
      (String → Result QueryFailure String)
      → List (ℕ × QueryKey)
      → List (ℕ × Refreshed)
      → Option (List (ℕ × Refreshed))
  set_single run [] results = some results
  set_single run ((index, key) ∷ entries) results =
      canonicalize key.args
      >>= (λ args. set_single run entries ((index, answered key (run args)) ∷ results))

  unfoldable pub canonical_args : List (ℕ × QueryKey) → Option (List String)
  canonical_args [] = some []
  canonical_args ((index, key) ∷ entries) =
      canonicalize key.args >>= (λ args. canonical_args entries >>= (λ rest. some (args ∷ rest)))

  abbrev pub run_mode :
      Mode → List (ℕ × QueryKey) → List (ℕ × Refreshed) → Option (List (ℕ × Refreshed))
  run_mode (single run) entries results = set_single run entries results
  run_mode (batched run_batch) entries results =
      canonical_args entries >>= (λ args. some (set_batched entries (run_batch args) results))

  unfoldable pub run_groups : List Group → List (ℕ × Refreshed) → Option (List (ℕ × Refreshed))
  run_groups [] results = some results
  run_groups (group ∷ groups) results =
      run_mode group.implementation.mode group.entries results >>= run_groups groups

abbrev pub authorized : Implementation → Verdict → Result QueryFailure Implementation
authorized implementation allowed = success implementation
authorized implementation (Policy.unauthorized name) = failure (unauthorized name)

module _ {Claims : Type 0} where
  -- The map by name: the last query of a name is the one it holds.
  unfoldable pub by_name :
      List (Resolved Claims Implementation) → String → Option (Resolved Claims Implementation)
  by_name [] name = none
  by_name (resolved ∷ rest) name =
      later (by_name rest name) (if is_query name resolved.entry then some resolved else none)

  abbrev pub of_version :
      QueryKey
      → Option (Resolved Claims Implementation)
      → Result QueryFailure (Resolved Claims Implementation)
  of_version key none = failure (unknown_query key.query)
  of_version key (some resolved) =
      let expected = resolved.entry.contract.version in
      if eqb expected key.version
      then success resolved
      else failure (query_version_mismatch key.query expected key.version)

-- One host, and the caller of one request.
module _ {Claims : Type 0} (queries : List (Resolved Claims Implementation))
    (principal : Principal Claims) where
  abbrev pub resolve : QueryKey → Result QueryFailure (Resolved Claims Implementation)
  resolve key = of_version key (by_name queries key.query)

  -- Resolved first, then authorized.
  abbrev pub authorize :
      QueryKey
      → Result QueryFailure (Resolved Claims Implementation)
      → Result QueryFailure Implementation
  authorize key (failure error) = failure error
  authorize key (success resolved) =
      authorized resolved.entry (resolved.policy principal (query key) read)

  unfoldable pub check : QueryKey → Result QueryFailure Implementation
  check key = authorize key (resolve key)

  -- The loop over the checked keys.
  abbrev pub sort_key :
      ℕ × QueryKey
      → Result QueryFailure Implementation
      → List (ℕ × Refreshed) × List Group
      → List (ℕ × Refreshed) × List Group
  sort_key (index, key) (failure error) (results, groups) =
      ((index, refresh_failed key error) ∷ results, groups)
  sort_key prepared (success implementation) (results, groups) =
      (results, add_to implementation prepared groups)

  unfoldable pub sort_keys :
      List (ℕ × QueryKey) → List (ℕ × Refreshed) × List Group → List (ℕ × Refreshed) × List Group
  sort_keys [] sorted = sorted
  sort_keys ((index, key) ∷ keys) sorted = sort_keys keys (sort_key (index, key) (check key) sorted)

  -- Keys that were not authorized have their answer already.
  module _ (canonicalize : String → Option String) where
    abbrev pub run_sorted : List (ℕ × Refreshed) × List Group → Option (List (ℕ × Refreshed))
    run_sorted (results, groups) = run_groups canonicalize groups results

    unfoldable pub batch : List QueryKey → Option (List Refreshed)
    batch keys =
        run_sorted (sort_keys (map_from 0 (λ key index. (index, key)) keys) ([], []))
        >>= (λ results. some (
            map_from 0 (λ key index. get_or (omitted_query_refresh key) (written index results))
              keys))

    abbrev pub first_of : QueryKey → List Refreshed → Result QueryFailure String
    first_of key [] = failure (query_failed key.query "query batch omitted a key")
    first_of key (refreshed k text ∷ rest) = success text
    first_of key (refresh_failed k error ∷ rest) = failure error

    unfoldable pub get : QueryKey → Option (Result QueryFailure String)
    get key = batch (key ∷ []) >>= (λ answers. some (first_of key answers))

  -- Of the active keys, those whose query declares a dependency on the contract.
  abbrev pub depends_on : String → Option (Resolved Claims Implementation) → Bool
  depends_on contract none = false
  depends_on contract (some resolved) =
      any (λ depended. depended == contract) resolved.entry.contract.depends

  unfoldable pub dependents : String → List QueryKey → List QueryKey
  dependents contract active =
      filter (λ (key : QueryKey). depends_on contract (by_name queries key.query)) active
