-- ===== src/Serving.antt =====
-- packages/effect-frame/src/actor/query-host.ts: the server half of queries. A handler is a function of
-- its decoded arguments, what it reads is inside it, and a defect of a whole request is `none`.
pub mod Requests
pub mod Writes
pub mod Batch
pub mod Groups
pub mod Whole
pub mod Answers
pub mod Runs
pub mod Sorted
pub mod Placed
pub mod Pointwise
pub mod Tests
use effect_frame.Base.{
  ℕ, zero, suc, ◌+◌, Bool, true, false, ◌||◌, Option, none, some, List, [], ◌∷◌, ◌++◌, map, String,
  eqb, ◌==◌, find?, filter, get_elem?, map_from, if◌then◌else◌,
}
use effect_frame.Vocabulary.{QueryKey, Result, failure, success}
use effect_frame.Query.{
  QueryFailure, unknown_query, query_version_mismatch, invalid_query_args, query_failed,
  unauthorized,
}
use effect_frame.Policy
use effect_frame.Policy.{Principal, Policy, Resolved, Verdict, allowed, query, read}

-- One result slot of a batched implementation.
pub data QueryBatchResult : Type 0 where
  result_slot : String → QueryBatchResult
  failure_slot : QueryFailure → QueryBatchResult

pub data Refreshed : Type 0 where
  refreshed : QueryKey → String → Refreshed
  refresh_failed : QueryKey → QueryFailure → Refreshed

pub record QueryContract : Type 0 where
  pub name : String
  pub version : ℕ
  pub policy : String
  pub depends : List String

pub data Mode : Type 0 where
  single : (String → Result QueryFailure String) → Mode
  batched : (List String → List QueryBatchResult) → Mode

pub record Implementation : Type 0 where
  pub contract : QueryContract
  pub mode : Mode

-- A JavaScript map of numbers: the last write of a number is what a read finds.
module _ {V : Type 0} where
  unfoldable pub written : ℕ → List (ℕ × V) → Option V
  written i [] = none
  written i ((j, v) ∷ writes) = if eqb i j then some v else written i writes

  abbrev pub get_or : V → Option V → V
  get_or default none = default
  get_or default (some v) = v

-- The author's codecs and handler; `show` is the text of an error.
module _ {Arg Out E : Type 0} (contract : QueryContract) (decode : String → Result String Arg)
    (encode : Out → String) (show : E → String) where
  abbrev pub invalid : String → QueryFailure
  invalid detail = invalid_query_args contract.name detail

  abbrev pub failed : E → QueryFailure
  failed error = query_failed contract.name (show error)

  abbrev pub encoded : Result E Out → Result QueryFailure String
  encoded (failure error) = failure (failed error)
  encoded (success out) = success (encode out)

  abbrev pub handled : (Arg → Result E Out) → Result String Arg → Result QueryFailure String
  handled handler (failure message) = failure (invalid message)
  handled handler (success arg) = encoded (handler arg)

  pub implement_query : (Arg → Result E Out) → Implementation
  implement_query handler = record {
    contract = contract;
    mode = single (λ args. handled handler (decode args));
  }

  -- The first loop of `runBatch`: the slots of the arguments that do not decode, and the valid arguments.
  abbrev pub sort_one :
      ℕ × Result String Arg
      → List (ℕ × QueryBatchResult) × List (ℕ × Arg)
      → List (ℕ × QueryBatchResult) × List (ℕ × Arg)
  sort_one (index, failure message) (results, valid) =
      ((index, failure_slot (invalid message)) ∷ results, valid)
  sort_one (index, success value) (results, valid) = (results, valid ++ (index, value) ∷ [])

  unfoldable pub sort_all :
      List (ℕ × Result String Arg)
      → List (ℕ × QueryBatchResult) × List (ℕ × Arg)
      → List (ℕ × QueryBatchResult) × List (ℕ × Arg)
  sort_all [] sorted = sorted
  sort_all (item ∷ items) sorted = sort_all items (sort_one item sorted)

  abbrev pub slot : Result QueryFailure String → QueryBatchResult
  slot (failure error) = failure_slot error
  slot (success text) = result_slot text

  -- One slot for each valid argument, in order.
  unfoldable pub set_each :
      (Arg → QueryBatchResult)
      → List (ℕ × Arg)
      → List (ℕ × QueryBatchResult)
      → List (ℕ × QueryBatchResult)
  set_each value [] results = results
  set_each value ((index, arg) ∷ valid) results =
      set_each value valid ((index, value arg) ∷ results)

  -- One error for every valid argument, or each its own result.
  abbrev pub resolved_slot : Result E (Arg → Result E Out) → Arg → QueryBatchResult
  resolved_slot (failure error) arg = failure_slot (failed error)
  resolved_slot (success resolve_one) arg = slot (encoded (resolve_one arg))

  abbrev pub values : List (ℕ × Arg) → List Arg
  values [] = []
  values ((index, arg) ∷ valid) = arg ∷ values valid

  module _ (resolve_args : List Arg → Result E (Arg → Result E Out)) where
    abbrev pub resolve_valid :
        List (ℕ × QueryBatchResult) × List (ℕ × Arg) → List (ℕ × QueryBatchResult)
    resolve_valid (results, []) = results
    resolve_valid (results, item ∷ valid) =
        set_each (resolved_slot (resolve_args (values (item ∷ valid)))) (item ∷ valid) results

    abbrev pub omitted : QueryBatchResult
    omitted = failure_slot (query_failed contract.name "batch resolver omitted an argument")

    unfoldable pub run_batch : List String → List QueryBatchResult
    run_batch args =
        let results =
          resolve_valid
            (sort_all (map_from 0 (λ value index. (index, decode value)) args) ([], [])) in
        map_from 0 (λ value index. get_or omitted (written index results)) args

    pub implement_batched_query : Implementation
    implement_batched_query = record { contract = contract; mode = batched run_batch }
