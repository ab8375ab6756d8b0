-- ===== src/Serving/Batch.antt =====
-- `runBatch` of query-host.ts answers each argument as if it were alone, beside the valid ones.
use effect_frame.Base.{
  ℕ, suc, Bool, true, ◌||◌, some, List, [], ◌∷◌, ◌++◌, map, String, ◌≡◌, refl, sym, ap, ◌∙◌,
  get_elem?, map_from, All, All-append, arith,
}
use effect_frame.Vocabulary.{Result, failure, success}
use effect_frame.Serving.{
  QueryBatchResult, failure_slot, QueryContract, written, get_or, invalid, sort_one, sort_all,
  set_each, resolved_slot, values, resolve_valid, omitted, run_batch,
}
use effect_frame.Serving.Writes.{has, has-append, All-indexed, has-indexed, IsRight, read-IsRight}

or_comm : (a b : Bool) → (a || b) ≡ (b || a)
or_comm a b = ground arith

module _ {Arg Out E : Type 0} (contract : QueryContract) (decode : String → Result String Arg)
    (encode : Out → String) (show : E → String) where
  -- The arguments that decode, in order: what the author's resolver gets.
  abbrev valid_one : Result String Arg → List Arg → List Arg
  valid_one (failure message) rest = rest
  valid_one (success arg) rest = arg ∷ rest

  unfoldable pub valid_args : List String → List Arg
  valid_args [] = []
  valid_args (value ∷ rest) = valid_one (decode value) (valid_args rest)

  -- The answer of one argument: its own decoding, then the resolver's one for it.
  abbrev pub one_of : (Arg → QueryBatchResult) → Result String Arg → QueryBatchResult
  one_of value (failure message) = failure_slot (invalid contract decode encode show message)
  one_of value (success arg) = value arg

  module _ (value : Arg → QueryBatchResult) (args : List String) where
    abbrev answer : String → QueryBatchResult
    answer text = one_of value (decode text)

    abbrev IsPlaced : ℕ × Result String Arg → Type 0
    IsPlaced (i, r) = (x : String) × (get_elem? args i ≡ some x) × (decode x ≡ r)

    abbrev IsValid : ℕ × Arg → Type 0
    IsValid (i, arg) = IsPlaced (i, success arg)

    abbrev AreRight : List (ℕ × QueryBatchResult) × List (ℕ × Arg) → Type 0
    AreRight (results, valid) = All (IsRight args answer) results × All IsValid valid

    sort_one-AreRight :
        (item : ℕ × Result String Arg) (s : List (ℕ × QueryBatchResult) × List (ℕ × Arg))
        → IsPlaced item
        → AreRight s
        → AreRight (sort_one contract decode encode show item s)
    sort_one-AreRight (i, failure message) (results, valid) (x, at, e) h =
        (((x, at, sym (ap (one_of value) e)), h.0), h.1)
    sort_one-AreRight (i, success arg) (results, valid) p h =
        (h.0, All-append IsValid valid ((i, arg) ∷ []) h.1 (p, tt))

    sort_all-AreRight :
        (items : List (ℕ × Result String Arg)) (s : List (ℕ × QueryBatchResult) × List (ℕ × Arg))
        → All IsPlaced items
        → AreRight s
        → AreRight (sort_all contract decode encode show items s)
    unfolding sort_all
    sort_all-AreRight [] s p h = h
    sort_all-AreRight (item ∷ items) s p h =
        sort_all-AreRight items _ p.1 (sort_one-AreRight item s p.0 h)

    set_each-IsRight :
        (valid : List (ℕ × Arg)) (results : List (ℕ × QueryBatchResult))
        → AreRight (results, valid)
        → All (IsRight args answer) (set_each contract decode encode show value valid results)
    unfolding set_each
    set_each-IsRight [] results h = h.0
    set_each-IsRight ((i, arg) ∷ valid) results h =
        let (x, at, e) = h.1.0 in
        set_each-IsRight valid ((i, value arg) ∷ results)
          (((x, at, sym (ap (one_of value) e)), h.0), h.1.1)

    has-set_each :
        (i : ℕ) (valid : List (ℕ × Arg)) (results : List (ℕ × QueryBatchResult))
        → has i (set_each contract decode encode show value valid results)
          ≡ (has i valid || has i results)
    unfolding set_each has
    has-set_each i [] results = refl
    has-set_each i ((j, arg) ∷ valid) results =
        let rest = has-set_each i valid ((j, value arg) ∷ results) in ground (arith, rest)

  -- No argument is lost between the slots and the valid ones.
  abbrev holds : ℕ → List (ℕ × QueryBatchResult) × List (ℕ × Arg) → Bool
  holds i (results, valid) = has i results || has i valid

  holds-sort_one :
      (i j : ℕ) (r : Result String Arg) (s : List (ℕ × QueryBatchResult) × List (ℕ × Arg))
      → (has i ((j, r) ∷ []) || holds i s) ≡ holds i (sort_one contract decode encode show (j, r) s)
  unfolding has
  holds-sort_one i j (failure message) (results, valid) = ground arith
  holds-sort_one i j (success arg) (results, valid) =
      let more = has-append i valid ((j, arg) ∷ []) in ground (arith, more)

  holds-sort_all :
      (i : ℕ) (items : List (ℕ × Result String Arg))
      (s : List (ℕ × QueryBatchResult) × List (ℕ × Arg))
      → (has i items || holds i s) ≡ holds i (sort_all contract decode encode show items s)
  unfolding sort_all has
  holds-sort_all i [] s = refl
  holds-sort_all i ((j, r) ∷ items) s =
      let rest = holds-sort_all i items (sort_one contract decode encode show (j, r) s) in
      let first = holds-sort_one i j r s in ground (arith, first, rest)

  values-append :
      (xs : List (ℕ × Arg)) (i : ℕ) (arg : Arg)
      → values contract decode encode show (xs ++ (i, arg) ∷ [])
        ≡ values contract decode encode show xs ++ arg ∷ []
  values-append [] i arg = refl
  values-append ((j, x) ∷ xs) i arg = ap (λ l. x ∷ l) (values-append xs i arg)

  append_assoc : (xs : List Arg) (y : Arg) (ys : List Arg) → (xs ++ y ∷ []) ++ ys ≡ xs ++ y ∷ ys
  append_assoc [] y ys = refl
  append_assoc (x ∷ xs) y ys = ap (λ l. x ∷ l) (append_assoc xs y ys)

  append_nil : (xs : List Arg) → xs ≡ xs ++ []
  append_nil [] = refl
  append_nil (x ∷ xs) = ap (λ l. x ∷ l) (append_nil xs)

  values-sort_one :
      (k : ℕ) (r : Result String Arg) (rest : List Arg)
      (s : List (ℕ × QueryBatchResult) × List (ℕ × Arg))
      → values contract decode encode show (sort_one contract decode encode show (k, r) s).1 ++ rest
        ≡ values contract decode encode show s.1 ++ valid_one r rest
  values-sort_one k (failure message) rest (results, valid) = refl
  values-sort_one k (success arg) rest (results, valid) =
      ap (λ l. l ++ rest) (values-append valid k arg) ∙ append_assoc _ arg rest

  values-sort_all :
      (k : ℕ) (args : List String) (s : List (ℕ × QueryBatchResult) × List (ℕ × Arg))
      → values contract decode encode show
          (sort_all contract decode encode show
            (map_from k (λ value i. (i, decode value)) args)
            s).1
        ≡ values contract decode encode show s.1 ++ valid_args args
  unfolding sort_all map_from valid_args
  values-sort_all k [] s = append_nil _
  values-sort_all k (text ∷ args) s =
      values-sort_all (suc k) args (sort_one contract decode encode show (k, decode text) s)
      ∙ values-sort_one k (decode text) (valid_args args) s

  module _ (resolve_args : List Arg → Result E (Arg → Result E Out)) where
    -- The resolver's answer for one of its arguments, given all of them.
    abbrev pub beside : List Arg → Arg → QueryBatchResult
    beside together = resolved_slot contract decode encode show (resolve_args together)

    resolve_valid_lem :
        (s : List (ℕ × QueryBatchResult) × List (ℕ × Arg))
        → resolve_valid contract decode encode show resolve_args s
          ≡ set_each contract decode encode show
              (beside (values contract decode encode show s.1))
              s.1
              s.0
    unfolding set_each
    resolve_valid_lem (results, []) = refl
    resolve_valid_lem (results, item ∷ valid) = refl

    module _ (args : List String) where
      abbrev sorted : List (ℕ × QueryBatchResult) × List (ℕ × Arg)
      sorted =
          sort_all contract decode encode show (map_from 0 (λ value i. (i, decode value)) args)
            ([], [])

      abbrev value : Arg → QueryBatchResult
      value = beside (valid_args args)

      abbrev writes : List (ℕ × QueryBatchResult)
      writes = set_each contract decode encode show value sorted.1 sorted.0

      resolve_valid-sorted : resolve_valid contract decode encode show resolve_args sorted ≡ writes
      resolve_valid-sorted =
          resolve_valid_lem sorted
          ∙ ap (λ l. set_each contract decode encode show (beside l) sorted.1 sorted.0)
              (values-sort_all 0 args ([], []))

      writes-IsRight : All (IsRight args (answer value args)) writes
      writes-IsRight = set_each-IsRight value args sorted.1 sorted.0 (
          sort_all-AreRight value args _ ([], [])
            (All-indexed (IsPlaced value args) decode args (λ i text e. (text, e, refl))) (tt, tt))

      has-writes : (i : ℕ) (text : String) → get_elem? args i ≡ some text → has i writes ≡ true
      has-writes i text e =
          let indexed = has-indexed decode i args text e in
          let kept = holds-sort_all i (map_from 0 (λ value i. (i, decode value)) args) ([], []) in
          let total = has-set_each value args i sorted.1 sorted.0 in
          total
          ∙ or_comm (has i sorted.1) (has i sorted.0)
          ∙ sym kept
          ∙ ap (λ b. b || holds i ([], [])) indexed

    -- The slots of a batched implementation are, in order, the answers of the arguments: of one that does
    -- not decode, `InvalidQueryArgs`; of any other, what the author's resolver, called once with all that
    -- decode, makes of this one, or its error.
    pub run_batch_lem :
        (args : List String)
        → run_batch contract decode encode show resolve_args args
          ≡ map (λ text. one_of (beside (valid_args args)) (decode text)) args
    unfolding run_batch
    run_batch_lem args =
        ap
          (λ results.
            map_from 0
              (λ text i.
                get_or (omitted contract decode encode show resolve_args) (written i results))
              args)
          (resolve_valid-sorted args)
        ∙ read-IsRight args (answer (value args) args)
            (λ text. omitted contract decode encode show resolve_args) (writes args)
            (writes-IsRight args) (has-writes args)
