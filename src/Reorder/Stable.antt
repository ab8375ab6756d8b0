-- ===== src/Reorder/Stable.antt =====
-- What `inPlace` of view/runtime.ts leaves in place is a longest run that need not move.
use effect_frame.Base.{
  ℕ, zero, suc, ◌+◌, ◌≤◌, ◌<◌, Option, none, some, List, [], ◌∷◌, ◌≡◌, sym, refl, ap, ◌∙◌, subst,
  length, get_elem?, arith,
}
use effect_frame.Reorder.{
  or_zero, Runs, no_runs, position, place, extend, patience, last_of, or_stop, step_back, walk,
  stable_indices,
}
use effect_frame.Reorder.Search.{Splits, place-Splits}
use effect_frame.Reorder.Tails.{pos, IsRun, IsRise, IsBest}
use effect_frame.Reorder.Longest.{extend-IsBest}

module _ (positions : List ℕ) where
  no_runs-IsBest : IsBest positions 0 no_runs
  no_runs-IsBest = record {
    counted = refl;
    sorted = λ j k less within. absurd (omega arith);
    ended = λ k within. absurd (omega arith);
    best = λ n i below rise. absurd (omega arith);
  }

  patience-IsBest :
      (index : ℕ) (rest : List ℕ) (runs : Runs)
      → ((k : ℕ) → get_elem? rest k ≡ get_elem? positions (index + k))
      → IsBest positions index runs
      → IsBest positions (index + length rest) (patience positions index rest runs)
  unfolding patience
  patience-IsBest index [] runs same h =
      let e : index ≡ index + 0 = omega arith in subst (λ m. IsBest positions m runs) e h
  patience-IsBest index (value ∷ rest) runs same h =
      let at : index ≡ index + 0 = omega arith in
      let value_at : value ≡ position positions index =
        ap or_zero (same 0) ∙ ap (λ t. position positions t) (sym at) in
      let splits =
        subst (λ v. Splits positions runs.tails v (place positions runs.tails value)) value_at
          (place-Splits positions runs.tails value h.sorted) in
      let next : index + 1 ≡ suc index = omega arith in
      let more =
        subst
          (λ t. IsBest positions t (extend positions index (place positions runs.tails value) runs))
          next (extend-IsBest positions index (place positions runs.tails value) runs h splits) in
      let end : suc index + length rest ≡ index + length (value ∷ rest) = omega arith in
      subst
        (λ t. IsBest positions t (
          patience positions (suc index) rest
            (extend positions index (place positions runs.tails value) runs)))
        end
        (patience-IsBest (suc index) rest _
          (λ k.
            same (suc k)
            ∙ ap (get_elem? positions) (let e : index + suc k ≡ suc index + k = omega arith in e))
          more)

  -- Indices in a fall: each, and its position, is below the one before.
  abbrev pub FallsFrom : ℕ → List ℕ → Type 0
  FallsFrom i [] = Unit
  FallsFrom i (j ∷ rest) = (j < i) × (pos positions j < pos positions i) × FallsFrom j rest

  abbrev pub IsFall : List ℕ → Type 0
  IsFall [] = Unit
  IsFall (i ∷ rest) = (i < length positions) × FallsFrom i rest

  walk-FallsFrom :
      (previous : List (Option ℕ)) (n fuel i j : ℕ)
      → IsRun positions previous (suc n) j
      → j < i
      → pos positions j < pos positions i
      → j < fuel
      → FallsFrom i (walk previous fuel (some j)) × (length (walk previous fuel (some j)) ≡ suc n)
  unfolding walk
  walk-FallsFrom previous n zero i j run less below enough = absurd (omega arith)
  walk-FallsFrom previous zero (suc fuel) i j run less below enough =
      let stop : step_back previous j ≡ none = ap or_stop run in rw stop ((less, below, tt), refl)
  walk-FallsFrom previous (suc n) (suc fuel) i j (k, link, less_k, below_k, run) less below enough =
      let step : step_back previous j ≡ some k = ap or_stop link in
      let (falls, count) = walk-FallsFrom previous n fuel j k run less_k below_k (omega arith) in
      rw step ((less, below, falls), ap suc count)

  walk-IsFall :
      (previous : List (Option ℕ)) (n fuel j : ℕ)
      → IsRun positions previous (suc n) j
      → j < length positions
      → j < fuel
      → IsFall (walk previous fuel (some j)) × (length (walk previous fuel (some j)) ≡ suc n)
  unfolding walk
  walk-IsFall previous n zero j run within enough = absurd (omega arith)
  walk-IsFall previous zero (suc fuel) j run within enough =
      let stop : step_back previous j ≡ none = ap or_stop run in rw stop ((within, tt), refl)
  walk-IsFall previous (suc n) (suc fuel) j (k, link, less_k, below_k, run) within enough =
      let step : step_back previous j ≡ some k = ap or_stop link in
      let (falls, count) = walk-FallsFrom previous n fuel j k run less_k below_k (omega arith) in
      rw step ((within, falls), ap suc count)

  -- A fall is a rise, read from its other end.
  IsRise-of : (i : ℕ) (rest : List ℕ) → FallsFrom i rest → IsRise positions (suc (length rest)) i
  IsRise-of i [] h = tt
  IsRise-of i (j ∷ rest) (less, below, falls) = (j, less, below, IsRise-of j rest falls)

last_of-none : (xs : List ℕ) → length xs ≡ 0 → last_of xs ≡ none
last_of-none [] h = refl
last_of-none (x ∷ xs) h = absurd (omega arith)

last_of-get :
    (xs : List ℕ) (n : ℕ) → length xs ≡ suc n → last_of xs ≡ some (or_zero (get_elem? xs n))
last_of-get [] n h = absurd (omega arith)
last_of-get (x ∷ []) zero h = refl
last_of-get (x ∷ []) (suc n) h = absurd (omega arith)
last_of-get (x ∷ y ∷ xs) zero h = absurd (omega arith)
last_of-get (x ∷ y ∷ xs) (suc n) h = last_of-get (y ∷ xs) n (omega arith)

module _ (positions : List ℕ) where
  abbrev runs : Runs
  runs = patience positions 0 positions no_runs

  runs-IsBest : IsBest positions (length positions) runs
  runs-IsBest =
      let start : (k : ℕ) → get_elem? positions k ≡ get_elem? positions (0 + k) =
        λ k. ap (get_elem? positions) (let e : k ≡ 0 + k = omega arith in e) in
      let all : 0 + length positions ≡ length positions = omega arith in
      subst (λ m. IsBest positions m runs) all
        (patience-IsBest positions 0 positions no_runs start (no_runs-IsBest positions))

  walked :
      (n : ℕ)
      → length runs.tails ≡ n
      → IsFall positions (stable_indices positions) × (length (stable_indices positions) ≡ n)
  unfolding stable_indices walk
  walked zero e = rw (last_of-none runs.tails e) (tt, refl)
  walked (suc n) e =
      let (within, run) = runs-IsBest.ended n (omega (arith, e)) in
      rw (last_of-get runs.tails n e)
        (walk-IsFall positions runs.previous n (length positions) _ run within within)

  -- The indices that stay in place, read from the last back, are a fall of indices and of positions: their
  -- keys already follow each other as wanted. Any other such fall has at most as many.
  pub stable_indices_longest :
      (others : List ℕ)
      → IsFall positions others
      → IsFall positions (stable_indices positions)
        × (length others ≤ length (stable_indices positions))
  stable_indices_longest [] h =
      let (falls, count) = walked (length runs.tails) refl in (falls, omega arith)
  stable_indices_longest (i ∷ rest) (within, falls_i) =
      let (falls, count) = walked (length runs.tails) refl in
      let (known, by) =
        runs-IsBest.best (length rest) i within (IsRise-of positions i rest falls_i) in
      (falls, omega (arith, count, known))
