-- ===== src/Reorder/Longest.antt =====
-- Patience sorting in view/runtime.ts finds the longest increasing runs: one more position keeps the state best.
use effect_frame.Base.{
  ℕ, zero, suc, ◌+◌, ◌≤◌, ◌<◌, Option, some, List, [], ◌∷◌, ◌++◌, ◌≡◌, ◌≢◌, ◌⊎◌, sym, ap, ◌∙◌,
  subst, length, length-append, get_elem?, ltb, ltb→lt, eqb, eqb_iff, arith, Bool-cases, inl, inr,
}
use effect_frame.Reorder.{or_zero, Runs, set_at, before, position, extend}
use effect_frame.Reorder.Search.{last, IsSorted, Splits}
use effect_frame.Reorder.Tails.{
  pos, IsRun, IsRise, IsBest, append-IsRun, length-set_at-le, length-set_at-cases, get-set_at_same,
  get-set_at_other, get-inside, get-last,
}

same_or_not : (k i : ℕ) → (k ≡ i) ⊎ (k ≢ i)
same_or_not k i = elim (Bool-cases (eqb k i)) [
  | inl e ↦ inl ((eqb_iff k i).0 e)
  | inr e ↦ inr (λ h. cc (e, (eqb_iff k i).1 h))
]

module _ (positions : List ℕ) (m low : ℕ) (runs : Runs) (h : IsBest positions m runs)
    (splits : Splits positions runs.tails (position positions m) low) where
  abbrev tails : List ℕ
  tails = set_at low m runs.tails

  tail_here : get_elem? tails low ≡ some m
  tail_here = get-set_at_same low m runs.tails splits.0

  tail_other : (k : ℕ) → k ≢ low → get_elem? tails k ≡ get_elem? runs.tails k
  tail_other k differ = get-set_at_other low m k runs.tails splits.0 differ

  last_here : last positions tails low ≡ position positions m
  last_here = ap (λ o. position positions (or_zero o)) tail_here

  last_other : (k : ℕ) → k ≢ low → last positions tails k ≡ last positions runs.tails k
  last_other k differ = ap (λ o. position positions (or_zero o)) (tail_other k differ)

  longer : (length runs.tails ≤ length tails) × (low < length tails)
  longer = length-set_at-le low m runs.tails splits.0

  inside : (k : ℕ) → k < length tails → k ≢ low → k < length runs.tails
  inside k within differ = length-set_at-cases low m k runs.tails splits.0 within differ

  sorted_after : IsSorted positions tails
  sorted_after j k less within = elim (same_or_not k low) [
    | inl e ↦
        let differ : j ≢ low = λ d. absurd (omega (arith, d, e, less)) in
        let under = splits.1 j (omega arith) in
        let a = last_other j differ in
        let b : last positions tails k ≡ position positions m =
          ap (last positions tails) e ∙ last_here in
        omega (arith, under, a, b)
    | inr differ ↦
        let known = inside k within differ in
        let b = last_other k differ in
        elim (same_or_not j low) [
          | inl e ↦
              let over = splits.2 low (omega arith) (omega arith) in
              let old = h.sorted low k (omega arith) known in
              let a : last positions tails j ≡ position positions m =
                ap (last positions tails) e ∙ last_here in
              omega (arith, a, b, over, old)
          | inr other ↦
              let a = last_other j other in
              let old = h.sorted j k less known in omega (arith, a, b, old)
        ]
  ]

  -- The run of a length ends no later than the new position, if it is that one's or ends below it.
  ends_by : (n : ℕ) → n ≤ low → last positions tails n ≤ pos positions m
  ends_by n at = elim (same_or_not n low) [
    | inl e ↦
        let a : last positions tails n ≡ position positions m =
          ap (last positions tails) e ∙ last_here in
        omega (arith, a)
    | inr differ ↦
        let a = last_other n differ in
        let under = splits.1 n (omega (arith, at, differ)) in omega (arith, a, under)
  ]

  best_new :
      (n : ℕ)
      → IsRise positions (suc n) m
      → (n < length tails) × (last positions tails n ≤ pos positions m)
  best_new zero rise = (omega (arith, longer.1), ends_by zero (omega arith))
  best_new (suc n) (j, less, below, rise) =
      let (known, by) = h.best n j less rise in
      elim (Bool-cases (ltb n low)) [
        | inl under ↦
            let lower = ltb→lt n low under in
            (omega (arith, longer.1, lower), ends_by (suc n) (omega (arith, lower)))
        | inr over ↦
            let high = splits.2 n (ground (arith, over)) known in
            absurd (omega (arith, high, by, below))
      ]

  best_old :
      (n i : ℕ)
      → i < m
      → IsRise positions (suc n) i
      → (n < length tails) × (last positions tails n ≤ pos positions i)
  best_old n i below rise =
      let (known, by) = h.best n i below rise in
      (
        omega (arith, known, longer.0),
        elim (same_or_not n low) [
          | inl e ↦
              let a : last positions tails n ≡ position positions m =
                ap (last positions tails) e ∙ last_here in
              let over = splits.2 n (omega (arith, e)) known in omega (arith, a, over, by)
          | inr differ ↦ let a = last_other n differ in omega (arith, a, by)
        ],
      )

  best_after :
      (n i : ℕ)
      → i < m + 1
      → IsRise positions (suc n) i
      → (n < length tails) × (last positions tails n ≤ pos positions i)
  best_after n i below rise = elim (same_or_not i m) [
    | inl e ↦
        subst (λ t. (n < length tails) × (last positions tails n ≤ pos positions t)) (sym e)
          (best_new n (subst (IsRise positions (suc n)) e rise))
    | inr differ ↦ best_old n i (omega (arith, below, differ)) rise
  ]

  previous : List (Option ℕ)
  previous = runs.previous ++ before low runs.tails ∷ []

  linked : get_elem? previous m ≡ some (before low runs.tails)
  unfolding previous
  linked = get-last runs.previous (before low runs.tails) m h.counted

  counted_after : length previous ≡ m + 1
  unfolding previous
  counted_after = omega (arith, length-append runs.previous (before low runs.tails ∷ []), h.counted)

  IsRun-here : (l : ℕ) → low ≡ l → IsRun positions previous (suc l) m
  unfolding previous
  IsRun-here zero e = linked ∙ ap (λ t. some (before t runs.tails)) e
  IsRun-here (suc l) e =
      let within : l < length runs.tails = omega (arith, splits.0, e) in
      let under = splits.1 l (omega (arith, e)) in
      let (less, rest) = h.ended l within in
      (
        or_zero (get_elem? runs.tails l),
        linked
            ∙ ap (λ t. some (before t runs.tails)) e
            ∙ ap (λ o. some o) (get-inside l runs.tails within),
        less,
        under,
        append-IsRun positions runs.previous (before low runs.tails ∷ []) (suc l) _ rest,
      )

  ended_after :
      (k : ℕ)
      → k < length tails
      → (or_zero (get_elem? tails k) < m + 1)
        × IsRun positions previous (suc k) (or_zero (get_elem? tails k))
  unfolding previous
  ended_after k within = elim (same_or_not k low) [
    | inl e ↦
        let here : m ≡ or_zero (get_elem? tails k) =
          sym (ap (λ t. or_zero (get_elem? tails t)) e ∙ ap or_zero tail_here) in
        subst (λ t. (t < m + 1) × IsRun positions previous (suc k) t) here
          (omega arith, IsRun-here k (sym e))
    | inr differ ↦
        let there : or_zero (get_elem? runs.tails k) ≡ or_zero (get_elem? tails k) =
          sym (ap or_zero (tail_other k differ)) in
        let (less, rest) = h.ended k (inside k within differ) in
        subst (λ t. (t < m + 1) × IsRun positions previous (suc k) t) there
          (
            omega (arith, less),
            append-IsRun positions runs.previous (before low runs.tails ∷ []) (suc k) _ rest,
          )
  ]

  pub extend-IsBest : IsBest positions (m + 1) (extend positions m low runs)
  unfolding previous
  extend-IsBest = record {
    counted = counted_after;
    sorted = sorted_after;
    ended = ended_after;
    best = best_after;
  }
