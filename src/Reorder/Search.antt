-- ===== src/Reorder/Search.antt =====
-- The binary search of `inPlace` in view/runtime.ts: the first run whose last position is not below a value.
use Prim.Native.Nat.{◌/◌}
use effect_frame.Base.{
  ℕ, zero, suc, ◌+◌, ◌≤◌, ◌<◌, List, ◌≡◌, sym, subst, length, ltb, ltb→lt, arith, Bool-cases, inl,
  inr,
}
use effect_frame.Reorder.{last_position, search, place}

module _ (positions tails : List ℕ) where
  abbrev pub last : ℕ → ℕ
  last k = last_position positions tails k

  -- Longer runs end later.
  abbrev pub IsSorted : Type 0
  IsSorted = (j k : ℕ) → j < k → k < length tails → last j < last k

  -- The runs below an index end below the value, and the others do not.
  abbrev pub Splits : ℕ → ℕ → Type 0
  Splits value r =
      (r ≤ length tails)
      × ((j : ℕ) → j < r → last j < value)
      × ((j : ℕ) → r ≤ j → j < length tails → value ≤ last j)

  module _ (value : ℕ) (sorted : IsSorted) where
    up_to : (m : ℕ) → m < length tails → last m < value → (j : ℕ) → j < m + 1 → last j < value
    up_to m within h j below = elim (Bool-cases (ltb j m)) [
      | inl less ↦ let one = sorted j m (ltb→lt j m less) within in omega (arith, one, h)
      | inr more ↦ let same : j ≡ m = ground arith in subst (λ k. last k < value) (sym same) h
    ]

    from : (m : ℕ) → value ≤ last m → (j : ℕ) → m ≤ j → j < length tails → value ≤ last j
    from m h j above within = elim (Bool-cases (ltb m j)) [
      | inl less ↦ let one = sorted m j (ltb→lt m j less) within in omega (arith, one, h)
      | inr more ↦ let same : m ≡ j = ground arith in subst (λ k. value ≤ last k) same h
    ]

    search-Splits :
        (fuel low high : ℕ)
        → high ≤ low + fuel
        → low ≤ high
        → high ≤ length tails
        → ((j : ℕ) → j < low → last j < value)
        → ((j : ℕ) → high ≤ j → j < length tails → value ≤ last j)
        → Splits value (search positions tails value fuel low high)
    unfolding search
    search-Splits zero low high enough order within below above =
        (omega arith, below, λ j h. above j (omega arith))
    search-Splits (suc fuel) low high enough order within below above =
        elim (Bool-cases (ltb low high)) [
          | inl some_left ↦
              let less = ltb→lt low high some_left in
              elim (Bool-cases (ltb (last ((low + high) / 2)) value)) [
                | inl up ↦
                    rw (some_left, up)
                      (search-Splits fuel ((low + high) / 2 + 1) high (omega arith) (omega arith)
                        within (up_to ((low + high) / 2) (omega arith) (ltb→lt _ _ up)) above)
                | inr down ↦
                    rw (some_left, down)
                      (search-Splits fuel low ((low + high) / 2) (omega arith) (omega arith)
                        (omega arith) below (from ((low + high) / 2) (ground arith)))
              ]
          | inr done ↦ rw done (omega arith, below, λ j h. above j (ground arith))
        ]

    pub place-Splits : Splits value (place positions tails value)
    place-Splits =
        search-Splits (length tails) 0 (length tails) (omega arith) (omega arith) (omega arith)
          (λ j h. absurd (omega arith)) (λ j h k. absurd (omega arith))
