-- ===== src/Serving/Writes.antt =====
-- The results map of a request in query-host.ts: when every write stands for its own place and every place
-- is written, reading the map in order is the pointwise answer.
use effect_frame.Base.{
  ℕ, zero, suc, ◌+◌, Bool, true, false, ◌||◌, some, List, [], ◌∷◌, ◌++◌, map, ◌≡◌, refl, sym, ap,
  ◌∙◌, subst, eqb, eqb_iff, get_elem?, map_from, All, Bool-cases, inl, inr, arith, eq_of_some,
}
use effect_frame.Serving.{written, get_or}

module _ {V : Type 0} where
  -- Whether a place is among the indexed items.
  unfoldable pub has : ℕ → List (ℕ × V) → Bool
  has i [] = false
  has i ((j, v) ∷ items) = eqb i j || has i items

  pub has-append : (i : ℕ) (xs ys : List (ℕ × V)) → has i (xs ++ ys) ≡ (has i xs || has i ys)
  unfolding has
  has-append i [] ys = refl
  has-append i ((j, v) ∷ xs) ys = ground (arith, has-append i xs ys)

here : (k : ℕ) → k + 0 ≡ k
here k = omega arith

start : (i : ℕ) → i ≡ 0 + i
start i = omega arith

next : (k i : ℕ) → k + suc i ≡ suc k + i
next k i = omega arith

module _ {A : Type 0} where
  All-map_from :
      {B : Type 0} (Q : B → Type 0) (f : A → ℕ → B) (k : ℕ) (xs : List A)
      → ((i : ℕ) (x : A) → get_elem? xs i ≡ some x → Q (f x (k + i)))
      → All Q (map_from k f xs)
  unfolding map_from
  All-map_from Q f k [] h = tt
  All-map_from Q f k (x ∷ xs) h = (
    subst (λ n. Q (f x n)) (here k) (h 0 x refl),
    All-map_from Q f (suc k) xs (λ i y e. subst (λ n. Q (f y n)) (next k i) (h (suc i) y e)),
  )

  map_from-shown :
      {B : Type 0} (F : A → ℕ → B) (g : A → B) (k : ℕ) (xs : List A)
      → ((i : ℕ) (x : A) → get_elem? xs i ≡ some x → F x (k + i) ≡ g x)
      → map_from k F xs ≡ map g xs
  unfolding map_from
  map_from-shown F g k [] h = refl
  map_from-shown F g k (x ∷ xs) h =
      let first = subst (λ n. F x n ≡ g x) (here k) (h 0 x refl) in
      let rest =
        map_from-shown F g (suc k) xs
          (λ i y e. subst (λ n. F y n ≡ g y) (next k i) (h (suc i) y e)) in
      cc (first, rest)

  module _ {V : Type 0} where
    has-map_from :
        (h : A → V) (n k i : ℕ) (xs : List A) (x : A)
        → n ≡ k + i
        → get_elem? xs i ≡ some x
        → has n (map_from k (λ y m. (m, h y)) xs) ≡ true
    unfolding map_from has
    has-map_from h n k i [] x e f = cc
    has-map_from h n k zero (y ∷ xs) x e f = ground arith
    has-map_from h n k (suc i) (y ∷ xs) x e f =
        let rest = has-map_from h n (suc k) i xs x (omega (arith, e)) f in ground (arith, rest)

    -- Every place is among the indexed items of a list.
    pub has-indexed :
        (h : A → V) (i : ℕ) (xs : List A) (x : A)
        → get_elem? xs i ≡ some x
        → has i (map_from 0 (λ y m. (m, h y)) xs) ≡ true
    has-indexed h i xs x f = has-map_from h i 0 i xs x (omega arith) f

    pub All-indexed :
        (Q : ℕ × V → Type 0) (h : A → V) (xs : List A)
        → ((i : ℕ) (x : A) → get_elem? xs i ≡ some x → Q (i, h x))
        → All Q (map_from 0 (λ x i. (i, h x)) xs)
    All-indexed Q h xs f =
        All-map_from Q (λ x i. (i, h x)) 0 xs (λ i x e. subst (λ n. Q (n, h x)) (start i) (f i x e))

    module _ (xs : List A) (g : A → V) where
      -- A write that carries the answer of its place.
      abbrev pub IsRight : ℕ × V → Type 0
      IsRight (i, v) = (x : A) × (get_elem? xs i ≡ some x) × (v ≡ g x)

      written-IsRight :
          (i : ℕ) (x : A) (W : List (ℕ × V)) (d : V)
          → All IsRight W
          → get_elem? xs i ≡ some x
          → has i W ≡ true
          → get_or d (written i W) ≡ g x
      unfolding written has
      written-IsRight i x [] d rights e h = cc
      written-IsRight i x ((j, v) ∷ W) d rights e h = elim (Bool-cases (eqb i j)) [
        | inl same ↦
            let place = (eqb_iff i j).0 same in
            let found = subst (λ n. get_elem? xs n ≡ some x) place e in
            let one = eq_of_some _ _ (sym rights.0.1 ∙ found) in rw same (rights.0.2 ∙ ap g one)
        | inr other ↦
            let rest = written-IsRight i x W d rights.1 e in
            rw other (rest (ap (λ b. b || has i W) (sym other) ∙ h))
      ]

      pub read-IsRight :
          (d : A → V) (W : List (ℕ × V))
          → All IsRight W
          → ((i : ℕ) (x : A) → get_elem? xs i ≡ some x → has i W ≡ true)
          → map_from 0 (λ x i. get_or (d x) (written i W)) xs ≡ map g xs
      read-IsRight d W rights covers =
          map_from-shown (λ x i. get_or (d x) (written i W)) g 0 xs
            (λ i x e.
              subst (λ n. get_or (d x) (written n W) ≡ g x) (start i)
                (written-IsRight i x W (d x) rights e (covers i x e)))
