-- ===== src/Reorder/Tails.antt =====
-- The state of patience sorting in view/runtime.ts: `tails` ends the best run of every length, and `previous`
-- links each of them back.
use effect_frame.Base.{
  ℕ, zero, suc, ◌≤◌, ◌<◌, Option, none, some, List, [], ◌∷◌, ◌++◌, ◌≡◌, ◌≢◌, refl, ap, length,
  get_elem?, arith,
}
use effect_frame.Reorder.{or_zero, Runs, set_at, position}
use effect_frame.Reorder.Search.{last, IsSorted}

-- An array written at an index.
pub length-set_at-le :
    (i x : ℕ) (xs : List ℕ)
    → i ≤ length xs
    → (length xs ≤ length (set_at i x xs)) × (i < length (set_at i x xs))
unfolding set_at
length-set_at-le zero x [] h = (omega arith, omega arith)
length-set_at-le (suc i) x [] h = absurd (omega arith)
length-set_at-le zero x (y ∷ xs) h = (omega arith, omega arith)
length-set_at-le (suc i) x (y ∷ xs) h =
    let rest = length-set_at-le i x xs (omega arith) in
    (omega (arith, rest.0), omega (arith, rest.1))

pub length-set_at-cases :
    (i x k : ℕ) (xs : List ℕ) → i ≤ length xs → k < length (set_at i x xs) → k ≢ i → k < length xs
unfolding set_at
length-set_at-cases zero x k [] h l d = absurd (d (omega arith))
length-set_at-cases (suc i) x k [] h l d = absurd (omega arith)
length-set_at-cases zero x k (y ∷ xs) h l d = omega arith
length-set_at-cases (suc i) x zero (y ∷ xs) h l d = omega arith
length-set_at-cases (suc i) x (suc k) (y ∷ xs) h l d =
    let rest = length-set_at-cases i x k xs (omega arith) (omega arith) (λ e. d (ap suc e)) in
    omega (arith, rest)

pub get-set_at_same : (i x : ℕ) (xs : List ℕ) → i ≤ length xs → get_elem? (set_at i x xs) i ≡ some x
unfolding set_at
get-set_at_same zero x [] h = refl
get-set_at_same (suc i) x [] h = absurd (omega arith)
get-set_at_same zero x (y ∷ xs) h = refl
get-set_at_same (suc i) x (y ∷ xs) h = get-set_at_same i x xs (omega arith)

pub get-set_at_other :
    (i x k : ℕ) (xs : List ℕ) → i ≤ length xs → k ≢ i → get_elem? (set_at i x xs) k ≡ get_elem? xs k
unfolding set_at
get-set_at_other zero x zero [] h d = absurd (d refl)
get-set_at_other zero x (suc k) [] h d = refl
get-set_at_other (suc i) x k [] h d = absurd (omega arith)
get-set_at_other zero x zero (y ∷ xs) h d = absurd (d refl)
get-set_at_other zero x (suc k) (y ∷ xs) h d = refl
get-set_at_other (suc i) x zero (y ∷ xs) h d = refl
get-set_at_other (suc i) x (suc k) (y ∷ xs) h d =
    get-set_at_other i x k xs (omega arith) (λ e. d (ap suc e))

pub get-inside :
    (k : ℕ) (xs : List ℕ) → k < length xs → get_elem? xs k ≡ some (or_zero (get_elem? xs k))
get-inside k [] h = absurd (omega arith)
get-inside zero (x ∷ xs) h = refl
get-inside (suc k) (x ∷ xs) h = get-inside k xs (omega arith)

get-append :
    {A : Type 0} (k : ℕ) (xs ys : List A) (a : A)
    → get_elem? xs k ≡ some a
    → get_elem? (xs ++ ys) k ≡ some a
get-append k [] ys a h = cc
get-append zero (x ∷ xs) ys a h = h
get-append (suc k) (x ∷ xs) ys a h = get-append k xs ys a h

pub get-last :
    {A : Type 0} (xs : List A) (a : A) (n : ℕ) → length xs ≡ n → get_elem? (xs ++ a ∷ []) n ≡ some a
get-last [] a zero h = refl
get-last [] a (suc n) h = absurd (omega arith)
get-last (x ∷ xs) a zero h = absurd (omega arith)
get-last (x ∷ xs) a (suc n) h = get-last xs a n (omega arith)

module _ (positions : List ℕ) where
  abbrev pub pos : ℕ → ℕ
  pos = position positions

  -- The links back from an index pass this many positions, each below the one before.
  abbrev pub IsRun : List (Option ℕ) → ℕ → ℕ → Type 0
  IsRun previous zero i = ⊥
  IsRun previous (suc zero) i = get_elem? previous i ≡ some none
  IsRun previous (suc (suc n)) i =
      (j : ℕ) × (get_elem? previous i ≡ some (some j))
      × (j < i)
      × (pos j < pos i)
      × IsRun previous (suc n) j

  -- Any increasing run of this many positions that ends at an index, whatever the links say.
  abbrev pub IsRise : ℕ → ℕ → Type 0
  IsRise zero i = ⊥
  IsRise (suc zero) i = Unit
  IsRise (suc (suc n)) i = (j : ℕ) × (j < i) × (pos j < pos i) × IsRise (suc n) j

  -- What holds once the first `m` positions are through.
  pub record IsBest (m : ℕ) (runs : Runs) : Type 0 where
    pub counted : length runs.previous ≡ m
    pub sorted : IsSorted positions runs.tails
    pub ended :
        (k : ℕ)
        → k < length runs.tails
        → (or_zero (get_elem? runs.tails k) < m)
          × IsRun runs.previous (suc k) (or_zero (get_elem? runs.tails k))
    pub best :
        (n i : ℕ)
        → i < m
        → IsRise (suc n) i
        → (n < length runs.tails) × (last positions runs.tails n ≤ pos i)

  pub append-IsRun :
      (previous more : List (Option ℕ)) (n i : ℕ)
      → IsRun previous n i
      → IsRun (previous ++ more) n i
  append-IsRun previous more zero i h = absurd h
  append-IsRun previous more (suc zero) i h = get-append i previous more none h
  append-IsRun previous more (suc (suc n)) i (j, link, less, below, rest) = (
    j,
    get-append i previous more (some j) link,
    less,
    below,
    append-IsRun previous more (suc n) j rest,
  )
