-- ===== src/Reorder.antt =====
-- packages/effect-frame/src/view/runtime.ts: `inPlace`, the keys of a keyed list that a reorder leaves where
-- they are.
pub mod Search
pub mod Tails
pub mod Longest
pub mod Stable
pub mod Tests
use Prim.Native.Nat.{◌/◌}
use effect_frame.Base.{
  ℕ, zero, suc, ◌+◌, ◌-◌, Bool, true, false, Option, none, some, List, [], ◌∷◌, ◌++◌, map, String,
  ◌==◌, ltb, length, get_elem?, if◌then◌else◌,
}

abbrev pub or_zero : Option ℕ → ℕ
or_zero none = 0
or_zero (some n) = n

-- The position of a key: the last one, as in a map that is filled in order.
abbrev pub or_found : Option ℕ → Bool → ℕ → Option ℕ
or_found (some later) here index = some later
or_found none true index = some index
or_found none false index = none

unfoldable pub last_index : String → ℕ → List String → Option ℕ
last_index key index [] = none
last_index key index (other ∷ placed) =
    or_found (last_index key (suc index) placed) (other == key) index

-- The positions of the wanted keys that are placed, and those keys, in the wanted order.
abbrev pub with_position : Option ℕ → List ℕ → List ℕ
with_position none rest = rest
with_position (some index) rest = index ∷ rest

unfoldable pub positions_of : List String → List String → List ℕ
positions_of [] placed = []
positions_of (key ∷ wanted) placed =
    with_position (last_index key 0 placed) (positions_of wanted placed)

-- `tails` and `previous` hold indices of positions; the source's -1 is `none`.
pub record Runs : Type 0 where
  pub tails : List ℕ
  pub previous : List (Option ℕ)

abbrev pub no_runs : Runs
no_runs = record { tails = []; previous = [] }

-- An array written at an index, or extended by one.
unfoldable pub set_at : ℕ → ℕ → List ℕ → List ℕ
set_at index value [] = value ∷ []
set_at zero value (x ∷ xs) = value ∷ xs
set_at (suc index) value (x ∷ xs) = x ∷ set_at index value xs

abbrev pub before : ℕ → List ℕ → Option ℕ
before zero tails = none
before (suc low) tails = get_elem? tails low

module _ (positions : List ℕ) where
  abbrev pub position : ℕ → ℕ
  position index = or_zero (get_elem? positions index)

  -- The last position of the best run of length k + 1.
  abbrev pub last_position : List ℕ → ℕ → ℕ
  last_position tails k = position (or_zero (get_elem? tails k))

  -- The binary search; `fuel` bounds its rounds.
  unfoldable pub search : List ℕ → ℕ → ℕ → ℕ → ℕ → ℕ
  search tails value zero low high = low
  search tails value (suc fuel) low high =
      let middle = (low + high) / 2 in
      let above = search tails value fuel (middle + 1) high in
      let below = search tails value fuel low middle in
      if ltb low high
      then (if ltb (last_position tails middle) value then above else below)
      else low

  abbrev pub place : List ℕ → ℕ → ℕ
  place tails value = search tails value (length tails) 0 (length tails)

  abbrev pub extend : ℕ → ℕ → Runs → Runs
  extend index low runs = record {
    tails = set_at low index runs.tails;
    previous = runs.previous ++ before low runs.tails ∷ [];
  }

  -- The loop over the positions, from an index on.
  unfoldable pub patience : ℕ → List ℕ → Runs → Runs
  patience index [] runs = runs
  patience index (value ∷ rest) runs =
      patience (suc index) rest (extend index (place runs.tails value) runs)

-- The walk back from the last tail; `fuel` bounds its rounds.
abbrev pub last_of : List ℕ → Option ℕ
last_of [] = none
last_of (x ∷ []) = some x
last_of (x ∷ y ∷ rest) = last_of (y ∷ rest)

abbrev pub or_stop : Option (Option ℕ) → Option ℕ
or_stop none = none
or_stop (some link) = link

abbrev pub step_back : List (Option ℕ) → ℕ → Option ℕ
step_back previous index = or_stop (get_elem? previous index)

unfoldable pub walk : List (Option ℕ) → ℕ → Option ℕ → List ℕ
walk previous fuel none = []
walk previous zero (some index) = []
walk previous (suc fuel) (some index) = index ∷ walk previous fuel (step_back previous index)

-- The indices of the positions that stay, the last first.
unfoldable pub stable_indices : List ℕ → List ℕ
stable_indices positions =
    let runs = patience positions 0 positions no_runs in
    walk runs.previous (length positions) (last_of runs.tails)

abbrev pub with_key : String → Option ℕ → List String → List String
with_key key none rest = rest
with_key key (some index) rest = key ∷ rest

unfoldable pub keys_of : List String → List String → List String
keys_of [] placed = []
keys_of (key ∷ wanted) placed = with_key key (last_index key 0 placed) (keys_of wanted placed)

abbrev pub or_empty : Option String → String
or_empty none = ""
or_empty (some key) = key

unfoldable pub in_place : List String → List String → List String
in_place wanted placed =
    map (λ index. or_empty (get_elem? (keys_of wanted placed) index))
      (stable_indices (positions_of wanted placed))
