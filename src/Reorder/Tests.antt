-- ===== src/Reorder/Tests.antt =====
-- Tests of the keys that stay in place.
use effect_frame.Base.{ℕ, List, [], ◌∷◌, ◌≡◌, refl, length, ◌≤◌, arith}
use effect_frame.Reorder.{
  stable_indices, patience, search, set_at, walk, in_place, positions_of, keys_of, last_index,
}
use effect_frame.Reorder.Stable.{IsFall, stable_indices_longest}

-- One row moves from the front to the end of four.
moved_row :
    in_place ("b" ∷ "c" ∷ "d" ∷ "a" ∷ []) ("a" ∷ "b" ∷ "c" ∷ "d" ∷ []) ≡ "d" ∷ "c" ∷ "b" ∷ []
unfolding in_place keys_of positions_of last_index stable_indices patience search set_at walk
moved_row = refl

-- A new row has no place yet, and two that changed places leave one.
swapped : in_place ("b" ∷ "x" ∷ "a" ∷ []) ("a" ∷ "b" ∷ []) ≡ "a" ∷ []
unfolding in_place keys_of positions_of last_index stable_indices patience search set_at walk
swapped = refl

abbrev shuffled : List ℕ
shuffled = 3 ∷ 0 ∷ 1 ∷ 4 ∷ 2 ∷ 5 ∷ []

stable_indices_longest_example :
    IsFall shuffled (stable_indices shuffled) × (3 ≤ length (stable_indices shuffled))
stable_indices_longest_example =
    stable_indices_longest shuffled (5 ∷ 3 ∷ 0 ∷ [])
      (omega arith, (omega arith, omega arith, (omega arith, omega arith, tt)))
