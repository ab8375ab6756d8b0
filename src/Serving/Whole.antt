-- ===== src/Serving/Whole.antt =====
-- Every group of a request of query-host.ts is whole: no other group has a key of its name.
use effect_frame.Base.{
  ℕ, Bool, true, false, ◌||◌, ◌&&◌, List, [], ◌∷◌, String, ◌==◌, eq_iff, eq_refl, ◌≡◌, refl, sym,
  ap, ◌∙◌, subst, ◌⊎◌, inl, inr, Bool-cases, All, All-map_of, arith,
}
use effect_frame.Vocabulary.{QueryKey}
use effect_frame.Serving.{Implementation}
use effect_frame.Serving.Requests.{Group, is_query}
use effect_frame.Serving.Writes.{has}
use effect_frame.Serving.Groups.{Served, pick, leave, name_of, Fits, has-pick}

-- The places in the groups.
unfoldable pub has_any : ℕ → List Group → Bool
has_any i [] = false
has_any i (group ∷ groups) = has i group.entries || has_any i groups

pub has_any_lem :
    (i : ℕ) (groups : List Group) (served : List Served)
    → Fits groups served
    → has i served ≡ has_any i groups
unfolding has_any has
has_any_lem i [] served h = ap (has i) h
has_any_lem i (group ∷ groups) served h =
    let rest = has_any_lem i groups (leave (name_of group) served) h.1 in
    has-pick (name_of group) i served ∙ rw (sym h.0, rest) refl

-- A test of the keys, over entries, served keys and groups.
module _ (test : QueryKey → Bool) where
  unfoldable pub every : List (ℕ × QueryKey) → Bool
  every [] = true
  every ((i, key) ∷ entries) = test key && every entries

  unfoldable pub every_served : List Served → Bool
  every_served [] = true
  every_served ((i, (key, m)) ∷ served) = test key && every_served served

  unfoldable pub every_group : List Group → Bool
  every_group [] = true
  every_group (group ∷ groups) = every group.entries && every_group groups

  every-pick :
      (name : String) (served : List Served)
      → every_served served ≡ (every (pick name served) && every_served (leave name served))
  unfolding every every_served pick leave
  every-pick name [] = refl
  every-pick name ((j, (key, m)) ∷ served) =
      let rest = every-pick name served in ground (arith, rest)

  pub every_group_lem :
      (groups : List Group) (served : List Served)
      → Fits groups served
      → every_served served ≡ every_group groups
  unfolding every_group every_served
  every_group_lem [] served h = ap every_served h
  every_group_lem (group ∷ groups) served h =
      let rest = every_group_lem groups (leave (name_of group) served) h.1 in
      every-pick (name_of group) served ∙ rw (sym h.0, rest) refl

-- Every group is whole: its entries are all the served keys of its name, or it has none.
abbrev pub IsWhole : List Served → Group → Type 0
IsWhole served group = (group.entries ≡ []) ⊎ (group.entries ≡ pick (name_of group) served)

pick-leave_same : (n : String) (served : List Served) → pick n (leave n served) ≡ []
unfolding pick leave
pick-leave_same n [] = refl
pick-leave_same n ((j, (key, i)) ∷ served) =
    let rest = pick-leave_same n served in
    elim (Bool-cases (is_query n i)) [ inl e ↦ rw e rest | inr e ↦ rw e (rw e rest) ]

-- No implementation has two names.
one_name :
    (n m : String) (i : Implementation)
    → (n == m) ≡ false
    → is_query m i ≡ true
    → is_query n i ≡ false
one_name n m i h e = elim (Bool-cases (is_query n i)) [
  | inl f ↦
      let a = (eq_iff i.contract.name m).0 e in
      let b = (eq_iff i.contract.name n).0 f in
      let same = subst (λ t. (n == t) ≡ true) (sym b ∙ a) (eq_refl n) in cc (h, same)
  | inr f ↦ f
]

pick-leave_other :
    (n m : String) (served : List Served)
    → (n == m) ≡ false
    → pick n (leave m served) ≡ pick n served
unfolding pick leave
pick-leave_other n m [] h = refl
pick-leave_other n m ((j, (key, i)) ∷ served) h =
    let rest = pick-leave_other n m served h in
    elim (Bool-cases (is_query m i)) [
      | inl e ↦ let other = one_name n m i h e in rw (e, other) rest
      | inr e ↦ ground (arith, rest, e)
    ]

pick-leave :
    (n m : String) (served : List Served)
    → (pick n (leave m served) ≡ []) ⊎ (pick n (leave m served) ≡ pick n served)
pick-leave n m served = elim (Bool-cases (n == m)) [
  | inl same ↦
      inl
        (subst (λ t. pick n (leave t served) ≡ []) ((eq_iff n m).0 same) (pick-leave_same n served))
  | inr other ↦ inr (pick-leave_other n m served other)
]

leave-IsWhole :
    (name : String) (served : List Served) (group : Group)
    → IsWhole (leave name served) group
    → IsWhole served group
leave-IsWhole name served group (inl none_left) = inl none_left
leave-IsWhole name served group (inr all_left) = elim (pick-leave (name_of group) name served) [
  | inl e ↦ inl (all_left ∙ e)
  | inr e ↦ inr (all_left ∙ e)
]

pub Fits-IsWhole :
    (groups : List Group) (served : List Served) → Fits groups served → All (IsWhole served) groups
Fits-IsWhole [] served h = tt
Fits-IsWhole (group ∷ groups) served h = (
  inr h.0,
  All-map_of (IsWhole (leave (name_of group) served)) (IsWhole served) groups
      (leave-IsWhole (name_of group) served)
      (Fits-IsWhole groups (leave (name_of group) served) h.1),
)
