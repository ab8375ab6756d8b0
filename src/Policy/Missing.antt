-- ===== src/Policy/Missing.antt =====
-- What a host resolves before it serves: the declared names that the table holds, and those it misses.
use effect_frame.Base.{
  Bool, not, Option, some, List, [], ◌∷◌, map, String, ◌≡◌, refl, ap, filter, Option-cases, inl,
  inr, All, is_some,
}
use effect_frame.Policy.{Policy, Declared, Resolved, resolve}

module _ {Claims A : Type 0} (table : String → Option (Policy Claims))
    (declare : A → Declared) where
  abbrev pub in_table : A → Bool
  in_table entry = is_some (table (declare entry).policy)

  -- The misses are the declarations outside the table, in order.
  pub missing_lem :
      (entries : List A)
      → (resolve table declare entries).missing
        ≡ map declare (filter (λ entry. not (in_table entry)) entries)
  unfolding resolve filter
  missing_lem [] = refl
  missing_lem (entry ∷ entries) = elim (Option-cases (table (declare entry).policy)) [
    | inl e ↦ rw e (ap (λ l. declare entry ∷ l) (missing_lem entries))
    | inr (policy, e) ↦ rw e (missing_lem entries)
  ]

  -- The rest is resolved, in order, each with the rule of its own name.
  abbrev pub IsRuled : Resolved Claims A → Type 0
  IsRuled resolved = table (declare resolved.entry).policy ≡ some resolved.policy

  pub resolved-IsRuled : (entries : List A) → All IsRuled (resolve table declare entries).resolved
  unfolding resolve
  resolved-IsRuled [] = tt
  resolved-IsRuled (entry ∷ entries) = elim (Option-cases (table (declare entry).policy)) [
    | inl e ↦ rw e (resolved-IsRuled entries)
    | inr (policy, e) ↦ rw e (e, resolved-IsRuled entries)
  ]

  pub entries-resolved :
      (entries : List A)
      → map (λ (r : Resolved Claims A). r.entry) (resolve table declare entries).resolved
        ≡ filter in_table entries
  unfolding resolve filter
  entries-resolved [] = refl
  entries-resolved (entry ∷ entries) = elim (Option-cases (table (declare entry).policy)) [
    | inl e ↦ rw e (entries-resolved entries)
    | inr (policy, e) ↦ rw e (ap (λ l. entry ∷ l) (entries-resolved entries))
  ]
