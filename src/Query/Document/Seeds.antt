-- ===== src/Query/Document/Seeds.antt =====
-- The table of seeds: what a change of one key does to the others, and what every call keeps of a seed.
use effect_frame.Base.{
  ◌≡◌, refl, sym, subst, inl, inr, Bool, true, false, not, ◌&&◌, Option, none, some, List, [], ◌∷◌,
  map, String, ◌==◌, Bool-cases, eq_iff, eq_refl,
}
use effect_frame.Query.{QueryState, failed, stream_ended}
use effect_frame.Query.Document.{
  Seed, new_seed, Document, find_seed, change_seed, settle_seed, settle_state, end_seeds, land_held,
}

module _ {A : Type 0} where
  abbrev pub held_or_new : Option (Seed A) → Seed A
  held_or_new none = new_seed
  held_or_new (some seed) = seed

  pub find-change_same :
      (id : String) (f : Seed A → Seed A) (xs : List (String × Seed A))
      → find_seed id (change_seed id f xs) ≡ some (f (held_or_new (find_seed id xs)))
  unfolding find_seed change_seed
  find-change_same id f [] = rw (eq_refl id) refl
  find-change_same id f ((key, seed) ∷ rest) = elim (Bool-cases (key == id)) [
    | inl e ↦ rw (e, find_seed, e) refl
    | inr e ↦ rw (e, find_seed, e) (find-change_same id f rest)
  ]

  pub find-change_other :
      (id other : String) (f : Seed A → Seed A) (xs : List (String × Seed A))
      → (id == other) ≡ false
      → find_seed other (change_seed id f xs) ≡ find_seed other xs
  unfolding find_seed change_seed
  find-change_other id other f [] ne = rw (ne) refl
  find-change_other id other f ((key, seed) ∷ rest) ne = elim (Bool-cases (key == id)) [
    | inl e ↦ let same = (eq_iff key id).0 e in rw (e, find_seed) (rw (same, ne) refl)
    | inr e ↦
        rw (e, find_seed)
          (elim (Bool-cases (key == other)) [
            | inl k ↦ rw (k) refl
            | inr k ↦ rw (k) (find-change_other id other f rest ne)
          ])
  ]

  pub find-expire :
      (id : String) (xs : List (String × Seed A))
      → find_seed id (map (λ entry. (entry.0, land_held entry.1 entry.1.held)) xs)
        ≡ elim (find_seed id xs) [ none ↦ none | some seed ↦ some (land_held seed seed.held) ]
  unfolding find_seed
  find-expire id [] = refl
  find-expire id ((key, seed) ∷ rest) = elim (Bool-cases (key == id)) [
    | inl e ↦ rw (e) refl
    | inr e ↦ rw (e) (find-expire id rest)
  ]

  -- What settled a seed, whether it landed or is held back.
  abbrev pub first_of : Option (QueryState A) → Option (QueryState A) → Option (QueryState A)
  first_of (some state) held = some state
  first_of none held = held

  abbrev pub outcome_of : Seed A → Option (QueryState A)
  outcome_of seed = first_of seed.current seed.held

  abbrev pub seed_outcome : Option (Seed A) → Option (QueryState A)
  seed_outcome none = none
  seed_outcome (some seed) = outcome_of seed

  abbrev pub outcome : Document A → String → Option (QueryState A)
  outcome d id = seed_outcome (find_seed id d.table)

  -- Whatever settled a seed stays what settled it.
  abbrev pub Settles : (Seed A → Seed A) → Type 0
  Settles f =
      (seed : Seed A) (state : QueryState A)
      → outcome_of seed ≡ some state
      → outcome_of (f seed) ≡ some state

  pub change-Settles :
      (id other : String) (f : Seed A → Seed A) (xs : List (String × Seed A)) (state : QueryState A)
      → Settles f
      → seed_outcome (find_seed other xs) ≡ some state
      → seed_outcome (find_seed other (change_seed id f xs)) ≡ some state
  change-Settles id other f xs state k h = elim (Bool-cases (id == other)) [
    | inl e ↦
        let same = (eq_iff id other).0 e in
        subst (λ i. seed_outcome (find_seed i (change_seed id f xs)) ≡ some state) same
          (rw (find-change_same id f xs) (
            k _ state (
              new (find_seed id xs)
                (subst (λ i. seed_outcome (find_seed i xs) ≡ some state) (sym same) h))))
    | inr e ↦ rw (find-change_other id other f xs e) h
  ]
    where
      new :
          (o : Option (Seed A))
          → seed_outcome o ≡ some state
          → outcome_of (held_or_new o) ≡ some state
      new none e = e
      new (some seed) e = e

  pub settle-Settles : (state : QueryState A) (waits : Bool) → Settles (settle_seed state waits)
  settle-Settles state waits seed first e = go seed.current seed.held seed.taken e
    where
      go :
          (current held : Option (QueryState A)) (taken : Bool)
          → first_of current held ≡ some first
          → outcome_of
              (settle_seed state waits (record { current = current; held = held; taken = taken }))
            ≡ some first
      go (some s) held taken e = e
      go none (some s) taken e = e
      go none none taken e = absurd (cc)

  pub end_seeds-outcome :
      (xs : List (String × Seed A)) (d : Document A) (id : String) (state : QueryState A)
      → outcome d id ≡ some state
      → outcome (end_seeds d xs) id ≡ some state
  unfolding end_seeds settle_state
  end_seeds-outcome [] d id state h = h
  end_seeds-outcome ((key, seed) ∷ rest) d id state h =
      end_seeds-outcome rest _ id state (
        change-Settles key id _ d.table state (settle-Settles (failed (stream_ended key) none) _) h)

  -- A seed never both landed and is held back, and once the page hydrated none is held back.
  abbrev pub Fits : Bool → Option (QueryState A) → Option (QueryState A) → Type 0
  Fits expired current none = Unit
  Fits true current (some state) = ⊥
  Fits false none (some state) = Unit
  Fits false (some landed) (some state) = ⊥

  abbrev pub FitsSeed : Bool → Seed A → Type 0
  FitsSeed expired seed = Fits expired seed.current seed.held

  abbrev pub FitsAt : Bool → Option (Seed A) → Type 0
  FitsAt expired none = Unit
  FitsAt expired (some seed) = FitsSeed expired seed

  abbrev pub IsSound : Document A → Type 0
  IsSound d = (id : String) → FitsAt d.expired (find_seed id d.table)

  pub change-Fits :
      (b : Bool) (id other : String) (f : Seed A → Seed A) (xs : List (String × Seed A))
      → ((seed : Seed A) → FitsSeed b seed → FitsSeed b (f seed))
      → ((key : String) → FitsAt b (find_seed key xs))
      → FitsAt b (find_seed other (change_seed id f xs))
  change-Fits b id other f xs k h = elim (Bool-cases (id == other)) [
    | inl e ↦
        subst (λ i. FitsAt b (find_seed i (change_seed id f xs))) ((eq_iff id other).0 e)
          (rw (find-change_same id f xs) (k _ (new (find_seed id xs) (h id))))
    | inr e ↦ rw (find-change_other id other f xs e) (h other)
  ]
    where
      new : (o : Option (Seed A)) → FitsAt b o → FitsSeed b (held_or_new o)
      new none e = tt
      new (some seed) e = e

  pub settle-Fits :
      (b late : Bool) (state : QueryState A) (seed : Seed A)
      → FitsSeed b seed
      → FitsSeed b (settle_seed state (late && not b) seed)
  settle-Fits b late state seed h = go b late seed.current seed.held seed.taken h
    where
      go :
          (b late : Bool) (current held : Option (QueryState A)) (taken : Bool)
          → Fits b current held
          → FitsSeed b (
              settle_seed state
                (late && not b)
                (record { current = current; held = held; taken = taken }))
      go b late (some c) held taken h = h
      go b late none (some s) taken h = h
      go true true none none taken h = tt
      go true false none none taken h = tt
      go false true none none taken h = tt
      go false false none none taken h = tt

  pub land_held-landed :
      (current held : Option (QueryState A)) (taken : Bool) (b : Bool)
      → Fits b current held
      → (land_held (record { current = current; held = held; taken = taken }) held).current
        ≡ first_of current held
  land_held-landed (some c) none taken b h = refl
  land_held-landed none none taken b h = refl
  land_held-landed none (some s) taken b h = refl
  land_held-landed (some c) (some s) taken true h = absurd h
  land_held-landed (some c) (some s) taken false h = absurd h

  pub land_held-none :
      (seed : Seed A) (held : Option (QueryState A))
      → seed.held ≡ held
      → (land_held seed held).held ≡ none
  land_held-none seed none e = e
  land_held-none seed (some s) e = refl

  pub settle-IsSound :
      (d : Document A) (id : String) (state : QueryState A) (late : Bool)
      → IsSound d
      → IsSound (settle_state d id state late)
  unfolding settle_state
  settle-IsSound d id state late h other =
      change-Fits d.expired id other _ d.table (settle-Fits d.expired late state) h

  pub end_seeds-IsSound :
      (xs : List (String × Seed A)) (d : Document A) → IsSound d → IsSound (end_seeds d xs)
  unfolding end_seeds
  end_seeds-IsSound [] d h = h
  end_seeds-IsSound ((key, seed) ∷ rest) d h =
      end_seeds-IsSound rest _ (settle-IsSound d key (failed (stream_ended key) none) true h)
