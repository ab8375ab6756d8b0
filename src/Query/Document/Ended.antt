-- ===== src/Query/Document/Ended.antt =====
-- No streamed key stays open once the stream has ended and the page hydrates, in either order.
use effect_frame.Base.{
  ◌≡◌, refl, sym, ap, subst, ◌∙◌, ◌⊎◌, inl, inr, Bool, true, false, not, ◌&&◌, ◌||◌, Option, none,
  some, List, [], ◌∷◌, filter, any, String, ◌==◌, if◌then◌else◌, Bool-cases, eq_of_some, eq_iff,
}
use effect_frame.Query.{QueryState, failed, stream_ended}
use effect_frame.Query.Document.{
  Seed, is_set, is_open, Document, new_document, call, ends, expires, find_seed, settle_seed,
  settle_state, end_seeds, end_stream, expire, Call, calls,
}
use effect_frame.Query.Document.Landing.{
  expire-landed, expire-IsSound, reached-IsSound, expire-outcome,
}
use effect_frame.Query.Document.Seeds.{
  first_of, outcome_of, seed_outcome, outcome, held_or_new, find-change_same, find-change_other,
  end_seeds-outcome, end_seeds-IsSound, IsSound, Fits, FitsAt,
}

module _ {A : Type 0} where
  abbrev landed_in : Option (Seed A) → Option (QueryState A)
  landed_in none = none
  landed_in (some seed) = seed.current

  -- The state that an entry that took the seed gets.
  abbrev pub landed : Document A → String → Option (QueryState A)
  landed d id = landed_in (find_seed id d.table)

  abbrev names : String → String × Seed A → Bool
  names id entry = entry.0 == id

  abbrev pub settled_or : Option (QueryState A) → QueryState A → QueryState A
  settled_or none state = state
  settled_or (some first) state = first

  -- The failure of a key that the stream did not settle.
  abbrev pub unsettled : String → QueryState A
  unsettled id = failed (stream_ended id) none

  settle-sets :
      (d : Document A) (id : String) (state : QueryState A) (late : Bool)
      → outcome (settle_state d id state late) id ≡ some (settled_or (outcome d id) state)
  unfolding settle_state
  settle-sets d id state late = rw (find-change_same id _ d.table) (go (find_seed id d.table))
    where
      by :
          (current held : Option (QueryState A)) (taken waits : Bool)
          → outcome_of
              (settle_seed state waits (record { current = current; held = held; taken = taken }))
            ≡ some (settled_or (first_of current held) state)
      by (some c) held taken waits = refl
      by none (some s) taken waits = refl
      by none none taken true = refl
      by none none taken false = refl

      go :
          (o : Option (Seed A))
          → outcome_of (settle_seed state (late && not d.expired) (held_or_new o))
            ≡ some (settled_or (seed_outcome o) state)
      go none = by none none false (late && not d.expired)
      go (some seed) = by seed.current seed.held seed.taken (late && not d.expired)

  end_seeds-sets :
      (xs : List (String × Seed A)) (d : Document A) (id : String)
      → any (names id) xs ≡ true
      → outcome (end_seeds d xs) id ≡ some (settled_or (outcome d id) (unsettled id))
  unfolding end_seeds any settle_state
  end_seeds-sets [] d id h = absurd (cc)
  end_seeds-sets ((key, seed) ∷ rest) d id h = elim (Bool-cases (key == id)) [
    | inl e ↦
        let next = settle_state d key (unsettled key) true in
        end_seeds-outcome rest next id _ (
          subst (λ i. outcome next i ≡ some (settled_or (outcome d i) (unsettled i)))
            ((eq_iff key id).0 e) (settle-sets d key (unsettled key) true))
    | inr e ↦
        let next = settle_state d key (unsettled key) true in
        end_seeds-sets rest next id (subst (λ b. (b || any (names id) rest) ≡ true) e h)
        ∙ ap (λ o. some (settled_or (seed_outcome o) (unsettled id)))
            (find-change_other key id _ d.table e)
  ]

  -- A seed that a lookup finds is open among those to end, or has settled.
  open-or-set :
      (xs : List (String × Seed A)) (id : String) (seed : Seed A)
      → find_seed id xs ≡ some seed
      → is_open seed ≡ true
      → any (names id) (filter (λ entry. is_open entry.1) xs) ≡ true
  unfolding find_seed filter any
  open-or-set [] id seed e o = absurd (cc)
  open-or-set ((key, s) ∷ rest) id seed e o = elim (Bool-cases (key == id)) [
    | inl k ↦
        let same =
          eq_of_some s seed
            (subst (λ b. (if b then some s else find_seed id rest) ≡ some seed) k e) in
        rw (subst (λ t. is_open t ≡ true) (sym same) o, any) (rw (k) refl)
    | inr k ↦ later (is_open s) (
        open-or-set rest id seed
          (subst (λ b. (if b then some s else find_seed id rest) ≡ some seed) k e) o)
  ]
    where
      later :
          (b : Bool)
          → any (names id) (filter (λ entry. is_open entry.1) rest) ≡ true
          → any (names id) (
              if b
              then (key, s) ∷ filter (λ entry. is_open entry.1) rest
              else filter (λ entry. is_open entry.1) rest)
            ≡ true
      later true h = elim (Bool-cases (key == id)) [ inl k ↦ rw (k) refl | inr k ↦ rw (k) h ]
      later false h = h

  open-cases : (seed : Seed A) → (is_open seed ≡ true) ⊎ (is_set (outcome_of seed) ≡ true)
  open-cases seed = by seed.current seed.held
    where
      by :
          (current held : Option (QueryState A))
          → (not (is_set current) && not (is_set held) ≡ true)
            ⊎ (is_set (first_of current held) ≡ true)
      by (some c) held = inr refl
      by none (some s) = inr refl
      by none none = inl refl

  end-outcome :
      (d : Document A) (id : String) (seed : Seed A)
      → find_seed id d.table ≡ some seed
      → outcome (end_stream d) id ≡ some (settled_or (outcome d id) (unsettled id))
  unfolding end_stream
  end-outcome d id seed e = elim (open-cases seed) [
    | inl o ↦ end_seeds-sets _ d id (open-or-set d.table id seed e o)
    | inr s ↦ settled (outcome d id) refl (subst (λ x. is_set (seed_outcome x) ≡ true) (sym e) s)
  ]
    where
      settled :
          (o : Option (QueryState A))
          → outcome d id ≡ o
          → is_set o ≡ true
          → outcome (end_stream d) id ≡ some (settled_or o (unsettled id))
      settled none e h = absurd (cc)
      settled (some state) e h = end_seeds-outcome _ d id state e

  expire-outcome_same :
      (d : Document A) (id : String) (seed : Seed A)
      → IsSound d
      → find_seed id d.table ≡ some seed
      → outcome (expire d) id ≡ outcome d id
  expire-outcome_same d id seed ok e =
      rw (expire-landed d id seed ok e, e) (by (first_of seed.current seed.held))
    where
      by : (o : Option (QueryState A)) → first_of o none ≡ o
      by none = refl
      by (some s) = refl

  -- Where nothing is held back, what settled a key has landed.
  unheld-landed :
      (d : Document A) (id : String) (state : QueryState A)
      → IsSound d
      → d.expired ≡ true
      → outcome d id ≡ some state
      → landed d id ≡ some state
  unheld-landed d id state ok hydrated h =
      go (find_seed id d.table) (subst (λ b. FitsAt b (find_seed id d.table)) hydrated (ok id)) h
    where
      go :
          (o : Option (Seed A))
          → FitsAt true o
          → seed_outcome o ≡ some state
          → landed_in o ≡ some state
      go none fits h = absurd (cc)
      go (some seed) fits h = by seed.current seed.held fits h
        where
          by :
              (current held : Option (QueryState A))
              → Fits true current held
              → first_of current held ≡ some state
              → current ≡ some state
          by (some c) held fits h = h
          by none none fits h = absurd (cc)
          by none (some s) fits h = absurd fits

  end_seeds-expired :
      (xs : List (String × Seed A)) (d : Document A) → (end_seeds d xs).expired ≡ d.expired
  unfolding end_seeds settle_state
  end_seeds-expired [] d = refl
  end_seeds-expired ((key, seed) ∷ rest) d = end_seeds-expired rest _

  end_stream-expired : (d : Document A) → (end_stream d).expired ≡ d.expired
  unfolding end_stream
  end_stream-expired d = end_seeds-expired _ d

  end_stream-IsSound : (d : Document A) → IsSound d → IsSound (end_stream d)
  unfolding end_stream
  end_stream-IsSound d h = end_seeds-IsSound _ d h

  expire-expired : (d : Document A) → (expire d).expired ≡ true
  unfolding expire
  expire-expired d = refl

  -- Whatever was asked of a document from its start: once the stream has ended and the page hydrates, in
  -- either order, each key that it knows has landed, so no entry that took the key waits for ever. What
  -- landed is the state that settled the key first, or else the failure of a stream that ended.
  pub landed-settled_or :
      (before : List (Call A)) (id : String) (seed : Seed A)
      → find_seed id (calls new_document before).table ≡ some seed
      → (landed (calls (calls new_document before) (ends ∷ expires ∷ [])) id
          ≡ some (settled_or (outcome (calls new_document before) id) (unsettled id)))
        × (landed (calls (calls new_document before) (expires ∷ ends ∷ [])) id
            ≡ some (settled_or (outcome (calls new_document before) id) (unsettled id)))
  unfolding calls call
  landed-settled_or before id seed e =
      let d = calls new_document before in
      let ok = reached-IsSound before in
      let ended = end_stream-IsSound d ok in
      let gone = expire-IsSound d in
      (
        unheld-landed (expire (end_stream d)) id _ (expire-IsSound (end_stream d))
            (expire-expired (end_stream d))
            (expire-outcome (end_stream d) id _ ended (end-outcome d id seed e)),
        unheld-landed (end_stream (expire d)) id _ (end_stream-IsSound (expire d) gone)
            (end_stream-expired (expire d) ∙ expire-expired d)
            (end-outcome (expire d) id _ (expire-landed d id seed ok e)
              ∙ ap (λ o. some (settled_or o (unsettled id))) (expire-outcome_same d id seed ok e)),
      )
