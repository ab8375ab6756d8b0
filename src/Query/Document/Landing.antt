-- ===== src/Query/Document/Landing.antt =====
-- What becomes of the settle of a streamed key.
use effect_frame.Base.{
  ◌≡◌, refl, subst, inl, inr, Bool, true, false, not, ◌&&◌, Option, none, some, List, [], ◌∷◌,
  String, Option-cases,
}
use effect_frame.Query.{QueryState}
use effect_frame.Query.Tasks.{chosen}
use effect_frame.Query.Document.{
  Seed, is_set, Document, find_seed, placeholder, settle_state, end_stream, land_held, expire,
  can_take, take_seed, new_document, find_actor, Call, places, takes, settles_as, seeds_actor, ends,
  expires, call, calls,
}
use effect_frame.Query.Document.Seeds.{
  find-expire, first_of, seed_outcome, outcome, change-Settles, settle-Settles, end_seeds-outcome,
  Fits, FitsSeed, FitsAt, IsSound, change-Fits, land_held-landed, land_held-none, settle-IsSound,
  end_seeds-IsSound,
}

module _ {A : Type 0} where
  -- What landed by the time the page hydrated is what settled first.
  pub expire-landed :
      (d : Document A) (id : String) (seed : Seed A)
      → IsSound d
      → find_seed id d.table ≡ some seed
      → find_seed id (expire d).table
        ≡ some (record seed { current = first_of seed.current seed.held; held = none })
  unfolding expire
  expire-landed d id seed ok e =
      let fits = subst (FitsAt d.expired) e (ok id) in
      let a = land_held-landed seed.current seed.held seed.taken d.expired fits in
      let b = land_held-none seed seed.held refl in
      rw (find-expire id d.table, e) (go d.expired seed.current seed.held seed.taken fits)
    where
      go :
          (b : Bool) (current held : Option (QueryState A)) (taken : Bool)
          → Fits b current held
          → some (land_held (record { current = current; held = held; taken = taken }) held)
            ≡ some (record { current = first_of current held; held = none; taken = taken })
      go b none none taken h = refl
      go b (some c) none taken h = refl
      go b none (some s) taken h = refl
      go true (some c) (some s) taken h = absurd h
      go false (some c) (some s) taken h = absurd h

  expire-Fits :
      (o : Option (Seed A))
      → FitsAt true (elim o [ none ↦ none | some seed ↦ some (land_held seed seed.held) ])
  expire-Fits none = tt
  expire-Fits (some seed) = go seed.held refl
    where
      go : (held : Option (QueryState A)) → seed.held ≡ held → FitsSeed true (land_held seed held)
      go none e = rw (e) tt
      go (some s) e = tt

  pub expire-IsSound : (d : Document A) → IsSound (expire d)
  unfolding expire
  expire-IsSound d id = rw (find-expire id d.table) (expire-Fits (find_seed id d.table))

  pub expire-outcome :
      (d : Document A) (id : String) (state : QueryState A)
      → IsSound d
      → outcome d id ≡ some state
      → outcome (expire d) id ≡ some state
  expire-outcome d id state ok h = elim (Option-cases (find_seed id d.table)) [
    | inl e ↦ absurd (missing (find_seed id d.table) e h)
    | inr (seed, e) ↦
        rw (expire-landed d id seed ok e)
          (go (first_of seed.current seed.held) (subst (λ o. seed_outcome o ≡ some state) e h))
  ]
    where
      missing : (o : Option (Seed A)) → o ≡ none → seed_outcome o ≡ some state → ⊥
      missing none e h = cc
      missing (some seed) e h = cc

      go : (o : Option (QueryState A)) → o ≡ some state → first_of o none ≡ some state
      go none e = e
      go (some s) e = e

  taking-IsSound : (d : Document A) (id : String) → IsSound d → IsSound (take_seed d id).1
  unfolding take_seed
  taking-IsSound d id h =
      chosen (λ (r : Bool × Document A). IsSound r.1) (can_take d (find_seed id d.table)) _ _
        (λ other. change-Fits d.expired id other _ d.table (λ seed k. k) h) h

  call-IsSound : (d : Document A) (one : Call A) → IsSound d → IsSound (call d one)
  unfolding call placeholder end_stream
  call-IsSound d (places id) h = λ other. change-Fits d.expired id other _ d.table (λ seed k. k) h
  call-IsSound d (takes id) h = taking-IsSound d id h
  call-IsSound d (settles_as id state late) h = settle-IsSound d id state late h
  call-IsSound d (seeds_actor id projection) h =
      chosen (λ (e : Document A). IsSound e)
        (not d.expired && not (is_set (find_actor id d.actor_seeds))) _ _ h h
  call-IsSound d ends h = end_seeds-IsSound _ d h
  call-IsSound d expires h = expire-IsSound d

  call-outcome :
      (d : Document A) (one : Call A) (id : String) (state : QueryState A)
      → IsSound d
      → outcome d id ≡ some state
      → outcome (call d one) id ≡ some state
  unfolding call placeholder end_stream settle_state take_seed
  call-outcome d (places key) id state ok h =
      change-Settles key id _ d.table state (λ seed s k. k) h
  call-outcome d (takes key) id state ok h =
      chosen (λ (r : Bool × Document A). outcome r.1 id ≡ some state)
        (can_take d (find_seed key d.table)) _ _
        (change-Settles key id _ d.table state (λ seed s k. k) h) h
  call-outcome d (settles_as key other late) id state ok h =
      change-Settles key id _ d.table state (settle-Settles other _) h
  call-outcome d (seeds_actor key projection) id state ok h =
      chosen (λ (e : Document A). outcome e id ≡ some state)
        (not d.expired && not (is_set (find_actor key d.actor_seeds))) _ _ h h
  call-outcome d ends id state ok h = end_seeds-outcome _ d id state h
  call-outcome d expires id state ok h = expire-outcome d id state ok h

  calls-IsSound : (cs : List (Call A)) (d : Document A) → IsSound d → IsSound (calls d cs)
  unfolding calls
  calls-IsSound [] d h = h
  calls-IsSound (c ∷ cs) d h = calls-IsSound cs (call d c) (call-IsSound d c h)

  outcome-stays :
      (cs : List (Call A)) (d : Document A) (id : String) (state : QueryState A)
      → IsSound d
      → outcome d id ≡ some state
      → outcome (calls d cs) id ≡ some state
  unfolding calls
  outcome-stays [] d id state ok h = h
  outcome-stays (c ∷ cs) d id state ok h =
      outcome-stays cs (call d c) id state (call-IsSound d c ok) (call-outcome d c id state ok h)

  pub reached-IsSound : (cs : List (Call A)) → IsSound (calls new_document cs)
  unfolding find_seed
  reached-IsSound cs = calls-IsSound cs new_document (λ id. tt)

  -- Whatever is asked of a document from its start, the state that settled a key first, landed or held
  -- back while the page hydrates, is what settled it for ever: no later settle, no end of the stream and
  -- no hydration replaces or loses it.
  pub calls-outcome :
      (before more : List (Call A)) (id : String) (state : QueryState A)
      → outcome (calls new_document before) id ≡ some state
      → outcome (calls (calls new_document before) more) id ≡ some state
  calls-outcome before more id state h =
      outcome-stays more (calls new_document before) id state (reached-IsSound before) h
