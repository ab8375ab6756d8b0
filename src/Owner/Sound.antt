-- ===== src/Owner/Sound.antt =====
-- The live records and the records that left, over any history of an owner.
use effect_frame.Base.{
  ℕ, ◌<◌, ◌≡◌, refl, sym, ap, subst, ◌∙◌, inl, inr, Bool, true, false, not, ◌||◌, List, [], ◌∷◌,
  ◌++◌, map, String, ◌==◌, if◌then◌else◌, find?, filter, All, All-append, filter-append, eq_refl,
  find?_of_All, Option-cases,
}
use effect_frame.Owner.{
  Identified, CommandRecord, Adapter, Answer, Kept, stays, leaves, Owner, no_records, Placement,
  live, created, conflicted, halted, Event, submits, retries, hears, scope_closes, records_clear,
  actor_closes, start_sequence, names, replaced, keep, retry, hear, is_stopped, is_supplied,
  new_record, place, enroll, submit, step, run, stopped_before_work, discard,
}
use effect_frame.Owner.Heard.{note-Sound}
use effect_frame.Owner.Records.{
  IsUpTo, IsKept, IsEnded, KeepsSound, hear_at-Sound, start_sequence-Sound,
}

false_not-true : {P : Type 0} → false ≡ true → P
false_not-true e = absurd (cc)

module _ {State Rejection : Type 0} (adapter : Adapter Rejection) (recurs : ℕ → ℕ → Bool)
    (passes : ℕ) where
  abbrev KeptNow : CommandRecord State Rejection → Type 0
  KeptNow r = IsKept adapter recurs passes r

  abbrev EndedNow : CommandRecord State Rejection → Type 0
  EndedNow r = IsEnded adapter recurs passes r

  -- Every record that the owner holds is kept as it must be, and every one that left has ended.
  pub record IsSound (o : Owner State Rejection) : Type 0 where
    pub kept : All KeptNow o.records
    pub ended : All EndedNow o.left

  All-replaced :
      (P : CommandRecord State Rejection → Type 0) (new : CommandRecord State Rejection)
      (rs : List (CommandRecord State Rejection))
      → P new
      → All P rs
      → All P (map (replaced adapter recurs passes new) rs)
  All-replaced P new [] p h = tt
  All-replaced P new (r ∷ rs) p h =
      (pick (names adapter recurs passes new.command_id r), All-replaced P new rs p h.1)
    where
      pick : (b : Bool) → P (if b then new else r)
      pick true = p
      pick false = h.0

  All-picked :
      (P : CommandRecord State Rejection → Type 0) (r : CommandRecord State Rejection)
      (rs : List (CommandRecord State Rejection)) (b : Bool)
      → P r
      → All P rs
      → All P (if b then r ∷ rs else rs)
  All-picked P r rs true p h = (p, h)
  All-picked P r rs false p h = h

  All-filter :
      (P : CommandRecord State Rejection → Type 0) (q : CommandRecord State Rejection → Bool)
      (rs : List (CommandRecord State Rejection))
      → All P rs
      → All P (filter q rs)
  unfolding filter
  All-filter P q [] h = tt
  All-filter P q (r ∷ rs) h = All-picked P r (filter q rs) (q r) h.0 (All-filter P q rs h.1)

  keep-IsSound :
      (o : Owner State Rejection) (r : CommandRecord State Rejection) (k : Kept State Rejection)
      → KeepsSound adapter recurs passes r k
      → IsSound o
      → IsSound (keep adapter recurs passes o k)
  keep-IsSound o r (stays r') (kept, same) s = record {
    kept = All-replaced KeptNow r' o.records kept s.kept;
    ended = s.ended;
  }
  keep-IsSound o r (leaves r') (ended, same) s = record {
    kept = All-filter KeptNow _ o.records s.kept;
    ended = All-append EndedNow o.left (r' ∷ []) s.ended (ended, tt);
  }

  hear-IsSound :
      IsUpTo recurs
      → (o : Owner State Rejection) (id : String) (answer : Answer State Rejection) → IsSound o
      → IsSound (hear adapter recurs passes o id answer)
  unfolding hear
  hear-IsSound up o id answer s =
      elim (Option-cases (find? (names adapter recurs passes id) o.records)) [
        | inl e ↦ rw (e, hear) s
        | inr (r, e) ↦
            let k = find?_of_All KeptNow _ o.records r s.kept e in
            rw (e, hear)
              (keep-IsSound o r _
                (note-Sound adapter recurs passes r.worker r answer
                  (hear_at-Sound adapter recurs passes up r.worker r answer refl k.standing k))
                s)
      ]

  start-Sound :
      0 < passes
      → (closing : Bool) (r : CommandRecord State Rejection) → KeptNow r
      → KeepsSound adapter recurs passes r (stays (start_sequence adapter recurs passes closing r))
  start-Sound some_pass closing r k =
      start_sequence-Sound adapter recurs passes some_pass closing r k.held k.open_now (λ _. k)
        (λ _. k)

  retry-IsSound :
      0 < passes
      → (o : Owner State Rejection) (id : String) → IsSound o
      → IsSound (retry adapter recurs passes o id)
  unfolding retry
  retry-IsSound some_pass o id s =
      elim (Option-cases (find? (names adapter recurs passes id) o.records)) [
        | inl e ↦ rw (e, retry) s
        | inr (r, e) ↦
            rw (e, retry)
              (keep-IsSound o r (stays (start_sequence adapter recurs passes o.closing r))
                (start-Sound some_pass o.closing r (find?_of_All KeptNow _ o.records r s.kept e)) s)
      ]

  -- A placement of an owner: a live record is one of its own, and a new one is made while it is open.
  abbrev Places : Owner State Rejection → Identified → String → Placement State Rejection → Type 0
  Places o identified payload (live r) = KeptNow r
  Places o identified payload (created r) =
      (o.closing ≡ false) × (r ≡ new_record adapter recurs passes identified payload)
  Places o identified payload conflicted = Unit
  Places o identified payload halted = Unit

  place-Places :
      (o : Owner State Rejection) (identified : Identified) (payload : String)
      → IsSound o
      → Places o identified payload (place adapter recurs passes o identified payload)
  unfolding place
  place-Places o identified payload s =
      elim (Option-cases (find? (names adapter recurs passes identified.command_id) o.records)) [
        | inl e ↦ rw (e, place) (absent o.closing refl)
        | inr (r, e) ↦
            rw (e, place)
              (present r (r.payload == payload) (find?_of_All KeptNow _ o.records r s.kept e))
      ]
    where
      absent :
          (b : Bool)
          → o.closing ≡ b
          → Places o identified payload
              (if b then halted else created (new_record adapter recurs passes identified payload))
      absent true e = tt
      absent false e = (e, refl)

      present :
          (r : CommandRecord State Rejection) (b : Bool)
          → KeptNow r
          → Places o identified payload (if b then live r else conflicted)
      present r true k = k
      present r false k = tt

  start_new :
      0 < passes
      → (o : Owner State Rejection) (identified : Identified) (payload : String) → o.closing ≡ false
      → KeptNow (
          start_sequence adapter recurs passes o.closing
            (record (new_record adapter recurs passes identified payload) { owned = true }))
  start_new some_pass o identified payload open_owner =
      (start_sequence-Sound adapter recurs passes some_pass o.closing
        (record (new_record adapter recurs passes identified payload) { owned = true })
        (record {
          live = refl;
          owned = refl;
          supplied_possible = λ e. ap (is_supplied) e;
          suspected_possible = λ e. false_not-true e;
        })
        tt (λ e. false_not-true e) (λ e. false_not-true (sym open_owner ∙ e))).0

  discard-IsSound :
      (o : Owner State Rejection) (identified : Identified) (payload : String)
      → IsSound o
      → let r = new_record adapter recurs passes identified payload in
        IsSound (
          keep adapter recurs passes
            (record o { records = o.records ++ r ∷ [] })
            (discard adapter recurs passes r))
  unfolding discard filter
  discard-IsSound o identified payload s =
      let r = new_record adapter recurs passes identified payload in
      let apart =
        filter-append (λ x. not (names adapter recurs passes identified.command_id x)) o.records
          (r ∷ []) in
      let gone : filter (λ x. not (names adapter recurs passes identified.command_id x)) (r ∷ [])
          ≡ [] =
        rw (eq_refl identified.command_id) refl in
      record {
        kept = subst (All KeptNow) (sym apart) (
            All-append KeptNow _ _ (All-filter KeptNow _ o.records s.kept)
              (subst (All KeptNow) (sym gone) tt));
        ended = All-append EndedNow o.left _ s.ended (record { over = refl; ended = refl }, tt);
      }

  enroll-IsSound :
      0 < passes
      → (o : Owner State Rejection) (identified : Identified) (payload : String) (adopts : Bool)
        (p : Placement State Rejection)
      → Places o identified payload p
      → IsSound o
      → IsSound (enroll adapter recurs passes o identified adopts p).1
  enroll-IsSound some_pass o identified payload adopts (live r) k s =
      keep-IsSound o r (stays (start_sequence adapter recurs passes o.closing r))
        (start-Sound some_pass o.closing r k) s
  enroll-IsSound some_pass o identified payload true (created r) (open_owner, new) s = record {
    kept = All-append KeptNow o.records _ s.kept (
      subst
          (λ x.
            KeptNow (start_sequence adapter recurs passes o.closing (record x { owned = true })))
          (sym new) (start_new some_pass o identified payload open_owner),
      tt,
    );
    ended = s.ended;
  }
  enroll-IsSound some_pass o identified payload false (created r) (open_owner, new) s =
      subst
        (λ x. IsSound (
          keep adapter recurs passes (record o { records = o.records ++ x ∷ [] })
            (discard adapter recurs passes x)))
        (sym new) (discard-IsSound o identified payload s)
  enroll-IsSound some_pass o identified payload adopts conflicted k s = s
  enroll-IsSound some_pass o identified payload adopts halted k s = s

  submit-IsSound :
      0 < passes
      → (asked prepared o : Owner State Rejection) (identified : Identified) (payload : String)
        (adopts : Bool)
      → IsSound o
      → IsSound (submit adapter recurs passes asked prepared o identified payload adopts).1
  unfolding submit
  submit-IsSound some_pass asked prepared o identified payload adopts s =
      go (is_stopped adapter recurs passes asked || is_stopped adapter recurs passes prepared)
    where
      go :
          (b : Bool)
          → IsSound
              (if b
                then (stopped_before_work adapter recurs passes identified, o)
                else enroll adapter recurs passes o identified adopts
                    (place adapter recurs passes o identified payload)).1
      go true = s
      go false =
          enroll-IsSound some_pass o identified payload adopts _
            (place-Places o identified payload s) s

  step-IsSound :
      IsUpTo recurs
      → 0 < passes
      → (o : Owner State Rejection) (event : Event State Rejection) → IsSound o
      → IsSound (step adapter recurs passes o event)
  unfolding step
  step-IsSound up some_pass o (submits identified payload adopts) s =
      submit-IsSound some_pass o o o identified payload adopts s
  step-IsSound up some_pass o (retries id) s = retry-IsSound some_pass o id s
  step-IsSound up some_pass o (hears id answer) s = hear-IsSound up o id answer s
  step-IsSound up some_pass o scope_closes s = record { kept = s.kept; ended = s.ended }
  step-IsSound up some_pass o records_clear s = record { kept = tt; ended = s.ended }
  step-IsSound up some_pass o actor_closes s = record { kept = s.kept; ended = s.ended }

  run-IsSound :
      IsUpTo recurs
      → 0 < passes
      → (events : List (Event State Rejection)) (o : Owner State Rejection) → IsSound o
      → IsSound (run adapter recurs passes o events)
  unfolding run
  run-IsSound up some_pass [] o s = s
  run-IsSound up some_pass (event ∷ events) o s =
      run-IsSound up some_pass events (step adapter recurs passes o event)
        (step-IsSound up some_pass o event s)

  -- After any history of an owner under a policy of at least one pass, a live record is owned by its
  -- adapter and open. Either it has a worker, with no more passes begun than the policy allows, or it
  -- is idle and shows Uncertain with its own attempt and admission. A record that left was applied with
  -- its admission, discarded before its adapter owned it, or rejected: by a refusal that concludes, or
  -- with a fresh ID when none of the answers that its worker waited for was an admission, a lost reply, a
  -- timeout or a request that died.
  pub run-no_records-IsSound :
      (up : IsUpTo recurs) (some_pass : 0 < passes) (events : List (Event State Rejection))
      → IsSound (run adapter recurs passes no_records events)
  run-no_records-IsSound up some_pass events =
      run-IsSound up some_pass events no_records (record { kept = tt; ended = tt })
