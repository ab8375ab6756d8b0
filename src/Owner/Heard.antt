-- ===== src/Owner/Heard.antt =====
-- What a record of command-owner.ts remembers of the answers that its worker waited for.
use effect_frame.Base.{
  ℕ, ◌≡◌, refl, inl, inr, Bool, true, false, ◌∷◌, if◌then◌else◌, ltb, ◌-◌, some, List, Bool-cases,
}
use effect_frame.Owner.{
  Lifecycle, sent, admitted, applied, rejected, uncertain, lost, refused, lost_pass, Worker,
  resting, due, sending, calling, CommandRecord, Adapter, Answer, begins, admits, settles, fails,
  times_out, dies, Kept, stays, leaves, publish, uncertain_of, idle, end_pass, pass_fails,
  request_ends, classify, hear_at, awaits, note,
}
use effect_frame.Owner.Records.{Ended, KeepsSound, Standing, may_admit}

module _ {State Rejection : Type 0} (adapter : Adapter Rejection) (recurs : ℕ → ℕ → Bool)
    (passes : ℕ) where
  -- The record stays, and its command may have been admitted.
  abbrev Possible : Kept State Rejection → Type 0
  Possible (stays r) = r.possible_admission ≡ true
  Possible (leaves r) = ⊥

  publish-possible :
      (r : CommandRecord State Rejection) (b : Bool) (next : Lifecycle State Rejection)
      → r.possible_admission ≡ true
      → (if b then r else record r { lifecycle = next }).possible_admission ≡ true
  publish-possible r true next may = may
  publish-possible r false next may = may

  idle-possible :
      (r : CommandRecord State Rejection)
      → r.possible_admission ≡ true
      → (idle adapter recurs passes r).possible_admission ≡ true
  unfolding idle
  idle-possible r may = go r.done
    where
      go :
          (b : Bool)
          → (if b then r else record r {
            running = false;
            lifecycle = uncertain_of adapter recurs passes r;
            worker = resting;
          }).possible_admission
            ≡ true
      go true = may
      go false = may

  lost-Possible :
      (r : CommandRecord State Rejection)
      → r.possible_admission ≡ true
      → Possible (pass_fails adapter recurs passes (lost_pass, r))
  unfolding end_pass
  lost-Possible r may = shows (ltb r.attempt passes)
    where
      ends :
          (x : CommandRecord State Rejection) (b : Bool)
          → x.possible_admission ≡ true
          → Possible (
              if b then stays (record x { worker = due }) else stays (idle adapter recurs passes x))
      ends x true may = may
      ends x false may = idle-possible x may

      shows :
          (b : Bool)
          → Possible (
              end_pass adapter recurs passes
                (if b
                  then publish adapter recurs passes r (uncertain_of adapter recurs passes r)
                  else r)
                lost_pass)
      shows true = ends _ (recurs (passes - 1) _) (publish-possible r r.done _ may)
      shows false = ends r (recurs (passes - 1) _) may

  request_ends-Possible :
      (r : CommandRecord State Rejection) (answer : Answer State Rejection)
      → awaits adapter recurs passes calling answer ≡ true
      → may_admit answer ≡ true
      → Possible (request_ends adapter recurs passes r answer)
  unfolding classify
  request_ends-Possible r begins waited may = absurd (cc)
  request_ends-Possible r (admits n) waited may = absurd (cc)
  request_ends-Possible r (settles done) waited may = absurd (cc)
  request_ends-Possible r (fails lost) waited may =
      lost-Possible (record r { possible_admission = true }) refl
  request_ends-Possible r (fails (refused reason)) waited may = absurd (cc)
  request_ends-Possible r times_out waited may =
      lost-Possible (record r { possible_admission = true }) refl
  request_ends-Possible r dies waited may =
      idle-possible (record r { possible_admission = true }) refl

  hear_at-Possible :
      (w : Worker) (r : CommandRecord State Rejection) (answer : Answer State Rejection)
      → awaits adapter recurs passes w answer ≡ true
      → may_admit answer ≡ true
      → Possible (hear_at adapter recurs passes w r answer)
  unfolding hear_at
  hear_at-Possible resting r answer waited may = absurd (cc)
  hear_at-Possible due r answer waited may = absurd (cc)
  hear_at-Possible sending r begins waited may = absurd (cc)
  hear_at-Possible sending r (settles done) waited may = absurd (cc)
  hear_at-Possible sending r (admits n) waited may =
      publish-possible (record r { possible_admission = true; admitted_at = some n }) r.done
        (admitted n) refl
  hear_at-Possible sending r (fails failure) waited may =
      request_ends-Possible r (fails failure) refl may
  hear_at-Possible sending r times_out waited may = request_ends-Possible r times_out refl may
  hear_at-Possible sending r dies waited may = request_ends-Possible r dies refl may
  hear_at-Possible calling r begins waited may = absurd (cc)
  hear_at-Possible calling r (admits n) waited may = absurd (cc)
  hear_at-Possible calling r (settles done) waited may = absurd (cc)
  hear_at-Possible calling r (fails failure) waited may =
      request_ends-Possible r (fails failure) refl may
  hear_at-Possible calling r times_out waited may = request_ends-Possible r times_out refl may
  hear_at-Possible calling r dies waited may = request_ends-Possible r dies refl may

  Ended-note :
      (r : CommandRecord State Rejection) (answer : Answer State Rejection)
      (lifecycle : Lifecycle State Rejection)
      → (may_admit answer ≡ true → ⊥)
      → Ended adapter recurs passes r lifecycle
      → Ended adapter recurs passes (record r { heard = answer ∷ r.heard }) lifecycle
  Ended-note r answer sent clear e = e
  Ended-note r answer (admitted n) clear e = e
  Ended-note r answer (uncertain n at) clear e = e
  Ended-note r answer (applied n done) clear e = e
  Ended-note r answer (rejected reason) clear (inl sure) = inl sure
  Ended-note r answer (rejected reason) clear (inr (fresh_one, none_may)) = inr (
    fresh_one,
    elim (Bool-cases (may_admit answer)) [ inl e ↦ absurd (clear e) | inr e ↦ rw e none_may ],
  )

  Standing-note :
      (w : Worker) (r : CommandRecord State Rejection) (answers : List (Answer State Rejection))
      → Standing adapter recurs passes w r
      → Standing adapter recurs passes w (record r { heard = answers })
  Standing-note resting r answers stands = stands
  Standing-note due r answers stands = stands
  Standing-note sending r answers stands = stands
  Standing-note calling r answers stands = stands

  -- Noting an answer keeps a record sound when an answer that may admit has set the record's flag.
  noted :
      (r : CommandRecord State Rejection) (answer : Answer State Rejection)
      (k : Kept State Rejection)
      → (may_admit answer ≡ true → Possible k)
      → KeepsSound adapter recurs passes r k
      → KeepsSound adapter recurs passes r (note adapter recurs passes true answer k)
  noted r answer (stays r') possible (kept, same) = (
    record {
      held = record {
        live = kept.held.live;
        owned = kept.held.owned;
        supplied_possible = kept.held.supplied_possible;
        suspected_possible = λ e. elim (Bool-cases (may_admit answer)) [
          | inl may ↦ possible may
          | inr clear ↦ kept.held.suspected_possible (rw clear at e)
        ];
      };
      open_now = kept.open_now;
      standing = Standing-note r'.worker r' (answer ∷ r'.heard) kept.standing;
    },
    same,
  )
  noted r answer (leaves r') possible (is_ended, same) = (
    record {
      over = is_ended.over;
      ended = Ended-note r' answer r'.lifecycle possible is_ended.ended;
    },
    same,
  )

  pub note-Sound :
      (w : Worker) (r : CommandRecord State Rejection) (answer : Answer State Rejection)
      → KeepsSound adapter recurs passes r (hear_at adapter recurs passes w r answer)
      → KeepsSound adapter recurs passes r (
          note adapter recurs passes
            (awaits adapter recurs passes w answer)
            answer
            (hear_at adapter recurs passes w r answer))
  note-Sound w r answer sound = elim (Bool-cases (awaits adapter recurs passes w answer)) [
    | inl e ↦ rw e (noted r answer _ (hear_at-Possible w r answer e) sound)
    | inr e ↦ rw e sound
  ]
