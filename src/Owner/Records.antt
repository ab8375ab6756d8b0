-- ===== src/Owner/Records.antt =====
-- One retained record of command-owner.ts under every answer that its worker can receive.
use effect_frame.Base.{
  ℕ, ◌-◌, ◌≤◌, ◌<◌, ◌≡◌, refl, sym, ap, subst, ◌∙◌, ◌⊎◌, inl, inr, Bool, true, false, not, ◌||◌,
  some, ◌==◌, arith, ltb, Bool-cases, List, [], ◌∷◌, if◌then◌else◌,
}
use effect_frame.Owner.{
  Identity, fresh, supplied, Lifecycle, sent, admitted, applied, rejected, uncertain, lost, refused,
  PassOutcome, lost_pass, hold, reject, Worker, resting, due, sending, calling, CommandRecord,
  Adapter, Answer, begins, admits, settles, fails, times_out, dies, Kept, stays, leaves, publish,
  uncertain_of, finish, is_conclusive, classify, idle, end_pass, pass_fails, or_zero, request_ends,
  hear_at, start_sequence,
}

-- An answer after which the command may have been admitted: its admission, or the end of a request with no
-- answer of the actor's own.
abbrev pub may_admit : {State Rejection : Type 0} → Answer State Rejection → Bool
may_admit begins = false
may_admit (admits n) = true
may_admit (settles done) = false
may_admit (fails lost) = true
may_admit (fails (refused reason)) = false
may_admit times_out = true
may_admit dies = true

abbrev pub suspected : {State Rejection : Type 0} → List (Answer State Rejection) → Bool
suspected [] = false
suspected (answer ∷ answers) = if may_admit answer then true else suspected answers

-- What the model relies on of the schedule `upTo { times }`: it allows `times` recurrences.
abbrev pub IsUpTo : (ℕ → ℕ → Bool) → Type 0
IsUpTo recurs = (times done : ℕ) → recurs times done ≡ ltb done times

pub unless_lem : {A : Type 0} (b : Bool) (x y : A) → b ≡ false → (if b then x else y) ≡ y
unless_lem b x y h = rw h refl

abbrev reason_in : {Rejection : Type 0} → Rejection → PassOutcome Rejection → Rejection
reason_in other (reject reason) = reason
reason_in other hold = other
reason_in other lost_pass = other

reject-injective : {Rejection : Type 0} {x y : Rejection} → reject x ≡ reject y → x ≡ y
reject-injective {x = x} e = ap (reason_in x) e

module _ {State Rejection : Type 0} (adapter : Adapter Rejection) (recurs : ℕ → ℕ → Bool)
    (passes : ℕ) where
  abbrev pub Open : Lifecycle State Rejection → Type 0
  Open sent = Unit
  Open (admitted n) = Unit
  Open (uncertain n at) = Unit
  Open (applied n done) = ⊥
  Open (rejected reason) = ⊥

  -- A record with no worker is idle and Uncertain. A pass that is due or out stays within the bound.
  abbrev pub Standing : Worker → CommandRecord State Rejection → Type 0
  Standing resting r =
      (r.running ≡ false) × (r.lifecycle ≡ uncertain r.attempt r.admitted_at) × (r.attempt ≤ passes)
  Standing due r = (r.running ≡ true) × (r.attempt < passes)
  Standing sending r = (r.running ≡ true) × (0 < r.attempt) × (r.attempt ≤ passes)
  Standing calling r =
      (r.running ≡ true)
      × (0 < r.attempt)
      × (r.attempt ≤ passes)
      × ((n : ℕ) × (r.admitted_at ≡ some n))

  -- A record that its owner holds and its adapter owns. A supplied ID may be admitted elsewhere.
  pub record IsHeld (r : CommandRecord State Rejection) : Type 0 where
    pub live : r.done ≡ false
    pub owned : r.owned ≡ true
    pub supplied_possible : r.identity ≡ supplied → r.possible_admission ≡ true
    pub suspected_possible : suspected r.heard ≡ true → r.possible_admission ≡ true

  pub record IsKept (r : CommandRecord State Rejection) : Type 0 where
    pub held : IsHeld r
    pub open_now : Open r.lifecycle
    pub standing : Standing r.worker r

  -- A refusal ends a record only when it concludes, or when no answer left an admission possible.
  abbrev pub Ended : CommandRecord State Rejection → Lifecycle State Rejection → Type 0
  Ended r sent = r.owned ≡ false
  Ended r (admitted n) = ⊥
  Ended r (uncertain n at) = ⊥
  Ended r (applied n done) = r.admitted_at ≡ some n
  Ended r (rejected reason) =
      (is_conclusive adapter reason ≡ true) ⊎ ((r.identity ≡ fresh) × (suspected r.heard ≡ false))

  pub record IsEnded (r : CommandRecord State Rejection) : Type 0 where
    pub over : r.done ≡ true
    pub ended : Ended r r.lifecycle

  -- The ID, the provenance and the bytes of a command never change.
  abbrev pub IsSame : CommandRecord State Rejection → CommandRecord State Rejection → Type 0
  IsSame r r' =
      (r'.command_id ≡ r.command_id) × (r'.identity ≡ r.identity) × (r'.payload ≡ r.payload)

  abbrev pub KeepsSound : CommandRecord State Rejection → Kept State Rejection → Type 0
  KeepsSound r (stays r') = IsKept r' × IsSame r r'
  KeepsSound r (leaves r') = IsEnded r' × IsSame r r'

  abbrev Opened : CommandRecord State Rejection → Type 0
  Opened r =
      IsHeld r × (0 < r.attempt) × (r.attempt ≤ passes) × (r.running ≡ true) × Open r.lifecycle

  idle-Sound :
      (r : CommandRecord State Rejection)
      → IsHeld r
      → r.attempt ≤ passes
      → KeepsSound r (stays (idle adapter recurs passes r))
  unfolding idle
  idle-Sound r h le =
      subst (λ x. KeepsSound r (stays x)) (sym (unless_lem r.done r _ h.live))
        (
          record {
            held = record {
              live = h.live;
              owned = h.owned;
              supplied_possible = h.supplied_possible;
              suspected_possible = h.suspected_possible;
            };
            open_now = tt;
            standing = (refl, refl, le);
          },
          (refl, refl, refl),
        )

  finish-Sound :
      (r : CommandRecord State Rejection) (terminal : Lifecycle State Rejection)
      → IsHeld r
      → Ended r terminal
      → KeepsSound r (finish adapter recurs passes r terminal)
  unfolding finish
  finish-Sound r terminal h ended =
      subst (KeepsSound r) (sym (unless_lem r.done (stays r) _ h.live))
        (record { over = refl; ended = ended_as terminal ended }, (refl, refl, refl))
    where
      ended_as :
          (terminal : Lifecycle State Rejection)
          → Ended r terminal
          → Ended (record r { done = true; lifecycle = terminal; worker = resting }) terminal
      ended_as sent e = e
      ended_as (admitted n) e = e
      ended_as (uncertain n at) e = e
      ended_as (applied n done) e = e
      ended_as (rejected reason) e = e

  recur-Sound :
      (r : CommandRecord State Rejection) (b : Bool)
      → Opened r
      → (b ≡ true → r.attempt < passes)
      → KeepsSound r
          (if b then stays (record r { worker = due }) else stays (idle adapter recurs passes r))
  recur-Sound r true (h, low, high, on, open_now) below = (
    record {
      held = record {
        live = h.live;
        owned = h.owned;
        supplied_possible = h.supplied_possible;
        suspected_possible = h.suspected_possible;
      };
      open_now = open_now;
      standing = (on, below refl);
    },
    (refl, refl, refl),
  )
  recur-Sound r false (h, low, high, on, open_now) below = idle-Sound r h high

  -- A pass that is shown as lost is the same record with another open lifecycle, or the record itself.
  shown :
      (P : CommandRecord State Rejection → Type 0) (b : Bool) (r : CommandRecord State Rejection)
      → r.done ≡ false
      → P r
      → P (record r { lifecycle = uncertain_of adapter recurs passes r })
      → P (if b then publish adapter recurs passes r (uncertain_of adapter recurs passes r) else r)
  shown P true r live p q = subst P (sym (unless_lem r.done r _ live)) q
  shown P false r live p q = p

  held_as :
      (r : CommandRecord State Rejection) (lifecycle : Lifecycle State Rejection)
      → IsHeld r
      → IsHeld (record r { lifecycle = lifecycle })
  held_as r lifecycle h = record {
    live = h.live;
    owned = h.owned;
    supplied_possible = h.supplied_possible;
    suspected_possible = h.suspected_possible;
  }

  lost-Sound :
      IsUpTo recurs
      → (r : CommandRecord State Rejection) → Opened r
      → KeepsSound r (end_pass adapter recurs passes r lost_pass)
  unfolding end_pass
  lost-Sound up r o =
      recur-Sound r (recurs (passes - 1) (r.attempt - 1)) o
        (λ allowed. below (sym (up (passes - 1) (r.attempt - 1)) ∙ allowed) o.1)
    where
      below : ltb (r.attempt - 1) (passes - 1) ≡ true → 0 < r.attempt → r.attempt < passes
      below allowed low = ground arith

  pass_fails-Sound :
      IsUpTo recurs
      → (r : CommandRecord State Rejection) (outcome : PassOutcome Rejection) → Opened r
      → ((reason : Rejection) → outcome ≡ reject reason → Ended r (rejected reason))
      → KeepsSound r (pass_fails adapter recurs passes (outcome, r))
  unfolding end_pass
  pass_fails-Sound up r lost_pass o concludes =
      let (h, low, high, on, open_now) = o in
      shown (λ x. KeepsSound r (end_pass adapter recurs passes x lost_pass)) (ltb r.attempt passes)
        r h.live (lost-Sound up r o)
        (lost-Sound up (record r { lifecycle = uncertain_of adapter recurs passes r })
          (held_as r _ h, low, high, on, tt))
  pass_fails-Sound up r hold (h, low, high, on, open_now) concludes = idle-Sound r h high
  pass_fails-Sound up r (reject reason) (h, low, high, on, open_now) concludes =
      finish-Sound r (rejected reason) h (concludes reason refl)

  -- A refusal that ends the pass concludes, or nothing may have been admitted.
  concluded :
      (r : CommandRecord State Rejection) (reason other : Rejection)
      → IsHeld r
      → (classify adapter recurs passes r (refused reason)).0 ≡ reject other
      → Ended r (rejected other)
  unfolding classify
  concluded r reason other h e =
      go (is_conclusive adapter reason) r.possible_admission
        (adapter.tag_of reason == "ActorStopped") refl refl e
    where
      never_supplied :
          r.possible_admission ≡ false → (i : Identity) → r.identity ≡ i → r.identity ≡ fresh
      never_supplied none_may fresh same = same
      never_supplied none_may supplied same = absurd (ground (arith, h.supplied_possible same))

      unsuspected : r.possible_admission ≡ false → suspected r.heard ≡ false
      unsuspected none_may = elim (Bool-cases (suspected r.heard)) [
        | inl e ↦ absurd (cc (h.suspected_possible e))
        | inr e ↦ e
      ]

      go :
          (c p stop : Bool)
          → is_conclusive adapter reason ≡ c
          → r.possible_admission ≡ p
          → (if c || not p then reject reason else if stop then lost_pass else hold) ≡ reject other
          → Ended r (rejected other)
      go true p stop sure may e =
          inl (subst (λ x. is_conclusive adapter x ≡ true) (reject-injective e) sure)
      go false false stop sure may e = inr (never_supplied may r.identity refl, unsuspected may)
      go false true true sure may e = absurd (cc)
      go false true false sure may e = absurd (cc)

  possibly :
      (r : CommandRecord State Rejection)
      → IsHeld r
      → IsHeld (record r { possible_admission = true })
  possibly r h = record {
    live = h.live;
    owned = h.owned;
    supplied_possible = λ _. refl;
    suspected_possible = λ _. refl;
  }

  still : (r : CommandRecord State Rejection) → IsKept r → KeepsSound r (stays r)
  still r k = (k, (refl, refl, refl))

  request_ends-Sound :
      IsUpTo recurs
      → (r : CommandRecord State Rejection) (answer : Answer State Rejection) → Opened r
      → IsKept r
      → KeepsSound r (request_ends adapter recurs passes r answer)
  unfolding classify
  request_ends-Sound up r (fails lost) (h, low, high, on, open_now) stands =
      pass_fails-Sound up (record r { possible_admission = true }) lost_pass
        (possibly r h, low, high, on, open_now) (λ reason e. absurd (cc))
  request_ends-Sound up r (fails (refused reason)) o stands =
      pass_fails-Sound up r (classify adapter recurs passes r (refused reason)).0 o
        (λ other e. concluded r reason other o.0 e)
  request_ends-Sound up r times_out (h, low, high, on, open_now) stands =
      pass_fails-Sound up (record r { possible_admission = true }) lost_pass
        (possibly r h, low, high, on, open_now) (λ reason e. absurd (cc))
  request_ends-Sound up r dies (h, low, high, on, open_now) stands =
      idle-Sound (record r { possible_admission = true }) (possibly r h) high
  request_ends-Sound up r begins o stands = still r stands
  request_ends-Sound up r (admits n) o stands = still r stands
  request_ends-Sound up r (settles done) o stands = still r stands

  pub hear_at-Sound :
      IsUpTo recurs
      → (w : Worker) (r : CommandRecord State Rejection) (answer : Answer State Rejection)
      → r.worker ≡ w
      → Standing w r
      → IsKept r
      → KeepsSound r (hear_at adapter recurs passes w r answer)
  unfolding hear_at
  hear_at-Sound up resting r answer at stands k = still r k
  hear_at-Sound up due r begins at (on, below) k = (
    record {
      held = record {
        live = k.held.live;
        owned = k.held.owned;
        supplied_possible = k.held.supplied_possible;
        suspected_possible = k.held.suspected_possible;
      };
      open_now = k.open_now;
      standing = (on, omega arith, omega arith);
    },
    (refl, refl, refl),
  )
  hear_at-Sound up due r answer at stands k = still r k
  hear_at-Sound up sending r (admits n) at (on, low, high) k =
      subst (λ x. KeepsSound r (stays (record x { worker = calling })))
        (sym (unless_lem r.done r' (record r' { lifecycle = admitted n }) k.held.live))
        (
          record {
            held = record {
              live = k.held.live;
              owned = k.held.owned;
              supplied_possible = λ _. refl;
              suspected_possible = λ _. refl;
            };
            open_now = tt;
            standing = (on, low, high, (n, refl));
          },
          (refl, refl, refl),
        )
    where
      r' : CommandRecord State Rejection
      r' = record r { possible_admission = true; admitted_at = some n }
  hear_at-Sound up sending r answer at (on, low, high) k =
      request_ends-Sound up r answer (k.held, low, high, on, k.open_now) k
  hear_at-Sound up calling r (settles done) at (on, low, high, (n, was)) k =
      finish-Sound r (applied (or_zero r.admitted_at) done) k.held
        (was ∙ ap (λ a. some (or_zero a)) (sym was))
  hear_at-Sound up calling r answer at (on, low, high, was) k =
      request_ends-Sound up r answer (k.held, low, high, on, k.open_now) k

  -- A sequence starts only on an idle record that its adapter owns.
  pub start_sequence-Sound :
      0 < passes
      → (closing : Bool) (r : CommandRecord State Rejection) → IsHeld r
      → Open r.lifecycle
      → (r.running ≡ true → IsKept r)
      → (closing ≡ true → IsKept r)
      → KeepsSound r (stays (start_sequence adapter recurs passes closing r))
  unfolding start_sequence
  start_sequence-Sound some_pass closing r h open_now busy shut =
      go (r.done || r.running || not r.owned || closing) refl
    where
      go :
          (b : Bool)
          → (r.done || r.running || not r.owned || closing) ≡ b
          → KeepsSound r
              (stays (if b then r else record r { running = true; attempt = 0; worker = due }))
      go true e = still r (reason_of r.running closing refl refl)
        where
          reason_of : (on off : Bool) → r.running ≡ on → closing ≡ off → IsKept r
          reason_of true off is_on is_off = busy is_on
          reason_of false true is_on is_off = shut is_off
          reason_of false false is_on is_off = absurd (ground (arith, h.live, h.owned))
      go false e = (
        record {
          held = record {
            live = h.live;
            owned = h.owned;
            supplied_possible = h.supplied_possible;
            suspected_possible = h.suspected_possible;
          };
          open_now = open_now;
          standing = (refl, some_pass);
        },
        (refl, refl, refl),
      )
