-- ===== src/Owner/Ends.antt =====
-- How long a sequence of command-owner.ts can last.
use effect_frame.Base.{
  ℕ, suc, ◌+◌, ◌-◌, ◌*◌, ◌≤◌, ◌<◌, ◌≡◌, refl, sym, ap, subst, Bool, true, false, some, arith, ltb,
  if◌then◌else◌,
}
use effect_frame.Owner.{
  Lifecycle, rejected, applied, PassFailure, lost, refused, PassOutcome, lost_pass, hold, reject,
  Worker, resting, due, sending, calling, CommandRecord, Adapter, Answer, begins, admits, settles,
  fails, times_out, dies, Kept, stays, leaves, publish, uncertain_of, finish, classify, idle,
  end_pass, pass_fails, or_zero, reports_admission, request_ends, hear_at,
}
use effect_frame.Owner.Records.{IsUpTo, IsKept, Standing, KeepsSound, hear_at-Sound, unless_lem}

-- The answers that are left to a worker, at most: three for each pass.
abbrev pub budget : ℕ → Worker → ℕ → ℕ
budget passes resting attempt = 0
budget passes due attempt = 3 * (passes - attempt)
budget passes sending attempt = 3 * (passes - attempt) + 2
budget passes calling attempt = 3 * (passes - attempt) + 1

module _ {State Rejection : Type 0} (adapter : Adapter Rejection) (recurs : ℕ → ℕ → Bool)
    (passes : ℕ) where
  -- The answers that a worker waits for.
  abbrev pub awaits : Worker → Answer State Rejection → Bool
  awaits due begins = true
  awaits due answer = false
  awaits sending (admits n) = true
  awaits sending (fails failure) = true
  awaits sending times_out = true
  awaits sending dies = true
  awaits sending answer = false
  awaits calling (settles done) = true
  awaits calling (fails failure) = true
  awaits calling times_out = true
  awaits calling dies = true
  awaits calling answer = false
  awaits resting answer = false

  abbrev pub left_over : Kept State Rejection → ℕ
  left_over (stays r) = budget passes r.worker r.attempt
  left_over (leaves r) = 0

  -- A pass that ends leaves at most the budget of a due one.
  idle-rests :
      (r : CommandRecord State Rejection)
      → r.done ≡ false
      → left_over (stays (idle adapter recurs passes r)) ≡ 0
  unfolding idle
  idle-rests r live = ap (λ x. budget passes x.worker x.attempt) (unless_lem r.done r _ live)

  finish-leaves :
      (r : CommandRecord State Rejection) (terminal : Lifecycle State Rejection)
      → r.done ≡ false
      → left_over (finish adapter recurs passes r terminal) ≡ 0
  unfolding finish
  finish-leaves r terminal live = ap left_over (unless_lem r.done (stays r) _ live)

  lost-budget :
      (r : CommandRecord State Rejection)
      → r.done ≡ false
      → left_over (end_pass adapter recurs passes r lost_pass) ≤ 3 * (passes - r.attempt)
  unfolding end_pass
  lost-budget r live = go (recurs (passes - 1) (r.attempt - 1))
    where
      go :
          (b : Bool)
          → left_over (
              if b then stays (record r { worker = due }) else stays (idle adapter recurs passes r))
            ≤ 3 * (passes - r.attempt)
      go true = omega arith
      go false = omega (arith, idle-rests r live)

  pass_fails-budget :
      (r : CommandRecord State Rejection) (outcome : PassOutcome Rejection)
      → r.done ≡ false
      → left_over (pass_fails adapter recurs passes (outcome, r)) ≤ 3 * (passes - r.attempt)
  unfolding end_pass
  pass_fails-budget r hold live = omega (arith, idle-rests r live)
  pass_fails-budget r (reject reason) live = omega (arith, finish-leaves r (rejected reason) live)
  pass_fails-budget r lost_pass live = go (ltb r.attempt passes)
    where
      go :
          (b : Bool)
          → left_over (
              end_pass adapter recurs passes
                (if b
                  then publish adapter recurs passes r (uncertain_of adapter recurs passes r)
                  else r)
                lost_pass)
            ≤ 3 * (passes - r.attempt)
      go false = lost-budget r live
      go true =
          subst
            (λ x. left_over (end_pass adapter recurs passes x lost_pass) ≤ 3 * (passes - r.attempt))
            (sym (unless_lem r.done r _ live))
            (lost-budget (record r { lifecycle = uncertain_of adapter recurs passes r }) live)

  -- A request that fails, is overdue or has a defect.
  fails-budget :
      (r : CommandRecord State Rejection) (failure : PassFailure Rejection)
      → r.done ≡ false
      → left_over (request_ends adapter recurs passes r (fails failure)) ≤ 3 * (passes - r.attempt)
  unfolding classify
  fails-budget r lost live =
      pass_fails-budget (record r { possible_admission = true }) lost_pass live
  fails-budget r (refused reason) live =
      pass_fails-budget r (classify adapter recurs passes r (refused reason)).0 live

  times_out-budget :
      (r : CommandRecord State Rejection)
      → r.done ≡ false
      → left_over (request_ends adapter recurs passes r times_out) ≤ 3 * (passes - r.attempt)
  times_out-budget r live =
      pass_fails-budget (record r { possible_admission = true }) lost_pass live

  dies-budget :
      (r : CommandRecord State Rejection)
      → r.done ≡ false
      → left_over (request_ends adapter recurs passes r dies) ≤ 3 * (passes - r.attempt)
  dies-budget r live = omega (arith, idle-rests (record r { possible_admission = true }) live)

  admits-budget :
      (r : CommandRecord State Rejection) (n : ℕ)
      → r.done ≡ false
      → left_over (stays (reports_admission adapter recurs passes r n))
        ≡ 3 * (passes - r.attempt) + 1
  admits-budget r n live =
      ap (λ x. 3 * (passes - x.attempt) + 1)
        (unless_lem r.done (record r { possible_admission = true; admitted_at = some n }) _ live)

  hear_at-less :
      (w : Worker) (r : CommandRecord State Rejection) (answer : Answer State Rejection)
      → Standing adapter recurs passes w r
      → r.done ≡ false
      → awaits w answer ≡ true
      → left_over (hear_at adapter recurs passes w r answer) < budget passes w r.attempt
  unfolding hear_at
  hear_at-less due r begins (on, below) live a = omega arith
  hear_at-less sending r (admits n) stands live a = omega (arith, admits-budget r n live)
  hear_at-less sending r (fails failure) stands live a = omega (arith, fails-budget r failure live)
  hear_at-less sending r times_out stands live a = omega (arith, times_out-budget r live)
  hear_at-less sending r dies stands live a = omega (arith, dies-budget r live)
  hear_at-less calling r (settles done) stands live a =
      omega (arith, finish-leaves r (applied (or_zero r.admitted_at) done) live)
  hear_at-less calling r (fails failure) stands live a = omega (arith, fails-budget r failure live)
  hear_at-less calling r times_out stands live a = omega (arith, times_out-budget r live)
  hear_at-less calling r dies stands live a = omega (arith, dies-budget r live)
  hear_at-less w r answer stands live a = absurd (ground arith)

  -- The worker of a record hears that many awaited answers in turn.
  pub data Runs : CommandRecord State Rejection → ℕ → Type 0 where
    rests : (r : CommandRecord State Rejection) → Runs r 0
    goes_on :
        (r r' : CommandRecord State Rejection) (answer : Answer State Rejection) (n : ℕ)
        → awaits r.worker answer ≡ true
        → hear_at adapter recurs passes r.worker r answer ≡ stays r'
        → Runs r' n
        → Runs r (suc n)
    quits :
        (r r' : CommandRecord State Rejection) (answer : Answer State Rejection)
        → awaits r.worker answer ≡ true
        → hear_at adapter recurs passes r.worker r answer ≡ leaves r'
        → Runs r 1

  Runs-budget :
      IsUpTo recurs
      → (r : CommandRecord State Rejection) (n : ℕ) → IsKept adapter recurs passes r
      → Runs r n
      → n ≤ budget passes r.worker r.attempt
  Runs-budget up _ _ k (rests r) = omega arith
  Runs-budget up _ _ k (goes_on r r' answer m a heard rest) =
      let sound = hear_at-Sound adapter recurs passes up r.worker r answer refl k.standing k in
      let k' = (subst (KeepsSound adapter recurs passes r) heard sound).0 in
      let less = hear_at-less r.worker r answer k.standing k.held.live a in
      let now = ap left_over heard in omega (arith, Runs-budget up r' m k' rest)
  Runs-budget up _ _ k (quits r r' answer a heard) =
      let less = hear_at-less r.worker r answer k.standing k.held.live a in omega arith

  -- From any record an owner keeps, no run of its worker is longer than three awaited answers for each
  -- pass of the policy, whatever the answers are, so every sequence ends.
  pub Runs-le :
      (up : IsUpTo recurs) (r : CommandRecord State Rejection) (n : ℕ)
      → IsKept adapter recurs passes r
      → Runs r n
      → n ≤ 3 * passes
  Runs-le up r n k runs = go r.worker k.standing (Runs-budget up r n k runs)
    where
      go :
          (w : Worker)
          → Standing adapter recurs passes w r
          → n ≤ budget passes w r.attempt
          → n ≤ 3 * passes
      go resting stands h = omega arith
      go due (on, below) h = omega arith
      go sending (on, low, high) h = omega arith
      go calling (on, low, high, was) h = omega arith
