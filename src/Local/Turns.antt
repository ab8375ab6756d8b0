-- ===== src/Local/Turns.antt =====
-- Where the messages of local-engine.ts are, over any history.
use effect_frame.Base.{
  ℕ, zero, suc, ◌+◌, ◌≡◌, refl, ap, Bool, true, false, ◌&&◌, Option, none, some, List, [], ◌∷◌,
  ◌++◌, arith, ltb, leb, eqb, if◌then◌else◌,
}
use effect_frame.Behavior.{Behavior, refusal_of}
use effect_frame.Local
use effect_frame.Local.{
  Envelope, enqueued, autonomous, Reply, succeeded, refused, Worker, waiting, working, replying,
  ended, Event, asks, counts, offers, changes, takes, applies, answers, ends, closes, kept_before,
  taken_at, answer_of, opened, commit_state, state_of, take_envelope, take_by, apply_turn, apply_by,
  reply_by, end_by, count_next, offer_next, on, run,
}

abbrev pub once : Bool → ℕ
once true = 1
once false = 0

-- How often an admission is among those of a list.
abbrev pub times : {A : Type 0} → (A → ℕ → Bool) → ℕ → List A → ℕ
times is n [] = 0
times is n (x ∷ xs) = once (is x n) + times is n xs

abbrev pub is_reply_to : {State Refusal : Type 0} → Reply State Refusal → ℕ → Bool
is_reply_to reply n = eqb (answer_of reply) n

abbrev pub is_message : {State Message : Type 0} → Envelope State Message → ℕ → Bool
is_message (enqueued m derive) n = eqb m n
is_message (autonomous state) n = false

-- In the hands of the worker, or lost with it.
abbrev pub is_held : {State Message Refusal : Type 0} → Worker State Message Refusal → ℕ → Bool
is_held waiting n = false
is_held (working m read sent) n = eqb m n
is_held (replying reply) n = is_reply_to reply n
is_held (ended none) n = false
is_held (ended (some m)) n = eqb m n

-- How often an admission is among the replies, in the mailbox, counted and not offered, and held.
abbrev pub places : {State Message Refusal : Type 0} → Local.Engine State Message Refusal → ℕ → ℕ
places e n =
    times is_reply_to n e.replies
    + times is_message n e.mailbox
    + times is_message n e.counted
    + once (is_held e.worker n)

-- An admission that was given.
abbrev pub is_given : ℕ → ℕ → Bool
is_given admission n = ltb 0 n && leb n admission

given-next : (a n : ℕ) → once (is_given (a + 1) n) ≡ once (is_given a n) + once (eqb (a + 1) n)
given-next a n = ground arith

module _ {A : Type 0} (is : A → ℕ → Bool) (n : ℕ) where
  times-append : (xs : List A) (x : A) → times is n (xs ++ x ∷ []) ≡ times is n xs + once (is x n)
  times-append [] x = omega arith
  times-append (y ∷ xs) x = let h = times-append xs x in omega arith

  abbrev Same : ℕ → Option (A × List A) → Type 0
  Same k none = Unit
  Same k (some (x, others)) = k ≡ once (is x n) + times is n others

  Same-before :
      (y : A) (k : ℕ) (o : Option (A × List A))
      → Same k o
      → Same (once (is y n) + k) (kept_before y o)
  Same-before y k none h = tt
  Same-before y k (some (x, others)) h = omega arith

  taken_at-Same : (index : ℕ) (xs : List A) → Same (times is n xs) (taken_at index xs)
  unfolding taken_at
  taken_at-Same index [] = tt
  taken_at-Same zero (x ∷ xs) = refl
  taken_at-Same (suc index) (x ∷ xs) =
      Same-before x (times is n xs) (taken_at index xs) (taken_at-Same index xs)

module _ {State Message Refusal : Type 0} (behavior : Behavior State Message Refusal)
    (equal : State → State → Bool) (n : ℕ) where
  -- The admission stands in exactly one place if it was given, and in none otherwise.
  abbrev Accounts : Local.Engine State Message Refusal → Type 0
  Accounts e = places e n ≡ once (is_given e.admission n)

  if-Accounts :
      (b : Bool) (l m : Local.Engine State Message Refusal)
      → Accounts l
      → Accounts m
      → Accounts (if b then l else m)
  if-Accounts true l m p q = p
  if-Accounts false l m p q = q

  take-Accounts :
      (e : Local.Engine State Message Refusal) (current : Option State)
      (mailbox : List (Envelope State Message))
      → Accounts (record e { mailbox = mailbox; worker = waiting })
      → Accounts e
      → e.worker ≡ waiting
      → Accounts (take_envelope behavior equal e current mailbox)
  take-Accounts e current [] h a w = a
  take-Accounts e current (autonomous carried ∷ rest) h a w =
      let idle = ap (λ x. once (is_held x n)) w in
      if-Accounts (equal (state_of carried current) e.committed.state) _ _ (omega arith)
        (omega arith)
  take-Accounts e current (enqueued m derive ∷ rest) h a w = omega arith

  take_by-Accounts :
      (e : Local.Engine State Message Refusal) (current : Option State)
      (w : Worker State Message Refusal)
      → e.worker ≡ w
      → Accounts e
      → Accounts (take_by behavior equal e current w)
  take_by-Accounts e current waiting w a =
      let idle = ap (λ x. once (is_held x n)) w in
      take-Accounts e current e.mailbox (omega arith) a w
  take_by-Accounts e current (working m read sent) w a = a
  take_by-Accounts e current (replying reply) w a = a
  take_by-Accounts e current (ended held) w a = a

  apply-Accounts :
      (e : Local.Engine State Message Refusal) (m : ℕ) (read : State) (sent : Message)
      (o : Option Refusal)
      → e.worker ≡ working m read sent
      → Accounts e
      → Accounts (apply_turn behavior equal e m read sent o)
  apply-Accounts e m read sent (some refusal) w a =
      let same = ap (λ x. once (is_held x n)) w in omega arith
  apply-Accounts e m read sent none w a = let same = ap (λ x. once (is_held x n)) w in omega arith

  apply_by-Accounts :
      (e : Local.Engine State Message Refusal) (w : Worker State Message Refusal)
      → e.worker ≡ w
      → Accounts e
      → Accounts (apply_by behavior equal e w)
  apply_by-Accounts e (working m read sent) w a =
      apply-Accounts e m read sent (refusal_of behavior sent) w a
  apply_by-Accounts e waiting w a = a
  apply_by-Accounts e (replying reply) w a = a
  apply_by-Accounts e (ended held) w a = a

  reply_by-Accounts :
      (e : Local.Engine State Message Refusal) (w : Worker State Message Refusal)
      → e.worker ≡ w
      → Accounts e
      → Accounts (reply_by behavior equal e w)
  reply_by-Accounts e (replying reply) w a =
      let same = ap (λ x. once (is_held x n)) w in
      let one_more = times-append is_reply_to n e.replies reply in omega arith
  reply_by-Accounts e waiting w a = a
  reply_by-Accounts e (working m read sent) w a = a
  reply_by-Accounts e (ended held) w a = a

  held-end_by :
      (w : Worker State Message Refusal) → is_held (end_by behavior equal w) n ≡ is_held w n
  held-end_by waiting = refl
  held-end_by (working m read sent) = refl
  held-end_by (replying reply) = refl
  held-end_by (ended held) = refl

  count-Accounts :
      (e : Local.Engine State Message Refusal)
      (o : Option ((State → Message) × List (State → Message)))
      → Accounts e
      → Accounts (count_next behavior equal e o)
  count-Accounts e none a = a
  count-Accounts e (some (derive, others)) a =
      let one_more = times-append is_message n e.counted (enqueued (e.admission + 1) derive) in
      let given = given-next e.admission n in omega arith

  offer-Accounts :
      (e : Local.Engine State Message Refusal)
      (o : Option (Envelope State Message × List (Envelope State Message)))
      → Same is_message n (times is_message n e.counted) o
      → Accounts e
      → Accounts (offer_next behavior equal e o)
  offer-Accounts e none same a = a
  offer-Accounts e (some (envelope, others)) same a =
      let one_more = times-append is_message n e.mailbox envelope in omega arith

  on-Accounts :
      (e : Local.Engine State Message Refusal) (event : Event State Message)
      → Accounts e
      → Accounts (on behavior equal e event)
  unfolding on
  on-Accounts e (asks derive) a = if-Accounts e.stopped e _ a a
  on-Accounts e (counts index) a = count-Accounts e (taken_at index e.askers) a
  on-Accounts e (offers index) a =
      offer-Accounts e (taken_at index e.counted) (taken_at-Same is_message n index e.counted) a
  on-Accounts e (changes state) a =
      let none_more = times-append is_message n e.mailbox (autonomous state) in omega arith
  on-Accounts e (takes current) a = take_by-Accounts e current e.worker refl a
  on-Accounts e applies a = apply_by-Accounts e e.worker refl a
  on-Accounts e answers a = reply_by-Accounts e e.worker refl a
  on-Accounts e ends a = let same = ap once (held-end_by e.worker) in omega arith
  on-Accounts e closes a = a

  run-Accounts :
      (events : List (Event State Message)) (e : Local.Engine State Message Refusal)
      → Accounts e
      → Accounts (run behavior equal e events)
  unfolding run
  run-Accounts [] e a = a
  run-Accounts (event ∷ events) e a =
      run-Accounts events (on behavior equal e event) (on-Accounts e event a)

  -- After any history of a local engine, in which admissions overlap, turns suspend, and a turn that dies or
  -- the close ends the worker at any moment: each admission from 1 to the last one given stands in exactly
  -- one place. It was answered once, it waits in the mailbox once, it is about to be offered, or the worker
  -- has it, at work or ended, and no other number stands anywhere. So no message is answered twice, and none
  -- is lost but the one that the worker ended with.
  pub places-run :
      (events : List (Event State Message))
      → let last = run behavior equal (opened behavior equal) events in
        places last n ≡ once (is_given last.admission n)
  places-run events = run-Accounts events (opened behavior equal) (none_given n)
    where
      none_given : (m : ℕ) → 0 ≡ once (is_given 0 m)
      none_given m = ground arith
