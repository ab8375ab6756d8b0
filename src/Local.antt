-- ===== src/Local.antt =====
-- packages/effect-frame/src/actor/local-engine.ts: one in-process actor, with its mailbox and replies. Where
-- the source may suspend or be interrupted, a step ends: an admission asks whether the actor is stopped, counts
-- and offers; a turn takes a message, applies and commits it, and replies. Inspection is left out.
pub mod Turns
pub mod Tests
use effect_frame.Base.{
  ℕ, zero, suc, ◌+◌, Bool, true, false, Option, none, some, List, [], ◌∷◌, ◌++◌, if◌then◌else◌,
}
use effect_frame.Vocabulary.{Committed}
use effect_frame.Behavior.{Behavior, refusal_of}

-- A mailbox entry. `reply_at` names the reply that its sender waits for.
pub data Envelope (State Message : Type 0) : Type 0 where
  enqueued : ℕ → (State → Message) → Envelope State Message
  autonomous : State → Envelope State Message

-- What a reply was completed with.
pub data Reply (State Refusal : Type 0) : Type 0 where
  succeeded : ℕ → Committed State → Reply State Refusal
  refused : ℕ → Refusal → Reply State Refusal

-- Where the worker stands: it waits for an envelope, applies a message to the state it read, is about to
-- reply, or has ended, by a defect of a turn or by the close, perhaps with a message in its hands.
pub data Worker (State Message Refusal : Type 0) : Type 0 where
  waiting : Worker State Message Refusal
  working : ℕ → State → Message → Worker State Message Refusal
  replying : Reply State Refusal → Worker State Message Refusal
  ended : Option ℕ → Worker State Message Refusal

-- `replies` holds the completed replies in order, each with its admission. `askers` passed the test of
-- `stopped`, and the envelopes of `counted` have their admission and are not in the mailbox yet.
pub record Engine (State Message Refusal : Type 0) : Type 0 where
  pub committed : Committed State
  pub admission : ℕ
  pub stopped : Bool
  pub mailbox : List (Envelope State Message)
  pub replies : List (Reply State Refusal)
  pub worker : Worker State Message Refusal
  pub askers : List (State → Message)
  pub counted : List (Envelope State Message)

-- `counts` and `offers` name an admission by its place among those that stand there.
pub data Event (State Message : Type 0) : Type 0 where
  asks : (State → Message) → Event State Message
  counts offers : ℕ → Event State Message
  changes : State → Event State Message
  takes : Option State → Event State Message
  applies answers ends closes : Event State Message

-- The element at a place, and the others.
abbrev pub kept_before : {A : Type 0} → A → Option (A × List A) → Option (A × List A)
kept_before x none = none
kept_before x (some (found, others)) = some (found, x ∷ others)

unfoldable pub taken_at : {A : Type 0} → ℕ → List A → Option (A × List A)
taken_at index [] = none
taken_at zero (x ∷ xs) = some (x, xs)
taken_at (suc index) (x ∷ xs) = kept_before x (taken_at index xs)

abbrev pub commit_state : {State : Type 0} → Committed State → State → Committed State
commit_state current next = record { revision = current.revision + 1; state = next }

-- What an autonomous change commits: the behavior's own state when it names one.
abbrev pub state_of : {State : Type 0} → State → Option State → State
state_of carried none = carried
state_of carried (some current) = current

-- The admission that a reply answers.
abbrev pub answer_of : {State Refusal : Type 0} → Reply State Refusal → ℕ
answer_of (succeeded n done) = n
answer_of (refused n reason) = n

-- `equal` is the test `Equal.equals` of the runtime.
module _ {State Message Refusal : Type 0} (behavior : Behavior State Message Refusal)
    (equal : State → State → Bool) where
  abbrev pub opened : Engine State Message Refusal
  opened = record {
    committed = record { revision = 0; state = behavior.initial };
    admission = 0;
    stopped = false;
    mailbox = [];
    replies = [];
    worker = waiting;
    askers = [];
    counted = [];
  }

  -- An autonomous change commits when it differs. A message is derived from the committed state.
  abbrev pub take_envelope :
      Engine State Message Refusal
      → Option State
      → List (Envelope State Message)
      → Engine State Message Refusal
  take_envelope e current [] = e
  take_envelope e current (autonomous carried ∷ rest) =
      let changed = state_of carried current in
      if equal changed e.committed.state
      then record e { mailbox = rest }
      else record e { mailbox = rest; committed = commit_state e.committed changed }
  take_envelope e current (enqueued n derive ∷ rest) = record e {
    mailbox = rest;
    worker = working n e.committed.state (derive e.committed.state);
  }

  -- With no envelope the worker waits.
  abbrev pub take_by :
      Engine State Message Refusal
      → Option State
      → Worker State Message Refusal
      → Engine State Message Refusal
  take_by e current waiting = take_envelope e current e.mailbox
  take_by e current (working n read sent) = e
  take_by e current (replying reply) = e
  take_by e current (ended held) = e

  -- A refused message is never applied: no turn, no revision. Another one's next state is committed.
  abbrev pub apply_turn :
      Engine State Message Refusal
      → ℕ
      → State
      → Message
      → Option Refusal
      → Engine State Message Refusal
  apply_turn e n read sent (some refusal) = record e { worker = replying (refused n refusal) }
  apply_turn e n read sent none =
      let next = commit_state e.committed (behavior.apply read sent) in
      record e { committed = next; worker = replying (succeeded n next) }

  abbrev pub apply_by :
      Engine State Message Refusal → Worker State Message Refusal → Engine State Message Refusal
  apply_by e (working n read sent) = apply_turn e n read sent (refusal_of behavior sent)
  apply_by e waiting = e
  apply_by e (replying reply) = e
  apply_by e (ended held) = e

  abbrev pub reply_by :
      Engine State Message Refusal → Worker State Message Refusal → Engine State Message Refusal
  reply_by e (replying reply) = record e { replies = e.replies ++ reply ∷ []; worker = waiting }
  reply_by e waiting = e
  reply_by e (working n read sent) = e
  reply_by e (ended held) = e

  -- A turn that dies, and the close, end the worker. The message it had is never answered.
  abbrev pub end_by : Worker State Message Refusal → Worker State Message Refusal
  end_by waiting = ended none
  end_by (working n read sent) = ended (some n)
  end_by (replying reply) = ended (some (answer_of reply))
  end_by (ended held) = ended held

  -- The admission of one that asked.
  abbrev pub count_next :
      Engine State Message Refusal
      → Option ((State → Message) × List (State → Message))
      → Engine State Message Refusal
  count_next e none = e
  count_next e (some (derive, others)) =
      let admitted = e.admission + 1 in
      record e {
        admission = admitted;
        askers = others;
        counted = e.counted ++ enqueued admitted derive ∷ [];
      }

  abbrev pub offer_next :
      Engine State Message Refusal
      → Option (Envelope State Message × List (Envelope State Message))
      → Engine State Message Refusal
  offer_next e none = e
  offer_next e (some (envelope, others)) = record e {
    mailbox = e.mailbox ++ envelope ∷ [];
    counted = others;
  }

  unfoldable pub on :
      Engine State Message Refusal → Event State Message → Engine State Message Refusal
  on e (asks derive) = if e.stopped then e else record e { askers = e.askers ++ derive ∷ [] }
  on e (counts index) = count_next e (taken_at index e.askers)
  on e (offers index) = offer_next e (taken_at index e.counted)
  on e (changes state) = record e { mailbox = e.mailbox ++ autonomous state ∷ [] }
  on e (takes current) = take_by e current e.worker
  on e applies = apply_by e e.worker
  on e answers = reply_by e e.worker
  on e ends = record e { worker = end_by e.worker }
  on e closes = record e { stopped = true }

  unfoldable pub run :
      Engine State Message Refusal → List (Event State Message) → Engine State Message Refusal
  run e [] = e
  run e (event ∷ events) = run (on e event) events
