-- ===== src/Engine.antt =====
-- packages/effect-frame/src/actor/durable-engine.ts: one durable actor over a mailbox store.
-- The author's codecs, the hash and the behavior are parameters. An encoder or a decoder that fails is
-- a defect (`orDie`): `none`. Every point where another fiber may run ends a step of the model: a
-- commit in the store and its publication are two steps.
pub mod Synced
pub mod Run
pub mod Reopen
pub mod Refuse
pub mod Tests
use mathlib.Core.Option
use effect_frame.Base.{
  ℕ, suc, ◌+◌, ◌≡◌, Bool, true, false, not, ◌||◌, ◌&&◌, Option, none, some, List, [], ◌∷◌, ◌++◌,
  map, String, ◌==◌, leb, if◌then◌else◌, any,
}
use effect_frame.Vocabulary.{Committed, DurableReceipt}
use effect_frame.Behavior.{Behavior, wake_of, refusal_of}
use effect_frame.Mailbox
use effect_frame.Mailbox.{
  PendingCommand, StoredReceipt, AppendInput, Appended, AppendOutcome, appended, command_conflict,
  admitted, duplicate,
}

-- What the engine is opened with: the behavior, its codecs and the hash of the runtime.
pub record Options (State Message Refusal : Type 0) : Type 0 where
  pub behavior : Behavior State Message Refusal
  pub encode_state : State → Option String
  pub decode_state : String → Option State
  pub decode_message : String → Option Message
  pub hash : String → ℕ

-- A wake of the worker.
pub data Wake (State : Type 0) : Type 0 where
  on_admission : Wake State
  autonomous : State → Wake State

-- A commit that the store holds and the engine has not yet published.
pub record Unpublished (State : Type 0) : Type 0 where
  pub revision : ℕ
  pub state : State
  pub encoded : String

pub record Engine (State : Type 0) : Type 0 where
  pub store : Mailbox.Log
  pub committed : Committed State
  pub last_encoded : Option String
  pub signal : List (Wake State)
  pub unpublished : Option (Unpublished State)
  pub closed : Bool
  pub alive : Bool

-- Why a submission is not admitted, or its receipt. `died` is a defect of a decoder.
pub data SendEnd (Refusal : Type 0) : Type 0 where
  accepted : DurableReceipt → SendEnd Refusal
  actor_stopped : SendEnd Refusal
  conflicts : String → SendEnd Refusal
  refuses : Refusal → SendEnd Refusal
  died : SendEnd Refusal

infixl 5 ◌>>=◌
abbrev pub ◌>>=◌ : {A B : Type 0} → Option A → (A → Option B) → Option B
none >>= k = none
some a >>= k = k a

abbrev pub includes : String → List String → Bool
includes id = any (λ k. k == id)

abbrev pub is_some : {A : Type 0} → Option A → Bool
is_some none = false
is_some (some a) = true

-- Whether the store holds a command with this ID, pending or committed.
unfoldable pub holds : Mailbox.Log → String → Bool
holds store id =
    if is_some (Mailbox.receipt store id) then true else includes id (Mailbox.pending store)

module _ {State Message Refusal : Type 0} (options : Options State Message Refusal) where
  open options use {behavior, encode_state, decode_state, decode_message, hash}

  abbrev pub opened_at : Mailbox.Log → Committed State → String → Engine State
  opened_at store restored encoded = record {
    store = store;
    committed = restored;
    last_encoded = some encoded;
    signal = [];
    unpublished = none;
    closed = false;
    alive = true;
  }

  -- A fresh actor starts from the initial state and spends no revision on it, unless that state names
  -- a wake: then it is committed with its wake.
  unfoldable pub open_initial : Mailbox.Log → Option (Mailbox.Log × Committed State)
  open_initial store = elim (wake_of behavior behavior.initial) [
    | none ↦ some (store, record { revision = 0; state = behavior.initial })
    | some at ↦ do
      encoded ← encode_state behavior.initial
      let (advanced, store') = Mailbox.advance store encoded (some at)
      some (store', record { revision = advanced.revision; state = behavior.initial })
  ]

  abbrev pub restored_from :
      Mailbox.Log → Option Mailbox.Committed → Option (Mailbox.Log × Committed State)
  restored_from store none = open_initial store
  restored_from store (some found) = do
    state ← decode_state found.state
    some (store, record { revision = found.revision; state = state })

  unfoldable pub restore : Mailbox.Log → Option (Mailbox.Log × Committed State)
  restore store = restored_from store (Mailbox.latest store)

  unfoldable pub open_durable : Mailbox.Log → Option (Engine State)
  open_durable store = do
    (store', restored) ← restore store
    encoded ← encode_state restored.state
    some (opened_at store' restored encoded)

  -- The store has committed `next`, and the engine has yet to publish it.
  abbrev pub commits_next :
      Engine State → State → String → StoredReceipt × Mailbox.Log → Engine State
  commits_next e next encoded (receipt, store') = record e {
    store = store';
    unpublished = some (record { revision = receipt.revision; state = next; encoded = encoded });
  }

  abbrev pub commit_encoded : Engine State → PendingCommand → State → String → Option (Engine State)
  commit_encoded e command next encoded = do
    done ← Mailbox.commit e.store command.command_id encoded (wake_of behavior next)
    some (commits_next e next encoded done)

  -- The first half of `processCommand`: the turn, and the commit in the store.
  unfoldable pub process_commit : Engine State → PendingCommand → Option (Engine State)
  process_commit e command = do
    message ← decode_message command.payload
    let next = behavior.apply e.committed.state message
    encoded ← encode_state next
    commit_encoded e command next encoded

  -- What an autonomous change commits: the behavior's own state when it names one.
  abbrev pub state_of : State → Option State → State
  state_of carried none = carried
  state_of carried (some current) = current

  abbrev pub same_text : Option String → String → Bool
  same_text none encoded = false
  same_text (some previous) encoded = previous == encoded

  abbrev pub advances_to : Engine State → State → String → Option (Engine State)
  advances_to e changed encoded =
      let (advanced, store') = Mailbox.advance e.store encoded (wake_of behavior changed) in
      if same_text e.last_encoded encoded
      then some e
      else some (record e {
        store = store';
        unpublished =
            some (record { revision = advanced.revision; state = changed; encoded = encoded });
      })

  -- The first half of `processAutonomous`: a state that encodes as the last one commits nothing.
  unfoldable pub process_autonomous : Engine State → State → Option State → Option (Engine State)
  process_autonomous e carried current = do
    let changed = state_of carried current
    encoded ← encode_state changed
    advances_to e changed encoded

  abbrev pub take_wake : Engine State → Option State → List (Wake State) → Option (Engine State)
  take_wake e current [] = some e
  take_wake e current (on_admission ∷ rest) = some (record e { signal = rest })
  take_wake e current (autonomous carried ∷ rest) =
      process_autonomous (record e { signal = rest }) carried current

  -- The oldest pending command first, then the next wake. With neither the worker waits.
  unfoldable pub process_next : Engine State → Option State → Option (Engine State)
  process_next e current = elim (Mailbox.next e.store) [
    | some command ↦ process_commit e command
    | none ↦ take_wake e current e.signal
  ]

  -- The second half of both: the committed source follows the store.
  unfoldable pub publish : Engine State → Unpublished State → Engine State
  publish e done = record e {
    committed = record { revision = done.revision; state = done.state };
    last_encoded = some done.encoded;
    unpublished = none;
  }

  -- A defect ends the worker.
  abbrev pub or_dead : Engine State → Option (Engine State) → Engine State
  or_dead e none = record e { alive = false }
  or_dead e (some e') = e'

  abbrev pub turn_or_publish :
      Engine State → Option State → Option (Unpublished State) → Engine State
  turn_or_publish e current none = or_dead e (process_next e current)
  turn_or_publish e current (some done) = publish e done

  -- One step of the worker fiber, which the engine's scope interrupts when it closes.
  unfoldable pub work : Engine State → Option State → Engine State
  work e current = if e.closed || not e.alive then e else turn_or_publish e current e.unpublished

  abbrev pub refused_unless : Bool → Option Refusal → Option Refusal
  refused_unless held none = none
  refused_unless true (some refusal) = none
  refused_unless false (some refusal) = some refusal

  -- A command the store holds is answered from its record, never refused. `none` is a defect.
  unfoldable pub refuse_new : Engine State → String → String → Option (Option Refusal)
  refuse_new e id payload = elim behavior.refuse [
    | none ↦ some none
    | some _ ↦ do
      message ← decode_message payload
      some (refused_unless (holds e.store id) (refusal_of behavior message))
  ]

  abbrev pub input_of : String → String → AppendInput
  input_of id payload = record { command_id = id; payload = payload; payload_hash = hash payload }

  abbrev pub reply_to : String → AppendOutcome → SendEnd Refusal
  reply_to id (command_conflict other) = conflicts other
  reply_to id (appended (admitted n)) =
      accepted (record { command_id = id; admitted = n; committed = none })
  reply_to id (appended (duplicate n receipt)) =
      accepted
        (record { command_id = id; admitted = n; committed = Option.map (λ r. r.revision) receipt })

  -- A new admission wakes the worker.
  abbrev pub signalled : AppendOutcome → List (Wake State) → List (Wake State)
  signalled (command_conflict other) signal = signal
  signalled (appended (admitted n)) signal = signal ++ on_admission ∷ []
  signalled (appended (duplicate n receipt)) signal = signal

  unfoldable pub admit : Engine State → String → String → SendEnd Refusal × Engine State
  admit e id payload =
      let (outcome, store') = Mailbox.append_to_log e.store (input_of id payload) in
      (reply_to id outcome, record e { store = store'; signal = signalled outcome e.signal })

  abbrev pub answer_send :
      Engine State → String → String → Option (Option Refusal) → SendEnd Refusal × Engine State
  answer_send e id payload none = (died, e)
  answer_send e id payload (some none) = admit e id payload
  answer_send e id payload (some (some refusal)) = (refuses refusal, e)

  unfoldable pub send_encoded : Engine State → String → String → SendEnd Refusal × Engine State
  send_encoded e id payload =
      if e.closed then (actor_stopped, e) else answer_send e id payload (refuse_new e id payload)

  -- The encoder may suspend: `later` is the engine once it has the payload.
  unfoldable pub send_prepared :
      Engine State → Engine State → String → String → SendEnd Refusal × Engine State
  unfolding send_encoded
  send_prepared e later id payload =
      if e.closed then (actor_stopped, later) else send_encoded later id payload

  -- `awaitReceipt`: the wait ends once the store holds the receipt and `committed` has reached it.
  -- The early wakes of the source only make it look again sooner.
  abbrev pub reached : ℕ → StoredReceipt → Option StoredReceipt
  reached revision receipt = if leb receipt.revision revision then some receipt else none

  unfoldable pub await_receipt : Engine State → String → Option StoredReceipt
  await_receipt e id = Mailbox.receipt e.store id >>= reached e.committed.revision

  unfoldable pub to_committed : StoredReceipt → Option (Committed State)
  to_committed receipt = do
    state ← decode_state receipt.state
    some (record { revision = receipt.revision; state = state })

-- How the wait of a call ends: `await_receipt` answered, the time ran out, or the engine closed.
pub data WaitEnd : Type 0 where
  answered : StoredReceipt → WaitEnd
  timed_out closing : WaitEnd

pub data CallEnd (State Refusal : Type 0) : Type 0 where
  result : Committed State → CallEnd State Refusal
  uncertain : String → CallEnd State Refusal
  not_admitted : SendEnd Refusal → CallEnd State Refusal
  call_died : CallEnd State Refusal

-- What reaches the engine: a submission, a turn of its worker (with the state that the behavior names
-- then, if it names one), a change of the behavior's own, and the close of its scope.
pub data Event (State : Type 0) : Type 0 where
  sends : String → String → Event State
  works : Option State → Event State
  changes : State → Event State
  closes : Event State

module _ {State Message Refusal : Type 0} (options : Options State Message Refusal) where
  abbrev pub committed_or_died : Option (Committed State) → CallEnd State Refusal
  committed_or_died none = call_died
  committed_or_died (some committed) = result committed

  abbrev pub end_wait : String → WaitEnd → CallEnd State Refusal
  end_wait id (answered receipt) = committed_or_died (to_committed options receipt)
  end_wait id timed_out = uncertain id
  end_wait id closing = not_admitted actor_stopped

  -- `callEncoded`: the submission, then the end of the wait.
  unfoldable pub call_encoded : Engine State → String → String → WaitEnd → CallEnd State Refusal
  call_encoded e id payload how = elim (send_encoded options e id payload).0 [
    | accepted _ ↦ end_wait id how
    | other ↦ not_admitted other
  ]

  -- The behavior's own changes, which the close of the scope ends.
  abbrev pub offered : Bool → Engine State → State → Engine State
  offered true e state = e
  offered false e state = record e { signal = e.signal ++ autonomous state ∷ [] }

  unfoldable pub step : Engine State → Event State → Engine State
  step e (sends id payload) = (send_encoded options e id payload).1
  step e (works current) = work options e current
  step e (changes state) = offered e.closed e state
  step e closes = record e { closed = true }

  unfoldable pub run : Engine State → List (Event State) → Engine State
  run e [] = e
  run e (event ∷ events) = run (step e event) events
