-- ===== src/Owner.antt =====
-- packages/effect-frame/src/actor/command-owner.ts: the retained commands of one reference.
-- A record's worker is one fiber: `worker` says where it stands, and each answer of its requests is one
-- step. The adapter's answers, the clock and the schedule are given. Scopes, inspection and log lines
-- are left out.
pub mod Records
pub mod Heard
pub mod Sound
pub mod Ends
pub mod Tests
use effect_frame.Base.{
  ℕ, suc, ◌+◌, ◌-◌, Bool, true, false, not, ◌||◌, Option, none, some, List, [], ◌∷◌, ◌++◌, String,
  ◌==◌, ltb, if◌then◌else◌, find?, filter, map,
}
use mathlib.Core.Option
use effect_frame.Vocabulary.{Committed}

-- How the command ID was obtained.
pub data Identity : Type 0 where
  fresh supplied : Identity

pub record Identified : Type 0 where
  pub command_id : String
  pub identity : Identity

-- A supplied ID is fresh only when the framework minted it for this send. `minted_now` is the secure ID
-- of the platform.
unfoldable pub identify : String → Option String → Bool → Identified
identify minted_now none minted = record { command_id = minted_now; identity = fresh }
identify minted_now (some id) true = record { command_id = id; identity = fresh }
identify minted_now (some id) false = record { command_id = id; identity = supplied }

pub data Lifecycle (State Rejection : Type 0) : Type 0 where
  sent : Lifecycle State Rejection
  admitted : ℕ → Lifecycle State Rejection
  applied : ℕ → Committed State → Lifecycle State Rejection
  rejected : Rejection → Lifecycle State Rejection
  uncertain : ℕ → Option ℕ → Lifecycle State Rejection

-- How one request of a pass ended without a result.
pub data PassFailure (Rejection : Type 0) : Type 0 where
  lost : PassFailure Rejection
  refused : Rejection → PassFailure Rejection

-- How one pass ended when it did not produce a settlement.
pub data PassOutcome (Rejection : Type 0) : Type 0 where
  lost_pass hold : PassOutcome Rejection
  reject : Rejection → PassOutcome Rejection

-- Where the worker of a record stands: none runs, a pass is due, or one of its requests is out.
pub data Worker : Type 0 where
  resting due sending calling : Worker

-- What the worker receives next.
pub data Answer (State Rejection : Type 0) : Type 0 where
  begins : Answer State Rejection
  admits : ℕ → Answer State Rejection
  settles : Committed State → Answer State Rejection
  fails : PassFailure Rejection → Answer State Rejection
  times_out dies : Answer State Rejection

-- `owned` is the source's `settle`: whether the adapter owns the record. `heard` is no field of the source: it
-- keeps the answers that the record's worker waited for and had, and no operation reads it.
pub record CommandRecord (State Rejection : Type 0) : Type 0 where
  pub command_id : String
  pub identity : Identity
  pub payload : String
  pub lifecycle : Lifecycle State Rejection
  pub owned : Bool
  pub possible_admission : Bool
  pub admitted_at : Option ℕ
  pub attempt : ℕ
  pub running : Bool
  pub done : Bool
  pub worker : Worker
  pub heard : List (Answer State Rejection)

-- What an adapter's refusals are. `tag_of` reads a refusal's tag.
pub record Adapter (Rejection : Type 0) : Type 0 where
  pub tag_of : Rejection → String
  pub stopped : Rejection
  pub conflict : String → Rejection

-- Whether a record stays with its owner or leaves it.
pub data Kept (State Rejection : Type 0) : Type 0 where
  stays leaves : CommandRecord State Rejection → Kept State Rejection

-- `left` holds the records that left, for the handles that still show them.
pub record Owner (State Rejection : Type 0) : Type 0 where
  pub records : List (CommandRecord State Rejection)
  pub left : List (CommandRecord State Rejection)
  pub closing : Bool
  pub actor_closed : Bool

abbrev pub no_records : {State Rejection : Type 0} → Owner State Rejection
no_records = record { records = []; left = []; closing = false; actor_closed = false }

-- Where one submission landed.
pub data Placement (State Rejection : Type 0) : Type 0 where
  live created : CommandRecord State Rejection → Placement State Rejection
  conflicted halted : Placement State Rejection

-- What the submitter holds: a live record, a command that never reached the records, or a defect.
pub data Submission (State Rejection : Type 0) : Type 0 where
  view_of : CommandRecord State Rejection → Submission State Rejection
  detached : String → Identity → Lifecycle State Rejection → Submission State Rejection
  defect : Submission State Rejection

pub data Event (State Rejection : Type 0) : Type 0 where
  submits : Identified → String → Bool → Event State Rejection
  retries : String → Event State Rejection
  hears : String → Answer State Rejection → Event State Rejection
  scope_closes records_clear actor_closes : Event State Rejection

-- The refusals that always conclude.
abbrev pub is_conclusive : {Rejection : Type 0} → Adapter Rejection → Rejection → Bool
is_conclusive adapter reason =
    (adapter.tag_of reason == "CommandConflict") || (adapter.tag_of reason == "Refused")

abbrev pub or_zero : Option ℕ → ℕ
or_zero none = 0
or_zero (some n) = n

abbrev pub is_supplied : Identity → Bool
is_supplied fresh = false
is_supplied supplied = true

-- `recurs times done` is the schedule's test, for `upTo { times }` after `done` recurrences. `passes` is
-- the policy's bound.
module _ {State Rejection : Type 0} (adapter : Adapter Rejection) (recurs : ℕ → ℕ → Bool)
    (passes : ℕ) where
  abbrev pub publish :
      CommandRecord State Rejection → Lifecycle State Rejection → CommandRecord State Rejection
  publish r next = if r.done then r else record r { lifecycle = next }

  abbrev pub uncertain_of : CommandRecord State Rejection → Lifecycle State Rejection
  uncertain_of r = uncertain r.attempt r.admitted_at

  unfoldable pub discard : CommandRecord State Rejection → Kept State Rejection
  discard r = leaves (record r { done = true })

  -- Terminal settlement.
  unfoldable pub finish :
      CommandRecord State Rejection → Lifecycle State Rejection → Kept State Rejection
  finish r terminal =
      if r.done
      then stays r
      else leaves (record r { done = true; lifecycle = terminal; worker = resting })

  unfoldable pub classify :
      CommandRecord State Rejection
      → PassFailure Rejection
      → PassOutcome Rejection × CommandRecord State Rejection
  classify r lost = (lost_pass, record r { possible_admission = true })
  classify r (refused reason) = (
    if is_conclusive adapter reason || not r.possible_admission
        then reject reason
        else if adapter.tag_of reason == "ActorStopped"
        then lost_pass
        else hold,
    r,
  )

  -- A lost pass that another will follow shows Uncertain now.
  abbrev pub show_lost :
      CommandRecord State Rejection → PassOutcome Rejection → CommandRecord State Rejection
  show_lost r lost_pass = if ltb r.attempt passes then publish r (uncertain_of r) else r
  show_lost r hold = r
  show_lost r (reject reason) = r

  -- The one place a sequence gives up the record.
  unfoldable pub idle : CommandRecord State Rejection → CommandRecord State Rejection
  idle r =
      if r.done
      then r
      else record r { running = false; lifecycle = uncertain_of r; worker = resting }

  -- A lost pass recurs while the schedule allows. Any other end of a pass ends the sequence.
  unfoldable pub end_pass :
      CommandRecord State Rejection → PassOutcome Rejection → Kept State Rejection
  end_pass r (reject reason) = finish r (rejected reason)
  end_pass r hold = stays (idle r)
  end_pass r lost_pass =
      if recurs (passes - 1) (r.attempt - 1)
      then stays (record r { worker = due })
      else stays (idle r)

  abbrev pub pass_fails :
      PassOutcome Rejection × CommandRecord State Rejection → Kept State Rejection
  pass_fails (outcome, r) = end_pass (show_lost r outcome) outcome

  abbrev pub reports_admission : CommandRecord State Rejection → ℕ → CommandRecord State Rejection
  reports_admission r n =
      record (publish (record r { possible_admission = true; admitted_at = some n }) (admitted n)) {
        worker = calling;
      }

  -- A failed, lost, overdue or defective request, of either kind.
  abbrev pub request_ends :
      CommandRecord State Rejection → Answer State Rejection → Kept State Rejection
  request_ends r (fails failure) = pass_fails (classify r failure)
  request_ends r times_out = pass_fails (lost_pass, record r { possible_admission = true })
  request_ends r dies = stays (idle (record r { possible_admission = true }))
  request_ends r begins = stays r
  request_ends r (admits n) = stays r
  request_ends r (settles done) = stays r

  -- One step of `pass` and `sequence`. An answer that the worker does not wait for changes nothing.
  unfoldable pub hear_at :
      Worker → CommandRecord State Rejection → Answer State Rejection → Kept State Rejection
  hear_at due r begins = stays (record r { attempt = r.attempt + 1; worker = sending })
  hear_at due r answer = stays r
  hear_at sending r (admits n) = stays (reports_admission r n)
  hear_at sending r answer = request_ends r answer
  hear_at calling r (settles done) = finish r (applied (or_zero r.admitted_at) done)
  hear_at calling r answer = request_ends r answer
  hear_at resting r answer = stays r

  unfoldable pub start_sequence :
      Bool → CommandRecord State Rejection → CommandRecord State Rejection
  start_sequence closing r =
      if r.done || r.running || not r.owned || closing
      then r
      else record r { running = true; attempt = 0; worker = due }

  abbrev pub names : String → CommandRecord State Rejection → Bool
  names id r = r.command_id == id

  abbrev pub replaced :
      CommandRecord State Rejection → CommandRecord State Rejection → CommandRecord State Rejection
  replaced new r = if names new.command_id r then new else r

  -- `records.delete` takes the one record of the ID away.
  abbrev pub keep : Owner State Rejection → Kept State Rejection → Owner State Rejection
  keep o (stays r) = record o { records = map (replaced r) o.records }
  keep o (leaves r) = record o {
    records = filter (λ x. not (names r.command_id x)) o.records;
    left = o.left ++ r ∷ [];
  }

  unfoldable pub retry : Owner State Rejection → String → Owner State Rejection
  retry o id = elim (find? (names id) o.records) [
    | none ↦ o
    | some r ↦ keep o (stays (start_sequence o.closing r))
  ]

  -- The answers that a worker waits for: those of the request that it has out.
  abbrev pub awaits : Worker → Answer State Rejection → Bool
  awaits sending (admits n) = true
  awaits sending (settles done) = false
  awaits sending begins = false
  awaits calling (admits n) = false
  awaits calling (settles done) = true
  awaits calling begins = false
  awaits sending answer = true
  awaits calling answer = true
  awaits resting answer = false
  awaits due answer = false

  abbrev pub note : Bool → Answer State Rejection → Kept State Rejection → Kept State Rejection
  note false answer k = k
  note true answer (stays r) = stays (record r { heard = answer ∷ r.heard })
  note true answer (leaves r) = leaves (record r { heard = answer ∷ r.heard })

  unfoldable pub hear :
      Owner State Rejection → String → Answer State Rejection → Owner State Rejection
  hear o id answer = elim (find? (names id) o.records) [
    | none ↦ o
    | some r ↦ keep o (note (awaits r.worker answer) answer (hear_at r.worker r answer))
  ]

  -- A refused submission that never left this client.
  unfoldable pub stopped_before_work : Identified → Submission State Rejection
  stopped_before_work identified = elim identified.identity [
    | fresh ↦ detached identified.command_id fresh (rejected adapter.stopped)
    | supplied ↦ detached identified.command_id supplied (uncertain 0 none)
  ]

  abbrev pub is_stopped : Owner State Rejection → Bool
  is_stopped o = o.actor_closed || o.closing

  abbrev pub new_record : Identified → String → CommandRecord State Rejection
  new_record identified payload = record {
    command_id = identified.command_id;
    identity = identified.identity;
    payload = payload;
    lifecycle = sent;
    owned = false;
    possible_admission = is_supplied identified.identity;
    admitted_at = none;
    attempt = 0;
    running = false;
    done = false;
    worker = resting;
    heard = [];
  }

  abbrev pub joins : String → CommandRecord State Rejection → Placement State Rejection
  joins payload r = if r.payload == payload then live r else conflicted

  -- Join, refuse or insert.
  unfoldable pub place : Owner State Rejection → Identified → String → Placement State Rejection
  place o identified payload = elim (find? (names identified.command_id) o.records) [
    | some existing ↦ joins payload existing
    | none ↦ if o.closing then halted else created (new_record identified payload)
  ]

  -- The placement and the adoption, which no interruption splits. `adopts` says whether the adapter's
  -- hook finishes; when it does not, the new record is discarded.
  abbrev pub enroll :
      Owner State Rejection
      → Identified
      → Bool
      → Placement State Rejection
      → Submission State Rejection × Owner State Rejection
  enroll o identified adopts (live r) =
      let next = start_sequence o.closing r in (view_of next, keep o (stays next))
  enroll o identified true (created r) =
      let next = start_sequence o.closing (record r { owned = true }) in
      (view_of next, record o { records = o.records ++ next ∷ [] })
  enroll o identified false (created r) =
      (defect, keep (record o { records = o.records ++ r ∷ [] }) (discard r))
  enroll o identified adopts conflicted = (
    detached identified.command_id identified.identity
        (rejected (adapter.conflict identified.command_id)),
    o,
  )
  enroll o identified adopts halted = (stopped_before_work identified, o)

  -- The encoder may suspend: `asked` is the owner when the submission starts, `prepared` once it has the
  -- payload, and `o` once it has the active keys.
  unfoldable pub submit :
      Owner State Rejection
      → Owner State Rejection
      → Owner State Rejection
      → Identified
      → String
      → Bool
      → Submission State Rejection × Owner State Rejection
  submit asked prepared o identified payload adopts =
      if is_stopped asked || is_stopped prepared
      then (stopped_before_work identified, o)
      else enroll o identified adopts (place o identified payload)

  unfoldable pub payload_of : Owner State Rejection → String → Option String
  payload_of o id = Option.map (λ r. r.payload) (find? (names id) o.records)

  unfoldable pub step : Owner State Rejection → Event State Rejection → Owner State Rejection
  step o (submits identified payload adopts) = (submit o o o identified payload adopts).1
  step o (retries id) = retry o id
  step o (hears id answer) = hear o id answer
  step o scope_closes = record o { closing = true }
  step o records_clear = record o { closing = true; records = [] }
  step o actor_closes = record o { actor_closed = true }

  unfoldable pub run : Owner State Rejection → List (Event State Rejection) → Owner State Rejection
  run o [] = o
  run o (event ∷ events) = run (step o event) events
