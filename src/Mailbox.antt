-- ===== src/Mailbox.antt =====
-- packages/effect-frame/src/actor/mailbox-store.ts: the durable mailbox and its in-memory log.
-- A `Ref.modify` is one atomic update, so each operation is a function from a log to its answer and
-- the next log. A die is `none`. Texts are native strings, times and counters native numbers.
pub mod Settle
pub mod Valid
pub mod History
pub mod Retry
pub mod Order
pub mod Refines
pub mod Fifo
pub mod Stable
pub mod Tests
use effect_frame.Base.{
  ℕ, suc, ◌+◌, ◌≡◌, Bool, true, false, not, ◌||◌, Option, none, some, List, [], ◌∷◌, ◌++◌, map,
  String, ◌==◌, eqb, if◌then◌else◌, find?, find_index, filter, get_elem?, map_from,
}
use mathlib.Core.Option

-- A command the actor accepted but has not committed.
pub record PendingCommand : Type 0 where
  pub command_id : String
  pub admitted : ℕ
  pub payload : String
  pub payload_hash : ℕ

-- The committed outcome of one command.
pub record StoredReceipt : Type 0 where
  pub command_id : String
  pub admitted : ℕ
  pub revision : ℕ
  pub state : String

-- The latest committed state, its revision and its wake.
pub record Committed : Type 0 where
  pub revision : ℕ
  pub state : String
  pub wake : Option ℕ

pub record AppendInput : Type 0 where
  pub command_id : String
  pub payload : String
  pub payload_hash : ℕ

pub data Appended : Type 0 where
  admitted : ℕ → Appended
  duplicate : ℕ → Option StoredReceipt → Appended

pub data AppendOutcome : Type 0 where
  appended : Appended → AppendOutcome
  command_conflict : String → AppendOutcome

pub record Entry : Type 0 where
  pub command : PendingCommand
  pub receipt : Option StoredReceipt

pub record Log : Type 0 where
  pub entries : List Entry
  pub next_admission : ℕ
  pub committed : Option Committed

abbrev pub empty_log : Log
empty_log = record { entries = []; next_admission = 1; committed = none }

-- The test that `find` and `findIndex` take: the entry holds this command ID.
abbrev pub has_id : String → Entry → Bool
has_id id entry = entry.command.command_id == id

abbrev pub is_none {ℓ} : {A : Type ℓ} → Option A → Bool
is_none none = true
is_none (some a) = false

-- An entry without a receipt.
abbrev pub is_pending : Entry → Bool
is_pending entry = is_none entry.receipt

-- The answer to a command the log already holds.
unfoldable pub answer_existing : Entry → AppendInput → AppendOutcome
answer_existing entry input =
    if not (eqb entry.command.payload_hash input.payload_hash)
      || not (entry.command.payload == input.payload)
    then command_conflict input.command_id
    else appended (duplicate entry.command.admitted entry.receipt)

abbrev pub new_entry : Log → AppendInput → Entry
new_entry log input = record {
  command = record {
    command_id = input.command_id;
    admitted = log.next_admission;
    payload = input.payload;
    payload_hash = input.payload_hash;
  };
  receipt = none;
}

unfoldable pub append_to_log : Log → AppendInput → AppendOutcome × Log
append_to_log log input = elim (find? (has_id input.command_id) log.entries) [
  | some entry ↦ (answer_existing entry input, log)
  | none ↦ (
    appended (admitted log.next_admission),
    record log {
      entries = log.entries ++ new_entry log input ∷ [];
      next_admission = log.next_admission + 1;
    },
  )
]

-- The revision after the committed one, counted from 1.
unfoldable pub next_revision : Option Committed → ℕ
next_revision none = 1
next_revision (some committed) = committed.revision + 1

-- `map` with the candidate's position: the entry at `index` gains the receipt.
unfoldable pub write_receipt : ℕ → StoredReceipt → List Entry → List Entry
unfolding map_from
write_receipt index receipt = map_from 0 (λ candidate position.
    if eqb position index then record candidate { receipt = some receipt } else candidate)

abbrev pub receipt_for : Log → Entry → String → String → StoredReceipt
receipt_for log found id state = record {
  command_id = id;
  admitted = found.command.admitted;
  revision = next_revision log.committed;
  state = state;
}

-- The branch of `commitToLog` that found the command at `index`.
unfoldable pub commit_at : Log → ℕ → Entry → String → String → Option ℕ → StoredReceipt × Log
commit_at log index found id state wake =
    let receipt = receipt_for log found id state in
    (
      receipt,
      record log {
        entries = write_receipt index receipt log.entries;
        committed = some (record { revision = receipt.revision; state = state; wake = wake });
      },
    )

-- An index that misses (the source's -1) reads no entry.
abbrev entry_at : Log → Option ℕ → Option (ℕ × Entry)
entry_at log none = none
entry_at log (some index) = Option.map (λ entry. (index, entry)) (get_elem? log.entries index)

unfoldable pub commit_to_log : Log → String → String → Option ℕ → Option StoredReceipt × Log
commit_to_log log id state wake = elim (entry_at log (find_index (has_id id) log.entries)) [
  | none ↦ (none, log)
  | some (index, found) ↦
      let done = commit_at log index found id state wake in (some done.0, done.1)
]

-- The oldest command without a receipt.
unfoldable pub next : Log → Option PendingCommand
next log = Option.map (λ entry. entry.command) (find? is_pending log.entries)

-- An unknown command is a defect, `none`; `Ref.modify` has then changed nothing.
unfoldable pub commit : Log → String → String → Option ℕ → Option (StoredReceipt × Log)
commit log id state wake =
    let (answer, log') = commit_to_log log id state wake in Option.map (λ r. (r, log')) answer

abbrev pub receipt_of : Option Entry → Option StoredReceipt
receipt_of none = none
receipt_of (some entry) = entry.receipt

unfoldable pub receipt : Log → String → Option StoredReceipt
receipt log id = receipt_of (find? (has_id id) log.entries)

unfoldable pub pending : Log → List String
pending log = map (λ entry. entry.command.command_id) (filter is_pending log.entries)

unfoldable pub latest : Log → Option Committed
latest log = log.committed

unfoldable pub advance : Log → String → Option ℕ → Committed × Log
advance log state wake =
    let committed : Committed = record {
      revision = next_revision log.committed;
      state = state;
      wake = wake;
    } in
    (committed, record log { committed = some committed })
