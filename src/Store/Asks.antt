-- ===== src/Store/Asks.antt =====
-- What a mailbox store is asked and answers, in memory and over SQL.
use effect_frame.Base.{ℕ, Option, List, [], ◌∷◌, map, String}
use effect_frame.Mailbox
use effect_frame.Mailbox.{
  Entry, Log, PendingCommand, StoredReceipt, Committed, AppendInput, AppendOutcome, appended,
  admitted, has_id, is_pending, append_to_log, answer_existing, new_entry, commit_to_log,
  receipt_for, receipt_of, empty_log,
}
use effect_frame.Store
use effect_frame.Store.{
  Sql, Tables, Row, CommittedRow, has_command, is_unanswered, inserted, updated, to_pending,
  to_receipt, to_committed, to_command_row, CommandRow, after_revision, arm,
}

-- What a mailbox store is asked, and what it answers. A defect is `none`.
pub data Ask : Type 0 where
  append : AppendInput → Ask
  commit : String → String → Option ℕ → Ask
  advance : String → Option ℕ → Ask
  next latest pending : Ask
  receipt : String → Ask

pub data Answer : Type 0 where
  appends : AppendOutcome → Answer
  commits : Option StoredReceipt → Answer
  advances : Committed → Answer
  nexts : Option PendingCommand → Answer
  latests : Option Committed → Answer
  pendings : List String → Answer
  receipts : Option StoredReceipt → Answer

-- The store in memory.
abbrev pub ask_memory : Log → Ask → Answer × Log
ask_memory log (append input) =
    let (answer, log') = append_to_log log input in (appends answer, log')
ask_memory log (commit id state wake) =
    let (answer, log') = commit_to_log log id state wake in (commits answer, log')
ask_memory log (advance state wake) =
    let (answer, log') = Mailbox.advance log state wake in (advances answer, log')
ask_memory log next = (nexts (Mailbox.next log), log)
ask_memory log latest = (latests (Mailbox.latest log), log)
ask_memory log pending = (pendings (Mailbox.pending log), log)
ask_memory log (receipt id) = (receipts (Mailbox.receipt log id), log)

unfoldable pub asks_memory : Log → List Ask → List Answer
asks_memory log [] = []
asks_memory log (a ∷ asks) = let (answer, log') = ask_memory log a in answer ∷ asks_memory log' asks

module _ {S : Type 0} (sql : Sql S) where
  -- The store over SQL, asked at a time.
  abbrev pub ask_sql : S → ℕ × Ask → Answer × S
  ask_sql s (now, append input) =
      let (answer, s') = Store.append sql now input s in (appends answer, s')
  ask_sql s (now, commit id state wake) =
      let (answer, s') = Store.commit sql now id state wake s in (commits answer, s')
  ask_sql s (now, advance state wake) =
      let (answer, s') = Store.advance sql now state wake s in (advances answer, s')
  ask_sql s (now, next) = (nexts (Store.next sql s), s)
  ask_sql s (now, latest) = (latests (Store.latest sql s), s)
  ask_sql s (now, pending) = (pendings (Store.pending sql s), s)
  ask_sql s (now, receipt id) = (receipts (Store.receipt sql s id), s)

  unfoldable pub asks_sql : S → List (ℕ × Ask) → List Answer
  asks_sql s [] = []
  asks_sql s (a ∷ asks) = let (answer, s') = ask_sql s a in answer ∷ asks_sql s' asks

abbrev pub asked : List (ℕ × Ask) → List Ask
asked asks = map (λ a. a.1) asks
