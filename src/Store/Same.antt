-- ===== src/Store/Same.antt =====
-- The store over SQL answers as the mailbox in memory does.
use effect_frame.Base.{
  ℕ, ◌+◌, ◌≡◌, refl, sym, ap, subst, ◌∙◌, inl, inr, Option, none, some, List, [], ◌∷◌, ◌++◌, map,
  String, find?, find?_of_All, find?-append_none, filter, Option-cases,
}
use effect_frame.Mailbox
use effect_frame.Mailbox.{
  Entry, Log, PendingCommand, StoredReceipt, Committed, AppendInput, AppendOutcome, appended,
  admitted, has_id, is_pending, append_to_log, answer_existing, new_entry, commit_to_log,
  receipt_for, receipt_of, empty_log,
}
use effect_frame.Mailbox.Settle.{settled, commit_to_log_unknown, commit_to_log_known}
use effect_frame.Mailbox.Valid.{
  IsValid, empty_log-IsValid, append-IsValid, commit-IsValid, advance-IsValid,
}
use effect_frame.Store
use effect_frame.Store.{
  Sql, Tables, Row, CommittedRow, has_command, is_unanswered, inserted, updated, to_pending,
  to_receipt, to_committed, to_command_row, CommandRow, after_revision, arm,
}
use effect_frame.Store.Rows.{
  row_of, committed_row_of, find-row, find-pending, filter-pending, receipt-row, update-settle,
}
use effect_frame.Mailbox.Retry.{append_fresh, append_found, find?-new_entry}
use mathlib.Core.Option
use mathlib.Core.List.{map-append}
use effect_frame.Store.Asks.{
  Ask, append, commit, advance, next, latest, pending, receipt, Answer, appends, nexts, latests,
  pendings, receipts, ask_memory, asks_memory, ask_sql, asks_sql, asked,
}

module _ {S : Type 0} (sql : Sql S) (tables : Tables sql) where
  -- The tables hold the log.
  pub record Represents (s : S) (log : Log) : Type 0 where
    pub rows : tables.rows s ≡ map row_of log.entries
    pub latest_row : tables.latest_row s ≡ Option.map committed_row_of log.committed
    pub order : tables.order s ≡ log.next_admission
    pub valid : IsValid log

  command-row :
      (s : S) (log : Log) (id : String)
      → Represents s log
      → sql.command_row s id ≡ Option.map row_of (find? (has_id id) log.entries)
  command-row s log id r =
      tables.command_row-find s id
      ∙ ap (λ rows. find? (has_command id) rows) r.rows
      ∙ find-row id log.entries

  read_committed-log :
      (s : S) (log : Log) → Represents s log → Store.read_committed sql s ≡ log.committed
  read_committed-log s log r =
      ap (λ o. Option.map to_committed o) (tables.committed_row-latest s ∙ r.latest_row)
      ∙ go log.committed
    where
      go : (o : Option Committed) → Option.map to_committed (Option.map committed_row_of o) ≡ o
      go none = refl
      go (some c) = refl

  next_revision-log :
      (s : S) (log : Log)
      → Represents s log
      → Store.next_revision sql s ≡ Mailbox.next_revision log.committed
  unfolding Store.next_revision Mailbox.next_revision
  next_revision-log s log r = ap after_revision (read_committed-log s log r) ∙ go log.committed
    where
      go : (o : Option Committed) → after_revision o ≡ Mailbox.next_revision o
      go none = refl
      go (some c) = refl

  -- The alarm is no part of what the tables hold.
  arm-Represents :
      (s : S) (log : Log) (alarm : Option ℕ) → Represents s log → Represents (arm sql alarm s) log
  arm-Represents s log none r = r
  arm-Represents s log (some at) r = record {
    rows = tables.alarm-rows s at ∙ r.rows;
    latest_row = tables.alarm-latest s at ∙ r.latest_row;
    order = tables.alarm-order s at ∙ r.order;
    valid = r.valid;
  }

  -- The same answer, and tables that hold the next log.
  abbrev Agrees : Answer × S → Answer × Log → Type 0
  Agrees a b = (a.0 ≡ b.0) × Represents a.1 b.1

  abbrev longer : Log → AppendInput → Log
  longer log input = record log {
    entries = log.entries ++ new_entry log input ∷ [];
    next_admission = log.next_admission + 1;
  }

  no_row :
      (s : S) (log : Log) (id : String)
      → find? (has_id id) log.entries ≡ none
      → Represents s log
      → find? (has_command id) (tables.rows s) ≡ none
  no_row s log id miss r =
      ap (λ rows. find? (has_command id) rows) r.rows
      ∙ find-row id log.entries
      ∙ ap (λ o. Option.map row_of o) miss

  insert-Represents :
      (s : S) (log : Log) (input : AppendInput)
      → find? (has_id input.command_id) log.entries ≡ none
      → Represents s log
      → Represents
          (sql.insert_command input.command_id input.payload input.payload_hash s)
          (longer log input)
  insert-Represents s log input miss r =
      let free = no_row s log input.command_id miss r in
      record {
        rows =
            tables.insert-rows s input.command_id input.payload input.payload_hash free
            ∙ ap
                (λ rows.
                  rows
                  ++ inserted (tables.order s) input.command_id input.payload input.payload_hash
                    ∷ [])
                r.rows
            ∙ ap
                (λ n.
                  map row_of log.entries
                  ++ inserted n input.command_id input.payload input.payload_hash ∷ [])
                r.order
            ∙ sym (map-append row_of log.entries (new_entry log input ∷ []));
        latest_row =
            tables.insert-latest s input.command_id input.payload input.payload_hash ∙ r.latest_row;
        order =
            tables.insert-order s input.command_id input.payload input.payload_hash free
            ∙ ap (λ n. n + 1) r.order;
        valid =
            subst (λ b. IsValid b.1) (append_fresh log input miss)
              (append-IsValid log input r.valid);
      }

  -- The number that the insert gave is read back.
  inserted-order :
      (s : S) (log : Log) (input : AppendInput)
      → find? (has_id input.command_id) log.entries ≡ none
      → Represents s log
      → Store.number (
          Option.map
            (λ (row : Row). Store.number row.admitted)
            (sql.command_row
              (sql.insert_command input.command_id input.payload input.payload_hash s)
              input.command_id))
        ≡ log.next_admission
  inserted-order s log input miss r =
      ap (λ o. Store.number (Option.map (λ (row : Row). Store.number row.admitted) o))
        (command-row _ (longer log input) input.command_id (insert-Represents s log input miss r)
          ∙ ap (λ o. Option.map row_of o)
              (find?-append_none (has_id input.command_id) log.entries (new_entry log input ∷ [])
                  miss
                ∙ find?-new_entry log input))

  append-Agrees :
      (s : S) (log : Log) (now : ℕ) (input : AppendInput)
      → Represents s log
      → Agrees (ask_sql sql s (now, append input)) (ask_memory log (append input))
  unfolding Store.append Store.admit answer_existing
  append-Agrees s log now input r =
      elim (Option-cases (find? (has_id input.command_id) log.entries)) [
        | inl miss ↦
            let row = command-row s log input.command_id r ∙ ap (λ o. Option.map row_of o) miss in
            rw (append_fresh log input miss, row)
              (
                ap (λ n. appends (appended (admitted n))) (inserted-order s log input miss r),
                arm-Represents _ (longer log input) (some now)
                    (insert-Represents s log input miss r),
              )
        | inr (e, hit) ↦
            let row = command-row s log input.command_id r ∙ ap (λ o. Option.map row_of o) hit in
            let sound = find?_of_All _ (has_id input.command_id) log.entries e r.valid.sound hit in
            rw (append_found log input e hit, row)
              (
                ap
                    (λ o. appends (
                      Store.answer_row
                        (record {
                          admitted = e.command.admitted;
                          payload = e.command.payload;
                          payload_hash = e.command.payload_hash;
                          receipt = o;
                        })
                        input))
                    (receipt-row _ e sound),
                r,
              )
      ]

  upsert-Represents :
      (s : S) (log : Log) (n : ℕ) (state : String) (wake : Option ℕ) (es : List Entry)
      → tables.rows s ≡ map row_of es
      → tables.order s ≡ log.next_admission
      → IsValid (record log {
        entries = es;
        committed = some (record { revision = n; state = state; wake = wake });
      })
      → Represents (sql.upsert_committed n state wake s) (record log {
        entries = es;
        committed = some (record { revision = n; state = state; wake = wake });
      })
  upsert-Represents s log n state wake es rows order valid = record {
    rows = tables.upsert-rows s n state wake ∙ rows;
    latest_row = tables.upsert-latest s n state wake;
    order = tables.upsert-order s n state wake ∙ order;
    valid = valid;
  }

  receipt-Represents :
      (s : S) (log : Log) (id state : String) (wake : Option ℕ) (found : Entry)
      → find? (has_id id) log.entries ≡ some found
      → Represents s log
      → Represents
          (sql.upsert_committed
            (Mailbox.next_revision log.committed)
            state
            wake
            (sql.update_command (Mailbox.next_revision log.committed) state id s))
          (settled log found id state wake)
  receipt-Represents s log id state wake found hit r =
      let n = Mailbox.next_revision log.committed in
      upsert-Represents _ log n state wake _
        (tables.update-rows s n state id
          ∙ ap (λ rows. map (updated n state id) rows) r.rows
          ∙ update-settle id (receipt_for log found id state) log.entries r.valid.distinct)
        (tables.update-order s n state id ∙ r.order)
        (subst (λ b. IsValid b.1) (commit_to_log_known log id state wake found hit)
          (commit-IsValid log id state wake r.valid))

  commit-Agrees :
      (s : S) (log : Log) (now : ℕ) (id state : String) (wake : Option ℕ)
      → Represents s log
      → Agrees (ask_sql sql s (now, commit id state wake)) (ask_memory log (commit id state wake))
  unfolding Store.commit Store.write_receipt
  commit-Agrees s log now id state wake r = elim (Option-cases (find? (has_id id) log.entries)) [
    | inl miss ↦
        let row = command-row s log id r ∙ ap (λ o. Option.map row_of o) miss in
        rw (commit_to_log_unknown log id state wake miss, row) (refl, r)
    | inr (e, hit) ↦
        let row = command-row s log id r ∙ ap (λ o. Option.map row_of o) hit in
        rw (commit_to_log_known log id state wake e hit, row, next_revision-log s log r)
          (refl, arm-Represents _ _ _ (receipt-Represents s log id state wake e hit r))
  ]

  advance-Agrees :
      (s : S) (log : Log) (now : ℕ) (state : String) (wake : Option ℕ)
      → Represents s log
      → Agrees (ask_sql sql s (now, advance state wake)) (ask_memory log (advance state wake))
  unfolding Store.advance Store.write_advance Mailbox.advance
  advance-Agrees s log now state wake r = rw (next_revision-log s log r) (
    refl,
    arm-Represents _ _ _ (
        upsert-Represents s log (Mailbox.next_revision log.committed) state wake log.entries r.rows
          r.order (advance-IsValid log state wake r.valid)),
  )

  next-Agrees : (s : S) (log : Log) → Represents s log → Store.next sql s ≡ Mailbox.next log
  unfolding Store.next Mailbox.next
  next-Agrees s log r =
      ap (λ o. Option.map to_pending o)
        (tables.oldest_pending-find s
          ∙ ap (λ rows. find? is_unanswered rows) r.rows
          ∙ find-pending log.entries)
      ∙ go (find? is_pending log.entries)
    where
      go :
          (o : Option Entry)
          → Option.map to_pending (Option.map row_of o) ≡ Option.map (λ e. e.command) o
      go none = refl
      go (some e) = refl

  pending-Agrees :
      (s : S) (log : Log) → Represents s log → Store.pending sql s ≡ Mailbox.pending log
  unfolding Store.pending Mailbox.pending
  pending-Agrees s log r =
      ap (λ rows. map (λ (row : Row). Store.text row.command_id) rows)
        (tables.pending_rows-filter s
          ∙ ap (λ rows. filter is_unanswered rows) r.rows
          ∙ filter-pending log.entries)
      ∙ go (filter is_pending log.entries)
    where
      go :
          (es : List Entry)
          → map (λ (row : Row). Store.text row.command_id) (map row_of es)
            ≡ map (λ e. e.command.command_id) es
      go [] = refl
      go (e ∷ es) = ap (λ ids. e.command.command_id ∷ ids) (go es)

  receipt-Agrees :
      (s : S) (log : Log) (id : String)
      → Represents s log
      → Store.receipt sql s id ≡ Mailbox.receipt log id
  unfolding Store.receipt Mailbox.receipt
  receipt-Agrees s log id r = elim (Option-cases (find? (has_id id) log.entries)) [
    | inl miss ↦ rw (command-row s log id r ∙ ap (λ o. Option.map row_of o) miss, miss) refl
    | inr (e, hit) ↦
        rw (command-row s log id r ∙ ap (λ o. Option.map row_of o) hit, hit)
          (receipt-row _ e (find?_of_All _ (has_id id) log.entries e r.valid.sound hit))
  ]

  ask-Agrees :
      (s : S) (log : Log) (now : ℕ) (a : Ask)
      → Represents s log
      → Agrees (ask_sql sql s (now, a)) (ask_memory log a)
  unfolding Store.latest Mailbox.latest
  ask-Agrees s log now (append input) r = append-Agrees s log now input r
  ask-Agrees s log now (commit id state wake) r = commit-Agrees s log now id state wake r
  ask-Agrees s log now (advance state wake) r = advance-Agrees s log now state wake r
  ask-Agrees s log now next r = (ap nexts (next-Agrees s log r), r)
  ask-Agrees s log now latest r = (ap latests (read_committed-log s log r), r)
  ask-Agrees s log now pending r = (ap pendings (pending-Agrees s log r), r)
  ask-Agrees s log now (receipt id) r = (ap receipts (receipt-Agrees s log id r), r)

  asks-Agrees :
      (asks : List (ℕ × Ask)) (s : S) (log : Log)
      → Represents s log
      → asks_sql sql s asks ≡ asks_memory log (asked asks)
  unfolding asks_sql asks_memory
  asks-Agrees [] s log r = refl
  asks-Agrees ((now, a) ∷ asks) s log r =
      let one = ask-Agrees s log now a r in
      ap (λ answer. answer ∷ asks_sql sql (ask_sql sql s (now, a)).1 asks) one.0
      ∙ ap (λ answers. (ask_memory log a).0 ∷ answers) (asks-Agrees asks _ _ one.1)

  -- Over a storage that keeps what SQL promises and holds no rows yet, whatever the store is asked and
  -- whenever, it gives the answers that the mailbox in memory gives: to appends, commits, advances and
  -- every read, conflicts, duplicates and defects included.
  pub asks_sql-asks_memory :
      (s : S) (asks : List (ℕ × Ask))
      → tables.rows s ≡ []
      → tables.latest_row s ≡ none
      → tables.order s ≡ 1
      → asks_sql sql s asks ≡ asks_memory empty_log (asked asks)
  asks_sql-asks_memory s asks rows first order =
      asks-Agrees asks s empty_log
        (record { rows = rows; latest_row = first; order = order; valid = empty_log-IsValid })
