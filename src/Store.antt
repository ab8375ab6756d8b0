-- ===== src/Store.antt =====
-- packages/host-durable-object/src/storage-store.ts and interop.ts: the mailbox store over the SQL storage
-- of one Durable Object. The storage is not part of the repository: `Sql` has one operation for each
-- statement that the store executes, and `Tables` states what SQL promises of them. A transaction is
-- one step, as the runtime commits or rolls back all that its body wrote. An append is one step too, its
-- lookup and then its transaction: the asks come one after another. An ID decodes to itself.
pub mod Rows
pub mod Asks
pub mod Same
pub mod Arms
pub mod Tests
use effect_frame.Base.{
  ℕ, suc, ◌+◌, ◌≡◌, Bool, true, false, not, ◌||◌, Option, none, some, List, [], ◌∷◌, ◌++◌, map,
  String, ◌==◌, eqb, leb, if◌then◌else◌, find?, filter,
}
use effect_frame.Mailbox.{
  PendingCommand, StoredReceipt, Committed, AppendInput, Appended, admitted, duplicate,
  AppendOutcome, appended, command_conflict, is_none,
}
use mathlib.Core.Option

-- A row of `commands`. A column that is NULL, or that the statement did not select, is absent.
pub record Row : Type 0 where
  pub admitted : Option ℕ
  pub command_id : Option String
  pub payload : Option String
  pub payload_hash : Option ℕ
  pub revision : Option ℕ
  pub state : Option String

-- The row of `committed`.
pub record CommittedRow : Type 0 where
  pub revision : Option ℕ
  pub state : Option String
  pub wake_at : Option ℕ

-- The statements, and the alarm. A statement that reads gives the first row, or its rows.
pub record Sql (S : Type 0) : Type 0 where
  pub command_row : S → String → Option Row
  pub committed_row : S → Option CommittedRow
  pub oldest_pending : S → Option Row
  pub pending_rows : S → List Row
  pub has_pending : S → Bool
  pub insert_command : String → String → ℕ → S → S
  pub update_command : ℕ → String → String → S → S
  pub upsert_committed : ℕ → String → Option ℕ → S → S
  pub set_alarm : ℕ → S → S
  pub alarm : S → Option ℕ

-- `WHERE command_id = ?`: a NULL equals nothing.
abbrev pub has_command : String → Row → Bool
has_command id row = elim row.command_id [ none ↦ false | some held ↦ held == id ]

-- `WHERE revision IS NULL`.
abbrev pub is_unanswered : Row → Bool
is_unanswered row = is_none row.revision

abbrev pub inserted : ℕ → String → String → ℕ → Row
inserted order id payload hash = record {
  admitted = some order;
  command_id = some id;
  payload = some payload;
  payload_hash = some hash;
  revision = none;
  state = none;
}

abbrev pub updated : ℕ → String → String → Row → Row
updated revision state id row =
    if has_command id row then record row { revision = some revision; state = some state } else row

-- What SQL promises: the rows of `commands` in the order of their admissions, the row of `committed` and
-- the next number that AUTOINCREMENT gives, and how each statement reads and moves them. No statement
-- of the store deletes a row, so the numbers follow each other.
pub record Tables {S : Type 0} (sql : Sql S) : Type 0 where
  pub rows : S → List Row
  pub latest_row : S → Option CommittedRow
  pub order : S → ℕ
  pub command_row-find :
      (s : S) (id : String) → sql.command_row s id ≡ find? (has_command id) (rows s)
  pub committed_row-latest : (s : S) → sql.committed_row s ≡ latest_row s
  pub oldest_pending-find : (s : S) → sql.oldest_pending s ≡ find? is_unanswered (rows s)
  pub pending_rows-filter : (s : S) → sql.pending_rows s ≡ filter is_unanswered (rows s)
  pub has_pending-find : (s : S) → sql.has_pending s ≡ not (is_none (find? is_unanswered (rows s)))
  pub insert-rows :
      (s : S) (id payload : String) (hash : ℕ)
      → find? (has_command id) (rows s) ≡ none
      → rows (sql.insert_command id payload hash s)
        ≡ rows s ++ inserted (order s) id payload hash ∷ []
  pub insert-order :
      (s : S) (id payload : String) (hash : ℕ)
      → find? (has_command id) (rows s) ≡ none
      → order (sql.insert_command id payload hash s) ≡ order s + 1
  pub insert-latest :
      (s : S) (id payload : String) (hash : ℕ)
      → latest_row (sql.insert_command id payload hash s) ≡ latest_row s
  pub update-rows :
      (s : S) (n : ℕ) (state id : String)
      → rows (sql.update_command n state id s) ≡ map (updated n state id) (rows s)
  pub update-order :
      (s : S) (n : ℕ) (state id : String) → order (sql.update_command n state id s) ≡ order s
  pub update-latest :
      (s : S) (n : ℕ) (state id : String)
      → latest_row (sql.update_command n state id s) ≡ latest_row s
  pub upsert-rows :
      (s : S) (n : ℕ) (state : String) (wake : Option ℕ)
      → rows (sql.upsert_committed n state wake s) ≡ rows s
  pub upsert-order :
      (s : S) (n : ℕ) (state : String) (wake : Option ℕ)
      → order (sql.upsert_committed n state wake s) ≡ order s
  pub upsert-latest :
      (s : S) (n : ℕ) (state : String) (wake : Option ℕ)
      → latest_row (sql.upsert_committed n state wake s)
        ≡ some (record { revision = some n; state = some state; wake_at = wake })
  pub alarm-rows : (s : S) (at : ℕ) → rows (sql.set_alarm at s) ≡ rows s
  pub alarm-order : (s : S) (at : ℕ) → order (sql.set_alarm at s) ≡ order s
  pub alarm-latest : (s : S) (at : ℕ) → latest_row (sql.set_alarm at s) ≡ latest_row s
  pub alarm-set : (s : S) (at : ℕ) → sql.alarm (sql.set_alarm at s) ≡ some at

abbrev pub number : Option ℕ → ℕ
number none = 0
number (some n) = n

abbrev pub text : Option String → String
text none = ""
text (some s) = s

abbrev pub to_pending : Row → PendingCommand
to_pending row = record {
  command_id = text row.command_id;
  admitted = number row.admitted;
  payload = text row.payload;
  payload_hash = number row.payload_hash;
}

abbrev pub to_receipt : Row → StoredReceipt
to_receipt row = record {
  command_id = text row.command_id;
  admitted = number row.admitted;
  revision = number row.revision;
  state = text row.state;
}

abbrev pub to_committed : CommittedRow → Committed
to_committed row = record {
  revision = number row.revision;
  state = text row.state;
  wake = row.wake_at;
}

-- A command row, whether or not it carries a receipt yet.
pub record CommandRow : Type 0 where
  pub admitted : ℕ
  pub payload : String
  pub payload_hash : ℕ
  pub receipt : Option StoredReceipt

abbrev pub to_command_row : Row → CommandRow
to_command_row row = record {
  admitted = number row.admitted;
  payload = text row.payload;
  payload_hash = number row.payload_hash;
  receipt = Option.map (λ n. to_receipt row) row.revision;
}

abbrev pub receipt_in : Option CommandRow → Option StoredReceipt
receipt_in none = none
receipt_in (some found) = found.receipt

abbrev pub after_revision : Option Committed → ℕ
after_revision none = 1
after_revision (some committed) = committed.revision + 1

abbrev pub answer_row : CommandRow → AppendInput → AppendOutcome
answer_row found input =
    if not (eqb found.payload_hash input.payload_hash) || not (found.payload == input.payload)
    then command_conflict input.command_id
    else appended (duplicate found.admitted found.receipt)

-- What a transaction body wrote, and the alarm to arm at its commit.
pub record Armed (A : Type 0) : Type 0 where
  pub value : A
  pub alarm : Option ℕ

module _ {S : Type 0} (sql : Sql S) where
  abbrev pub read_command : S → String → Option CommandRow
  read_command s id = Option.map to_command_row (sql.command_row s id)

  abbrev pub read_committed : S → Option Committed
  read_committed s = Option.map to_committed (sql.committed_row s)

  unfoldable pub next_revision : S → ℕ
  next_revision s = after_revision (read_committed s)

  abbrev pub write_committed : ℕ → String → Option ℕ → S → S
  write_committed revision state wake s = sql.upsert_committed revision state wake s

  -- A pending command wakes the object at once. Otherwise the state's own wake is armed, never in the past.
  abbrev pub alarm_after_commit : Option ℕ → ℕ → S → Option ℕ
  alarm_after_commit wake now s =
      if sql.has_pending s then some now else Option.map (λ at. if leb now at then at else now) wake

  abbrev pub arm : Option ℕ → S → S
  arm none s = s
  arm (some at) s = sql.set_alarm at s

  abbrev pub transact_arming : {A : Type 0} → (S → Armed A × S) → S → A × S
  transact_arming body s = let (armed, s') = body s in (armed.value, arm armed.alarm s')

  unfoldable pub admit : String → String → ℕ → ℕ → S → ℕ × S
  admit id payload hash at s =
      let s' = sql.insert_command id payload hash s in
      (
        number (Option.map (λ (row : Row). number row.admitted) (sql.command_row s' id)),
        sql.set_alarm at s',
      )

  abbrev pub append_row : ℕ → AppendInput → S → Option CommandRow → AppendOutcome × S
  append_row now input s (some found) = (answer_row found input, s)
  append_row now input s none =
      let (order, s') = admit input.command_id input.payload input.payload_hash now s in
      (appended (admitted order), s')

  unfoldable pub append : ℕ → AppendInput → S → AppendOutcome × S
  append now input s = append_row now input s (read_command s input.command_id)

  unfoldable pub next : S → Option PendingCommand
  next s = Option.map to_pending (sql.oldest_pending s)

  unfoldable pub write_receipt : String → String → Option ℕ → S → ℕ × S
  write_receipt id state wake s =
      let revision = next_revision s in
      (revision, write_committed revision state wake (sql.update_command revision state id s))

  unfoldable pub write_advance : String → Option ℕ → S → ℕ × S
  write_advance state wake s =
      let revision = next_revision s in (revision, write_committed revision state wake s)

  -- The body that both commits and advances run: the writes, then the alarm they call for.
  abbrev pub armed_after : Option ℕ → ℕ → ℕ × S → Armed ℕ × S
  armed_after wake now (revision, s) =
      (record { value = revision; alarm = alarm_after_commit wake now s }, s)

  abbrev pub commit_row :
      ℕ → String → String → Option ℕ → S → Option CommandRow → Option StoredReceipt × S
  commit_row now id state wake s none = (none, s)
  commit_row now id state wake s (some found) =
      let (revision, s') =
        transact_arming (λ t. armed_after wake now (write_receipt id state wake t)) s in
      (
        some (record {
          command_id = id;
          admitted = found.admitted;
          revision = revision;
          state = state;
        }),
        s',
      )

  -- An unknown command is a defect, `none`, and nothing has changed.
  unfoldable pub commit : ℕ → String → String → Option ℕ → S → Option StoredReceipt × S
  commit now id state wake s = commit_row now id state wake s (read_command s id)

  unfoldable pub receipt : S → String → Option StoredReceipt
  receipt s id = receipt_in (read_command s id)

  unfoldable pub pending : S → List String
  pending s = map (λ (row : Row). text row.command_id) (sql.pending_rows s)

  unfoldable pub latest : S → Option Committed
  latest s = read_committed s

  unfoldable pub advance : ℕ → String → Option ℕ → S → Committed × S
  advance now state wake s =
      let (revision, s') =
        transact_arming (λ t. armed_after wake now (write_advance state wake t)) s in
      (record { revision = revision; state = state; wake = wake }, s')
