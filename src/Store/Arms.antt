-- ===== src/Store/Arms.antt =====
-- The alarm that wakes the object again.
use effect_frame.Base.{
  ℕ, ◌≤◌, ◌≡◌, refl, ◌⊎◌, inl, inr, Option, none, some, List, [], ◌∷◌, String, leb, if◌then◌else◌,
  find?, arith, Option-cases,
}
use effect_frame.Mailbox.{AppendInput}
use effect_frame.Store
use effect_frame.Store.{
  Sql, Tables, Row, CommittedRow, is_unanswered, CommandRow, append_row, commit_row, arm,
  alarm_after_commit, next_revision, read_command,
}
use effect_frame.Store.Asks.{Ask, append, commit, advance, next, latest, pending, receipt, ask_sql}

abbrev pub DueBy : ℕ → Option ℕ → Type 0
DueBy last none = ⊥
DueBy last (some t) = t ≤ last

abbrev pub WokenBy : ℕ → Option ℕ → Option ℕ → Type 0
WokenBy last none alarm = Unit
WokenBy last (some w) none = ⊥
WokenBy last (some w) (some t) = (t ≤ w) ⊎ (t ≤ last)

-- While a command waits the alarm is due already. Otherwise it is no later than the wake that the committed
-- state asks for, unless that wake has passed.
abbrev pub Timely : ℕ → Option Row → Option CommittedRow → Option ℕ → Type 0
Timely last (some waiting) committed alarm = DueBy last alarm
Timely last none none alarm = Unit
Timely last none (some committed) alarm = WokenBy last committed.wake_at alarm

Timely-later :
    (last now : ℕ) (waiting : Option Row) (committed : Option CommittedRow) (alarm : Option ℕ)
    → last ≤ now
    → Timely last waiting committed alarm
    → Timely now waiting committed alarm
Timely-later last now (some row) committed (some t) h k = omega arith
Timely-later last now (some row) committed none h k = absurd k
Timely-later last now none none alarm h k = tt
Timely-later last now none (some c) alarm h k = go c.wake_at alarm k
  where
    go : (w a : Option ℕ) → WokenBy last w a → WokenBy now w a
    go none a k = tt
    go (some w) none k = absurd k
    go (some w) (some t) (inl k) = inl k
    go (some w) (some t) (inr k) = inr (omega arith)

-- The times of a history never go back.
abbrev pub Rising : {A : Type 0} → ℕ → List (ℕ × A) → Type 0
Rising last [] = Unit
Rising last ((now, a) ∷ asks) = (last ≤ now) × Rising now asks

pub last_time : {A : Type 0} → ℕ → List (ℕ × A) → ℕ
last_time last [] = last
last_time last ((now, a) ∷ asks) = last_time now asks

module _ {S : Type 0} (sql : Sql S) where
  pub run_sql : S → List (ℕ × Ask) → S
  run_sql s [] = s
  run_sql s (a ∷ asks) = run_sql (ask_sql sql s a).1 asks

module _ {S : Type 0} (sql : Sql S) (tables : Tables sql) where
  abbrev pub IsTimely : ℕ → S → Type 0
  IsTimely last s =
      Timely last (find? is_unanswered (tables.rows s)) (tables.latest_row s) (sql.alarm s)

  later : (last now : ℕ) (s : S) → last ≤ now → IsTimely last s → IsTimely now s
  later last now s h k = Timely-later last now _ _ _ h k

  -- What is armed at the end of a commit or of an advance.
  armed :
      (now : ℕ) (wake : Option ℕ) (s : S) (row : CommittedRow)
      → tables.latest_row s ≡ some row
      → row.wake_at ≡ wake
      → IsTimely now (arm sql (alarm_after_commit sql wake now s) s)
  armed now wake s row e w = elim (Option-cases (find? is_unanswered (tables.rows s))) [
    | inl idle ↦ asleep idle wake w
    | inr (waiting, busy) ↦
        rw (tables.has_pending-find s, busy)
          (rw (tables.alarm-rows s now, busy, tables.alarm-set s now) (omega arith))
  ]
    where
      asleep :
          find? is_unanswered (tables.rows s) ≡ none
          → (wake : Option ℕ) → row.wake_at ≡ wake
          → IsTimely now (arm sql (alarm_after_commit sql wake now s) s)
      asleep idle none w = rw (tables.has_pending-find s, idle) (rw (idle, e, w) tt)
      asleep idle (some at) w =
          let t = if leb now at then at else now in
          rw (tables.has_pending-find s, idle)
            (rw (tables.alarm-rows s t, idle, tables.alarm-latest s t, e, w, tables.alarm-set s t)
              (ground arith))

  -- An alarm for now is right whatever waits.
  Timely-now :
      (now : ℕ) (waiting : Option Row) (committed : Option CommittedRow)
      → Timely now waiting committed (some now)
  Timely-now now (some row) committed = omega arith
  Timely-now now none none = tt
  Timely-now now none (some c) = go c.wake_at
    where
      go : (w : Option ℕ) → WokenBy now w (some now)
      go none = tt
      go (some w) = inr (omega arith)

  append-IsTimely :
      (last now : ℕ) (input : AppendInput) (s : S) (found : Option CommandRow)
      → last ≤ now
      → IsTimely last s
      → IsTimely now (append_row sql now input s found).1
  unfolding Store.admit
  append-IsTimely last now input s (some found) h k = later last now s h k
  append-IsTimely last now input s none h k =
      rw
        (tables.alarm-set (sql.insert_command input.command_id input.payload input.payload_hash s)
          now)
        (Timely-now now _ _)

  commit-IsTimely :
      (last now : ℕ) (id state : String) (wake : Option ℕ) (s : S) (found : Option CommandRow)
      → last ≤ now
      → IsTimely last s
      → IsTimely now (commit_row sql now id state wake s found).1
  unfolding Store.write_receipt
  commit-IsTimely last now id state wake s none h k = later last now s h k
  commit-IsTimely last now id state wake s (some found) h k =
      armed now wake _ _ (tables.upsert-latest _ (next_revision sql s) state wake) refl

  advance-IsTimely :
      (now : ℕ) (state : String) (wake : Option ℕ) (s : S)
      → IsTimely now (Store.advance sql now state wake s).1
  unfolding Store.advance Store.write_advance
  advance-IsTimely now state wake s =
      armed now wake _ _ (tables.upsert-latest s (next_revision sql s) state wake) refl

  ask-IsTimely :
      (last now : ℕ) (a : Ask) (s : S)
      → last ≤ now
      → IsTimely last s
      → IsTimely now (ask_sql sql s (now, a)).1
  unfolding Store.append Store.commit
  ask-IsTimely last now (append input) s h k =
      append-IsTimely last now input s (read_command sql s input.command_id) h k
  ask-IsTimely last now (commit id state wake) s h k =
      commit-IsTimely last now id state wake s (read_command sql s id) h k
  ask-IsTimely last now (advance state wake) s h k = advance-IsTimely now state wake s
  ask-IsTimely last now next s h k = later last now s h k
  ask-IsTimely last now latest s h k = later last now s h k
  ask-IsTimely last now pending s h k = later last now s h k
  ask-IsTimely last now (receipt id) s h k = later last now s h k

  run-IsTimely :
      (asks : List (ℕ × Ask)) (last : ℕ) (s : S)
      → Rising last asks
      → IsTimely last s
      → IsTimely (last_time last asks) (run_sql sql s asks)
  unfolding last_time run_sql
  run-IsTimely [] last s h k = k
  run-IsTimely ((now, a) ∷ asks) last s h k =
      run-IsTimely asks now (ask_sql sql s (now, a)).1 h.1 (ask-IsTimely last now a s h.0 k)

  -- Over a storage that keeps what SQL promises and holds no rows yet, after any history of asks whose
  -- times never go back, and until the alarm fires: while a command waits, the alarm is armed for a time
  -- that has passed, so a restart drains it with no client request. When none waits and the committed
  -- state asked for a wake, the alarm is armed no later than that wake, or for a time that has passed.
  pub run_sql-IsTimely :
      (s : S) (asks : List (ℕ × Ask))
      → tables.rows s ≡ []
      → tables.latest_row s ≡ none
      → Rising 0 asks
      → IsTimely (last_time 0 asks) (run_sql sql s asks)
  unfolding find?
  run_sql-IsTimely s asks rows first rising = run-IsTimely asks 0 s rising (rw (rows, first) tt)
