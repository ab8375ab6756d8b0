-- ===== src/Store/Tests.antt =====
-- The store over a storage that keeps its tables in lists.
use effect_frame.Base.{
  ℕ, ◌+◌, ◌≡◌, refl, not, Option, none, some, List, [], ◌∷◌, ◌++◌, map, String, find?, filter,
  arith,
}
use effect_frame.Mailbox.{is_none, empty_log, AppendInput}
use effect_frame.Store.{
  Row, CommittedRow, Sql, Tables, has_command, is_unanswered, inserted, updated,
}
use effect_frame.Store.Asks.{
  Ask, append, commit, advance, next, latest, pending, receipt, asks_sql, asks_memory, asked,
}
use effect_frame.Store.Same.{asks_sql-asks_memory}
use effect_frame.Store.Arms.{IsTimely, last_time, run_sql, run_sql-IsTimely}

record Disk : Type 0 where
  pub commands : List Row
  pub assigns : ℕ
  pub committed : Option CommittedRow
  pub wake : Option ℕ

abbrev disk : Sql Disk
disk = record {
  command_row = λ s id. find? (has_command id) s.commands;
  committed_row = λ s. s.committed;
  oldest_pending = λ s. find? is_unanswered s.commands;
  pending_rows = λ s. filter is_unanswered s.commands;
  has_pending = λ s. not (is_none (find? is_unanswered s.commands));
  insert_command = λ id payload hash s. record s {
    commands = s.commands ++ inserted s.assigns id payload hash ∷ [];
    assigns = s.assigns + 1;
  };
  update_command = λ n state id s. record s { commands = map (updated n state id) s.commands };
  upsert_committed = λ n state wake s. record s {
    committed = some (record { revision = some n; state = some state; wake_at = wake });
  };
  set_alarm = λ at s. record s { wake = some at };
  alarm = λ s. s.wake;
}

abbrev disk_tables : Tables disk
disk_tables = record {
  rows = λ s. s.commands;
  latest_row = λ s. s.committed;
  order = λ s. s.assigns;
  command_row-find = λ s id. refl;
  committed_row-latest = λ s. refl;
  oldest_pending-find = λ s. refl;
  pending_rows-filter = λ s. refl;
  has_pending-find = λ s. refl;
  insert-rows = λ s id payload hash free. refl;
  insert-order = λ s id payload hash free. refl;
  insert-latest = λ s id payload hash. refl;
  update-rows = λ s n state id. refl;
  update-order = λ s n state id. refl;
  update-latest = λ s n state id. refl;
  upsert-rows = λ s n state wake. refl;
  upsert-order = λ s n state wake. refl;
  upsert-latest = λ s n state wake. refl;
  alarm-rows = λ s at. refl;
  alarm-order = λ s at. refl;
  alarm-latest = λ s at. refl;
  alarm-set = λ s at. refl;
}

abbrev blank : Disk
blank = record { commands = []; assigns = 1; committed = none; wake = none }

abbrev input : String → String → AppendInput
input id payload = record { command_id = id; payload = payload; payload_hash = 7 }

-- Two commands, a retry, a conflict, an unknown command, a commit that asks for a wake, and reads.
abbrev visit : List (ℕ × Ask)
visit =
    (1, append (input "a" "x"))
    ∷ (2, append (input "b" "y"))
    ∷ (2, append (input "a" "x"))
    ∷ (3, append (input "a" "z"))
    ∷ (4, commit "c" "s" none)
    ∷ (5, commit "a" "s" (some 9))
    ∷ (6, receipt "a")
    ∷ (6, pending)
    ∷ (7, advance "t" none)
    ∷ (8, next)
    ∷ (8, latest)
    ∷ []

asks_sql-asks_memory_example : asks_sql disk blank visit ≡ asks_memory empty_log (asked visit)
asks_sql-asks_memory_example = asks_sql-asks_memory disk disk_tables blank visit refl refl refl

run_sql-IsTimely_example : IsTimely disk disk_tables (last_time 0 visit) (run_sql disk blank visit)
run_sql-IsTimely_example = run_sql-IsTimely disk disk_tables blank visit refl refl (
  omega arith,
  (
    omega arith,
    (
      omega arith,
      (
        omega arith,
        (
          omega arith,
          (
            omega arith,
            (omega arith, (omega arith, (omega arith, (omega arith, (omega arith, tt))))),
          ),
        ),
      ),
    ),
  ),
)
