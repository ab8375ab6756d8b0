-- ===== src/Mailbox/Tests.antt =====
-- The mailbox on concrete commands.
use effect_frame.Base.{
  ◌≡◌, refl, none, some, List, [], ◌∷◌, String, eq_iff, arith, find?, filter, find_index, map_from,
}
use effect_frame.Mailbox.{
  AppendInput, admitted, duplicate, appended, command_conflict, append_to_log, answer_existing,
  commit_to_log, commit_at, write_receipt, next_revision, next, pending, receipt, advance,
  empty_log, commit, latest,
}
use effect_frame.Mailbox.Valid.{IsValid, empty_log-IsValid}
use effect_frame.Mailbox.History.{Call, appends, commits, advances, step, run, run-empty-IsValid}
use effect_frame.Mailbox.Retry.{append_again, append_conflict}
use effect_frame.Mailbox.Order.{Turn, submit, serve, change, turn, turns, turns-IsValid}
use effect_frame.Mailbox.Refines.{view, empty_spec, spec_turns, view-turns}
use effect_frame.Mailbox.Fifo.{IsOrdered, turns-empty-IsOrdered}
use effect_frame.Mailbox.Stable.{receipt-turns}

unfoldable pub mailbox : Unit {0}
unfolding append_to_log answer_existing commit_to_log commit_at write_receipt next_revision next
    pending receipt advance run step turns turn find? filter find_index map_from commit latest
mailbox = tt

abbrev pub first : AppendInput
first = record { command_id = "a"; payload = "1"; payload_hash = 7 }

-- Another payload under the same ID, with the same hash.
abbrev clash : AppendInput
clash = record { command_id = "a"; payload = "2"; payload_hash = 7 }

abbrev pub second : AppendInput
second = record { command_id = "b"; payload = "1"; payload_hash = 7 }

abbrev pub script : List Turn
script = submit first ∷ submit second ∷ submit first ∷ serve "s1" none ∷ change "s2" (some 9) ∷ []

abbrev calls : List Call
calls =
    appends first
    ∷ appends clash
    ∷ commits "a" "s1" none
    ∷ commits "z" "s" none
    ∷ advances "s2" none
    ∷ []

pending_test : pending (turns empty_log script) ≡ "b" ∷ []
unfolding mailbox
pending_test = refl

clash_test : (append_to_log (turns empty_log script) clash).0 ≡ command_conflict "a"
unfolding mailbox
clash_test = refl

duplicate_test :
    (append_to_log (turns empty_log script) first).0
    ≡ appended
        (duplicate 1 (some (record { command_id = "a"; admitted = 1; revision = 1; state = "s1" })))
unfolding mailbox
duplicate_test = refl

commit_test : commit (turns empty_log script) "z" "s" none ≡ none
unfolding mailbox
commit_test = refl

run-empty-IsValid_example : IsValid (run empty_log calls)
run-empty-IsValid_example = run-empty-IsValid calls

first_taken : (append_to_log empty_log first).0 ≡ appended (admitted 1)
unfolding mailbox
first_taken = refl

append_again_example : append_to_log (run (append_to_log empty_log first).1 calls) first ≡ (
  appended (duplicate 1 (receipt (run (append_to_log empty_log first).1 calls) "a")),
  run (append_to_log empty_log first).1 calls,
)
append_again_example = append_again empty_log first (admitted 1) first_taken calls

one_ne_two : ◌≡◌ {A = String} "2" "1" → ⊥
one_ne_two = ground (arith, eq_iff "2" "1")

append_conflict_example :
    append_to_log (run (append_to_log empty_log first).1 calls) clash
    ≡ (command_conflict "a", run (append_to_log empty_log first).1 calls)
append_conflict_example =
    append_conflict empty_log first (admitted 1) first_taken calls clash refl one_ne_two

view-turns_example : view (turns empty_log script) ≡ spec_turns empty_spec script
view-turns_example = view-turns script

turns-empty-IsOrdered_example : IsOrdered (turns empty_log script)
turns-empty-IsOrdered_example = turns-empty-IsOrdered script

after_script :
    receipt (turns empty_log script) "a"
    ≡ some (record { command_id = "a"; admitted = 1; revision = 1; state = "s1" })
unfolding mailbox
after_script = refl

receipt-turns_example :
    receipt (turns (turns empty_log script) script) "a"
    ≡ some (record { command_id = "a"; admitted = 1; revision = 1; state = "s1" })
receipt-turns_example =
    receipt-turns (turns empty_log script) script "a" _
      (turns-IsValid empty_log script empty_log-IsValid) after_script
