-- ===== src/Owner/Tests.antt =====
-- The owner on concrete commands.
use effect_frame.Base.{
  ℕ, ◌≤◌, ◌*◌, refl, Bool, true, false, none, List, [], ◌∷◌, String, arith, ltb, find?, filter,
}
use effect_frame.Owner.{
  Identified, supplied, Adapter, CommandRecord, Event, submits, retries, hears, no_records, begins,
  admits, fails, times_out, lost, uncertain, resting, due, step, run, hear, hear_at, retry, submit,
  place, start_sequence, finish, classify, idle, end_pass, discard, stopped_before_work,
}
use effect_frame.Owner.Records.{IsUpTo, IsKept}
use effect_frame.Owner.Sound.{IsSound, run-no_records-IsSound}
use effect_frame.Owner.Ends.{Runs, rests, goes_on, Runs-le}

unfoldable owner : Unit {0}
unfolding step run hear hear_at retry submit place start_sequence finish classify idle end_pass
    discard stopped_before_work find? filter
owner = tt

-- A refusal is its tag.
abbrev plain : Adapter String
plain = record { tag_of = λ r. r; stopped = "ActorStopped"; conflict = λ _. "CommandConflict" }

abbrev recurs : ℕ → ℕ → Bool
recurs times done = ltb done times

recurs-IsUpTo : IsUpTo recurs
recurs-IsUpTo times done = refl

abbrev mine : Identified
mine = record { command_id = "a"; identity = supplied }

abbrev busy : List (Event ℕ String)
busy =
    submits mine "x" true
    ∷ hears "a" begins
    ∷ hears "a" (fails lost)
    ∷ hears "a" begins
    ∷ hears "a" (admits 4)
    ∷ hears "a" times_out
    ∷ retries "a"
    ∷ hears "a" begins
    ∷ []

run-no_records-IsSound_example : IsSound plain recurs 2 (run plain recurs 2 no_records busy)
run-no_records-IsSound_example =
    run-no_records-IsSound plain recurs 2 recurs-IsUpTo (omega arith) busy

-- The record of "a", idle after two lost passes.
abbrev idle_record : CommandRecord ℕ String
idle_record = record {
  command_id = "a";
  identity = supplied;
  payload = "x";
  lifecycle = uncertain 2 none;
  owned = true;
  possible_admission = true;
  admitted_at = none;
  attempt = 2;
  running = false;
  done = false;
  worker = resting;
  heard = times_out ∷ fails lost ∷ [];
}

-- One whole sequence of two passes after a retry.
abbrev due_record : CommandRecord ℕ String
due_record = record idle_record { attempt = 0; running = true; worker = due }

due_record-IsKept : IsKept plain recurs 2 due_record
due_record-IsKept = record {
  held = record {
    live = refl;
    owned = refl;
    supplied_possible = λ _. refl;
    suspected_possible = λ _. refl;
  };
  open_now = tt;
  standing = (refl, omega arith);
}

begun_once : Runs plain recurs 2 due_record 1
unfolding owner
begun_once = goes_on due_record _ begins 0 refl refl (rests _)

Runs-le_example : 1 ≤ 3 * 2
Runs-le_example = Runs-le plain recurs 2 recurs-IsUpTo due_record 1 due_record-IsKept begun_once
