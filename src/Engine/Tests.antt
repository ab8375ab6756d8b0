-- ===== src/Engine/Tests.antt =====
-- The engine on concrete commands, with codecs that keep the text.
use effect_frame.Base.{◌≡◌, refl, sym, none, some, List, [], ◌∷◌, String, ◌==◌, if◌then◌else◌, any}
use effect_frame.Behavior.{Behavior, reducer, wake_of, refusal_of}
use effect_frame.Mailbox
use effect_frame.Mailbox.{Entry, answer_existing, has_id}
use effect_frame.Mailbox.Tests.{mailbox}
use effect_frame.Engine.{
  Options, Engine, Event, sends, works, changes, step, run, open_durable, opened_at, open_initial,
  restore, send_encoded, reply_to, input_of, await_receipt, process_next, process_commit,
  process_autonomous, publish, work, refuse_new, holds, admit,
}
use effect_frame.Engine.Synced.{IsSynced}
use effect_frame.Engine.Run.{run-opened-IsSynced}
use effect_frame.Engine.Reopen.{reopen-run, logical}
use effect_frame.Engine.Refuse.{send-held, await_receipt-run}

unfoldable engine : Unit {0}
unfolding mailbox step run open_durable open_initial restore send_encoded process_next
    process_commit process_autonomous publish work refuse_new holds admit await_receipt any reducer
    wake_of refusal_of
engine = tt

-- A register that keeps the last message and refuses "no".
abbrev register : Behavior String String String
register = record {
  initial = "";
  apply = λ _ message. message;
  predict = none;
  refuse = some (λ message. if message == "no" then some "refused" else none);
  wake_at = none;
}

abbrev plain : Options String String String
plain = record {
  behavior = register;
  encode_state = λ s. some s;
  decode_state = λ t. some t;
  decode_message = λ t. some t;
  hash = λ _. 7;
}

abbrev fresh : Engine String
fresh = opened_at plain Mailbox.empty_log (record { revision = 0; state = "" }) ""

abbrev busy : List (Event String)
busy =
    sends "a" "x"
    ∷ sends "b" "no"
    ∷ works none
    ∷ works none
    ∷ changes "y"
    ∷ works none
    ∷ works none
    ∷ []

opens-fresh : open_durable plain Mailbox.empty_log ≡ some fresh
unfolding engine
opens-fresh = refl

run-opened-IsSynced_example : IsSynced plain (run plain fresh busy)
run-opened-IsSynced_example = run-opened-IsSynced plain fresh busy opens-fresh

-- The command "a" is committed at revision 1.
abbrev short : List (Event String)
short = sends "a" "x" ∷ works none ∷ works none ∷ []

reopen-run_example :
    open_durable plain (run plain fresh short).store
    ≡ some (
        opened_at plain
          (run plain fresh short).store
          (logical plain (run plain fresh short).committed (run plain fresh short).unpublished)
          "x")
unfolding engine
reopen-run_example = reopen-run plain fresh short 1 "x" (λ s t h. sym h) opens-fresh refl

abbrev kept : Entry
kept = record {
  command = record { command_id = "a"; admitted = 1; payload = "x"; payload_hash = 7 };
  receipt = some (record { command_id = "a"; admitted = 1; revision = 1; state = "x" });
}

-- The rule refuses "no", and yet the held ID is answered, as a conflict.
send-held_example :
    send_encoded plain (run plain fresh short) "a" "no"
    ≡ (reply_to plain "a" (answer_existing kept (input_of plain "a" "no")), run plain fresh short)
unfolding engine
send-held_example = send-held plain (run plain fresh short) "a" "no" "no" kept refl refl refl

await_receipt-run_example :
    await_receipt plain (run plain fresh short) "a"
    ≡ some (record { command_id = "a"; admitted = 1; revision = 1; state = "x" })
unfolding engine
await_receipt-run_example =
    await_receipt-run plain fresh short "a"
      (record { command_id = "a"; admitted = 1; revision = 1; state = "x" }) opens-fresh refl refl
