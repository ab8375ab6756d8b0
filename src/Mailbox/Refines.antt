-- ===== src/Mailbox/Refines.antt =====
-- The mailbox refines a queue: the IDs it has seen, the commands that wait, and a revision.
use effect_frame.Base.{
  ℕ, suc, ◌+◌, ◌≡◌, refl, sym, ap, subst, ◌∙◌, true, false, Option, none, some, List, [], ◌∷◌, ◌++◌,
  String, ◌==◌, arith, if◌then◌else◌, find?, filter, any, length, length-append, Option-cases, inl,
  inr,
}
use mathlib.Core.List.{map-append}
use effect_frame.Mailbox.{
  Entry, Log, PendingCommand, StoredReceipt, AppendInput, has_id, is_pending, new_entry,
  receipt_for, advance, empty_log,
}
use effect_frame.Mailbox.Settle.{settle}
use effect_frame.Mailbox.Valid.{IsValid, next_revision-committed, empty_log-IsValid}
use effect_frame.Mailbox.History.{revision_of}
use effect_frame.Mailbox.Retry.{append_fresh, append_found, admission}
use effect_frame.Mailbox.Order.{
  Turn, submit, serve, change, turn, turns, ids, waiting, settle-Serves, turn-serve-some,
  turn-serve-none, turn-IsValid,
}

-- The specification: positions are counted from 1 in the order in which new IDs arrive.
pub record Spec : Type 0 where
  pub known : List String
  pub queue : List PendingCommand
  pub revision : ℕ

abbrev pub empty_spec : Spec
empty_spec = record { known = []; queue = []; revision = 0 }

abbrev pub enter : Spec → AppendInput → Spec
enter q input = record {
  known = q.known ++ input.command_id ∷ [];
  queue = q.queue ++ admission input (length q.known + 1) ∷ [];
  revision = q.revision;
}

abbrev pub leave : Spec → List PendingCommand → Spec
leave q [] = q
leave q (c ∷ cs) = record { known = q.known; queue = cs; revision = q.revision + 1 }

pub spec_turn : Spec → Turn → Spec
spec_turn q (submit input) = if any (λ id. id == input.command_id) q.known then q else enter q input
spec_turn q (serve state wake) = leave q q.queue
spec_turn q (change state wake) = record q { revision = q.revision + 1 }

pub spec_turns : Spec → List Turn → Spec
spec_turns q [] = q
spec_turns q (t ∷ ts) = spec_turns (spec_turn q t) ts

abbrev pub view : Log → Spec
view log = record {
  known = ids log.entries;
  queue = waiting log.entries;
  revision = revision_of log;
}

-- `find` by ID answers as the known IDs do.
any-ids-some :
    (id : String) (es : List Entry) (e : Entry)
    → find? (has_id id) es ≡ some e
    → any (λ k. k == id) (ids es) ≡ true
unfolding find? any
any-ids-some id [] e h = cc
any-ids-some id (x ∷ es) e h = ground (arith, any-ids-some id es e)

any-ids-none :
    (id : String) (es : List Entry)
    → find? (has_id id) es ≡ none
    → any (λ k. k == id) (ids es) ≡ false
unfolding find? any
any-ids-none id [] h = refl
any-ids-none id (x ∷ es) h = ground (arith, any-ids-none id es)

length-ids : (es : List Entry) → length (ids es) ≡ length es
length-ids [] = refl
length-ids (e ∷ es) = ap suc (length-ids es)

waiting-append_new :
    (es : List Entry) (e : Entry)
    → e.receipt ≡ none
    → waiting (es ++ e ∷ []) ≡ waiting es ++ e.command ∷ []
unfolding filter
waiting-append_new [] e h = ground arith
waiting-append_new (x ∷ es) e h = ground (arith, waiting-append_new es e h)

-- Positions have no gaps: the next one counts the entries.
abbrev pub IsCounted : Log → Type 0
IsCounted log = log.next_admission ≡ length log.entries + 1

length-settle :
    (id : String) (r : StoredReceipt) (es : List Entry) → length (settle id r es) ≡ length es
unfolding settle
length-settle id r [] = refl
length-settle id r (e ∷ es) = ground (arith, length-settle id r es)

waiting_idle : (es : List Entry) → find? is_pending es ≡ none → waiting es ≡ []
unfolding find? filter
waiting_idle [] h = refl
waiting_idle (e ∷ es) h = ground (arith, waiting_idle es)

-- One turn of the log, seen through `view`, is one turn of the queue.
record Follows (log : Log) (t : Turn) : Type 0 where
  same : view (turn log t) ≡ spec_turn (view log) t
  counted : IsCounted (turn log t)

Spec-path : (q r : Spec) → q.known ≡ r.known → q.queue ≡ r.queue → q.revision ≡ r.revision → q ≡ r
Spec-path q r a b c = λ i. record { known = a i; queue = b i; revision = c i }

view-enter :
    (log : Log) (input : AppendInput)
    → IsCounted log
    → view (record log {
      entries = log.entries ++ new_entry log input ∷ [];
      next_admission = log.next_admission + 1;
    })
      ≡ enter (view log) input
view-enter log input c =
    let n : log.next_admission ≡ length (ids log.entries) + 1 =
      omega (arith, length-ids log.entries) in
    Spec-path _ _ (map-append _ log.entries (new_entry log input ∷ []))
      (waiting-append_new log.entries (new_entry log input) refl
        ∙ ap (λ k. waiting log.entries ++ admission input k ∷ []) n)
      refl

submit-Follows : (log : Log) (input : AppendInput) → IsCounted log → Follows log (submit input)
unfolding turn spec_turn
submit-Follows log input c = elim (Option-cases (find? (has_id input.command_id) log.entries)) [
  | inl fresh ↦
      let after = ap (λ x. x.1) (append_fresh log input fresh) in
      record {
        same =
            ap view after
            ∙ rw (any-ids-none input.command_id log.entries fresh) (view-enter log input c);
        counted =
            subst IsCounted (sym after)
              (omega (arith, length-append log.entries (new_entry log input ∷ [])));
      }
  | inr (e, found) ↦
      let after = ap (λ x. x.1) (append_found log input e found) in
      record {
        same = ap view after ∙ rw (any-ids-some input.command_id log.entries e found) refl;
        counted = subst IsCounted (sym after) c;
      }
]

serve-Follows :
    (log : Log) (state : String) (wake : Option ℕ)
    → IsValid log
    → IsCounted log
    → Follows log (serve state wake)
unfolding spec_turn
serve-Follows log state wake v c = elim (Option-cases (find? is_pending log.entries)) [
  | inl idle ↦
      let after = turn-serve-none log v state wake idle in
      record {
        same = ap view after ∙ rw (waiting_idle log.entries idle) refl;
        counted = subst IsCounted (sym after) c;
      }
  | inr (e, first) ↦
      let after = turn-serve-some log v state wake e first in
      let r = receipt_for log e e.command.command_id state in
      let s = settle-Serves e r log.entries v.distinct first in
      record {
        same =
            ap view after
            ∙ Spec-path _
                (leave (view log) (e.command ∷ waiting (settle e.command.command_id r log.entries)))
                s.same_ids refl (next_revision-committed log.committed)
            ∙ ap (leave (view log)) (sym s.front);
        counted =
            subst IsCounted (sym after)
              (omega (arith, length-settle e.command.command_id r log.entries));
      }
]

turn-Follows : (log : Log) (t : Turn) → IsValid log → IsCounted log → Follows log t
turn-Follows log (submit input) v c = submit-Follows log input c
turn-Follows log (serve state wake) v c = serve-Follows log state wake v c
turn-Follows log (change state wake) v c =
    unfold turn spec_turn advance in
    record { same = Spec-path _ _ refl refl (next_revision-committed log.committed); counted = c }

view-turns_from :
    (log : Log) (ts : List Turn)
    → IsValid log
    → IsCounted log
    → view (turns log ts) ≡ spec_turns (view log) ts
unfolding turns spec_turns
view-turns_from log [] v c = refl
view-turns_from log (t ∷ ts) v c =
    let f = turn-Follows log t v c in
    view-turns_from (turn log t) ts (turn-IsValid log t v) f.counted
    ∙ ap (λ q. spec_turns q ts) f.same

-- Driven by an engine that commits what `next` gives, the log is a queue: a new ID joins the end at
-- the position one past the known IDs, a known ID changes nothing, a serve takes the front command
-- and adds one to the revision (or does nothing when none waits), and a change adds one to the
-- revision.
pub view-turns : (ts : List Turn) → view (turns empty_log ts) ≡ spec_turns empty_spec ts
view-turns ts =
    view-turns_from empty_log ts empty_log-IsValid (omega arith)
    ∙ ap (λ q. spec_turns q ts) (unfold filter in refl)
