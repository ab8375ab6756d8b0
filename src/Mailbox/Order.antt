-- ===== src/Mailbox/Order.antt =====
-- The mailbox as its engine uses it: it commits only the command that `next` gives. Seen so, the
-- log is a first-in first-out queue with a revision counter.
use effect_frame.Base.{
  ℕ, ◌≡◌, refl, sym, ap, subst, ◌∙◌, true, false, Option, none, some, List, [], ◌∷◌, map, String,
  eq_refl, arith, find?, filter, find?_of_All, Option-cases, inl, inr,
}
use effect_frame.Mailbox.{
  Entry, Log, PendingCommand, StoredReceipt, AppendInput, has_id, is_pending, append_to_log,
  commit_to_log, receipt_for, next, advance,
}
use effect_frame.Mailbox.Settle.{settle, settled, commit_to_log_known}
use effect_frame.Mailbox.Valid.{
  Distinct, IsValid, eq_false_sym, append-IsValid, commit-IsValid, advance-IsValid,
}

-- What the engine asks of the mailbox.
pub data Turn : Type 0 where
  submit : AppendInput → Turn
  serve : String → Option ℕ → Turn
  change : String → Option ℕ → Turn

-- The call that a turn makes: a serve commits the command that `next` gives, if there is one.
abbrev pub commit_next : Option PendingCommand → String → Option ℕ → Log → Log
commit_next none state wake log = log
commit_next (some c) state wake log = (commit_to_log log c.command_id state wake).1

unfoldable pub turn : Log → Turn → Log
turn log (submit input) = (append_to_log log input).1
turn log (serve state wake) = commit_next (next log) state wake log
turn log (change state wake) = (advance log state wake).1

unfoldable pub turns : Log → List Turn → Log
turns log [] = log
turns log (t ∷ ts) = turns (turn log t) ts

abbrev pub ids : List Entry → List String
ids = map (λ e. e.command.command_id)

abbrev pub waiting : List Entry → List PendingCommand
waiting es = map (λ e. e.command) (filter is_pending es)

waiting-cons_pending :
    (x : Entry) (es : List Entry) → x.receipt ≡ none → waiting (x ∷ es) ≡ x.command ∷ waiting es
unfolding filter
waiting-cons_pending x es h = ground arith

waiting-cons_done :
    (x : Entry) (r : StoredReceipt) (es : List Entry)
    → x.receipt ≡ some r
    → waiting (x ∷ es) ≡ waiting es
unfolding filter
waiting-cons_done x r es h = ground arith

pub settle-cons_hit :
    (id : String) (r : StoredReceipt) (x : Entry) (es : List Entry)
    → has_id id x ≡ true
    → settle id r (x ∷ es) ≡ record x { receipt = some r } ∷ es
unfolding settle
settle-cons_hit id r x es h = rw h refl

pub settle-cons_miss :
    (id : String) (r : StoredReceipt) (x : Entry) (es : List Entry)
    → has_id id x ≡ false
    → settle id r (x ∷ es) ≡ x ∷ settle id r es
unfolding settle
settle-cons_miss id r x es h = rw h refl

pub find?-cons_open :
    (x e : Entry) (es : List Entry) → x.receipt ≡ none → find? is_pending (x ∷ es) ≡ some e → x ≡ e
unfolding find?
find?-cons_open x e es o h = ground arith

pub find?-cons_done :
    (x e : Entry) (r : StoredReceipt) (es : List Entry)
    → x.receipt ≡ some r
    → find? is_pending (x ∷ es) ≡ some e
    → find? is_pending es ≡ some e
unfolding find?
find?-cons_done x e r es o h = ground arith

-- A commit of the oldest pending command takes it from the front and touches nothing else.
pub record Serves (e : Entry) (r : StoredReceipt) (es : List Entry) : Type 0 where
  pub found : find? (has_id e.command.command_id) es ≡ some e
  pub front : waiting es ≡ e.command ∷ waiting (settle e.command.command_id r es)
  pub same_ids : ids (settle e.command.command_id r es) ≡ ids es

pub settle-Serves :
    (e : Entry) (r : StoredReceipt) (es : List Entry)
    → Distinct es
    → find? is_pending es ≡ some e
    → Serves e r es
unfolding find?
settle-Serves e r [] d h = absurd (cc)
settle-Serves e r (x ∷ es) d h = elim (Option-cases x.receipt) [
  | inl opened ↦
      let hit = settle-cons_hit x.command.command_id r x es (eq_refl x.command.command_id) in
      subst (λ y. Serves y r (x ∷ es)) (find?-cons_open x e es opened h)
        (record {
          found = rw (eq_refl x.command.command_id) refl;
          front =
              waiting-cons_pending x es opened
              ∙ ap (λ l. x.command ∷ l)
                  (sym
                    (ap waiting hit ∙ waiting-cons_done (record x { receipt = some r }) r es refl));
          same_ids = ap ids hit;
        })
  | inr (old, closed) ↦
      let later = find?-cons_done x e old es closed h in
      let rest = settle-Serves e r es d.1 later in
      let apart = eq_false_sym _ _ (find?_of_All _ is_pending es e d.0 later) in
      let miss = settle-cons_miss e.command.command_id r x es apart in
      record {
        found = rw apart rest.found;
        front =
            waiting-cons_done x old es closed
            ∙ rest.front
            ∙ ap (λ l. e.command ∷ l) (sym (ap waiting miss ∙ waiting-cons_done x old _ closed));
        same_ids = ap ids miss ∙ ap (λ l. x.command.command_id ∷ l) rest.same_ids;
      }
]

module _ (log : Log) (v : IsValid log) (state : String) (wake : Option ℕ) where
  -- A serve commits the oldest pending entry, and does nothing when there is none.
  pub turn-serve-some :
      (e : Entry)
      → find? is_pending log.entries ≡ some e
      → turn log (serve state wake) ≡ settled log e e.command.command_id state wake
  unfolding turn next
  turn-serve-some e h = rw h (
      ap (λ x. x.1)
        (commit_to_log_known log e.command.command_id state wake e
          (settle-Serves e (receipt_for log e e.command.command_id state) log.entries v.distinct
            h).found))

  pub turn-serve-none : find? is_pending log.entries ≡ none → turn log (serve state wake) ≡ log
  unfolding turn next
  turn-serve-none h = rw h refl

pub turn-IsValid : (log : Log) (t : Turn) → IsValid log → IsValid (turn log t)
unfolding turn
turn-IsValid log (submit input) v = append-IsValid log input v
turn-IsValid log (serve state wake) v = go (next log)
  where
    go : (c : Option PendingCommand) → IsValid (commit_next c state wake log)
    go none = v
    go (some c) = commit-IsValid log c.command_id state wake v
turn-IsValid log (change state wake) v = advance-IsValid log state wake v

pub turns-IsValid : (log : Log) (ts : List Turn) → IsValid log → IsValid (turns log ts)
unfolding turns
turns-IsValid log [] v = v
turns-IsValid log (t ∷ ts) v = turns-IsValid (turn log t) ts (turn-IsValid log t v)

pub turn-submit :
    (log : Log) (input : AppendInput) → turn log (submit input) ≡ (append_to_log log input).1
unfolding turn
turn-submit log input = refl

pub turn_change :
    (log : Log) (state : String) (wake : Option ℕ)
    → turn log (change state wake) ≡ (advance log state wake).1
unfolding turn
turn_change log state wake = refl
