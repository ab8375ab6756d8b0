-- ===== src/Mailbox/Fifo.antt =====
-- Receipts of a mailbox that its engine drives: written in admission order, and never rewritten.
use effect_frame.Base.{
  ℕ, ◌≤◌, ◌<◌, ◌≡◌, refl, sym, ap, subst, ◌∙◌, Option, none, some, List, [], ◌∷◌, ◌++◌, eq_refl,
  arith, find?, All, All-append, find?_of_All, Option-cases, inl, inr,
}
use effect_frame.Mailbox.{
  Entry, Log, StoredReceipt, has_id, is_pending, new_entry, receipt_for, advance, empty_log,
}
use effect_frame.Mailbox.Settle.{settle}
use effect_frame.Mailbox.Valid.{
  IsValid, Distinct, eq_false_sym, next_revision-committed, empty_log-IsValid,
}
use effect_frame.Mailbox.History.{revision_of}
use effect_frame.Mailbox.Retry.{append_fresh, append_found}
use effect_frame.Mailbox.Order.{
  Turn, submit, serve, change, turn, turns, settle-cons_hit, settle-cons_miss, find?-cons_open,
  find?-cons_done, turn-serve-some, turn-serve-none, turn-IsValid, turn-submit, turn_change,
}

abbrev pub Waits : List Entry → Type 0
Waits es = All (λ e. e.receipt ≡ none) es

-- What an entry's receipt asks of the entries behind it: all wait behind one that waits, and behind
-- one that is done the revisions go on above its own.
abbrev pub Behind : ℕ → ℕ → List Entry → (ℕ → Type 0) → Option StoredReceipt → Type 0
Behind low high es rest none = (low ≤ high) × Waits es
Behind low high es rest (some r) = (low < r.revision) × rest r.revision

-- The entries with a receipt come first, and their revisions rise strictly in (low, high].
abbrev pub InOrder : ℕ → ℕ → List Entry → Type 0
InOrder low high [] = low ≤ high
InOrder low high (e ∷ es) = Behind low high es (λ n. InOrder n high es) e.receipt

Waits-InOrder : (low high : ℕ) (es : List Entry) → low ≤ high → Waits es → InOrder low high es
Waits-InOrder low high [] h w = h
Waits-InOrder low high (e ∷ es) h w = rw (w.0, Behind) (h, w.1)

InOrder-cons_done :
    (low high : ℕ) (e : Entry) (r : StoredReceipt) (es : List Entry)
    → e.receipt ≡ some r
    → low < r.revision
    → InOrder r.revision high es
    → InOrder low high (e ∷ es)
InOrder-cons_done low high e r es same h rest =
    subst (Behind low high es (λ n. InOrder n high es)) (sym same) (h, rest)

InOrder-append :
    (low high : ℕ) (es : List Entry) (e : Entry)
    → e.receipt ≡ none
    → InOrder low high es
    → InOrder low high (es ++ e ∷ [])
InOrder-append low high [] e new h = Waits-InOrder low high (e ∷ []) h (new, tt)
InOrder-append low high (d ∷ es) e new h = elim (Option-cases d.receipt) [
  | inl opened ↦
      let (le, w) = subst (Behind low high es (λ n. InOrder n high es)) opened h in
      Waits-InOrder low high (d ∷ es ++ e ∷ []) le (opened, All-append _ es _ w (new, tt))
  | inr (r, done) ↦
      let (lt, rest) = subst (Behind low high es (λ n. InOrder n high es)) done h in
      InOrder-cons_done low high d r (es ++ e ∷ []) done lt
        (InOrder-append r.revision high es e new rest)
]

InOrder-raise :
    (low high top : ℕ) (es : List Entry) → high ≤ top → InOrder low high es → InOrder low top es
InOrder-raise low high top [] h o = omega arith
InOrder-raise low high top (e ∷ es) h o = elim (Option-cases e.receipt) [
  | inl opened ↦
      let (le, w) = subst (Behind low high es (λ n. InOrder n high es)) opened o in
      Waits-InOrder low top (e ∷ es) (omega arith) (opened, w)
  | inr (r, done) ↦
      let (lt, rest) = subst (Behind low high es (λ n. InOrder n high es)) done o in
      InOrder-cons_done low top e r es done lt (InOrder-raise r.revision high top es h rest)
]

-- The oldest pending entry is the one behind the last receipt.
InOrder-settle :
    (low high : ℕ) (e : Entry) (r : StoredReceipt) (es : List Entry)
    → Distinct es
    → find? is_pending es ≡ some e
    → high < r.revision
    → InOrder low high es
    → InOrder low r.revision (settle e.command.command_id r es)
InOrder-settle low high e r [] d h top o = unfold find? in absurd (cc)
InOrder-settle low high e r (x ∷ es) d h top o = elim (Option-cases x.receipt) [
  | inl opened ↦
      let (le, w) = subst (Behind low high es (λ n. InOrder n high es)) opened o in
      let own = eq_refl x.command.command_id in
      let hit = settle-cons_hit x.command.command_id r x es own in
      subst (λ y. InOrder low r.revision (settle y.command.command_id r (x ∷ es)))
        (find?-cons_open x e es opened h)
        (subst (InOrder low r.revision) (sym hit) (
          InOrder-cons_done low r.revision (record x { receipt = some r }) r es refl (omega arith)
            (Waits-InOrder r.revision r.revision es (omega arith) w)))
  | inr (old, done) ↦
      let (lt, rest) = subst (Behind low high es (λ n. InOrder n high es)) done o in
      let later = find?-cons_done x e old es done h in
      let apart = eq_false_sym _ _ (find?_of_All _ is_pending es e d.0 later) in
      subst (InOrder low r.revision) (sym (settle-cons_miss e.command.command_id r x es apart)) (
        InOrder-cons_done low r.revision x old _ done lt
          (InOrder-settle old.revision high e r es d.1 later top rest))
]

abbrev pub IsOrdered : Log → Type 0
IsOrdered log = InOrder 0 (revision_of log) log.entries

turn-IsOrdered : (log : Log) (t : Turn) → IsValid log → IsOrdered log → IsOrdered (turn log t)
unfolding advance
turn-IsOrdered log (submit input) v o =
    elim (Option-cases (find? (has_id input.command_id) log.entries)) [
      | inl fresh ↦
          subst IsOrdered
            (sym (turn-submit log input ∙ ap (λ x. x.1) (append_fresh log input fresh)))
            (InOrder-append 0 _ log.entries (new_entry log input) refl o)
      | inr (e, found) ↦
          subst IsOrdered
            (sym (turn-submit log input ∙ ap (λ x. x.1) (append_found log input e found))) o
    ]
turn-IsOrdered log (serve state wake) v o = elim (Option-cases (find? is_pending log.entries)) [
  | inl idle ↦ subst IsOrdered (sym (turn-serve-none log v state wake idle)) o
  | inr (e, first) ↦ subst IsOrdered (sym (turn-serve-some log v state wake e first)) (
      InOrder-settle 0 (revision_of log) e (receipt_for log e e.command.command_id state)
        log.entries v.distinct first (omega (arith, next_revision-committed log.committed)) o)
]
turn-IsOrdered log (change state wake) v o = subst IsOrdered (sym (turn_change log state wake)) (
    InOrder-raise 0 (revision_of log) _ log.entries
      (omega (arith, next_revision-committed log.committed)) o)

turns-IsOrdered :
    (log : Log) (ts : List Turn) → IsValid log → IsOrdered log → IsOrdered (turns log ts)
unfolding turns
turns-IsOrdered log [] v o = o
turns-IsOrdered log (t ∷ ts) v o =
    turns-IsOrdered (turn log t) ts (turn-IsValid log t v) (turn-IsOrdered log t v o)

-- In every history the engine can make, commands are committed in admission order: the entries with
-- a receipt precede all that wait, and their revisions rise strictly, up to the committed revision.
pub turns-empty-IsOrdered : (ts : List Turn) → IsOrdered (turns empty_log ts)
turns-empty-IsOrdered ts = turns-IsOrdered empty_log ts empty_log-IsValid (omega arith)
