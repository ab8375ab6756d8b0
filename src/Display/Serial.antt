-- ===== src/Display/Serial.antt =====
-- The mailbox is serial: any history that its engine can make gives the positions and revisions by
-- which a display classifies commands.
use mathlib.Core.Option
use effect_frame.Base.{
  ℕ, ◌≤◌, ◌<◌, ◌≡◌, sym, ap, subst, ◌∙◌, Bool, Option, none, some, List, [], ◌∷◌, String, ◌⊎◌,
  eq_of_some, find?, find?_of_All, arith, Option-cases, Bool-cases, inl, inr,
}
use effect_frame.Mailbox.{StoredReceipt, Entry, Log, has_id, receipt_of}
use effect_frame.Mailbox.Valid.{Ascending, IsValid}
use effect_frame.Mailbox.History.{revision_of}
use effect_frame.Mailbox.Fifo.{InOrder, Behind, Waits, IsOrdered}
use effect_frame.Display.Truth.{Serial}

abbrev pub position_in : List Entry → String → Option ℕ
position_in es id = Option.map (λ e. e.command.admitted) (find? (has_id id) es)

abbrev pub revision_in : List Entry → String → Option ℕ
revision_in es id = Option.map (λ r. r.revision) (receipt_of (find? (has_id id) es))

Ascending-above :
    (low high : ℕ) (es : List Entry) (p : Entry → Bool) (e : Entry)
    → Ascending low high es
    → find? p es ≡ some e
    → low < e.command.admitted
unfolding find?
Ascending-above low high [] p e a h = cc
Ascending-above low high (x ∷ es) p e a h = elim (Bool-cases (p x)) [
  | inl hit ↦ ground arith
  | inr miss ↦
      let rest = Ascending-above x.command.admitted high es p e a.1 (ground arith) in omega arith
]

find?-cons :
    (p : Entry → Bool) (x e : Entry) (es : List Entry)
    → find? p (x ∷ es) ≡ some e
    → (x ≡ e) ⊎ (find? p es ≡ some e)
unfolding find?
find?-cons p x e es h = elim (Bool-cases (p x)) [
  | inl hit ↦ inl (ground arith)
  | inr miss ↦ inr (ground arith)
]

-- What `InOrder` says of the first entry.
record Done (low high : ℕ) (x : Entry) (es : List Entry) : Type 0 where
  old : StoredReceipt
  has : x.receipt ≡ some old
  above : low < old.revision
  rest : InOrder old.revision high es

InOrder-cons :
    (low high : ℕ) (x : Entry) (es : List Entry)
    → InOrder low high (x ∷ es)
    → ((x.receipt ≡ none) × Waits es) ⊎ Done low high x es
InOrder-cons low high x es o = elim (Option-cases x.receipt) [
  | inl opened ↦ inl (opened, (subst (Behind low high es (λ n. InOrder n high es)) opened o).1)
  | inr (r, done) ↦
      let (above, rest) = subst (Behind low high es (λ n. InOrder n high es)) done o in
      inr (record { old = r; has = done; above = above; rest = rest })
]

no_receipt : (e : Entry) (r : StoredReceipt) → e.receipt ≡ none → e.receipt ≡ some r → ⊥
no_receipt e r a b = cc

same_receipt : (e : Entry) (r s : StoredReceipt) → e.receipt ≡ some r → e.receipt ≡ some s → r ≡ s
same_receipt e r s a b = cc

InOrder-above :
    (low high : ℕ) (es : List Entry) (p : Entry → Bool) (e : Entry) (r : StoredReceipt)
    → InOrder low high es
    → find? p es ≡ some e
    → e.receipt ≡ some r
    → low < r.revision
InOrder-above low high [] p e r o h done = unfold find? in absurd (cc)
InOrder-above low high (x ∷ es) p e r o h done = elim (InOrder-cons low high x es o) [
  | inl (opened, waits) ↦ elim (find?-cons p x e es h) [
    | inl same ↦ absurd (no_receipt x r opened (subst (λ y. y.receipt ≡ some r) (sym same) done))
    | inr later ↦ absurd (no_receipt e r (find?_of_All _ p es e waits later) done)
  ]
  | inr d ↦ elim (find?-cons p x e es h) [
    | inl same ↦
        let one = same_receipt x d.old r d.has (subst (λ y. y.receipt ≡ some r) (sym same) done) in
        subst (λ y. low < y.revision) one d.above
    | inr later ↦
        let up = InOrder-above d.old.revision high es p e r d.rest later done in
        let here = d.above in omega arith
  ]
]

-- Of two entries with receipts the one with the lower position has the lower revision, and an entry
-- before one with a receipt has one too.
record Serially (a b : Entry) (r : StoredReceipt) : Type 0 where
  mine : StoredReceipt
  has : a.receipt ≡ some mine
  le : mine.revision ≤ r.revision
  lt : a.command.admitted < b.command.admitted → mine.revision < r.revision

Serially-self : (a b : Entry) (r : StoredReceipt) → a ≡ b → b.receipt ≡ some r → Serially a b r
Serially-self a b r same done =
    subst (λ y. Serially y b r) (sym same)
      (record { mine = r; has = done; le = omega arith; lt = λ h. absurd (omega arith) })

both-Serially :
    (low high n m : ℕ) (es : List Entry) (p q : Entry → Bool) (a b : Entry) (r : StoredReceipt)
    → InOrder low high es
    → Ascending n m es
    → find? p es ≡ some a
    → find? q es ≡ some b
    → a.command.admitted ≤ b.command.admitted
    → b.receipt ≡ some r
    → Serially a b r
both-Serially low high n m [] p q a b r o asc ha hb le done = unfold find? in absurd (cc)
both-Serially low high n m (x ∷ es) p q a b r o asc ha hb le done = elim (find?-cons p x a es ha) [
  | inl a_first ↦ elim (find?-cons q x b es hb) [
    | inl b_first ↦ Serially-self a b r (sym a_first ∙ b_first) done
    | inr b_later ↦ elim (InOrder-cons low high x es o) [
      | inl (opened, waits) ↦ absurd (no_receipt b r (find?_of_All _ q es b waits b_later) done)
      | inr d ↦
          let up = InOrder-above d.old.revision high es q b r d.rest b_later done in
          record {
            mine = d.old;
            has = subst (λ y. y.receipt ≡ some d.old) a_first d.has;
            le = omega arith;
            lt = λ _. up;
          }
    ]
  ]
  | inr a_later ↦ elim (find?-cons q x b es hb) [
    | inl b_first ↦
        let up = Ascending-above x.command.admitted m es p a asc.1 a_later in
        let here = ap (λ y. y.command.admitted) b_first in absurd (omega arith)
    | inr b_later ↦ elim (InOrder-cons low high x es o) [
      | inl (opened, waits) ↦ absurd (no_receipt b r (find?_of_All _ q es b waits b_later) done)
      | inr d ↦
          both-Serially d.old.revision high x.command.admitted m es p q a b r d.rest asc.1 a_later
            b_later le done
    ]
  ]
]

-- A position or a revision comes from an entry.
entry_at_position :
    (es : List Entry) (id : String) (n : ℕ)
    → position_in es id ≡ some n
    → (e : Entry) × (find? (has_id id) es ≡ some e) × (e.command.admitted ≡ n)
entry_at_position es id n h = elim (Option-cases (find? (has_id id) es)) [
  | inl e ↦ absurd (ground arith)
  | inr (e, found) ↦ (e, found, ground arith)
]

receipt_at_revision :
    (es : List Entry) (id : String) (n : ℕ) (e : Entry)
    → revision_in es id ≡ some n
    → find? (has_id id) es ≡ some e
    → (r : StoredReceipt) × (e.receipt ≡ some r) × (r.revision ≡ n)
receipt_at_revision es id n e h found = elim (Option-cases e.receipt) [
  | inl missing ↦ absurd (ground arith)
  | inr (r, done) ↦ (r, done, ground arith)
]

module _ (log : Log) (v : IsValid log) (o : IsOrdered log) where
  pub serial_pair :
      (a b : String) (p q n : ℕ)
      → position_in log.entries a ≡ some p
      → position_in log.entries b ≡ some q
      → p ≤ q
      → revision_in log.entries b ≡ some n
      → (m : ℕ) × (revision_in log.entries a ≡ some m) × (m ≤ n) × (p < q → m < n)
  serial_pair a b p q n pa pb le rb =
      let (ea, fa, na) = entry_at_position log.entries a p pa in
      let (eb, fb, nb) = entry_at_position log.entries b q pb in
      let (r, done, nr) = receipt_at_revision log.entries b n eb rb fb in
      let s =
        both-Serially 0 (revision_of log) 0 log.next_admission log.entries (has_id a) (has_id b) ea
          eb r o v.ascending fa fb (omega arith) done in
      (
        s.mine.revision,
        ap (λ x. Option.map (λ y. y.revision) (receipt_of x)) fa
            ∙ ap (Option.map (λ y. y.revision)) s.has,
        subst (λ k. s.mine.revision ≤ k) nr s.le,
        λ h. subst (λ k. s.mine.revision < k) nr (s.lt (omega arith)),
      )

  abbrev pub serial_of : Serial
  serial_of = record {
    position = position_in log.entries;
    revision = revision_in log.entries;
    earlier_committed = λ a b p q n pa pb le rb.
        let (m, e, up, _) = serial_pair a b p q n pa pb le rb in (m, e, up);
    later_above = λ a b p q m n pa pb lt ra rb.
        let (k, e, _, up) = serial_pair a b p q n pa pb (omega arith) rb in
        subst (λ j. j < n) (eq_of_some k m (sym e ∙ ra)) (up lt);
  }
