-- ===== src/Store/Rows.antt =====
-- The rows that hold a log of the mailbox, and how the statements find and change them.
use effect_frame.Base.{
  ℕ, ◌≡◌, refl, sym, ap, subst, ◌∙◌, inl, inr, Bool, false, Option, none, some, List, [], ◌∷◌, map,
  String, find?, filter, All, Bool-cases, eq_iff,
}
use effect_frame.Mailbox.{Entry, StoredReceipt, Committed, has_id, is_pending, is_none}
use effect_frame.Mailbox.Settle.{settle}
use effect_frame.Mailbox.Valid.{IsSound, Belongs, Distinct}
use effect_frame.Store.{
  Row, CommittedRow, has_command, is_unanswered, updated, to_receipt, to_command_row,
}
use mathlib.Core.Option

abbrev pub row_of : Entry → Row
row_of e = record {
  admitted = some e.command.admitted;
  command_id = some e.command.command_id;
  payload = some e.command.payload;
  payload_hash = some e.command.payload_hash;
  revision = Option.map (λ (r : StoredReceipt). r.revision) e.receipt;
  state = Option.map (λ (r : StoredReceipt). r.state) e.receipt;
}

abbrev pub committed_row_of : Committed → CommittedRow
committed_row_of c = record { revision = some c.revision; state = some c.state; wake_at = c.wake }

pub find?-map {ℓ κ} :
    {A : Type ℓ} {B : Type κ} (p : B → Bool) (q : A → Bool) (f : A → B) (xs : List A)
    → ((a : A) → p (f a) ≡ q a)
    → find? p (map f xs) ≡ Option.map f (find? q xs)
unfolding find?
find?-map p q f [] h = refl
find?-map p q f (x ∷ xs) h =
    rw (h x)
      (elim (Bool-cases (q x)) [ inl e ↦ rw (e) refl | inr e ↦ rw (e) (find?-map p q f xs h) ])

pub filter-map {ℓ κ} :
    {A : Type ℓ} {B : Type κ} (p : B → Bool) (q : A → Bool) (f : A → B) (xs : List A)
    → ((a : A) → p (f a) ≡ q a)
    → filter p (map f xs) ≡ map f (filter q xs)
unfolding filter
filter-map p q f [] h = refl
filter-map p q f (x ∷ xs) h = rw (h x) (elim (Bool-cases (q x)) [
  | inl e ↦ rw (e) (ap (λ ys. f x ∷ ys) (filter-map p q f xs h))
  | inr e ↦ rw (e) (filter-map p q f xs h)
])

pub find-row :
    (id : String) (es : List Entry)
    → find? (has_command id) (map row_of es) ≡ Option.map row_of (find? (has_id id) es)
find-row id es = find?-map (has_command id) (has_id id) row_of es (λ e. refl)

unanswered-row : (e : Entry) → is_unanswered (row_of e) ≡ is_pending e
unanswered-row e = go e.receipt
  where
    go :
        (o : Option StoredReceipt)
        → is_none (Option.map (λ (r : StoredReceipt). r.revision) o) ≡ is_none o
    go none = refl
    go (some r) = refl

pub find-pending :
    (es : List Entry)
    → find? is_unanswered (map row_of es) ≡ Option.map row_of (find? is_pending es)
find-pending es = find?-map is_unanswered is_pending row_of es unanswered-row

pub filter-pending :
    (es : List Entry) → filter is_unanswered (map row_of es) ≡ map row_of (filter is_pending es)
filter-pending es = filter-map is_unanswered is_pending row_of es unanswered-row

-- A receipt reads back from its row, since it names the command and the admission of its entry.
pub receipt-row :
    (high : ℕ) (e : Entry) → IsSound high e → (to_command_row (row_of e)).receipt ≡ e.receipt
receipt-row high e sound = go e.receipt sound
  where
    go :
        (o : Option StoredReceipt)
        → Belongs high e o
        → Option.map
            (λ n. to_receipt (record (row_of e) {
              revision = Option.map (λ (r : StoredReceipt). r.revision) o;
              state = Option.map (λ (r : StoredReceipt). r.state) o;
            }))
            (Option.map (λ (r : StoredReceipt). r.revision) o)
          ≡ o
    go none h = refl
    go (some r) h =
        ap
          (λ c. some (record {
            command_id = c;
            admitted = e.command.admitted;
            revision = r.revision;
            state = r.state;
          }))
          (sym h.0)
        ∙ ap
            (λ a. some (record {
              command_id = r.command_id;
              admitted = a;
              revision = r.revision;
              state = r.state;
            }))
            (sym h.1)

-- The update of a command that no row holds changes nothing.
update-miss :
    (n : ℕ) (state id : String) (es : List Entry)
    → All (λ d. has_id id d ≡ false) es
    → map (updated n state id) (map row_of es) ≡ map row_of es
update-miss n state id [] h = refl
update-miss n state id (e ∷ es) h =
    let first : updated n state id (row_of e) ≡ row_of e = rw (h.0) refl in
    rw (first) (ap (λ rows. row_of e ∷ rows) (update-miss n state id es h.1))

-- The update writes the receipt of the one row that holds the command.
pub update-settle :
    (id : String) (r : StoredReceipt) (es : List Entry)
    → Distinct es
    → map (updated r.revision r.state id) (map row_of es) ≡ map row_of (settle id r es)
unfolding settle
update-settle id r [] d = refl
update-settle id r (e ∷ es) d = elim (Bool-cases (has_id id e)) [
  | inl hit ↦
      let same = (eq_iff e.command.command_id id).0 hit in
      let others =
        update-miss r.revision r.state id es
          (subst (λ i. All (λ d. has_id i d ≡ false) es) same d.0) in
      rw (hit) (ap (λ rows. row_of (record e { receipt = some r }) ∷ rows) others)
  | inr miss ↦ rw (miss) (ap (λ rows. row_of e ∷ rows) (update-settle id r es d.1))
]
