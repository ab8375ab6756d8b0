-- ===== src/Mailbox/Stable.antt =====
-- A stored receipt is final.
use effect_frame.Base.{
  ◌≡◌, refl, sym, ap, subst, ◌∙◌, true, false, some, List, [], ◌∷◌, String, ◌==◌, eq_iff, arith,
  find?, find?-append_some, find?_holds, Option-cases, Bool-cases, inl, inr,
}
use effect_frame.Mailbox.{
  Entry, Log, StoredReceipt, has_id, is_pending, receipt_of, receipt, receipt_for, advance,
}
use effect_frame.Mailbox.Settle.{settle}
use effect_frame.Mailbox.Valid.{IsValid}
use effect_frame.Mailbox.Retry.{append_fresh, append_found}
use effect_frame.Mailbox.Order.{
  Turn, submit, serve, change, turn, turns, settle-Serves, turn-serve-some, turn-serve-none,
  turn-IsValid, turn-submit, turn_change,
}

find?-settle_ne :
    (j id : String) (r : StoredReceipt) (es : List Entry)
    → (id == j) ≡ false
    → find? (has_id j) (settle id r es) ≡ find? (has_id j) es
unfolding find? settle
find?-settle_ne j id r [] h = refl
find?-settle_ne j id r (e ∷ es) h = ground (
  arith,
  find?-settle_ne j id r es h,
  eq_iff e.command.command_id id,
  eq_iff e.command.command_id j,
  eq_iff id j,
)

abbrev pub Holds : String → StoredReceipt → Log → Type 0
Holds id r log = receipt_of (find? (has_id id) log.entries) ≡ some r

pub entry_of :
    (id : String) (r : StoredReceipt) (log : Log)
    → Holds id r log
    → (e : Entry) × (find? (has_id id) log.entries ≡ some e) × (e.receipt ≡ some r)
entry_of id r log h = elim (Option-cases (find? (has_id id) log.entries)) [
  | inl e ↦ absurd (ground arith)
  | inr (e, found) ↦ (e, found, ground arith)
]

pending_unanswered :
    (id : String) (r : StoredReceipt) (log : Log) (e d : Entry)
    → find? (has_id e.command.command_id) log.entries ≡ some e
    → find? (has_id id) log.entries ≡ some d
    → (e.command.command_id == id) ≡ true
    → is_pending e ≡ true
    → d.receipt ≡ some r
    → ⊥
pending_unanswered id r log e d mine yours same opened has =
    let found = subst (λ k. find? (has_id k) log.entries ≡ some e) ((eq_iff _ _).0 same) mine in
    let one : d ≡ e = cc in
    let both : e.receipt ≡ some r = subst (λ x. x.receipt ≡ some r) one has in ground arith

turn-Holds :
    (log : Log) (t : Turn) (id : String) (r : StoredReceipt)
    → IsValid log
    → Holds id r log
    → Holds id r (turn log t)
turn-Holds log (submit input) id r v h =
    let (d, there, has) = entry_of id r log h in
    elim (Option-cases (find? (has_id input.command_id) log.entries)) [
      | inl fresh ↦
          subst (Holds id r)
            (sym (turn-submit log input ∙ ap (λ x. x.1) (append_fresh log input fresh)))
            (ap receipt_of (find?-append_some (has_id id) log.entries _ d there) ∙ has)
      | inr (e, found) ↦
          subst (Holds id r)
            (sym (turn-submit log input ∙ ap (λ x. x.1) (append_found log input e found))) h
    ]
turn-Holds log (serve state wake) id r v h = elim (Option-cases (find? is_pending log.entries)) [
  | inl idle ↦ subst (Holds id r) (sym (turn-serve-none log v state wake idle)) h
  | inr (e, first) ↦
      let (d, there, has) = entry_of id r log h in
      let s =
        settle-Serves e (receipt_for log e e.command.command_id state) log.entries v.distinct
          first in
      let opened : is_pending e ≡ true = find?_holds is_pending log.entries e first in
      subst (Holds id r) (sym (turn-serve-some log v state wake e first))
        (elim (Bool-cases (e.command.command_id == id)) [
          | inl same ↦ absurd (pending_unanswered id r log e d s.found there same opened has)
          | inr other ↦
              ap receipt_of (find?-settle_ne id e.command.command_id _ log.entries other) ∙ h
        ])
]
turn-Holds log (change state wake) id r v h =
    subst (Holds id r) (sym (turn_change log state wake)) (unfold advance in h)

-- Once the mailbox answers a command ID with a receipt, every later history that its engine can make
-- answers that ID with the same receipt.
pub receipt-turns :
    (log : Log) (ts : List Turn) (id : String) (r : StoredReceipt)
    → IsValid log
    → receipt log id ≡ some r
    → receipt (turns log ts) id ≡ some r
unfolding turns receipt
receipt-turns log [] id r v h = h
receipt-turns log (t ∷ ts) id r v h =
    receipt-turns (turn log t) ts id r (turn-IsValid log t v) (turn-Holds log t id r v h)
