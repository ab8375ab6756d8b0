-- ===== src/Mailbox/Valid.antt =====
-- What every history of the mailbox keeps: admissions in order, one entry for each command ID, and
-- receipts that belong to their entry and lie below the committed revision.
use effect_frame.Base.{
  ℕ, ◌+◌, ◌≤◌, ◌<◌, ◌≡◌, refl, sym, ap, true, false, Option, none, some, List, [], ◌∷◌, ◌++◌,
  String, ◌==◌, eq_iff, arith, find?, All, All-append, All-map_of, Option-cases, Bool-cases, inl,
  inr,
}
use effect_frame.Mailbox.{
  Entry, Log, StoredReceipt, Committed, AppendInput, has_id, new_entry, append_to_log,
  commit_to_log, receipt_for, next_revision, advance, empty_log,
}
use effect_frame.Mailbox.Settle.{settle, settled, commit_to_log_unknown, commit_to_log_known}

-- Admissions rise along the list, above `low` and below `high`.
abbrev pub Ascending : ℕ → ℕ → List Entry → Type 0
Ascending low high [] = low < high
Ascending low high (e ∷ es) = (low < e.command.admitted) × Ascending e.command.admitted high es

abbrev pub Distinct : List Entry → Type 0
Distinct [] = Unit {0}
Distinct (e ∷ es) = All (λ d. has_id e.command.command_id d ≡ false) es × Distinct es

abbrev pub committed_revision : Option Committed → ℕ
committed_revision none = 0
committed_revision (some committed) = committed.revision

-- A receipt names its own entry's command and admission, and a revision in 1 … `high`.
abbrev pub Belongs : ℕ → Entry → Option StoredReceipt → Type 0
Belongs high e none = Unit {0}
Belongs high e (some r) =
    (r.command_id ≡ e.command.command_id)
    × (r.admitted ≡ e.command.admitted)
    × (0 < r.revision)
    × (r.revision ≤ high)

abbrev pub IsSound : ℕ → Entry → Type 0
IsSound high e = Belongs high e e.receipt

pub record IsValid (log : Log) : Type 0 where
  pub ascending : Ascending 0 log.next_admission log.entries
  pub distinct : Distinct log.entries
  pub sound : All (IsSound (committed_revision log.committed)) log.entries

pub empty_log-IsValid : IsValid empty_log
empty_log-IsValid = record { ascending = omega arith; distinct = tt; sound = tt }

pub eq_false_sym : (a b : String) → (a == b) ≡ false → (b == a) ≡ false
eq_false_sym a b h = ground (arith, eq_iff a b, eq_iff b a)

Ascending-append :
    (low high : ℕ) (es : List Entry) (e : Entry)
    → Ascending low high es
    → e.command.admitted ≡ high
    → Ascending low (high + 1) (es ++ e ∷ [])
Ascending-append low high [] e h p = (omega arith, omega arith)
Ascending-append low high (d ∷ es) e h p =
    (h.0, Ascending-append d.command.admitted high es e h.1 p)

Distinct-append :
    (es : List Entry) (e : Entry)
    → Distinct es
    → find? (has_id e.command.command_id) es ≡ none
    → Distinct (es ++ e ∷ [])
unfolding find?
Distinct-append [] e h p = (tt, tt)
Distinct-append (d ∷ es) e h p = elim (Bool-cases (has_id e.command.command_id d)) [
  | inl hit ↦ absurd (ground arith)
  | inr miss ↦ (
    All-append _ es _ h.0 (eq_false_sym d.command.command_id e.command.command_id miss, tt),
    Distinct-append es e h.1 (ground arith),
  )
]

Belongs-le :
    (low high : ℕ) (e : Entry) (r : Option StoredReceipt)
    → low ≤ high
    → Belongs low e r
    → Belongs high e r
Belongs-le low high e none h b = tt
Belongs-le low high e (some r) h b = (b.0, b.1, b.2, omega arith)

pub append-IsValid :
    (log : Log) (input : AppendInput) → IsValid log → IsValid (append_to_log log input).1
unfolding append_to_log
append-IsValid log input v = elim (Option-cases (find? (has_id input.command_id) log.entries)) [
  | inl fresh ↦
      rw (fresh, append_to_log)
        (record {
          ascending = Ascending-append 0 _ log.entries (new_entry log input) v.ascending refl;
          distinct = Distinct-append log.entries (new_entry log input) v.distinct fresh;
          sound = All-append _ log.entries _ v.sound (tt, tt);
        })
  | inr (e, found) ↦ rw (found, append_to_log) v
]

Ascending-settle :
    (id : String) (r : StoredReceipt) (low high : ℕ) (es : List Entry)
    → Ascending low high es
    → Ascending low high (settle id r es)
unfolding settle
Ascending-settle id r low high [] h = h
Ascending-settle id r low high (e ∷ es) h =
    ground (arith, Ascending-settle id r e.command.admitted high es h.1)

All-settle {ℓ} :
    (P : Entry → Type ℓ) (id : String) (r : StoredReceipt) (es : List Entry)
    → ((e : Entry) → P e → has_id id e ≡ true → P (record e { receipt = some r }))
    → All P es
    → All P (settle id r es)
unfolding settle
All-settle P id r [] keep h = tt
All-settle P id r (e ∷ es) keep h = elim (Bool-cases (has_id id e)) [
  | inl hit ↦ rw hit (keep e h.0 hit, h.1)
  | inr miss ↦ rw miss (h.0, All-settle P id r es keep h.1)
]

Distinct-settle :
    (id : String) (r : StoredReceipt) (es : List Entry) → Distinct es → Distinct (settle id r es)
unfolding settle
Distinct-settle id r [] h = tt
Distinct-settle id r (e ∷ es) h = elim (Bool-cases (has_id id e)) [
  | inl hit ↦ rw hit h
  | inr miss ↦ rw miss (
    All-settle (λ d. has_id e.command.command_id d ≡ false) id r es (λ d p _. p) h.0,
    Distinct-settle id r es h.1,
  )
]

pub next_revision-committed : (c : Option Committed) → next_revision c ≡ committed_revision c + 1
unfolding next_revision
next_revision-committed none = refl
next_revision-committed (some c) = refl

IsSound-receipt_for :
    (log : Log) (id state : String) (found e : Entry)
    → found.command.admitted ≡ e.command.admitted
    → has_id id e ≡ true
    → IsSound
        (next_revision log.committed)
        (record e { receipt = some (receipt_for log found id state) })
IsSound-receipt_for log id state found e same hit = (
  sym ((eq_iff e.command.command_id id).0 hit),
  same,
  omega (arith, next_revision-committed log.committed),
  omega arith,
)

-- In a list with distinct IDs every entry with the ID is the one that `find` gives.
find?-unique :
    (id : String) (es : List Entry) (found : Entry)
    → Distinct es
    → find? (has_id id) es ≡ some found
    → All (λ e. has_id id e ≡ true → e ≡ found) es
unfolding find?
find?-unique id [] found h p = tt
find?-unique id (e ∷ es) found h p = elim (Bool-cases (has_id id e)) [
  | inl hit ↦ (
    λ _. ground arith,
    All-map_of _ _ es
        (λ d apart same. ground (
          arith,
          eq_iff e.command.command_id id,
          eq_iff d.command.command_id id,
          eq_iff d.command.command_id e.command.command_id,
        ))
        h.0,
  )
  | inr miss ↦ (λ hit. absurd (cc), find?-unique id es found h.1 (ground arith))
]

module _ (log : Log) (id state : String) (wake : Option ℕ) (found : Entry) (v : IsValid log)
    (hit : find? (has_id id) log.entries ≡ some found) where
  IsSound-settle :
      (es : List Entry)
      → All (IsSound (committed_revision log.committed)) es
      → All (λ e. has_id id e ≡ true → e ≡ found) es
      → All (IsSound (next_revision log.committed)) (settle id (receipt_for log found id state) es)
  unfolding settle
  IsSound-settle [] s u = tt
  IsSound-settle (e ∷ es) s u = elim (Bool-cases (has_id id e)) [
    | inl same ↦ rw same (
      IsSound-receipt_for log id state found e (ap (λ d. d.command.admitted) (sym (u.0 same))) same,
      All-map_of _ _ es raise s.1,
    )
    | inr other ↦ rw other (raise e s.0, IsSound-settle es s.1 u.1)
  ]
    where
      raise :
          (d : Entry)
          → IsSound (committed_revision log.committed) d
          → IsSound (next_revision log.committed) d
      raise d = Belongs-le _ _ d d.receipt (omega (arith, next_revision-committed log.committed))

  settled-IsValid : IsValid (settled log found id state wake)
  settled-IsValid = record {
    ascending = Ascending-settle id _ 0 _ log.entries v.ascending;
    distinct = Distinct-settle id _ log.entries v.distinct;
    sound = IsSound-settle log.entries v.sound (find?-unique id log.entries found v.distinct hit);
  }

pub commit-IsValid :
    (log : Log) (id state : String) (wake : Option ℕ)
    → IsValid log
    → IsValid (commit_to_log log id state wake).1
commit-IsValid log id state wake v = elim (Option-cases (find? (has_id id) log.entries)) [
  | inl missed ↦ rw (commit_to_log_unknown log id state wake missed) v
  | inr (found, hit) ↦
      rw (commit_to_log_known log id state wake found hit)
        (settled-IsValid log id state wake found v hit)
]

pub advance-IsValid :
    (log : Log) (state : String) (wake : Option ℕ)
    → IsValid log
    → IsValid (advance log state wake).1
unfolding advance
advance-IsValid log state wake v = record {
  ascending = v.ascending;
  distinct = v.distinct;
  sound =
      All-map_of _ _ log.entries
        (λ d. Belongs-le _ _ d d.receipt (omega (arith, next_revision-committed log.committed)))
        v.sound;
}
