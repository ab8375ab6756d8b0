-- ===== src/Mailbox/Settle.antt =====
-- `commitToLog` without its index: the first entry with the ID gains the receipt.
use effect_frame.Base.{
  ℕ, suc, ◌+◌, ◌≡◌, refl, sym, ap, subst, Bool, true, false, Option, none, some, List, [], ◌∷◌,
  String, arith, eqb, if◌then◌else◌, find?, find_index, get_elem?, map_from, Option-cases,
  Bool-cases, inl, inr, ◌⊎◌, ◌∙◌, ◌<◌,
}
use effect_frame.Mailbox.{
  Entry, Log, StoredReceipt, commit, next_revision, has_id, entry_at, commit_at, commit_to_log,
  write_receipt, receipt_for,
}

unfoldable pub settle : String → StoredReceipt → List Entry → List Entry
settle id r [] = []
settle id r (e ∷ es) =
    if has_id id e then record e { receipt = some r } ∷ es else e ∷ settle id r es

abbrev put : StoredReceipt → ℕ → Entry → ℕ → Entry
put r index candidate position =
    if eqb position index then record candidate { receipt = some r } else candidate

-- Past the index nothing changes.
map_from-put_past :
    (r : StoredReceipt) (i k : ℕ) (es : List Entry) → k < i → map_from i (put r k) es ≡ es
unfolding map_from
map_from-put_past r i k [] h = refl
map_from-put_past r i k (e ∷ es) h = ground (arith, map_from-put_past r (suc i) k es (omega arith))

-- Where the first hit of a nonempty list stands.
find_index-cons {ℓ} :
    {A : Type ℓ} (p : A → Bool) (x : A) (xs : List A) (k : ℕ)
    → find_index p (x ∷ xs) ≡ some k
    → ((p x ≡ true) × (k ≡ 0))
      ⊎ ((j : ℕ) × (p x ≡ false) × (find_index p xs ≡ some j) × (k ≡ suc j))
unfolding find_index
find_index-cons p x xs k h = elim (Bool-cases (p x)) [
  | inl hit ↦ inl (hit, ground arith)
  | inr miss ↦ elim (Option-cases (find_index p xs)) [
    | inl e ↦ absurd (ground arith)
    | inr (j, e) ↦ inr (j, miss, e, ground arith)
  ]
]

map_from-put :
    (id : String) (r : StoredReceipt) (i k : ℕ) (es : List Entry)
    → find_index (has_id id) es ≡ some k
    → map_from i (put r (i + k)) es ≡ settle id r es
unfolding map_from settle
map_from-put id r i k [] h = unfold find_index in cc
map_from-put id r i k (e ∷ es) h = elim (find_index-cons (has_id id) e es k h) [
  | inl (hit, first) ↦
      rw (hit, first) (ground (arith, map_from-put_past r (suc i) (i + 0) es (omega arith)))
  | inr (j, miss, found, later) ↦
      let same : i + k ≡ suc i + j = omega arith in
      rw (miss, same) (ground (arith, map_from-put id r (suc i) j es found))
]

find?-index {ℓ} :
    {A : Type ℓ} (p : A → Bool) (xs : List A) (k : ℕ)
    → find_index p xs ≡ some k
    → get_elem? xs k ≡ find? p xs
unfolding find?
find?-index p [] k h = unfold find_index in cc
find?-index p (x ∷ xs) k h = elim (find_index-cons p x xs k h) [
  | inl (hit, first) ↦ rw (hit, first) refl
  | inr (j, miss, found, later) ↦ rw (miss, later) (find?-index p xs j found)
]

find?-index_none {ℓ} :
    {A : Type ℓ} (p : A → Bool) (xs : List A) → find_index p xs ≡ none → find? p xs ≡ none
unfolding find? find_index
find?-index_none p [] h = refl
find?-index_none p (x ∷ xs) h = elim (Option-cases (find_index p xs)) [
  | inl e ↦ ground (arith, find?-index_none p xs e)
  | inr (j, e) ↦ absurd (ground arith)
]

find?-index_some {ℓ} :
    {A : Type ℓ} (p : A → Bool) (xs : List A) (k : ℕ)
    → find_index p xs ≡ some k
    → (a : A) × (find? p xs ≡ some a)
unfolding find?
find?-index_some p [] k h = unfold find_index in absurd (cc)
find?-index_some p (x ∷ xs) k h = elim (find_index-cons p x xs k h) [
  | inl (hit, first) ↦ (x, rw hit)
  | inr (j, miss, found, later) ↦ let (a, e) = find?-index_some p xs j found in (a, rw miss e)
]

-- The log after a commit of the command that `found` holds.
abbrev pub settled : Log → Entry → String → String → Option ℕ → Log
settled log found id state wake = record log {
  entries = settle id (receipt_for log found id state) log.entries;
  committed =
      some (record {
        revision = (receipt_for log found id state).revision;
        state = state;
        wake = wake;
      });
}

pub commit_to_log_unknown :
    (log : Log) (id state : String) (wake : Option ℕ)
    → find? (has_id id) log.entries ≡ none
    → commit_to_log log id state wake ≡ (none, log)
unfolding commit_to_log
commit_to_log_unknown log id state wake h =
    elim (Option-cases (find_index (has_id id) log.entries)) [
      | inl e ↦ rw (e, commit_to_log) refl
      | inr (k, e) ↦ let (a, f) = find?-index_some (has_id id) log.entries k e in absurd (cc)
    ]

commit_at-settled :
    (log : Log) (id state : String) (wake : Option ℕ) (found : Entry) (k : ℕ)
    → find_index (has_id id) log.entries ≡ some k
    → commit_at log k found id state wake
      ≡ (receipt_for log found id state, settled log found id state wake)
unfolding commit_at write_receipt
commit_at-settled log id state wake found k e =
    let zero_k : 0 + k ≡ k = omega arith in
    let written =
      rw zero_k at (map_from-put id (receipt_for log found id state) 0 k log.entries e) in
    rw written refl

pub commit_to_log_known :
    (log : Log) (id state : String) (wake : Option ℕ) (found : Entry)
    → find? (has_id id) log.entries ≡ some found
    → commit_to_log log id state wake
      ≡ (some (receipt_for log found id state), settled log found id state wake)
unfolding commit_to_log
commit_to_log_known log id state wake found h =
    elim (Option-cases (find_index (has_id id) log.entries)) [
      | inl e ↦ absurd (cc (find?-index_none (has_id id) log.entries e))
      | inr (k, e) ↦
          let at : entry_at log (some k) ≡ some (k, found) =
            rw (find?-index (has_id id) log.entries k e ∙ h) refl in
          rw (e, commit_to_log)
            (rw (at, commit_to_log) (rw (commit_at-settled log id state wake found k e) refl))
    ]

-- What a commit that answered has done.
pub record Commits (log log' : Log) (id state : String) (wake : Option ℕ) (r : StoredReceipt)
    : Type 0 where
  pub after : log' ≡ (commit_to_log log id state wake).1
  pub committed :
      log'.committed ≡ some (record { revision = r.revision; state = state; wake = wake })
  pub revision : r.revision ≡ next_revision log.committed
  pub entries : log'.entries ≡ settle id r log.entries

pub commit-Commits :
    (log log' : Log) (id state : String) (wake : Option ℕ) (r : StoredReceipt)
    → commit log id state wake ≡ some (r, log')
    → Commits log log' id state wake r
unfolding commit
commit-Commits log log' id state wake r h = elim (Option-cases (find? (has_id id) log.entries)) [
  | inl missed ↦
      let none_now = ap (λ x. x.0) (commit_to_log_unknown log id state wake missed) in
      absurd (ground arith)
  | inr (found, hit) ↦
      let known = commit_to_log_known log id state wake found hit in
      let answer = ap (λ x. x.0) known in
      let same_log : (commit_to_log log id state wake).1 ≡ log' = ground arith in
      let same_r : receipt_for log found id state ≡ r = ground arith in
      subst (λ s. Commits log log' id state wake s) same_r
        (subst (λ l. Commits log l id state wake (receipt_for log found id state))
          (sym (ap (λ x. x.1) known) ∙ same_log)
          (record {
            after = sym (ap (λ x. x.1) known);
            committed = refl;
            revision = refl;
            entries = refl;
          }))
]
