-- ===== src/Mailbox/Retry.antt =====
-- Sending the same command again: the mailbox keeps the first command that an ID named, for ever.
use mathlib.Core.Option
use effect_frame.Base.{
  ℕ, ◌+◌, ◌≡◌, refl, sym, ap, ◌∙◌, ◌≢◌, true, Option, none, some, List, [], ◌∷◌, ◌++◌, String, ◌==◌,
  eq_iff, eq_refl, arith, find?, find?-append_some, find?-append_none, find?_holds, Option-cases,
  Bool-cases, inl, inr,
}
use effect_frame.Mailbox.{
  Entry, Log, PendingCommand, StoredReceipt, AppendInput, Appended, admitted, duplicate, appended,
  command_conflict, has_id, new_entry, answer_existing, append_to_log, advance, receipt,
}
use effect_frame.Mailbox.Settle.{settle, commit_to_log_unknown, commit_to_log_known}
use effect_frame.Mailbox.History.{Call, appends, commits, advances, step, run}

-- The command that a log holds under an ID.
abbrev pub held_in : String → List Entry → Option PendingCommand
held_in id es = Option.map (λ e. e.command) (find? (has_id id) es)

abbrev pub held : Log → String → Option PendingCommand
held log id = held_in id log.entries

held_in-settle :
    (j id : String) (r : StoredReceipt) (es : List Entry)
    → held_in j (settle id r es) ≡ held_in j es
unfolding settle find?
held_in-settle j id r [] = refl
held_in-settle j id r (e ∷ es) = elim (Bool-cases (has_id id e)) [
  | inl hit ↦ rw hit (elim (Bool-cases (has_id j e)) [ inl p ↦ rw p refl | inr p ↦ rw p refl ])
  | inr miss ↦ rw miss (elim (Bool-cases (has_id j e)) [
    | inl p ↦ rw p refl
    | inr p ↦ rw p (held_in-settle j id r es)
  ])
]

held-append :
    (log : Log) (input : AppendInput) (id : String) (c : PendingCommand)
    → held log id ≡ some c
    → held (append_to_log log input).1 id ≡ some c
unfolding append_to_log
held-append log input id c h = elim (Option-cases (find? (has_id input.command_id) log.entries)) [
  | inr (e, found) ↦ rw (found, append_to_log) h
  | inl fresh ↦ elim (Option-cases (find? (has_id id) log.entries)) [
    | inl missing ↦ absurd (ground arith)
    | inr (d, there) ↦
        rw (fresh, append_to_log)
          (rw (find?-append_some (has_id id) log.entries (new_entry log input ∷ []) d there)
            (rw there at h))
  ]
]

-- No call changes or drops a command that the log holds.
pub held-step :
    (log : Log) (call : Call) (id : String) (c : PendingCommand)
    → held log id ≡ some c
    → held (step log call) id ≡ some c
unfolding step
held-step log (appends input) id c h = held-append log input id c h
held-step log (commits j state wake) id c h = elim (Option-cases (find? (has_id j) log.entries)) [
  | inl missed ↦ ap (λ x. held x.1 id) (commit_to_log_unknown log j state wake missed) ∙ h
  | inr (found, hit) ↦
      ap (λ x. held x.1 id) (commit_to_log_known log j state wake found hit)
      ∙ held_in-settle id j _ log.entries
      ∙ h
]
held-step log (advances state wake) id c h = unfold advance in h

pub held-run :
    (log : Log) (cs : List Call) (id : String) (c : PendingCommand)
    → held log id ≡ some c
    → held (run log cs) id ≡ some c
unfolding run
held-run log [] id c h = h
held-run log (x ∷ cs) id c h = held-run (step log x) cs id c (held-step log x id c h)

abbrev pub position : Appended → ℕ
position (admitted n) = n
position (duplicate n r) = n

abbrev pub admission : AppendInput → ℕ → PendingCommand
admission input n = record {
  command_id = input.command_id;
  admitted = n;
  payload = input.payload;
  payload_hash = input.payload_hash;
}

answer-appended :
    (e : Entry) (input : AppendInput) (a : Appended)
    → has_id input.command_id e ≡ true
    → answer_existing e input ≡ appended a
    → e.command ≡ admission input (position a)
unfolding answer_existing
answer-appended e input a hit h =
    ground
      (arith, eq_iff e.command.command_id input.command_id, eq_iff e.command.payload input.payload)

pub append_fresh :
    (log : Log) (input : AppendInput)
    → find? (has_id input.command_id) log.entries ≡ none
    → append_to_log log input ≡ (
      appended (admitted log.next_admission),
      record log {
        entries = log.entries ++ new_entry log input ∷ [];
        next_admission = log.next_admission + 1;
      },
    )
unfolding append_to_log
append_fresh log input fresh = rw (fresh, append_to_log) refl

pub append_found :
    (log : Log) (input : AppendInput) (e : Entry)
    → find? (has_id input.command_id) log.entries ≡ some e
    → append_to_log log input ≡ (answer_existing e input, log)
unfolding append_to_log
append_found log input e found = rw (found, append_to_log) refl

pub find?-new_entry :
    (log : Log) (input : AppendInput)
    → find? (has_id input.command_id) (new_entry log input ∷ []) ≡ some (new_entry log input)
unfolding find?
find?-new_entry log input = rw (eq_refl input.command_id) refl

-- A successful append leaves the log holding exactly the submitted command.
held-append_self :
    (log : Log) (input : AppendInput) (a : Appended)
    → (append_to_log log input).0 ≡ appended a
    → held (append_to_log log input).1 input.command_id ≡ some (admission input (position a))
held-append_self log input a h = elim (Option-cases (find? (has_id input.command_id) log.entries)) [
  | inl fresh ↦
      let given = ap (λ x. x.0) (append_fresh log input fresh) in
      let place : log.next_admission ≡ position a = ground arith in
      ap (λ x. held x.1 input.command_id) (append_fresh log input fresh)
      ∙ ap (Option.map (λ e. e.command))
          (find?-append_none _ log.entries _ fresh ∙ find?-new_entry log input)
      ∙ ap (λ n. some (admission input n)) place
  | inr (e, found) ↦
      let given = ap (λ x. x.0) (append_found log input e found) in
      ap (λ x. held x.1 input.command_id) (append_found log input e found)
      ∙ ap (Option.map (λ d. d.command)) found
      ∙ ap some (answer-appended e input a (find?_holds _ log.entries e found) (cc))
]

-- What an append answers, and leaves, when the log holds the command ID.
append-held :
    (log : Log) (input : AppendInput) (c : PendingCommand)
    → held log input.command_id ≡ some c
    → append_to_log log input ≡ (
      answer_existing (record { command = c; receipt = receipt log input.command_id }) input,
      log,
    )
unfolding receipt
append-held log input c h = elim (Option-cases (find? (has_id input.command_id) log.entries)) [
  | inl fresh ↦ absurd (ground arith)
  | inr (e, found) ↦
      let same : e.command ≡ c = ground arith in
      append_found log input e found
      ∙ rw found (
          ap (λ d. (answer_existing (record { command = d; receipt = e.receipt }) input, log)) same)
]

answer_same :
    (input : AppendInput) (n : ℕ) (r : Option StoredReceipt)
    → answer_existing (record { command = admission input n; receipt = r }) input
      ≡ appended (duplicate n r)
unfolding answer_existing
answer_same input n r = ground (arith, eq_iff input.payload input.payload)

answer_other :
    (input other : AppendInput) (n : ℕ) (r : Option StoredReceipt)
    → other.payload ≢ input.payload
    → answer_existing (record { command = admission input n; receipt = r }) other
      ≡ command_conflict other.command_id
unfolding answer_existing
answer_other input other n r differs = elim (Bool-cases (input.payload == other.payload)) [
  | inl e ↦ absurd (differs (sym ((eq_iff input.payload other.payload).0 e)))
  | inr e ↦ ground arith
]

module _ (log : Log) (input : AppendInput) (a : Appended)
    (taken : (append_to_log log input).0 ≡ appended a) (cs : List Call) where
  abbrev later : Log
  later = run (append_to_log log input).1 cs

  later-held : held later input.command_id ≡ some (admission input (position a))
  later-held = held-run _ cs input.command_id _ (held-append_self log input a taken)

  -- However long after, and whatever the mailbox did between, the same submission is a `Duplicate`:
  -- it reports the first admission position and the receipt stored by then, and changes nothing.
  pub append_again :
      append_to_log later input
      ≡ (appended (duplicate (position a) (receipt later input.command_id)), later)
  append_again =
      append-held later input _ later-held ∙ ap (λ x. (x, later)) (answer_same input (position a) _)

  -- The same ID with another payload is a conflict for ever, equal payload hashes or not, and
  -- changes nothing.
  pub append_conflict :
      (other : AppendInput)
      → other.command_id ≡ input.command_id
      → other.payload ≢ input.payload
      → append_to_log later other ≡ (command_conflict input.command_id, later)
  append_conflict other same differs =
      append-held later other (admission input (position a)) (rw same later-held)
      ∙ ap (λ x. (x, later)) (answer_other input other (position a) _ differs)
      ∙ ap (λ id. (command_conflict id, later)) same
