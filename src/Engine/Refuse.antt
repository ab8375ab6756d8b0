-- ===== src/Engine/Refuse.antt =====
-- What a submission to durable-engine.ts is answered, and what a waiting reader then reads.
use effect_frame.Base.{
  ℕ, ◌≤◌, ◌<◌, ◌≡◌, not, ◌||◌, eqb, refl, sym, ap, subst, ◌∙◌, Bool, true, false, Option, none,
  some, List, [], ◌∷◌, String, ◌==◌, arith, if◌then◌else◌, any, filter, find?, find?_of_All, map,
  inl, inr,
}
use effect_frame.Behavior.{refusal_of}
use effect_frame.Mailbox
use effect_frame.Mailbox.{
  Entry, StoredReceipt, has_id, answer_existing, AppendInput, AppendOutcome, appended, duplicate,
  command_conflict, is_pending, is_none, receipt_of,
}
use effect_frame.Mailbox.Valid.{IsValid, Belongs, committed_revision}
use effect_frame.Mailbox.Retry.{append_found}
use effect_frame.Mailbox.Stable.{entry_of}
use effect_frame.Engine.{
  Options, Engine, Wake, Event, run, open_durable, holds, is_some, includes, refuse_new,
  refused_unless, answer_send, admit, send_encoded, reply_to, input_of, signalled, SendEnd,
  await_receipt, reached, ◌>>=◌,
}
use effect_frame.Engine.Synced.{Mirrors}
use effect_frame.Engine.Run.{run-opened-IsSynced}

-- A pending entry is listed.
includes-pending :
    (id : String) (es : List Entry) (e : Entry)
    → find? (has_id id) es ≡ some e
    → is_pending e ≡ true
    → includes id (map (λ d. d.command.command_id) (filter is_pending es)) ≡ true
unfolding find? filter any
includes-pending id [] e h p = cc
includes-pending id (d ∷ es) e h p = ground (arith, includes-pending id es e)

found-holds :
    (log : Mailbox.Log) (id : String) (e : Entry)
    → find? (has_id id) log.entries ≡ some e
    → holds log id ≡ true
unfolding holds Mailbox.receipt Mailbox.pending
found-holds log id e h = go (receipt_of (find? (has_id id) log.entries)) refl
  where
    go :
        (r : Option StoredReceipt)
        → receipt_of (find? (has_id id) log.entries) ≡ r
        → (if is_some r then true else includes id (Mailbox.pending log)) ≡ true
    go (some r) same = refl
    go none same = includes-pending id log.entries e h (ap is_none (sym (ap receipt_of h) ∙ same))

module _ {State Message Refusal : Type 0} (options : Options State Message Refusal) where
  refused_unless-held : (r : Option Refusal) → refused_unless options true r ≡ none
  refused_unless-held none = refl
  refused_unless-held (some r) = refl

  ruled :
      (e : Engine State) (id payload : String) (message : Message)
      (rule : Option (Message → Option Refusal))
      → holds e.store id ≡ true
      → options.decode_message payload ≡ some message
      → (elim rule [
        | none ↦ some none
        | some _ ↦ options.decode_message payload >>= (λ m.
            some (refused_unless options (holds e.store id) (refusal_of options.behavior m)))
      ])
        ≡ some none
  ruled e id payload message none held m = refl
  ruled e id payload message (some f) held m =
      rw (held, m) (ap some (refused_unless-held (refusal_of options.behavior message)))

  refuse_new-held :
      (e : Engine State) (id payload : String) (message : Message)
      → holds e.store id ≡ true
      → options.decode_message payload ≡ some message
      → refuse_new options e id payload ≡ some none
  unfolding refuse_new
  refuse_new-held e id payload message held m =
      ruled e id payload message options.behavior.refuse held m

  open_answer :
      (b : Bool) (x y : SendEnd Refusal × Engine State) → b ≡ false → (if b then x else y) ≡ y
  open_answer b x y h = rw h refl

  abbrev admitted_as :
      Engine State → String → AppendOutcome × Mailbox.Log → SendEnd Refusal × Engine State
  admitted_as e id (outcome, store') = (
    reply_to options id outcome,
    record e { store = store'; signal = signalled options outcome e.signal },
  )

  -- An answer from a stored entry wakes nobody.
  signalled-existing :
      (entry : Entry) (input : AppendInput) (signal : List (Wake State))
      → signalled options (answer_existing entry input) signal ≡ signal
  unfolding answer_existing
  signalled-existing entry input signal = go (
      not (eqb entry.command.payload_hash input.payload_hash)
      || not (entry.command.payload == input.payload))
    where
      go :
          (b : Bool)
          → signalled options
              (if b
                then command_conflict input.command_id
                else appended (duplicate entry.command.admitted entry.receipt))
              signal
            ≡ signal
      go true = refl
      go false = refl

  reached-below : (n : ℕ) (r : StoredReceipt) → r.revision ≤ n → reached options n r ≡ some r
  reached-below n r h = ground arith

  -- A stored receipt lies at or below what the store has committed, and so below the engine's.
  receipt_below :
      (e : Engine State) (id : String) (r : StoredReceipt)
      → IsValid e.store
      → Mirrors options e none
      → Mailbox.receipt e.store id ≡ some r
      → r.revision ≤ e.committed.revision
  unfolding Mailbox.receipt
  receipt_below e id r v mirrors has =
      let (entry, found, mine) = entry_of id r e.store has in
      let sound = find?_of_All _ _ e.store.entries entry v.sound found in
      let (_, _, positive, below) =
        subst (Belongs (committed_revision e.store.committed) entry) mine sound in
      go e.store.committed refl mirrors below positive
    where
      go :
          (c : Option Mailbox.Committed)
          → e.store.committed ≡ c
          → Mirrors options e none
          → r.revision ≤ committed_revision c
          → 0 < r.revision
          → r.revision ≤ e.committed.revision
      go c same (encoded, last, (enc, inl at)) below positive = ground arith
      go c same (encoded, last, (enc, inr (nothing, zero_now, first))) below positive = ground arith

  -- While the engine is open, a command whose ID the store holds is never refused, whatever the
  -- refusal rule says of its message, provided the message decodes: it is answered from the stored
  -- entry, as a duplicate with its position and receipt or as a conflict, and the engine stays as it is.
  pub send-held :
      (e : Engine State) (id payload : String) (message : Message) (entry : Entry)
      → e.closed ≡ false
      → options.decode_message payload ≡ some message
      → find? (has_id id) e.store.entries ≡ some entry
      → send_encoded options e id payload
        ≡ (reply_to options id (answer_existing entry (input_of options id payload)), e)
  unfolding send_encoded admit
  send-held e id payload message entry on m found =
      let asks = refuse_new-held e id payload message (found-holds e.store id entry found) m in
      open_answer e.closed _ _ on
      ∙ ap (answer_send options e id payload) asks
      ∙ ap (admitted_as e id) (append_found e.store (input_of options id payload) entry found)
      ∙ ap
          (λ k. (
            reply_to options id (answer_existing entry (input_of options id payload)),
            record e { signal = k },
          ))
          (signalled-existing entry (input_of options id payload) e.signal)

  -- In any history of a fresh engine, while no commit waits to be published, a command whose receipt
  -- the store holds has that receipt read at once: `awaitReceipt` finds the committed source there.
  pub await_receipt-run :
      (e : Engine State) (events : List (Event State)) (id : String) (r : StoredReceipt)
      → open_durable options Mailbox.empty_log ≡ some e
      → (run options e events).unpublished ≡ none
      → Mailbox.receipt (run options e events).store id ≡ some r
      → await_receipt options (run options e events) id ≡ some r
  unfolding await_receipt Mailbox.receipt
  await_receipt-run e events id r fresh idle has =
      let last = run options e events in
      let s = run-opened-IsSynced options e events fresh in
      let mirrors = subst (Mirrors options last) idle s.mirrors in
      ap (λ o. o >>= reached options last.committed.revision) has
      ∙ reached-below last.committed.revision r (receipt_below last id r s.valid mirrors has)
