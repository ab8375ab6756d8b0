-- ===== src/Engine/Run.antt =====
-- The engine over any history of submissions, worker turns, own changes and its close.
use mathlib.Core.Option
use effect_frame.Base.{
  ℕ, ◌≡◌, refl, sym, ap, subst, ◌∙◌, Bool, true, false, Option, none, some, List, [], ◌∷◌, String,
  if◌then◌else◌, Option-cases, inl, inr, find?, eq_of_some,
}
use effect_frame.Vocabulary.{Committed}
use effect_frame.Behavior.{wake_of}
use effect_frame.Mailbox
use effect_frame.Mailbox.{StoredReceipt, AppendInput, has_id}
use effect_frame.Mailbox.Valid.{IsValid, append-IsValid, advance-IsValid, empty_log-IsValid}
use effect_frame.Mailbox.Retry.{append_fresh, append_found}
use effect_frame.Engine.{
  offered, Options, Engine, Event, sends, works, changes, closes, step, run, send_encoded, admit,
  refuse_new, open_durable, restore, open_initial, opened_at, answer_send, actor_stopped, SendEnd,
}
use effect_frame.Engine.Synced.{IsSynced, IsStored, bind-eq_some, aside-IsSynced, work-IsSynced}

append-committed :
    (log : Mailbox.Log) (input : AppendInput)
    → (Mailbox.append_to_log log input).1.committed ≡ log.committed
append-committed log input = elim (Option-cases (find? (has_id input.command_id) log.entries)) [
  | inl fresh ↦ ap (λ x. x.1.committed) (append_fresh log input fresh)
  | inr (e, found) ↦ ap (λ x. x.1.committed) (append_found log input e found)
]

module _ {State Message Refusal : Type 0} (options : Options State Message Refusal) where
  admit-IsSynced :
      (e : Engine State) (id payload : String)
      → IsSynced options e
      → IsSynced options (admit options e id payload).1
  unfolding admit
  admit-IsSynced e id payload s =
      aside-IsSynced options e _ _ e.closed e.alive
        (ap (Option.map (λ c. (c.revision, c.state))) (append-committed e.store _))
        (append-IsValid e.store _ s.valid) s

  answer-IsSynced :
      (e : Engine State) (id payload : String) (answer : Option (Option Refusal))
      → IsSynced options e
      → IsSynced options (answer_send options e id payload answer).1
  answer-IsSynced e id payload none s = s
  answer-IsSynced e id payload (some none) s = admit-IsSynced e id payload s
  answer-IsSynced e id payload (some (some refusal)) s = s

  if-IsSynced :
      (b : Bool) (l m : SendEnd Refusal × Engine State)
      → IsSynced options l.1
      → IsSynced options m.1
      → IsSynced options (if b then l else m).1
  if-IsSynced true l m p q = p
  if-IsSynced false l m p q = q

  send-IsSynced :
      (e : Engine State) (id payload : String)
      → IsSynced options e
      → IsSynced options (send_encoded options e id payload).1
  unfolding send_encoded
  send-IsSynced e id payload s =
      if-IsSynced e.closed (actor_stopped, e) _ s
        (answer-IsSynced e id payload (refuse_new options e id payload) s)

  offered-IsSynced :
      (e : Engine State) (state : State) (b : Bool)
      → IsSynced options e
      → IsSynced options (offered options b e state)
  offered-IsSynced e state true s = s
  offered-IsSynced e state false s =
      aside-IsSynced options e e.store _ e.closed e.alive refl s.valid s

  step-IsSynced :
      (e : Engine State) (event : Event State)
      → IsSynced options e
      → IsSynced options (step options e event)
  unfolding step
  step-IsSynced e (sends id payload) s = send-IsSynced e id payload s
  step-IsSynced e (works current) s = work-IsSynced options e current s
  step-IsSynced e (changes state) s = offered-IsSynced e state e.closed s
  step-IsSynced e closes s = aside-IsSynced options e e.store e.signal true e.alive refl s.valid s

  pub run-IsSynced :
      (events : List (Event State)) (e : Engine State)
      → IsSynced options e
      → IsSynced options (run options e events)
  unfolding run
  run-IsSynced [] e s = s
  run-IsSynced (event ∷ events) e s =
      run-IsSynced events (step options e event) (step-IsSynced e event s)

  -- What is stored for a value just restored.
  abbrev Restored : Mailbox.Log × Committed State → Type 0
  Restored (store, restored) =
      IsValid store
      × ((encoded : String)
          → options.encode_state restored.state ≡ some encoded
          → IsStored options store restored.revision restored.state encoded)

  opens-IsSynced :
      (store' : Mailbox.Log) (restored : Committed State) (e : Engine State)
      → restore options Mailbox.empty_log ≡ some (store', restored)
      → Restored (store', restored)
      → open_durable options Mailbox.empty_log ≡ some e
      → IsSynced options e
  unfolding open_durable
  opens-IsSynced store' restored e at (valid, stored_now) h =
      let (encoded, enc, h2) =
        bind-eq_some options (options.encode_state restored.state)
          (λ t. some (opened_at options store' restored t)) e (rw at at h) in
      subst (IsSynced options) (eq_of_some _ e h2)
        (record { valid = valid; mirrors = (encoded, refl, stored_now encoded enc) })

  abbrev opened_with : ℕ → String → Option (Mailbox.Log × Committed State)
  opened_with at encoded =
      let (advanced, store') = Mailbox.advance Mailbox.empty_log encoded (some at) in
      some (store', record { revision = advanced.revision; state = options.behavior.initial })

  -- The first value of a fresh actor, with its wake and without one.
  fresh-Restored :
      (store' : Mailbox.Log) (restored : Committed State)
      → restore options Mailbox.empty_log ≡ some (store', restored)
      → Restored (store', restored)
  unfolding restore open_initial Mailbox.latest Mailbox.advance Mailbox.next_revision
  fresh-Restored store' restored h =
      elim (Option-cases (wake_of options.behavior options.behavior.initial)) [
        | inl quiet ↦
            subst Restored (eq_of_some _ _ (rw (quiet, restore, open_initial) at h))
              (empty_log-IsValid, λ encoded enc. (enc, inr (refl, refl, refl)))
        | inr (at, wakes) ↦
            let (encoded, enc, h2) =
              bind-eq_some options (options.encode_state options.behavior.initial) (opened_with at)
                (store', restored) (rw (wakes, restore, open_initial) at h) in
            subst Restored (eq_of_some _ _ h2) (
              unfold Mailbox.advance in
                  advance-IsValid Mailbox.empty_log encoded (some at) empty_log-IsValid,
              λ text enc2. (enc2, inl (ap (λ t. some (1, t)) (eq_of_some _ _ (sym enc ∙ enc2)))),
            )
      ]

  pub fresh-IsSynced :
      (e : Engine State) → open_durable options Mailbox.empty_log ≡ some e → IsSynced options e
  unfolding open_durable
  fresh-IsSynced e h =
      let ((store', restored), at, h2) =
        bind-eq_some options (restore options Mailbox.empty_log) _ e h in
      opens-IsSynced store' restored e at (fresh-Restored store' restored at) h

  -- After any history of submissions, worker turns, own changes and a close, an engine opened on a
  -- fresh store still mirrors that store: its committed revision and state are the store's, except
  -- between a commit and its publication, when the value to publish is the store's and lies one
  -- revision above. The store is valid throughout.
  pub run-opened-IsSynced :
      (e : Engine State) (events : List (Event State))
      → open_durable options Mailbox.empty_log ≡ some e
      → IsSynced options (run options e events)
  run-opened-IsSynced e events h = run-IsSynced events e (fresh-IsSynced e h)
