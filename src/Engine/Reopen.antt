-- ===== src/Engine/Reopen.antt =====
-- A restart of durable-engine.ts: an engine opened on the store of another one.
use effect_frame.Base.{
  ℕ, ◌≡◌, refl, sym, ap, subst, ◌∙◌, Option, none, some, List, String, Option-cases, inl, inr,
  eq_of_some,
}
use effect_frame.Vocabulary.{Committed}
use effect_frame.Mailbox
use effect_frame.Engine.{
  Options, Engine, Unpublished, Event, run, open_durable, restore, restored_from, opened_at, ◌>>=◌,
}
use effect_frame.Engine.Synced.{Mirrors, stored}
use effect_frame.Engine.Run.{run-opened-IsSynced}

module _ {State Message Refusal : Type 0} (options : Options State Message Refusal) where
  -- The value that the engine shows, or is about to.
  abbrev pub logical : Committed State → Option (Unpublished State) → Committed State
  logical committed none = committed
  logical committed (some done) = record { revision = done.revision; state = done.state }

  -- Every state that encodes decodes back.
  abbrev pub RoundTrips : Type 0
  RoundTrips =
      (s : State) (t : String) → options.encode_state s ≡ some t → options.decode_state t ≡ some s

  stored-some :
      (store : Mailbox.Log) (n : ℕ) (t : String)
      → stored store ≡ some (n, t)
      → (c : Mailbox.Committed) × (store.committed ≡ some c) × (c.revision ≡ n) × (c.state ≡ t)
  stored-some store n t h = elim (Option-cases store.committed) [
    | inl e ↦ absurd (cc (rw e at h))
    | inr (c, e) ↦
        let pair = eq_of_some (c.revision, c.state) (n, t) (rw e at h) in
        (c, e, ap (λ p. p.0) pair, ap (λ p. p.1) pair)
  ]

  restored-decoded :
      (store : Mailbox.Log) (c : Mailbox.Committed) (s : State)
      → options.decode_state c.state ≡ some s
      → restored_from options store (some c)
        ≡ some (store, record { revision = c.revision; state = s })
  restored-decoded store c s h = rw h refl

  abbrev opens : Mailbox.Log × Committed State → Option (Engine State)
  opens (store, restored) =
      options.encode_state restored.state >>= (λ text. some (opened_at options store restored text))

  open-stored :
      (store : Mailbox.Log) (n : ℕ) (t : String) (s : State)
      → RoundTrips
      → stored store ≡ some (n, t)
      → options.encode_state s ≡ some t
      → open_durable options store
        ≡ some (opened_at options store (record { revision = n; state = s }) t)
  unfolding open_durable restore Mailbox.latest
  open-stored store n t s trips h enc =
      let (c, at, num, text) = stored-some store n t h in
      let found : restore options store ≡ some (store, record { revision = n; state = s }) =
        ap (restored_from options store) at
        ∙ restored-decoded store c s
            (subst (λ x. options.decode_state x ≡ some s) (sym text) (trips s t enc))
        ∙ ap (λ k. some (store, record { revision = k; state = s })) num in
      ap (λ r. r >>= opens) found
      ∙ ap
          (λ r.
            r
            >>= (λ text. some (opened_at options store (record { revision = n; state = s }) text)))
          enc

  encoded_now :
      (e : Engine State) (u : Option (Unpublished State)) (n : ℕ) (t : String)
      → Mirrors options e u
      → stored e.store ≡ some (n, t)
      → ((logical e.committed u).revision ≡ n)
        × (options.encode_state (logical e.committed u).state ≡ some t)
  encoded_now e none n t (encoded, last, (enc, inl at)) h =
      let pair = eq_of_some _ _ (sym at ∙ h) in (ap (λ p. p.0) pair, enc ∙ ap (λ p. some p.1) pair)
  encoded_now e none n t (encoded, last, (enc, inr (nothing, zero_now, first))) h = absurd (cc)
  encoded_now e (some done) n t (enc, at, next) h =
      let pair = eq_of_some _ _ (sym at ∙ h) in (ap (λ p. p.0) pair, enc ∙ ap (λ p. some p.1) pair)

  -- With codecs that round-trip, an engine opened on the store that any history of a fresh engine
  -- left, once something is committed there, takes up that history's last committed value, published
  -- or not, and leaves the store as it is.
  pub reopen-run :
      (e : Engine State) (events : List (Event State)) (n : ℕ) (t : String)
      → RoundTrips
      → open_durable options Mailbox.empty_log ≡ some e
      → stored (run options e events).store ≡ some (n, t)
      → let last = run options e events in
        open_durable options last.store
        ≡ some (opened_at options last.store (logical last.committed last.unpublished) t)
  reopen-run e events n t trips fresh h =
      let last = run options e events in
      let s = run-opened-IsSynced options e events fresh in
      let (num, enc) = encoded_now last last.unpublished n t s.mirrors h in
      let value = logical last.committed last.unpublished in
      open-stored last.store n t value.state trips h enc
      ∙ ap
          (λ k.
            some (opened_at options last.store (record { revision = k; state = value.state }) t))
          (sym num)
