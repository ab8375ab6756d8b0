-- ===== src/Engine/Synced.antt =====
-- The engine mirrors its store: at every step between commits its committed value is the store's.
use mathlib.Core.Option
use effect_frame.Base.{
  ℕ, ◌+◌, ◌≡◌, refl, sym, ap, subst, ◌∙◌, ◌⊎◌, Bool, false, not, ◌||◌, Option, none, some, List, [],
  ◌∷◌, String, arith, Option-cases, Bool-cases, inl, inr, eq_of_some,
}
use effect_frame.Behavior.{wake_of}
use effect_frame.Mailbox
use effect_frame.Mailbox.{Entry, PendingCommand, StoredReceipt, has_id}
use effect_frame.Mailbox.Settle.{commit-Commits}
use effect_frame.Mailbox.Valid.{IsValid, commit-IsValid, advance-IsValid}
use effect_frame.Engine.{
  Options, Engine, Unpublished, Wake, on_admission, autonomous, take_wake, or_dead, turn_or_publish,
  process_commit, process_autonomous, process_next, ◌>>=◌, same_text, state_of, advances_to,
  commit_encoded, commits_next, publish, work,
}

-- The revision and the text that the store has committed.
abbrev pub stored : Mailbox.Log → Option (ℕ × String)
stored log = Option.map (λ c. (c.revision, c.state)) log.committed

module _ {State Message Refusal : Type 0} (options : Options State Message Refusal) where
  -- A value of the engine is the one that the store committed, or the fresh actor's: revision 0, while
  -- the store has committed nothing.
  abbrev pub IsStored : Mailbox.Log → ℕ → State → String → Type 0
  IsStored store revision state encoded =
      (options.encode_state state ≡ some encoded)
      × ((stored store ≡ some (revision, encoded))
          ⊎ ((stored store ≡ none) × (revision ≡ 0) × (state ≡ options.behavior.initial)))

  abbrev pub Mirrors : Engine State → Option (Unpublished State) → Type 0
  Mirrors e none =
      (encoded : String) × (e.last_encoded ≡ some encoded)
      × IsStored e.store e.committed.revision e.committed.state encoded
  Mirrors e (some done) =
      (options.encode_state done.state ≡ some done.encoded)
      × (stored e.store ≡ some (done.revision, done.encoded))
      × (done.revision ≡ e.committed.revision + 1)

  pub record IsSynced (e : Engine State) : Type 0 where
    pub valid : IsValid e.store
    pub mirrors : Mirrors e e.unpublished

  publish-IsSynced :
      (e : Engine State) (done : Unpublished State)
      → e.unpublished ≡ some done
      → IsSynced e
      → IsSynced (publish options e done)
  unfolding publish
  publish-IsSynced e done h s =
      let (enc, at, next) = subst (Mirrors e) h s.mirrors in
      record { valid = s.valid; mirrors = (done.encoded, refl, (enc, inl at)) }

  -- The store's next revision is one above the engine's.
  next_above :
      (e : Engine State)
      → e.unpublished ≡ none
      → IsSynced e
      → Mailbox.next_revision e.store.committed ≡ e.committed.revision + 1
  unfolding Mailbox.next_revision
  next_above e h s = go e.store.committed refl (subst (Mirrors e) h s.mirrors)
    where
      go :
          (c : Option Mailbox.Committed)
          → e.store.committed ≡ c
          → Mirrors e none
          → Mailbox.next_revision c ≡ e.committed.revision + 1
      go c same (encoded, last, (enc, inl at)) = ground arith
      go c same (encoded, last, (enc, inr (nothing, zero_now, first))) = ground arith

  pub bind-eq_some :
      {A B : Type 0} (m : Option A) (k : A → Option B) (b : B)
      → (m >>= k) ≡ some b
      → (a : A) × (m ≡ some a) × (k a ≡ some b)
  bind-eq_some none k b h = cc
  bind-eq_some (some a) k b h = (a, refl, h)

  commit_encoded-IsSynced :
      (e e' : Engine State) (c : PendingCommand) (next : State) (encoded : String)
      → e.unpublished ≡ none
      → IsSynced e
      → options.encode_state next ≡ some encoded
      → commit_encoded options e c next encoded ≡ some e'
      → IsSynced e'
  commit_encoded-IsSynced e e' c next encoded idle s enc h =
      let wake = wake_of options.behavior next in
      let ((r, store'), done, h3) =
        bind-eq_some (Mailbox.commit e.store c.command_id encoded wake)
          (λ d. some (commits_next options e next encoded d)) e' h in
      let k = commit-Commits e.store store' c.command_id encoded wake r done in
      subst IsSynced (eq_of_some _ _ h3) (record {
        valid =
            subst IsValid (sym k.after) (commit-IsValid e.store c.command_id encoded wake s.valid);
        mirrors = (
          enc,
          ap (Option.map (λ x. (x.revision, x.state))) k.committed,
          k.revision ∙ next_above e idle s,
        );
      })

  commit-IsSynced :
      (e e' : Engine State) (c : PendingCommand)
      → e.unpublished ≡ none
      → IsSynced e
      → process_commit options e c ≡ some e'
      → IsSynced e'
  unfolding process_commit
  commit-IsSynced e e' c idle s h = elim (Option-cases (options.decode_message c.payload)) [
    | inl bad ↦ absurd (cc (rw (bad, process_commit) at h))
    | inr (message, m) ↦
        let next = options.behavior.apply e.committed.state message in
        let (encoded, enc, h2) =
          bind-eq_some (options.encode_state next) (commit_encoded options e c next) e'
            (rw (m, process_commit) at h) in
        commit_encoded-IsSynced e e' c next encoded idle s enc h2
  ]

  autonomous-IsSynced :
      (e e' : Engine State) (carried : State) (current : Option State)
      → e.unpublished ≡ none
      → IsSynced e
      → process_autonomous options e carried current ≡ some e'
      → IsSynced e'
  unfolding process_autonomous Mailbox.advance
  autonomous-IsSynced e e' carried current idle s h =
      let changed = state_of options carried current in
      let (encoded, enc, h1) =
        bind-eq_some (options.encode_state changed) (advances_to options e changed) e' h in
      elim (Bool-cases (same_text options e.last_encoded encoded)) [
        | inl same ↦ subst IsSynced (eq_of_some e e' (rw same at h1)) s
        | inr new ↦ subst IsSynced (eq_of_some _ e' (rw new at h1)) (record {
          valid =
              unfold Mailbox.advance in
              advance-IsValid e.store encoded (wake_of options.behavior changed) s.valid;
          mirrors = (enc, refl, next_above e idle s);
        })
      ]

  -- What admissions, signals and ends change is not mirrored.
  abbrev pub aside : Engine State → Mailbox.Log → List (Wake State) → Bool → Bool → Engine State
  aside e store signal closed alive = record e {
    store = store;
    signal = signal;
    closed = closed;
    alive = alive;
  }

  Mirrors-aside :
      (e : Engine State) (store : Mailbox.Log) (signal : List (Wake State)) (closed alive : Bool)
      (u : Option (Unpublished State))
      → stored store ≡ stored e.store
      → Mirrors e u
      → Mirrors (aside e store signal closed alive) u
  Mirrors-aside e store signal closed alive none same (encoded, last, (enc, inl at)) =
      (encoded, last, (enc, inl (same ∙ at)))
  Mirrors-aside e store signal closed alive none same
        (encoded, last, (enc, inr (nothing, zero_now, first))) =
      (encoded, last, (enc, inr (same ∙ nothing, zero_now, first)))
  Mirrors-aside e store signal closed alive (some done) same (enc, at, next) =
      (enc, same ∙ at, next)

  pub aside-IsSynced :
      (e : Engine State) (store : Mailbox.Log) (signal : List (Wake State)) (closed alive : Bool)
      → stored store ≡ stored e.store
      → IsValid store
      → IsSynced e
      → IsSynced (aside e store signal closed alive)
  aside-IsSynced e store signal closed alive same v s = record {
    valid = v;
    mirrors = Mirrors-aside e store signal closed alive e.unpublished same s.mirrors;
  }

  wake-IsSynced :
      (e e' : Engine State) (signal : List (Wake State)) (current : Option State)
      → e.unpublished ≡ none
      → IsSynced e
      → take_wake options e current signal ≡ some e'
      → IsSynced e'
  wake-IsSynced e e' [] current idle s h = subst IsSynced (eq_of_some e e' h) s
  wake-IsSynced e e' (on_admission ∷ rest) current idle s h =
      subst IsSynced (eq_of_some _ e' h)
        (aside-IsSynced e e.store rest e.closed e.alive refl s.valid s)
  wake-IsSynced e e' (autonomous carried ∷ rest) current idle s h =
      autonomous-IsSynced (record e { signal = rest }) e' carried current idle
        (aside-IsSynced e e.store rest e.closed e.alive refl s.valid s) h

  next-IsSynced :
      (e e' : Engine State) (current : Option State)
      → e.unpublished ≡ none
      → IsSynced e
      → process_next options e current ≡ some e'
      → IsSynced e'
  unfolding process_next
  next-IsSynced e e' current idle s h = elim (Option-cases (Mailbox.next e.store)) [
    | inl quiet ↦ wake-IsSynced e e' e.signal current idle s (rw (quiet, process_next) at h)
    | inr (c, first) ↦ commit-IsSynced e e' c idle s (rw (first, process_next) at h)
  ]

  or_dead-IsSynced :
      (e : Engine State) (m : Option (Engine State))
      → IsSynced e
      → ((e' : Engine State) → m ≡ some e' → IsSynced e')
      → IsSynced (or_dead options e m)
  or_dead-IsSynced e none s k = aside-IsSynced e e.store e.signal e.closed false refl s.valid s
  or_dead-IsSynced e (some e') s k = k e' refl

  pub work-IsSynced :
      (e : Engine State) (current : Option State) → IsSynced e → IsSynced (work options e current)
  unfolding work
  work-IsSynced e current s = elim (Bool-cases (e.closed || not e.alive)) [
    | inl over ↦ rw over s
    | inr on ↦ rw on (go e.unpublished refl)
  ]
    where
      go :
          (u : Option (Unpublished State))
          → e.unpublished ≡ u
          → IsSynced (turn_or_publish options e current u)
      go none idle =
          or_dead-IsSynced e (process_next options e current) s
            (λ e' h. next-IsSynced e e' current idle s h)
      go (some done) h = publish-IsSynced e done h s
