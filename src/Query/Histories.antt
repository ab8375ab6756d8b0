-- ===== src/Query/Histories.antt =====
-- A property that the laws keep holds for every entry after every legal history of the cache.
use effect_frame.Base.{
  ℕ, ◌+◌, ◌≡◌, refl, subst, ◌∙◌, inl, inr, Bool, true, false, Option, none, some, List, [], ◌∷◌,
  ◌++◌, String, ◌==◌, eqb, if◌then◌else◌, All, All-append, any, find?, Option-cases, ltb, ◌&&◌,
}
use effect_frame.Query.{
  QueryState, loading, ready, failed, Flight, no_read, latched, reading, Slot, Reply, succeeds,
  fails, is_final_seed, forget_owed, reject, read_after, later_read, land_seed, still_waits,
  revokes, reply_revokes,
}
use effect_frame.Query.Cache.{
  Cache, empty_cache, Claim, Refreshed, Event, Taking, no_seed, open_seed, settled_seed, begin_slot,
  wait_over, settle_seed_in, opens, closes, refreshes, begins, forgets, marks_stale, replies, tasks,
  overrides, seeds, claims, releases, settles, delivers, principal_changes, hydrates, new_slot,
  count_in, depends_on, is_at, change_where, lookup, open_slot, close_slot, principal_gone, gone_if,
  reject_in, deliver, deliver_all, end_in, begin_at, begin_in, seed_revokes, seed_in,
  recount_dependents, claim, has_token, remove_claim, release_claim, release, is_uncovered,
  settle_if, settle_claim, settle, step, run,
}
use effect_frame.Query.Laws.{
  Terms, Laws, Delivers, DeliversOne, SettlesIf, SettlesClaim, OpensWith, AnswersAt, AnswersIf,
  ArrivesIn, SeedsIf, SeedsAt, SeedsIn, SeedsWhen, Legal, LegalRun,
}
use effect_frame.Query.Tasks.{chosen}
use effect_frame.Query.Entries.{
  All-change, All-every, All-filtered, All-both, count-append_other, count-remove_other,
}

abbrev pub Everywhere : {A : Type 0} → (ℕ → ℕ → List Claim → Slot A → Type 0) → Cache A → Type 0
Everywhere I c = All (λ s. I c.principal c.sequence c.claims s) c.live

module _ {A : Type 0} (terms : Terms A) (I : ℕ → ℕ → List Claim → Slot A → Type 0)
    (laws : Laws terms I) where
  abbrev Keeps : Cache A → Type 0
  Keeps c = Everywhere I c

  -- Entries that pass a test change, and nothing else.
  change-Keeps :
      (c : Cache A) (test : Slot A → Bool) (f : Slot A → Slot A)
      → ((s : Slot A)
          → I c.principal c.sequence c.claims s
          → I c.principal c.sequence c.claims (f s))
      → Keeps c
      → Keeps (change_where test f c)
  change-Keeps c test f k h = All-change _ _ test f c.live (λ s i e. k s i) (λ s i e. i) h

  gone-Keeps : (c : Cache A) → Keeps c → Keeps (principal_gone c)
  unfolding principal_gone
  gone-Keeps c h = All-every _ _ _ c.live (λ s i. laws.owing c.principal c.sequence c.claims s i) h

  forget-Keeps : (c : Cache A) (id : String) → Keeps c → Keeps (step c (forgets id))
  unfolding step forget_owed
  forget-Keeps c id h =
      change-Keeps c (is_at id) _
        (λ s i.
          chosen (I c.principal c.sequence c.claims) (ltb 0 s.owed) _ s
            (laws.forgot c.principal c.sequence c.claims s i) i)
        h

  gone_if-Keeps : (b : Bool) (c : Cache A) → Keeps c → Keeps (gone_if b c)
  gone_if-Keeps true c h = gone-Keeps c h
  gone_if-Keeps false c h = h

  deliver-Keeps :
      (c : Cache A) (id : String) (reply : Reply A)
      → DeliversOne terms c.principal c.sequence reply
      → Keeps c
      → Keeps (deliver c id reply)
  deliver-Keeps c id (succeeds value) ok h =
      change-Keeps c (is_at id) _
        (λ s i. laws.landed c.principal c.sequence c.claims s value false (λ _. ok) i) h
  deliver-Keeps c id (fails error) ok h = go (lookup c id)
    where
      go : (o : Option (Slot A)) → Keeps (reject_in c id error o)
      go none = h
      go (some slot) = gone_if-Keeps (revokes c.principal error slot) _ (
          change-Keeps c (is_at id) _
            (λ s i. laws.rejected c.principal c.sequence c.claims s error i) h)

  deliver_all-Keeps :
      (refreshed : List (Refreshed A)) (c : Cache A)
      → Delivers terms c refreshed
      → Keeps c
      → Keeps (deliver_all c refreshed)
  unfolding deliver_all
  deliver_all-Keeps [] c ok h = h
  deliver_all-Keeps (one ∷ rest) c ok h =
      deliver_all-Keeps rest (deliver c one.key one.reply) ok.1
        (deliver-Keeps c one.key one.reply ok.0 h)

  gone_if-sequence : (b : Bool) (c : Cache A) → (gone_if b c).sequence ≡ c.sequence
  unfolding principal_gone
  gone_if-sequence true c = refl
  gone_if-sequence false c = refl

  deliver-sequence :
      (c : Cache A) (id : String) (reply : Reply A) → (deliver c id reply).sequence ≡ c.sequence
  deliver-sequence c id (succeeds value) = refl
  deliver-sequence c id (fails error) = go (lookup c id)
    where
      go : (o : Option (Slot A)) → (reject_in c id error o).sequence ≡ c.sequence
      go none = refl
      go (some slot) = gone_if-sequence (revokes c.principal error slot) _

  deliver_all-sequence :
      (refreshed : List (Refreshed A)) (c : Cache A)
      → (deliver_all c refreshed).sequence ≡ c.sequence
  unfolding deliver_all
  deliver_all-sequence [] c = refl
  deliver_all-sequence (one ∷ rest) c =
      deliver_all-sequence rest (deliver c one.key one.reply) ∙ deliver-sequence c one.key one.reply

  later-Keeps : (c : Cache A) → Keeps c → Keeps (record c { sequence = c.sequence + 1 })
  later-Keeps c h = go c.live h
    where
      go :
          (xs : List (Slot A))
          → All (λ s. I c.principal c.sequence c.claims s) xs
          → All (λ s. I c.principal (c.sequence + 1) c.claims s) xs
      go [] h = tt
      go (x ∷ xs) h = (laws.later c.principal c.sequence c.claims x h.0, go xs h.1)

  begin-Keeps :
      (c : Cache A) (id : String) (o : Option (Slot A)) → Keeps c → Keeps (begin_in c id o)
  begin-Keeps c id none h = h
  begin-Keeps c id (some slot) h = go slot.flight
    where
      go : (flight : Flight) → Keeps (begin_at c id flight)
      go no_read = h
      go (reading started at p) = h
      go latched =
          All-change _ _ (is_at id) _ c.live
            (λ s i e. laws.begun c.principal c.sequence c.claims s i)
            (λ s i e. laws.later c.principal c.sequence c.claims s i) h

  end-Keeps :
      (c : Cache A) (id : String) (reply : Reply A) (o : Option (Slot A))
      → All (AnswersAt terms id reply) c.live
      → Keeps c
      → Keeps (end_in c id reply o)
  end-Keeps c id reply none ok h = h
  end-Keeps c id reply (some slot) ok h =
      gone_if-Keeps (reply_revokes c.principal reply slot slot.flight) _ (
        All-change _ _ (is_at id) _ c.live
          (λ s i e.
            laws.ended c.principal c.sequence c.claims s reply
              (subst (λ b. AnswersIf terms b reply s.flight) e i.0) i.1)
          (λ s i e. i.1) (All-both _ _ c.live ok h))

  seed_slot :
      (p n : ℕ) (cs : List Claim) (s : Slot A) (state : QueryState A)
      → (eqb s.owed 0 ≡ true → ArrivesIn terms p n state)
      → I p n cs s
      → I p n cs (land_seed p state s)
  unfolding land_seed
  seed_slot p n cs s (ready value true) ok i =
      laws.seeded p n cs _ (laws.landed p n cs s value true ok i)
  seed_slot p n cs s (ready value false) ok i = laws.landed p n cs s value false ok i
  seed_slot p n cs s loading ok i = laws.seeded p n cs s i
  seed_slot p n cs s (failed error last) ok i = go (is_final_seed error)
    where
      go : (b : Bool) → I p n cs (if b then reject p error s else later_read (reject p error s))
      go true = laws.rejected p n cs s error i
      go false = laws.seeded p n cs _ (laws.rejected p n cs s error i)

  -- What is asked of a seed where it lands.
  seed_here :
      (p n : ℕ) (id : String) (state : QueryState A) (s : Slot A)
      → SeedsAt terms p n id state s
      → is_at id s ≡ true
      → eqb s.owed 0 ≡ true
      → ArrivesIn terms p n state
  seed_here p n id state s ok here unowed =
      let both : (is_at id s && eqb s.owed 0) ≡ true = rw (here, unowed) refl in
      subst (λ b. SeedsIf terms b p n state) both ok

  seed-Keeps :
      (c : Cache A) (id : String) (state : QueryState A) (o : Option (Slot A))
      → All (SeedsAt terms c.principal c.sequence id state) c.live
      → Keeps c
      → Keeps (seed_in c id state o)
  seed-Keeps c id state none ok h = h
  seed-Keeps c id state (some slot) ok h = gone_if-Keeps (seed_revokes c.principal state slot) _ (
      All-change _ _ (is_at id) _ c.live
        (λ s i e.
          seed_slot c.principal c.sequence c.claims s state
            (λ unowed. seed_here c.principal c.sequence id state s i.0 e unowed) i.1)
        (λ s i e. i.1) (All-both _ _ c.live ok h))

  -- A value that may land anywhere.
  seeds_anywhere :
      (p n : ℕ) (id : String) (state : QueryState A) (xs : List (Slot A))
      → ArrivesIn terms p n state
      → All (SeedsAt terms p n id state) xs
  seeds_anywhere p n id state [] ok = tt
  seeds_anywhere p n id state (x ∷ xs) ok =
      (go (is_at id x && eqb x.owed 0), seeds_anywhere p n id state xs ok)
    where
      go : (b : Bool) → SeedsIf terms b p n state
      go true = ok
      go false = tt

  -- The claims change, and every dependent of the contract counts them again.
  recount-Keeps :
      (c : Cache A) (cs' : List Claim) (contract : String)
      → ((names : List String)
          → any (λ name. name == contract) names ≡ false
          → count_in cs' names ≡ count_in c.claims names)
      → Keeps c
      → Keeps (recount_dependents contract (record c { claims = cs' }))
  recount-Keeps c cs' contract same h =
      All-change _ _ (λ s. depends_on s contract) _ c.live
        (λ s i e. laws.recounted c.principal c.sequence c.claims cs' s i)
        (λ s i e. laws.uncovered c.principal c.sequence c.claims cs' s (same s.depends e) i) h

  release-Keeps :
      (c : Cache A) (token : ℕ) (o : Option Claim)
      → find? (has_token token) c.claims ≡ o
      → Keeps c
      → Keeps (release_claim c token o)
  release-Keeps c token none e h = h
  release-Keeps c token (some one) e h =
      recount-Keeps c (remove_claim token c.claims) one.contract
        (λ names miss. count-remove_other token c.claims one names e miss) h

  settle_if-Keeps :
      (b : Bool) (c : Cache A) (contract : String) (refreshed : List (Refreshed A))
      → SettlesIf terms b c refreshed
      → Keeps c
      → Keeps (settle_if b c contract refreshed)
  settle_if-Keeps false c contract refreshed ok h = h
  settle_if-Keeps true c contract refreshed ok h =
      let next = record c { sequence = c.sequence + 1 } in
      let applied = deliver_all next refreshed in
      let number = deliver_all-sequence refreshed next in
      change-Keeps applied (is_uncovered contract refreshed) _
        (λ s i.
          subst
            (λ n.
              I applied.principal applied.sequence applied.claims
                (read_after applied.principal n s))
            number (laws.demanded applied.principal applied.sequence applied.claims s i))
        (deliver_all-Keeps refreshed next ok (later-Keeps c h))

  settle-Keeps :
      (c : Cache A) (refreshed : List (Refreshed A)) (o : Option Claim)
      → SettlesClaim terms c refreshed o
      → Keeps c
      → Keeps (settle_claim c refreshed o)
  settle-Keeps c refreshed none ok h = h
  settle-Keeps c refreshed (some one) ok h =
      settle_if-Keeps (eqb c.principal one.since) c one.contract refreshed ok h

  wait_over-Keeps : (c : Cache A) (id : String) → Keeps c → Keeps (wait_over c id)
  wait_over-Keeps c id h =
      change-Keeps c (is_at id) _ (λ s i. laws.waited c.principal c.sequence c.claims s i) h

  settle_seed-Keeps :
      (c : Cache A) (id : String) (state : QueryState A) (o : Option (Slot A))
      → SeedsIn terms c id state o
      → Keeps c
      → Keeps (settle_seed_in c id state o)
  settle_seed-Keeps c id state none ok h = h
  settle_seed-Keeps c id state (some slot) ok h = go (still_waits slot slot.awaits) ok
    where
      over : Keeps (wait_over c id)
      over = wait_over-Keeps c id h

      go :
          (b : Bool)
          → SeedsWhen terms b c id state
          → Keeps (
              if b
              then seed_in (wait_over c id) id state (lookup (wait_over c id) id)
              else wait_over c id)
      go true ok =
          seed-Keeps (wait_over c id) id state (lookup (wait_over c id) id)
            (All-change _ _ (is_at id) _ c.live (λ s i e. i) (λ s i e. i) ok) over
      go false ok = over

  begin_slot-Keeps :
      (c : Cache A) (id : String) (taking : Taking A)
      → OpensWith terms c taking
      → Keeps c
      → Keeps (begin_slot c id taking)
  begin_slot-Keeps c id no_seed ok h = h
  begin_slot-Keeps c id open_seed ok h = h
  begin_slot-Keeps c id (settled_seed state) ok h =
      seed-Keeps c id state (lookup c id) (seeds_anywhere c.principal c.sequence id state c.live ok)
        h

  OpensWith-live :
      (c : Cache A) (xs : List (Slot A)) (taking : Taking A)
      → OpensWith terms c taking
      → OpensWith terms (record c { live = xs }) taking
  OpensWith-live c xs no_seed ok = ok
  OpensWith-live c xs open_seed ok = ok
  OpensWith-live c xs (settled_seed state) ok = ok

  open-Keeps :
      (c : Cache A) (id : String) (depends : List String) (taking : Taking A)
      → OpensWith terms c taking
      → Keeps c
      → Keeps (open_slot c id depends taking)
  unfolding open_slot
  open-Keeps c id depends taking ok h = elim (Option-cases (lookup c id)) [
    | inl e ↦
        rw (e, open_slot)
          (begin_slot-Keeps (record c { live = c.live ++ new_slot c id depends taking ∷ [] }) id
            taking (OpensWith-live c (c.live ++ new_slot c id depends taking ∷ []) taking ok)
            (All-append _ c.live _ h (laws.fresh c id depends taking, tt)))
    | inr (slot, e) ↦ rw (e, open_slot) h
  ]

  pub step-Keeps :
      (c : Cache A) (event : Event A) → Legal terms c event → Keeps c → Keeps (step c event)
  unfolding step claim release settle close_slot
  step-Keeps c (opens id depends taking) ok h = open-Keeps c id depends taking ok h
  step-Keeps c (closes id) ok h = All-filtered _ _ c.live h
  step-Keeps c (refreshes id) ok h =
      change-Keeps c (is_at id) _ (λ s i. laws.latching c.principal c.sequence c.claims s i) h
  step-Keeps c (begins id) ok h = begin-Keeps c id (lookup c id) h
  step-Keeps c (marks_stale contract) ok h =
      change-Keeps c _ _ (λ s i. laws.staled c.principal c.sequence c.claims s i) h
  step-Keeps c (replies id reply) ok h = end-Keeps c id reply (lookup c id) ok h
  step-Keeps c (tasks id index) ok h =
      change-Keeps c (is_at id) _
        (λ s i. laws.ran c.principal c.sequence c.claims s c.hydrated index i) h
  step-Keeps c (overrides id update) ok h =
      change-Keeps c (is_at id) _
        (λ s i. laws.amended c.principal c.sequence c.claims s update ok i) h
  step-Keeps c (seeds id state) ok h = settle_seed-Keeps c id state (lookup c id) ok h
  step-Keeps c (claims token contract) ok h =
      recount-Keeps c _ contract (λ names miss. count-append_other c.claims _ names miss) h
  step-Keeps c (releases token) ok h =
      release-Keeps c token (find? (has_token token) c.claims) refl h
  step-Keeps c (settles token refreshed) ok h =
      settle-Keeps c refreshed (find? (has_token token) c.claims) ok h
  step-Keeps c (delivers refreshed) ok h = deliver_all-Keeps refreshed c ok h
  step-Keeps c (forgets id) ok h = forget-Keeps c id h
  step-Keeps c principal_changes ok h = gone-Keeps c h
  step-Keeps c hydrates ok h = h

  run-Keeps :
      (events : List (Event A)) (c : Cache A)
      → LegalRun terms c events
      → Keeps c
      → Keeps (run c events)
  unfolding run
  run-Keeps [] c ok h = h
  run-Keeps (event ∷ events) c ok h =
      run-Keeps events (step c event) ok.1 (step-Keeps c event ok.0 h)

  pub run-empty-Keeps :
      (events : List (Event A))
      → LegalRun terms empty_cache events
      → Everywhere I (run empty_cache events)
  run-empty-Keeps events ok = run-Keeps events empty_cache ok tt
