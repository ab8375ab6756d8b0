-- ===== src/Query/Isolated.antt =====
-- No entry of the query cache holds or shows a value that was read for another principal.
use effect_frame.Base.{
  ℕ, ◌+◌, ◌<◌, ◌≤◌, ◌≡◌, refl, sym, subst, ◌⊎◌, inl, inr, Bool, true, false, not, ◌&&◌, none, some,
  List, [], ◌∷◌, ltb, eqb, eqb_iff, if◌then◌else◌, All, arith,
}
use effect_frame.Query.{
  QueryState, loading, ready, failed, QueryFailure, is_unauthorized, Flight, no_read, latched,
  reading, Slot, Reply, succeeds, fails, mark_stale, display, held_value, failed_as, amend,
  amend_own, recount, land, reject, refresh, begin_read, begin_flight, end_read, end_flight,
  commit_reply, forget, read_after, is_idle,
}
use effect_frame.Query.Cache.{empty_cache, Claim, Event, run}
use effect_frame.Query.Laws.{Terms, Laws, LegalRun, AnswersFlight}
use effect_frame.Query.Tasks.{chosen, run_at-by}
use effect_frame.Query.Histories.{run-empty-Keeps}
use effect_frame.Query.Entries.{All-both}
use effect_frame.Query.Shown.{IsShown, run-IsShown}

-- `ReadFor p v`: the value was read for the principal of generation `p`.
module _ {A : Type 0} (ReadFor : ℕ → A → Type 0) where
  -- Every value that a state holds was read for the principal.
  abbrev pub HoldsFor : ℕ → QueryState A → Type 0
  HoldsFor p (ready value stale) = ReadFor p value
  HoldsFor p (failed error (some value)) = ReadFor p value
  HoldsFor p (failed error none) = Unit
  HoldsFor p loading = Unit

  -- A read that may still publish started under the principal of now.
  abbrev pub StartedUnder : ℕ → ℕ → Flight → Type 0
  StartedUnder p generation (reading started at p') =
      (started < generation) ⊎ ((started ≡ generation) × (p' ≡ p))
  StartedUnder p generation no_read = Unit
  StartedUnder p generation latched = Unit

  -- No read started at a generation to come.
  abbrev StartedBefore : ℕ → Flight → Type 0
  StartedBefore generation (reading started at p) = started ≤ generation
  StartedBefore generation no_read = Unit
  StartedBefore generation latched = Unit

  pub record IsOwned (p : ℕ) (s : Slot A) : Type 0 where
    pub holds : s.owed ≡ 0 → HoldsFor p s.own
    pub started : s.owed ≡ 0 → StartedUnder p s.generation s.flight
    pub bounded : StartedBefore s.generation s.flight

  -- A read brings a value for the principal under which it started, another path one for the principal
  -- of now, and an override makes one from one.
  abbrev pub principal_terms : Terms A
  principal_terms = record {
    Arrives = λ p n v. ReadFor p v;
    Answers = λ at p v. ReadFor p v;
    Updates = λ p f. (v : A) → ReadFor p v → ReadFor p (f v);
  }

  before-up :
      (generation : ℕ) (flight : Flight)
      → StartedBefore generation flight
      → StartedBefore (generation + 1) flight
  before-up generation (reading started at q) h = omega arith
  before-up generation no_read h = tt
  before-up generation latched h = tt

  -- The reads of before.
  before-under :
      (p generation : ℕ) (flight : Flight)
      → StartedBefore generation flight
      → StartedUnder p (generation + 1) flight
  before-under p generation (reading started at q) h = inl (omega arith)
  before-under p generation no_read h = tt
  before-under p generation latched h = tt

  HoldsFor-stale : (p : ℕ) (q : QueryState A) → HoldsFor p q → HoldsFor p (mark_stale q)
  HoldsFor-stale p (ready value stale) h = h
  HoldsFor-stale p loading h = h
  HoldsFor-stale p (failed error last) h = h

  HoldsFor-failed :
      (p : ℕ) (error : QueryFailure) (q : QueryState A)
      → HoldsFor p q
      → HoldsFor p (failed_as error q)
  HoldsFor-failed p error q h = go (is_unauthorized error) q h
    where
      go :
          (b : Bool) (q : QueryState A)
          → HoldsFor p q
          → HoldsFor p (failed error (if b then none else held_value q))
      go true q h = tt
      go false (ready value stale) h = h
      go false loading h = tt
      go false (failed other (some value)) h = h
      go false (failed other none) h = tt

  rejected : (p : ℕ) (s : Slot A) (e : QueryFailure) → IsOwned p s → IsOwned p (reject p e s)
  unfolding reject
  rejected p s e i = record {
    holds = λ z. HoldsFor-failed p e s.own (i.holds z);
    started = λ z. before-under p s.generation s.flight i.bounded;
    bounded = before-up s.generation s.flight i.bounded;
  }

  landed :
      (p : ℕ) (s : Slot A) (v : A) (stale : Bool)
      → (s.owed ≡ 0 → ReadFor p v)
      → IsOwned p s
      → IsOwned p (land p v stale s)
  unfolding land
  landed p s v stale ok i = record {
    holds = ok;
    started = λ z. before-under p s.generation s.flight i.bounded;
    bounded = before-up s.generation s.flight i.bounded;
  }

  latching : (p : ℕ) (s : Slot A) → IsOwned p s → IsOwned p (refresh p s)
  unfolding refresh
  latching p s i =
      chosen (λ t. IsOwned p t) (is_idle s.flight) _ s
        (record {
          holds = λ z. HoldsFor-stale p s.own (i.holds z);
          started = λ z. tt;
          bounded = tt;
        })
        i

  begun :
      (p : ℕ) (s : Slot A) (k : ℕ) (flight : Flight)
      → s.flight ≡ flight
      → IsOwned p s
      → IsOwned p (begin_flight p k s flight)
  begun p s k no_read e i = i
  begun p s k latched e i = record {
    holds = i.holds;
    started = λ z. inr (refl, refl);
    bounded = omega arith;
  }
  begun p s k (reading started at q) e i = i

  ended :
      (p : ℕ) (s : Slot A) (r : Reply A) (flight : Flight)
      → AnswersFlight principal_terms r flight
      → (s.owed ≡ 0 → StartedUnder p s.generation flight)
      → IsOwned p s
      → IsOwned p (end_flight p r s flight)
  unfolding commit_reply
  ended p s r no_read ok st i = i
  ended p s r latched ok st i = i
  ended p s (fails error) (reading started at q) ok st i =
      let cleared : IsOwned p (record s { flight = no_read }) = record {
        holds = i.holds;
        started = λ z. tt;
        bounded = tt;
      } in
      chosen (λ t. IsOwned p t) (eqb started s.generation) _ _ (rejected p _ error cleared) cleared
  ended p s (succeeds value) (reading started at q) ok st i = go (eqb started s.generation) refl
    where
      cleared : IsOwned p (record s { flight = no_read })
      cleared = record { holds = i.holds; started = λ z. tt; bounded = tt }

      mine : s.owed ≡ 0 → eqb started s.generation ≡ true → q ≡ p
      mine z e = elim (st z) [
        | inl h ↦ let same = (eqb_iff started s.generation).0 e in absurd (omega arith)
        | inr h ↦ h.1
      ]

      go :
          (b : Bool)
          → eqb started s.generation ≡ b
          → IsOwned p (
              if b
              then commit_reply p (succeeds value) at (record s { flight = no_read })
              else record s { flight = no_read })
      go true e = landed p _ value _ (λ z. subst (λ k. ReadFor k value) (mine z e) ok) cleared
      go false e = cleared

  amended :
      (p : ℕ) (s : Slot A) (f : A → A) (own : QueryState A)
      → ((v : A) → ReadFor p v → ReadFor p (f v))
      → (s.owed ≡ 0 → HoldsFor p own)
      → IsOwned p s
      → IsOwned p (amend_own p f s own).1
  amended p s f (ready value stale) k h i = record {
    holds = λ z. k value (h z);
    started = i.started;
    bounded = i.bounded;
  }
  amended p s f loading k h i = i
  amended p s f (failed error last) k h i = i

  pub isolated-Laws : Laws principal_terms (λ p n cs s. IsOwned p s)
  unfolding land reject begin_read end_read forget amend recount read_after
  isolated-Laws = record {
    fresh = λ c id depends taking. record { holds = λ z. tt; started = λ z. tt; bounded = tt };
    staled = λ p n cs s i. record {
      holds = λ z. HoldsFor-stale p s.own (i.holds z);
      started = i.started;
      bounded = i.bounded;
    };
    landed = λ p n cs s v stale ok i. landed p s v stale (λ z. ok ((eqb_iff s.owed 0).1 z)) i;
    rejected = λ p n cs s e i. rejected p s e i;
    latching = λ p n cs s i. latching p s i;
    begun = λ p n cs s i. begun p s (n + 1) s.flight refl i;
    later = λ p n cs s i. i;
    ended = λ p n cs s r ok i. ended p s r s.flight ok i.started i;
    owing = λ p n cs s i. record {
      holds = λ z. absurd (omega arith);
      started = λ z. absurd (omega arith);
      bounded = i.bounded;
    };
    forgot = λ p n cs s i. record {
      holds = λ z. tt;
      started = λ z. before-under p s.generation s.flight i.bounded;
      bounded = before-up s.generation s.flight i.bounded;
    };
    demanded = λ p n cs s i.
        chosen (λ t. IsOwned p t) (ltb n s.read_started) s _ i
          (record {
            holds = λ z. HoldsFor-stale p s.own (i.holds z);
            started = i.started;
            bounded = i.bounded;
          });
    ran = λ p n cs s hydrated index i.
        run_at-by (λ t. IsOwned p t) p s hydrated index
          (λ t ts k. record { holds = k.holds; started = k.started; bounded = k.bounded }) i
          (latching p s i);
    seeded = λ p n cs s i. record { holds = i.holds; started = i.started; bounded = i.bounded };
    waited = λ p n cs s i. record { holds = i.holds; started = i.started; bounded = i.bounded };
    amended = λ p n cs s f ok i. amended p s f s.own ok i.holds i;
    uncovered = λ p n cs cs' s same i. i;
    recounted =
        λ p n cs cs' s i. record { holds = i.holds; started = i.started; bounded = i.bounded };
  }

  pub display-HoldsFor : (p k : ℕ) (q : QueryState A) → HoldsFor p q → HoldsFor p (display q k)
  display-HoldsFor p k (ready value stale) h = go (ltb 0 k && not stale)
    where
      go : (b : Bool) → HoldsFor p (if b then ready value true else ready value stale)
      go true = h
      go false = h
  display-HoldsFor p k loading h = h
  display-HoldsFor p k (failed error last) h = h

  shown-HoldsFor :
      (p n : ℕ) (cs : List Claim) (xs : List (Slot A))
      → All (λ s. IsOwned p s × IsShown p n cs s) xs
      → All
          (λ s. s.owed ≡ 0 → HoldsFor s.shown.principal s.shown.state × (s.shown.principal ≡ p))
          xs
  shown-HoldsFor p n cs [] h = tt
  shown-HoldsFor p n cs (s ∷ xs) ((o, i), rest) = (
    λ z. (
      subst (λ k. HoldsFor k s.shown.state) (sym (i.stamped z))
          (subst (λ q. HoldsFor p q) (sym i.drawn)
            (display-HoldsFor p s.pending s.own (o.holds z))),
      i.stamped z,
    ),
    shown-HoldsFor p n cs xs rest,
  )

  -- An entry shows no value, ready or kept by a failure, but of the principal that its state is stamped
  -- with, and that is the principal of now.
  abbrev pub IsIsolated : ℕ → Slot A → Type 0
  IsIsolated p s = HoldsFor s.shown.principal s.shown.state × (s.shown.principal ≡ p)

  -- After any history in which a read brings a value for the principal it started under, every other
  -- arrival brings one for the principal of now, and an override makes such a value from such a value: no
  -- live entry that every change of principal so far has reached shows a value, ready or kept by a failure,
  -- of another principal than that of now, and its state is stamped with that one, however late a read of a
  -- principal that is gone ends. Of a seed that lands in an entry between a change of principal and the
  -- entry's forget nothing is asked.
  pub run-HoldsFor :
      (events : List (Event A))
      → LegalRun principal_terms empty_cache events
      → let last = run empty_cache events in
        All (λ s. s.owed ≡ 0 → IsIsolated last.principal s) last.live
  run-HoldsFor events legal =
      let last = run empty_cache events in
      shown-HoldsFor last.principal last.sequence last.claims last.live (
        All-both _ _ last.live
          (run-empty-Keeps principal_terms (λ p n cs s. IsOwned p s) isolated-Laws events legal)
          (run-IsShown events))
