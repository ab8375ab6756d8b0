-- ===== src/Query/Laws.antt =====
-- What keeps a property of the entries over every step of the cache: one law for each thing that can
-- happen to an entry. `I p n cs` is the property under principal `p`, at sequence number `n`, with the
-- unresolved claims `cs`.
use effect_frame.Base.{
  ℕ, ◌+◌, ◌≡◌, ◌&&◌, Bool, true, false, Option, none, some, List, [], ◌∷◌, String, eqb, All, find?,
}
use effect_frame.Query.{
  QueryState, loading, ready, failed, QueryFailure, Flight, no_read, latched, reading, Slot, Reply,
  succeeds, fails, write, mark_stale, amend, recount, land, reject, refresh, begin_read, end_read,
  forget, owe, read_after, run_at, later_read, still_waits,
}
use effect_frame.Query.Cache.{
  Cache, Claim, Refreshed, Taking, no_seed, open_seed, settled_seed, Event, opens, closes,
  refreshes, begins, forgets, marks_stale, replies, tasks, overrides, seeds, claims, releases,
  settles, delivers, principal_changes, hydrates, new_slot, count_in, covering, is_at, lookup,
  deliver, has_token, step,
}

-- What is asked of the values that arrive: by another path than a read, by a read that started at a
-- number under a principal, and from an override.
pub record Terms (A : Type 0) : Type 1 where
  pub Arrives : ℕ → ℕ → A → Type 0
  pub Answers : ℕ → ℕ → A → Type 0
  pub Updates : ℕ → (A → A) → Type 0

module _ {A : Type 0} (terms : Terms A) where
  open terms use {Arrives, Answers, Updates}

  abbrev pub AnswersFlight : Reply A → Flight → Type 0
  AnswersFlight (succeeds value) (reading started at p) = Answers at p value
  AnswersFlight (succeeds value) no_read = Unit
  AnswersFlight (succeeds value) latched = Unit
  AnswersFlight (fails error) flight = Unit

  abbrev pub ArrivesIn : ℕ → ℕ → QueryState A → Type 0
  ArrivesIn p n (ready value stale) = Arrives p n value
  ArrivesIn p n loading = Unit
  ArrivesIn p n (failed error last) = Unit

  abbrev pub SeedsIf : Bool → ℕ → ℕ → QueryState A → Type 0
  SeedsIf true p n state = ArrivesIn p n state
  SeedsIf false p n state = Unit

  -- A seed lands in the entry that waits for it. Between a change of principal and the entry's forget,
  -- nothing is asked of its value.
  abbrev pub SeedsAt : ℕ → ℕ → String → QueryState A → Slot A → Type 0
  SeedsAt p n id state slot = SeedsIf (is_at id slot && eqb slot.owed 0) p n state

  abbrev pub SeedsWhen : Bool → Cache A → String → QueryState A → Type 0
  SeedsWhen true c id state = All (SeedsAt c.principal c.sequence id state) c.live
  SeedsWhen false c id state = Unit

  -- A seed that something superseded does not land, and nothing is asked of it.
  abbrev pub SeedsIn : Cache A → String → QueryState A → Option (Slot A) → Type 0
  SeedsIn c id state none = Unit
  SeedsIn c id state (some slot) = SeedsWhen (still_waits slot slot.awaits) c id state

  abbrev pub DeliversOne : ℕ → ℕ → Reply A → Type 0
  DeliversOne p n (succeeds value) = Arrives p n value
  DeliversOne p n (fails error) = Unit

  -- Each value of a reply meets the terms under the principal of the moment that it lands.
  abbrev pub Delivers : Cache A → List (Refreshed A) → Type 0
  Delivers c [] = Unit
  Delivers c (one ∷ rest) =
      DeliversOne c.principal c.sequence one.reply × Delivers (deliver c one.key one.reply) rest

  abbrev pub SettlesIf : Bool → Cache A → List (Refreshed A) → Type 0
  SettlesIf true c refreshed = Delivers (record c { sequence = c.sequence + 1 }) refreshed
  SettlesIf false c refreshed = Unit

  abbrev pub SettlesClaim : Cache A → List (Refreshed A) → Option Claim → Type 0
  SettlesClaim c refreshed none = Unit
  SettlesClaim c refreshed (some one) = SettlesIf (eqb c.principal one.since) c refreshed

  abbrev pub AnswersIf : Bool → Reply A → Flight → Type 0
  AnswersIf true reply flight = AnswersFlight reply flight
  AnswersIf false reply flight = Unit

  abbrev pub AnswersAt : String → Reply A → Slot A → Type 0
  AnswersAt id reply slot = AnswersIf (is_at id slot) reply slot.flight

  abbrev pub OpensWith : Cache A → Taking A → Type 0
  OpensWith c (settled_seed state) = ArrivesIn c.principal c.sequence state
  OpensWith c no_seed = Unit
  OpensWith c open_seed = Unit

  abbrev pub Legal : Cache A → Event A → Type 0
  Legal c (replies id reply) = All (AnswersAt id reply) c.live
  Legal c (overrides id update) = Updates c.principal update
  Legal c (opens id depends taking) = OpensWith c taking
  Legal c (seeds id state) = SeedsIn c id state (lookup c id)
  Legal c (settles token refreshed) = SettlesClaim c refreshed (find? (has_token token) c.claims)
  Legal c (delivers refreshed) = Delivers c refreshed
  Legal c (closes id) = Unit
  Legal c (forgets id) = Unit
  Legal c (refreshes id) = Unit
  Legal c (begins id) = Unit
  Legal c (marks_stale contract) = Unit
  Legal c (tasks id index) = Unit
  Legal c (claims token contract) = Unit
  Legal c (releases token) = Unit
  Legal c principal_changes = Unit
  Legal c hydrates = Unit

  -- Every event of the history meets the terms when it happens.
  abbrev pub LegalRun : Cache A → List (Event A) → Type 0
  LegalRun c [] = Unit
  LegalRun c (event ∷ events) = Legal c event × LegalRun (step c event) events

  pub record Laws (I : ℕ → ℕ → List Claim → Slot A → Type 0) : Type 0 where
    pub fresh :
        (c : Cache A) (id : String) (depends : List String) (taking : Taking A)
        → I c.principal c.sequence c.claims (new_slot c id depends taking)
    pub staled :
        (p n : ℕ) (cs : List Claim) (s : Slot A)
        → I p n cs s
        → I p n cs (write p (mark_stale s.own) s)
    pub landed :
        (p n : ℕ) (cs : List Claim) (s : Slot A) (v : A) (stale : Bool)
        → (eqb s.owed 0 ≡ true → Arrives p n v)
        → I p n cs s
        → I p n cs (land p v stale s)
    pub rejected :
        (p n : ℕ) (cs : List Claim) (s : Slot A) (e : QueryFailure)
        → I p n cs s
        → I p n cs (reject p e s)
    pub latching : (p n : ℕ) (cs : List Claim) (s : Slot A) → I p n cs s → I p n cs (refresh p s)
    pub begun :
        (p n : ℕ) (cs : List Claim) (s : Slot A)
        → I p n cs s
        → I p (n + 1) cs (begin_read p (n + 1) s)
    pub later : (p n : ℕ) (cs : List Claim) (s : Slot A) → I p n cs s → I p (n + 1) cs s
    pub ended :
        (p n : ℕ) (cs : List Claim) (s : Slot A) (r : Reply A)
        → AnswersFlight r s.flight
        → I p n cs s
        → I p n cs (end_read p r s)
    pub owing : (p n : ℕ) (cs : List Claim) (s : Slot A) → I p n cs s → I (p + 1) n cs (owe s)
    pub forgot : (p n : ℕ) (cs : List Claim) (s : Slot A) → I p n cs s → I p n cs (forget p s)
    pub demanded :
        (p n : ℕ) (cs : List Claim) (s : Slot A) → I p n cs s → I p n cs (read_after p n s)
    pub ran :
        (p n : ℕ) (cs : List Claim) (s : Slot A) (hydrated : Bool) (index : ℕ)
        → I p n cs s
        → I p n cs (run_at p hydrated index s)
    pub seeded : (p n : ℕ) (cs : List Claim) (s : Slot A) → I p n cs s → I p n cs (later_read s)
    pub waited :
        (p n : ℕ) (cs : List Claim) (s : Slot A)
        → I p n cs s
        → I p n cs (record s { awaits = none })
    pub amended :
        (p n : ℕ) (cs : List Claim) (s : Slot A) (f : A → A)
        → Updates p f
        → I p n cs s
        → I p n cs (amend p f s).1
    pub uncovered :
        (p n : ℕ) (cs cs' : List Claim) (s : Slot A)
        → count_in cs' s.depends ≡ count_in cs s.depends
        → I p n cs s
        → I p n cs' s
    pub recounted :
        (p n : ℕ) (cs cs' : List Claim) (s : Slot A)
        → I p n cs s
        → I p n cs' (recount p (covering cs' s) s)
