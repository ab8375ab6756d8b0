-- ===== src/Query/Shown.antt =====
-- What an entry of the query cache shows: its own state, stale while a command that it depends on is open.
use effect_frame.Base.{
  ℕ, ◌+◌, ◌≡◌, refl, sym, ◌∙◌, Bool, true, false, Option, none, some, List, [], ◌∷◌, String, ltb,
  eqb, All, find?, arith, ◌&&◌,
}
use effect_frame.Query.{
  QueryState, loading, ready, failed, Flight, no_read, latched, reading, Slot, Reply, succeeds,
  fails, display, amend, amend_own, recount, land, reject, refresh, begin_read, begin_flight,
  end_read, end_flight, commit_reply, forget, read_after, is_idle, still_waits, Task,
}
use effect_frame.Query.Cache.{
  Cache, empty_cache, Claim, Event, count_in, run, is_at, lookup, step, Refreshed, no_seed,
  open_seed, settled_seed, deliver, has_token, opens, closes, refreshes, begins, forgets,
  marks_stale, replies, tasks, overrides, seeds, claims, releases, settles, delivers,
  principal_changes, hydrates,
}
use effect_frame.Query.Laws.{
  Terms, Laws, Legal, LegalRun, Delivers, DeliversOne, SettlesIf, SettlesClaim, AnswersAt,
  AnswersIf, AnswersFlight, SeedsIf, SeedsAt, SeedsIn, SeedsWhen,
}
use effect_frame.Query.Tasks.{chosen, run_at-by}
use effect_frame.Query.Histories.{Everywhere, run-empty-Keeps}

-- What is shown is the entry's own state, stale while a covering command is open. It is stamped with the
-- principal of now, unless a change of principal has not reached the entry yet. The number of covering commands is the count over the open claims.
pub record IsShown {A : Type 0} (p n : ℕ) (cs : List Claim) (s : Slot A) : Type 0 where
  pub drawn : s.shown.state ≡ display s.own s.pending
  pub stamped : s.owed ≡ 0 → s.shown.principal ≡ p
  pub counted : s.pending ≡ count_in cs s.depends

-- No terms: any value may arrive.
abbrev pub anything : {A : Type 0} → Terms A
anything = record { Arrives = λ p n v. Unit; Answers = λ at p v. Unit; Updates = λ p f. Unit }

module _ {A : Type 0} where
  -- Fields that are not shown change.
  aside :
      (p n : ℕ) (cs : List Claim) (s : Slot A) (flight : Flight) (at fresh : ℕ) (ts : List Task)
      → IsShown p n cs s
      → IsShown p n cs
          (record s { flight = flight; read_started = at; fresh_after = fresh; tasks = ts })
  aside p n cs s flight at fresh ts i = record {
    drawn = i.drawn;
    stamped = i.stamped;
    counted = i.counted;
  }

  latching :
      (p n : ℕ) (cs : List Claim) (s : Slot A) → IsShown p n cs s → IsShown p n cs (refresh p s)
  unfolding refresh
  latching p n cs s i =
      chosen (λ t. IsShown p n cs t) (is_idle s.flight) _ s
        (record { drawn = refl; stamped = λ _. refl; counted = i.counted }) i

  begun :
      (p n : ℕ) (cs : List Claim) (s : Slot A) (k : ℕ) (flight : Flight)
      → IsShown p n cs s
      → IsShown p (n + 1) cs (begin_flight p k s flight)
  begun p n cs s k no_read i = record { drawn = i.drawn; stamped = i.stamped; counted = i.counted }
  begun p n cs s k latched i = record { drawn = i.drawn; stamped = i.stamped; counted = i.counted }
  begun p n cs s k (reading started at p') i = record {
    drawn = i.drawn;
    stamped = i.stamped;
    counted = i.counted;
  }

  committed :
      (p n : ℕ) (cs : List Claim) (s : Slot A) (r : Reply A) (at : ℕ)
      → IsShown p n cs s
      → IsShown p n cs (commit_reply p r at s)
  unfolding commit_reply land reject
  committed p n cs s (succeeds value) at i = record {
    drawn = refl;
    stamped = λ _. refl;
    counted = i.counted;
  }
  committed p n cs s (fails error) at i = record {
    drawn = refl;
    stamped = λ _. refl;
    counted = i.counted;
  }

  ended :
      (p n : ℕ) (cs : List Claim) (s : Slot A) (r : Reply A) (flight : Flight)
      → IsShown p n cs s
      → IsShown p n cs (end_flight p r s flight)
  ended p n cs s r no_read i = i
  ended p n cs s r latched i = i
  ended p n cs s r (reading started at p') i =
      let cleared = aside p n cs s no_read s.read_started s.fresh_after s.tasks i in
      chosen (λ t. IsShown p n cs t) (eqb started s.generation) _ _
        (committed p n cs _ r at cleared) cleared

  demanded :
      (p n : ℕ) (cs : List Claim) (s : Slot A)
      → IsShown p n cs s
      → IsShown p n cs (read_after p n s)
  unfolding read_after
  demanded p n cs s i =
      chosen (λ t. IsShown p n cs t) (ltb n s.read_started) s _ i
        (record { drawn = refl; stamped = λ _. refl; counted = i.counted })

  amended :
      (p n : ℕ) (cs : List Claim) (s : Slot A) (f : A → A) (own : QueryState A)
      → IsShown p n cs s
      → IsShown p n cs (amend_own p f s own).1
  amended p n cs s f (ready value stale) i = record {
    drawn = refl;
    stamped = λ _. refl;
    counted = i.counted;
  }
  amended p n cs s f loading i = i
  amended p n cs s f (failed error last) i = i

  pub shown-Laws : Laws {A = A} anything (λ p n cs s. IsShown p n cs s)
  unfolding land reject begin_read end_read forget amend recount
  shown-Laws = record {
    fresh = λ c id depends taking. record { drawn = refl; stamped = λ _. refl; counted = refl };
    staled = λ p n cs s i. record { drawn = refl; stamped = λ _. refl; counted = i.counted };
    landed =
        λ p n cs s v stale ok i. record { drawn = refl; stamped = λ _. refl; counted = i.counted };
    rejected = λ p n cs s e i. record { drawn = refl; stamped = λ _. refl; counted = i.counted };
    latching = latching;
    begun = λ p n cs s i. begun p n cs s (n + 1) s.flight i;
    later = λ p n cs s i. record { drawn = i.drawn; stamped = i.stamped; counted = i.counted };
    ended = λ p n cs s r ok i. ended p n cs s r s.flight i;
    owing = λ p n cs s i. record {
      drawn = i.drawn;
      stamped = λ none_owed. absurd (omega arith);
      counted = i.counted;
    };
    forgot = λ p n cs s i. record { drawn = refl; stamped = λ _. refl; counted = i.counted };
    demanded = demanded;
    ran = λ p n cs s hydrated index i.
        run_at-by (λ t. IsShown p n cs t) p s hydrated index
          (λ t ts k. aside p n cs t t.flight t.read_started t.fresh_after ts k) i
          (latching p n cs s i);
    seeded = λ p n cs s i. aside p n cs s s.flight s.read_started s.fresh_after _ i;
    waited = λ p n cs s i. record { drawn = i.drawn; stamped = i.stamped; counted = i.counted };
    amended = λ p n cs s f ok i. amended p n cs s f s.own i;
    uncovered = λ p n cs cs' s same i. record {
      drawn = i.drawn;
      stamped = i.stamped;
      counted = i.counted ∙ sym same;
    };
    recounted = λ p n cs cs' s i. record { drawn = refl; stamped = λ _. refl; counted = refl };
  }

  anything-Delivers : (c : Cache A) (refreshed : List (Refreshed A)) → Delivers anything c refreshed
  anything-Delivers c [] = tt
  anything-Delivers c (one ∷ rest) =
      (delivered one.reply, anything-Delivers (deliver c one.key one.reply) rest)
    where
      delivered : (r : Reply A) → DeliversOne {A = A} anything c.principal c.sequence r
      delivered (succeeds value) = tt
      delivered (fails error) = tt

  anything-Settles :
      (c : Cache A) (refreshed : List (Refreshed A)) (o : Option Claim)
      → SettlesClaim anything c refreshed o
  anything-Settles c refreshed none = tt
  anything-Settles c refreshed (some one) = go (eqb c.principal one.since)
    where
      go : (b : Bool) → SettlesIf anything b c refreshed
      go true = anything-Delivers (record c { sequence = c.sequence + 1 }) refreshed
      go false = tt

  anything-Answers :
      (id : String) (reply : Reply A) (xs : List (Slot A)) → All (AnswersAt anything id reply) xs
  anything-Answers id reply [] = tt
  anything-Answers id reply (x ∷ xs) =
      (asked (is_at id x) reply x.flight, anything-Answers id reply xs)
    where
      go : (r : Reply A) (flight : Flight) → AnswersFlight {A = A} anything r flight
      go (succeeds value) no_read = tt
      go (succeeds value) latched = tt
      go (succeeds value) (reading started at p) = tt
      go (fails error) flight = tt

      asked : (b : Bool) (r : Reply A) (flight : Flight) → AnswersIf {A = A} anything b r flight
      asked true r flight = go r flight
      asked false r flight = tt

  anything-Seeds :
      (c : Cache A) (id : String) (state : QueryState A) (xs : List (Slot A))
      → All (SeedsAt anything c.principal c.sequence id state) xs
  anything-Seeds c id state [] = tt
  anything-Seeds c id state (x ∷ xs) =
      (go (is_at id x && eqb x.owed 0) state, anything-Seeds c id state xs)
    where
      go : (b : Bool) (q : QueryState A) → SeedsIf {A = A} anything b c.principal c.sequence q
      go true (ready value stale) = tt
      go true loading = tt
      go true (failed error last) = tt
      go false q = tt

  anything-In :
      (c : Cache A) (id : String) (state : QueryState A) (o : Option (Slot A))
      → SeedsIn anything c id state o
  anything-In c id state none = tt
  anything-In c id state (some slot) = go (still_waits slot slot.awaits)
    where
      go : (b : Bool) → SeedsWhen {A = A} anything b c id state
      go true = anything-Seeds c id state c.live
      go false = tt

  pub anything-Legal : (c : Cache A) (event : Event A) → Legal anything c event
  anything-Legal c (replies id reply) = anything-Answers id reply c.live
  anything-Legal c (overrides id update) = tt
  anything-Legal c (seeds id state) = anything-In c id state (lookup c id)
  anything-Legal c (forgets id) = tt
  anything-Legal c (settles token refreshed) =
      anything-Settles c refreshed (find? (has_token token) c.claims)
  anything-Legal c (delivers refreshed) = anything-Delivers c refreshed
  anything-Legal c (opens id depends (settled_seed loading)) = tt
  anything-Legal c (opens id depends (settled_seed (ready value stale))) = tt
  anything-Legal c (opens id depends (settled_seed (failed error last))) = tt
  anything-Legal c (opens id depends no_seed) = tt
  anything-Legal c (opens id depends open_seed) = tt
  anything-Legal c (closes id) = tt
  anything-Legal c (refreshes id) = tt
  anything-Legal c (begins id) = tt
  anything-Legal c (marks_stale contract) = tt
  anything-Legal c (tasks id index) = tt
  anything-Legal c (claims token contract) = tt
  anything-Legal c (releases token) = tt
  anything-Legal c principal_changes = tt
  anything-Legal c hydrates = tt

  pub anything-LegalRun : (c : Cache A) (events : List (Event A)) → LegalRun anything c events
  anything-LegalRun c [] = tt
  anything-LegalRun c (event ∷ events) =
      (anything-Legal c event, anything-LegalRun (step c event) events)

  pub run-IsShown :
      (events : List (Event A))
      → Everywhere (λ p n cs s. IsShown p n cs s) (run {A = A} empty_cache events)
  run-IsShown events =
      run-empty-Keeps anything (λ p n cs s. IsShown p n cs s) shown-Laws events
        (anything-LegalRun empty_cache events)
