-- ===== src/Query/Cache.antt =====
-- packages/effect-frame/src/actor/query-client.ts: the cache of one client, its live entries and the
-- commands that own them. `RcMap` gives one entry to all declarations of a key: `opens` is the first
-- declaration, `closes` the release of the last. A change of principal is no one step: it moves the principal, lets the
-- document expire, which lands the seeds that hydration held back, and then makes the entries that it found
-- forget, one after another. What lands in between is an event of its own.
use effect_frame.Base.{
  ℕ, suc, ◌+◌, Bool, true, false, not, Option, none, some, List, [], ◌∷◌, ◌++◌, map, String, ◌==◌,
  eqb, if◌then◌else◌, any, filter, find?,
}
use effect_frame.Query.{
  QueryState, loading, ready, failed, QueryFailure, Flight, no_read, latched, reading, Task,
  refreshing, Slot, Reply, succeeds, fails, write, mark_stale, amend, recount, land, reject,
  revokes, refresh, begin_read, end_read, reply_revokes, forget_owed, owe, read_after, run_at,
  land_seed, still_waits,
}

-- One unresolved command, by its token: the contract it commits to, and the principal it runs under.
pub record Claim : Type 0 where
  pub token : ℕ
  pub contract : String
  pub since : ℕ

pub record Cache (A : Type 0) : Type 0 where
  pub live : List (Slot A)
  pub claims : List Claim
  pub sequence : ℕ
  pub principal : ℕ
  pub hydrated : Bool

abbrev pub empty_cache : {A : Type 0} → Cache A
empty_cache = record { live = []; claims = []; sequence = 0; principal = 0; hydrated = false }

-- One refresh that a command reply carried.
pub record Refreshed (A : Type 0) : Type 0 where
  pub key : String
  pub reply : Reply A

abbrev pub depends_on : {A : Type 0} → Slot A → String → Bool
depends_on slot contract = any (λ name. name == contract) slot.depends

-- How many unresolved commands cover an entry.
abbrev pub count_in : List Claim → List String → ℕ
count_in [] names = 0
count_in (claim ∷ claims) names =
    if any (λ name. name == claim.contract) names
    then suc (count_in claims names)
    else count_in claims names

abbrev pub covering : {A : Type 0} → List Claim → Slot A → ℕ
covering claims slot = count_in claims slot.depends

abbrev pub has_token : ℕ → Claim → Bool
has_token token one = eqb one.token token

-- `claims.delete(token)`.
unfoldable pub remove_claim : ℕ → List Claim → List Claim
remove_claim token [] = []
remove_claim token (one ∷ rest) =
    if has_token token one then rest else one ∷ remove_claim token rest

-- What a new entry takes from the streamed document: nothing, a seed that settled, or one still open.
pub data Taking (A : Type 0) : Type 0 where
  no_seed open_seed : Taking A
  settled_seed : QueryState A → Taking A

-- What reaches the cache.
pub data Event (A : Type 0) : Type 0 where
  opens : String → List String → Taking A → Event A
  closes refreshes begins marks_stale forgets : String → Event A
  replies : String → Reply A → Event A
  tasks : String → ℕ → Event A
  overrides : String → (A → A) → Event A
  seeds : String → QueryState A → Event A
  claims : ℕ → String → Event A
  releases : ℕ → Event A
  settles : ℕ → List (Refreshed A) → Event A
  delivers : List (Refreshed A) → Event A
  principal_changes hydrates : Event A

module _ {A : Type 0} where
  abbrev pub is_at : String → Slot A → Bool
  is_at id slot = slot.id == id

  abbrev pub changed_if : (Slot A → Bool) → (Slot A → Slot A) → Slot A → Slot A
  changed_if test change slot = if test slot then change slot else slot

  -- The entries that pass a test change.
  abbrev pub change_where : (Slot A → Bool) → (Slot A → Slot A) → Cache A → Cache A
  change_where test change c = record c { live = map (changed_if test change) c.live }

  abbrev pub lookup : Cache A → String → Option (Slot A)
  lookup c id = find? (is_at id) c.live

  unfoldable pub close_slot : Cache A → String → Cache A
  close_slot c id = record c { live = filter (λ slot. not (is_at id slot)) c.live }

  -- The next generation, and hydration is over. Every entry that is live now will forget.
  unfoldable pub principal_gone : Cache A → Cache A
  principal_gone c = record c {
    principal = c.principal + 1;
    hydrated = true;
    live = map owe c.live;
  }

  abbrev pub gone_if : Bool → Cache A → Cache A
  gone_if revoked c = if revoked then principal_gone c else c

  -- A refusal that lands in one entry may prove that the principal is gone.
  abbrev pub reject_in : Cache A → String → QueryFailure → Option (Slot A) → Cache A
  reject_in c id error none = c
  reject_in c id error (some slot) =
      gone_if (revokes c.principal error slot)
        (change_where (is_at id) (reject c.principal error) c)

  abbrev pub deliver : Cache A → String → Reply A → Cache A
  deliver c id (succeeds value) =
      change_where (is_at id) (λ slot. land c.principal value false slot) c
  deliver c id (fails error) = reject_in c id error (lookup c id)

  -- `apply`: the refreshes of a command reply, in order.
  unfoldable pub deliver_all : Cache A → List (Refreshed A) → Cache A
  deliver_all c [] = c
  deliver_all c (one ∷ rest) = deliver_all (deliver c one.key one.reply) rest

  -- The read in flight of one entry ends.
  abbrev pub end_in : Cache A → String → Reply A → Option (Slot A) → Cache A
  end_in c id reply none = c
  end_in c id reply (some slot) =
      gone_if (reply_revokes c.principal reply slot slot.flight)
        (change_where (is_at id) (end_read c.principal reply) c)

  -- A latched read starts, and takes the next number.
  abbrev pub begin_at : Cache A → String → Flight → Cache A
  begin_at c id latched =
      let number = c.sequence + 1 in
      change_where (is_at id) (begin_read c.principal number) (record c { sequence = number })
  begin_at c id no_read = c
  begin_at c id (reading started at p) = c

  abbrev pub begin_in : Cache A → String → Option (Slot A) → Cache A
  begin_in c id none = c
  begin_in c id (some slot) = begin_at c id slot.flight

  -- A seed lands in one entry. A refusal of it may revoke, as any other.
  abbrev pub seed_revokes : ℕ → QueryState A → Slot A → Bool
  seed_revokes principal (failed error last) slot = revokes principal error slot
  seed_revokes principal loading slot = false
  seed_revokes principal (ready value stale) slot = false

  abbrev pub seed_in : Cache A → String → QueryState A → Option (Slot A) → Cache A
  seed_in c id state none = c
  seed_in c id state (some slot) =
      gone_if (seed_revokes c.principal state slot)
        (change_where (is_at id) (land_seed c.principal state) c)

  -- `makeSlot` and `begin`: a new entry counts the claims that exist now, and with no seed it reads.
  abbrev pub first_tasks : Taking A → List Task
  first_tasks no_seed = refreshing ∷ []
  first_tasks open_seed = []
  first_tasks (settled_seed state) = []

  abbrev pub first_wait : Taking A → Option (ℕ × ℕ)
  first_wait no_seed = none
  first_wait open_seed = some (0, 0)
  first_wait (settled_seed state) = none

  abbrev pub new_slot : Cache A → String → List String → Taking A → Slot A
  new_slot c id depends taking = record {
    id = id;
    depends = depends;
    own = loading;
    pending = count_in c.claims depends;
    shown = record { state = loading; principal = c.principal };
    read_started = 0;
    fresh_after = 0;
    flight = no_read;
    generation = 0;
    granted = none;
    tasks = first_tasks taking;
    awaits = first_wait taking;
    owed = 0;
  }

  -- A seed that settled lands before the entry is returned.
  abbrev pub begin_slot : Cache A → String → Taking A → Cache A
  begin_slot c id no_seed = c
  begin_slot c id open_seed = c
  begin_slot c id (settled_seed state) = seed_in c id state (lookup c id)

  unfoldable pub open_slot : Cache A → String → List String → Taking A → Cache A
  open_slot c id depends taking = elim (lookup c id) [
    | some slot ↦ c
    | none ↦ begin_slot (record c { live = c.live ++ new_slot c id depends taking ∷ [] }) id taking
  ]

  -- The seed that an entry waits for settles: it lands unless something superseded it.
  abbrev pub wait_over : Cache A → String → Cache A
  wait_over c id = change_where (is_at id) (λ slot. record slot { awaits = none }) c

  abbrev pub settle_seed_in : Cache A → String → QueryState A → Option (Slot A) → Cache A
  settle_seed_in c id state none = c
  settle_seed_in c id state (some slot) =
      if still_waits slot slot.awaits
      then seed_in (wait_over c id) id state (lookup (wait_over c id) id)
      else wait_over c id

  abbrev pub recount_dependents : String → Cache A → Cache A
  recount_dependents contract c =
      change_where (λ slot. depends_on slot contract)
        (λ slot. recount c.principal (covering c.claims slot) slot) c

  unfoldable pub claim : Cache A → ℕ → String → Cache A
  claim c token contract = recount_dependents contract (record c {
    claims = c.claims ++ record { token = token; contract = contract; since = c.principal } ∷ [];
  })

  abbrev pub release_claim : Cache A → ℕ → Option Claim → Cache A
  release_claim c token none = c
  release_claim c token (some one) =
      recount_dependents one.contract (record c { claims = remove_claim token c.claims })

  unfoldable pub release : Cache A → ℕ → Cache A
  release c token = release_claim c token (find? (has_token token) c.claims)

  -- The dependents that the refreshes did not cover read again.
  abbrev pub is_uncovered : String → List (Refreshed A) → Slot A → Bool
  is_uncovered contract refreshed slot =
      if depends_on slot contract then not (any (λ one. one.key == slot.id) refreshed) else false

  abbrev pub settle_if : Bool → Cache A → String → List (Refreshed A) → Cache A
  settle_if false c contract refreshed = c
  settle_if true c contract refreshed =
      let settled_at = c.sequence + 1 in
      let applied = deliver_all (record c { sequence = settled_at }) refreshed in
      change_where (is_uncovered contract refreshed) (read_after applied.principal settled_at)
        applied

  -- The reply of a command whose principal is gone changes nothing.
  abbrev pub settle_claim : Cache A → List (Refreshed A) → Option Claim → Cache A
  settle_claim c refreshed none = c
  settle_claim c refreshed (some one) =
      settle_if (eqb c.principal one.since) c one.contract refreshed

  unfoldable pub settle : Cache A → ℕ → List (Refreshed A) → Cache A
  settle c token refreshed = settle_claim c refreshed (find? (has_token token) c.claims)

  unfoldable pub step : Cache A → Event A → Cache A
  step c (opens id depends taking) = open_slot c id depends taking
  step c (closes id) = close_slot c id
  step c (refreshes id) = change_where (is_at id) (refresh c.principal) c
  step c (forgets id) = change_where (is_at id) (forget_owed c.principal) c
  step c (begins id) = begin_in c id (lookup c id)
  step c (marks_stale contract) =
      change_where (λ slot. depends_on slot contract)
        (λ slot. write c.principal (mark_stale slot.own) slot) c
  step c (replies id reply) = end_in c id reply (lookup c id)
  step c (tasks id index) = change_where (is_at id) (run_at c.principal c.hydrated index) c
  step c (overrides id update) =
      change_where (is_at id) (λ slot. (amend c.principal update slot).1) c
  step c (seeds id state) = settle_seed_in c id state (lookup c id)
  step c (claims token contract) = claim c token contract
  step c (releases token) = release c token
  step c (settles token refreshed) = settle c token refreshed
  step c (delivers refreshed) = deliver_all c refreshed
  step c principal_changes = principal_gone c
  step c hydrates = record c { hydrated = true }

  unfoldable pub run : Cache A → List (Event A) → Cache A
  run c [] = c
  run c (event ∷ events) = run (step c event) events
