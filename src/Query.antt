-- ===== src/Query.antt =====
-- packages/effect-frame/src/actor/query.ts and query-client.ts: what a client knows of a query, and one
-- entry of its cache. Each function is one synchronous step of the source; a fiber that the source forks
-- is a task of the entry, which runs later. Values are encoded results, of any type.
pub mod Cache
pub mod Document
pub mod Laws
pub mod Tasks
pub mod Entries
pub mod Histories
pub mod Shown
pub mod Isolated
pub mod Follow
pub mod Tests
use effect_frame.Base.{
  ℕ, zero, suc, ◌+◌, ◌-◌, Bool, true, false, not, ◌&&◌, Option, none, some, List, [], ◌∷◌, ◌++◌,
  String, ltb, leb, eqb, if◌then◌else◌,
}

pub data QueryFailure : Type 0 where
  unknown_query : String → QueryFailure
  query_version_mismatch : String → ℕ → ℕ → QueryFailure
  policy_missing invalid_query_args query_failed : String → String → QueryFailure
  unauthorized unreachable stream_ended : String → QueryFailure

-- What a client can observe about a query.
pub data QueryState (A : Type 0) : Type 0 where
  loading : QueryState A
  ready : A → Bool → QueryState A
  failed : QueryFailure → Option A → QueryState A

-- The test for the tag `Unauthorized`.
abbrev pub is_unauthorized : QueryFailure → Bool
is_unauthorized (unauthorized contract) = true
is_unauthorized error = false

-- Only the query's own failure is final in a seed.
abbrev pub is_final_seed : QueryFailure → Bool
is_final_seed (query_failed query detail) = true
is_final_seed error = false

-- One state and the principal generation it was written under.
pub record Stamped (A : Type 0) : Type 0 where
  pub state : QueryState A
  pub principal : ℕ

-- The read in flight of an entry: none, one that is latched and has not started, or one that started
-- under a generation, with a sequence number. The principal of its start is kept for the statements; no
-- function reads it.
pub data Flight : Type 0 where
  no_read latched : Flight
  reading : ℕ → ℕ → ℕ → Flight

-- A fiber of the entry: `reread`, `refreshSince`, and `refresh` at once or once hydration is done.
pub data Task : Type 0 where
  reread : Task
  refresh_since : ℕ → Task
  refreshing : Task
  after_hydration : Task

-- `owed` counts the changes of principal that have not reached the entry yet: each of them found it live,
-- and will make it forget. `awaits` is the outside read of a seed that is still open: the generation and the latest read when the
-- entry opened. The numbers that start at -1 in the source start at 0: the sequence itself starts at 1.
pub record Slot (A : Type 0) : Type 0 where
  pub id : String
  pub depends : List String
  pub own : QueryState A
  pub pending : ℕ
  pub shown : Stamped A
  pub read_started : ℕ
  pub fresh_after : ℕ
  pub flight : Flight
  pub generation : ℕ
  pub granted : Option ℕ
  pub tasks : List Task
  pub awaits : Option (ℕ × ℕ)
  pub owed : ℕ

-- What a read brings back.
pub data Reply (A : Type 0) : Type 0 where
  succeeds : A → Reply A
  fails : QueryFailure → Reply A

abbrev pub contains : Option ℕ → ℕ → Bool
contains none n = false
contains (some m) n = eqb m n

abbrev pub max : ℕ → ℕ → ℕ
max a b = if leb a b then b else a

abbrev pub is_idle : Flight → Bool
is_idle no_read = true
is_idle latched = false
is_idle (reading started at principal) = false

-- The fiber that stands at `index` among those of the entry.
abbrev pub behind : Task → Option (Task × List Task) → Option (Task × List Task)
behind task none = none
behind task (some (found, others)) = some (found, task ∷ others)

unfoldable pub remove_at : ℕ → List Task → Option (Task × List Task)
remove_at index [] = none
remove_at zero (task ∷ rest) = some (task, rest)
remove_at (suc before) (task ∷ rest) = behind task (remove_at before rest)

module _ {A : Type 0} where
  -- Marks a ready value stale.
  abbrev pub mark_stale : QueryState A → QueryState A
  mark_stale (ready value stale) = ready value true
  mark_stale loading = loading
  mark_stale (failed error last) = failed error last

  -- The value a state holds.
  abbrev pub held_value : QueryState A → Option A
  held_value (ready value stale) = some value
  held_value (failed error last) = last
  held_value loading = none

  -- A Ready value shows stale while a dependent command is unresolved.
  abbrev pub display : QueryState A → ℕ → QueryState A
  display (ready value stale) pending =
      if ltb 0 pending && not stale then ready value true else ready value stale
  display loading pending = loading
  display (failed error last) pending = failed error last

  -- While the next key loads, the last value stays on screen marked stale, within one principal.
  abbrev pub carry_state : QueryState A → QueryState A → Bool → Option A
  carry_state (ready value stale) loading true = some value
  carry_state shown incoming same = none

  abbrev pub carried : Stamped A → Option A → ℕ → Stamped A
  carried incoming none principal = incoming
  carried incoming (some value) principal = record {
    state = ready value true;
    principal = principal;
  }

  unfoldable pub carry : Stamped A → Stamped A → Stamped A
  carry shown incoming =
      if ltb incoming.principal shown.principal
      then shown
      else carried incoming
          (carry_state shown.state incoming.state (eqb incoming.principal shown.principal))
          shown.principal

  -- Changes the entry's own state. The displayed state follows, under the principal of now.
  abbrev pub write : ℕ → QueryState A → Slot A → Slot A
  write principal next slot = record slot {
    own = next;
    shown = record { state = display next slot.pending; principal = principal };
  }

  -- Derives a stale value from the entry's own Ready value.
  abbrev pub amend_own : ℕ → (A → A) → Slot A → QueryState A → Bool × Slot A
  amend_own principal update slot (ready value stale) =
      (true, write principal (ready (update value) true) slot)
  amend_own principal update slot loading = (false, slot)
  amend_own principal update slot (failed error last) = (false, slot)

  unfoldable pub amend : ℕ → (A → A) → Slot A → Bool × Slot A
  amend principal update slot = amend_own principal update slot slot.own

  unfoldable pub recount : ℕ → ℕ → Slot A → Slot A
  recount principal count slot = record slot {
    pending = count;
    shown = record { state = display slot.own count; principal = principal };
  }

  unfoldable pub land : ℕ → A → Bool → Slot A → Slot A
  land principal value stale slot =
      write principal (ready value stale)
        (record slot { generation = slot.generation + 1; granted = some principal })

  -- A failed refresh keeps the value it replaces, unless the failure refuses the principal.
  abbrev pub failed_as : QueryFailure → QueryState A → QueryState A
  failed_as error current =
      failed error (if is_unauthorized error then none else held_value current)

  -- Whether the failure proves that the principal changed: it refuses a key that the principal was granted.
  abbrev pub revokes : ℕ → QueryFailure → Slot A → Bool
  revokes principal error slot = is_unauthorized error && contains slot.granted principal

  unfoldable pub reject : ℕ → QueryFailure → Slot A → Slot A
  reject principal error slot =
      write principal (failed_as error slot.own)
        (record slot { generation = slot.generation + 1; granted = none })

  -- A read already in flight is joined.
  unfoldable pub refresh : ℕ → Slot A → Slot A
  refresh principal slot =
      if is_idle slot.flight
      then write principal (mark_stale slot.own) (record slot { flight = latched })
      else slot

  -- The latched read starts, with the next sequence number.
  abbrev pub begin_flight : ℕ → ℕ → Slot A → Flight → Slot A
  begin_flight principal number slot latched = record slot {
    flight = reading slot.generation number principal;
    read_started = number;
  }
  begin_flight principal number slot no_read = slot
  begin_flight principal number slot (reading started at p) = slot

  unfoldable pub begin_read : ℕ → ℕ → Slot A → Slot A
  begin_read principal number slot = begin_flight principal number slot slot.flight

  unfoldable pub commit_reply : ℕ → Reply A → ℕ → Slot A → Slot A
  commit_reply principal (succeeds value) at slot =
      land principal value (leb at slot.fresh_after) slot
  commit_reply principal (fails error) at slot = reject principal error slot

  -- The end of a read. It publishes only when no value arrived by another path since it started.
  abbrev pub end_flight : ℕ → Reply A → Slot A → Flight → Slot A
  end_flight principal reply slot no_read = slot
  end_flight principal reply slot latched = slot
  end_flight principal reply slot (reading started at p) =
      let cleared = record slot { flight = no_read } in
      if eqb started slot.generation then commit_reply principal reply at cleared else cleared

  unfoldable pub end_read : ℕ → Reply A → Slot A → Slot A
  end_read principal reply slot = end_flight principal reply slot slot.flight

  -- Whether the end of this read moves the principal: its failure lands, and revokes.
  abbrev pub reply_revokes : ℕ → Reply A → Slot A → Flight → Bool
  reply_revokes principal (fails error) slot (reading started at p) =
      eqb started slot.generation && revokes principal error slot
  reply_revokes principal reply slot flight = false

  unfoldable pub forget : ℕ → Slot A → Slot A
  forget principal slot = write principal loading (record slot {
    generation = slot.generation + 1;
    granted = none;
    tasks = slot.tasks ++ reread ∷ [];
    owed = slot.owed - 1;
  })

  -- A change of principal that found the entry reaches it.
  unfoldable pub forget_owed : ℕ → Slot A → Slot A
  forget_owed principal slot = if ltb 0 slot.owed then forget principal slot else slot

  abbrev pub owe : Slot A → Slot A
  owe slot = record slot { owed = slot.owed + 1 }

  -- A settled command's demand on the entry.
  unfoldable pub read_after : ℕ → ℕ → Slot A → Slot A
  read_after principal sequence slot =
      if ltb sequence slot.read_started
      then slot
      else write principal (mark_stale slot.own) (record slot {
        fresh_after = max slot.fresh_after sequence;
        tasks = slot.tasks ++ refresh_since sequence ∷ [];
      })

  -- What the fiber does when it runs: whether it is over, and the entry.
  unfoldable pub run_task : ℕ → Bool → Task → Slot A → Bool × Slot A
  run_task principal hydrated reread slot =
      if is_idle slot.flight then (true, refresh principal slot) else (false, slot)
  run_task principal hydrated (refresh_since sequence) slot =
      if ltb sequence slot.read_started
      then (true, slot)
      else if is_idle slot.flight
      then (true, refresh principal slot)
      else (false, slot)
  run_task principal hydrated refreshing slot = (true, refresh principal slot)
  run_task principal hydrated after_hydration slot =
      if hydrated then (true, refresh principal slot) else (false, slot)

  abbrev pub after_task : List Task → Bool × Slot A → Slot A
  after_task others (true, slot) = record slot { tasks = others }
  after_task others (false, slot) = slot

  unfoldable pub run_at : ℕ → Bool → ℕ → Slot A → Slot A
  run_at principal hydrated index slot = elim (remove_at index slot.tasks) [
    | none ↦ slot
    | some (task, others) ↦ after_task others (run_task principal hydrated task slot)
  ]

  -- A seed's state lands. A read that it calls for starts only once hydration is done.
  abbrev pub later_read : Slot A → Slot A
  later_read slot = record slot { tasks = slot.tasks ++ after_hydration ∷ [] }

  -- `current` of an outside read: nothing superseded the seed that the entry waits for.
  abbrev pub still_waits : Slot A → Option (ℕ × ℕ) → Bool
  still_waits slot none = false
  still_waits slot (some (started, last)) =
      eqb started slot.generation && eqb last slot.read_started

  unfoldable pub land_seed : ℕ → QueryState A → Slot A → Slot A
  land_seed principal (ready value true) slot = later_read (land principal value true slot)
  land_seed principal (ready value false) slot = land principal value false slot
  land_seed principal (failed error last) slot =
      if is_final_seed error
      then reject principal error slot
      else later_read (reject principal error slot)
  land_seed principal loading slot = later_read slot
