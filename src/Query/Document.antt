-- ===== src/Query/Document.antt =====
-- packages/effect-frame/src/actor/query-client.ts: `makeDocument`, the seeds of a streamed document. A
-- seed's two deferreds are its `current`, once set, and the entry that publishes it, which is not
-- modelled: nothing here waits. A state that settles is an encoded query state.
pub mod Seeds
pub mod Landing
pub mod Ended
use effect_frame.Base.{
  Bool, true, false, not, ◌&&◌, ◌||◌, Option, none, some, List, [], ◌∷◌, map, filter, String, ◌==◌,
  if◌then◌else◌,
}
use effect_frame.Query.{QueryState, failed, stream_ended}

pub record Seed (A : Type 0) : Type 0 where
  pub current : Option (QueryState A)
  pub held : Option (QueryState A)
  pub taken : Bool

abbrev pub new_seed : {A : Type 0} → Seed A
new_seed = record { current = none; held = none; taken = false }

abbrev pub is_set : {A : Type 0} → Option A → Bool
is_set none = false
is_set (some a) = true

abbrev pub is_open : {A : Type 0} → Seed A → Bool
is_open seed = not (is_set seed.current) && not (is_set seed.held)

pub record Document (A : Type 0) : Type 0 where
  pub table : List (String × Seed A)
  pub actor_seeds : List (String × String)
  pub expired : Bool

abbrev pub new_document : {A : Type 0} → Document A
new_document = record { table = []; actor_seeds = []; expired = false }

unfoldable pub find_actor : String → List (String × String) → Option String
find_actor id [] = none
find_actor id ((key, projection) ∷ rest) = if key == id then some projection else find_actor id rest

module _ {A : Type 0} where
  unfoldable pub find_seed : String → List (String × Seed A) → Option (Seed A)
  find_seed id [] = none
  find_seed id ((key, seed) ∷ rest) = if key == id then some seed else find_seed id rest

  -- `seedFor`, then a change of the seed: a missing seed is created at the end.
  unfoldable pub change_seed :
      String → (Seed A → Seed A) → List (String × Seed A) → List (String × Seed A)
  change_seed id change [] = (id, change new_seed) ∷ []
  change_seed id change ((key, seed) ∷ rest) =
      if key == id then (key, change seed) ∷ rest else (key, seed) ∷ change_seed id change rest

  abbrev pub land_state : QueryState A → Seed A → Seed A
  land_state state seed = record seed { current = some state; held = none }

  -- The first settle wins. A late one waits while the page still hydrates.
  abbrev pub settle_seed : QueryState A → Bool → Seed A → Seed A
  settle_seed state waits seed =
      if is_set seed.current || is_set seed.held
      then seed
      else if waits
      then record seed { held = some state }
      else land_state state seed

  unfoldable pub placeholder : Document A → String → Document A
  placeholder d id = record d { table = change_seed id (λ seed. seed) d.table }

  unfoldable pub settle_state : Document A → String → QueryState A → Bool → Document A
  settle_state d id state late = record d {
    table = change_seed id (settle_seed state (late && not d.expired)) d.table;
  }

  -- Every open seed fails.
  unfoldable pub end_seeds : Document A → List (String × Seed A) → Document A
  end_seeds d [] = d
  end_seeds d ((id, seed) ∷ rest) =
      end_seeds (settle_state d id (failed (stream_ended id) none) true) rest

  unfoldable pub end_stream : Document A → Document A
  end_stream d = end_seeds d (filter (λ entry. is_open entry.1) d.table)

  -- Each held settle lands.
  abbrev pub land_held : Seed A → Option (QueryState A) → Seed A
  land_held seed none = seed
  land_held seed (some state) = land_state state seed

  unfoldable pub expire : Document A → Document A
  expire d = record {
    table = map (λ entry. (entry.0, land_held entry.1 entry.1.held)) d.table;
    actor_seeds = [];
    expired = true;
  }

  -- Whether a new entry takes the seed, which it does once and only before the page has hydrated.
  abbrev pub can_take : Document A → Option (Seed A) → Bool
  can_take d none = false
  can_take d (some seed) = not (seed.taken || d.expired)

  unfoldable pub take_seed : Document A → String → Bool × Document A
  take_seed d id =
      if can_take d (find_seed id d.table)
      then (
        true,
        record d { table = change_seed id (λ seed. record seed { taken = true }) d.table },
      )
      else (false, d)

  abbrev pub seed_actor : Document A → String → String → Document A
  seed_actor d id projection =
      if not d.expired && not (is_set (find_actor id d.actor_seeds))
      then record d { actor_seeds = (id, projection) ∷ d.actor_seeds }
      else d

  abbrev pub actor_seed : Document A → String → Option String
  actor_seed d id = find_actor id d.actor_seeds

-- What is asked of a document.
pub data Call (A : Type 0) : Type 0 where
  places takes : String → Call A
  settles_as : String → QueryState A → Bool → Call A
  seeds_actor : String → String → Call A
  ends expires : Call A

module _ {A : Type 0} where
  unfoldable pub call : Document A → Call A → Document A
  call d (places id) = placeholder d id
  call d (takes id) = (take_seed d id).1
  call d (settles_as id state late) = settle_state d id state late
  call d (seeds_actor id projection) = seed_actor d id projection
  call d ends = end_stream d
  call d expires = expire d

  unfoldable pub calls : Document A → List (Call A) → Document A
  calls d [] = d
  calls d (one ∷ rest) = calls (call d one) rest
