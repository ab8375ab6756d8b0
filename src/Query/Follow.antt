-- ===== src/Query/Follow.antt =====
-- packages/effect-frame/src/actor/query-client.ts: `followQuery`, a query whose arguments move, beside the
-- cache whose entries it declares. `steps` is its one step that moves what the view is shown, taken by a
-- read of its state and by a delivery. The release of the entry it leaves is a `closes` of the cache.
use effect_frame.Base.{Bool, false, Option, none, some, List, [], ◌∷◌, String, ◌==◌, if◌then◌else◌}
use effect_frame.Query.{loading, Stamped, Slot, carry}
use effect_frame.Query.Cache.{Cache, empty_cache, Event, Taking, lookup, open_slot, step}

-- The cache, the key on screen, and the state shown last.
pub record Follower (A : Type 0) : Type 0 where
  pub cache : Cache A
  pub current : Option String
  pub output : Stamped A

pub data FollowEvent (A : Type 0) : Type 0 where
  happens : Event A → FollowEvent A
  moves : Option (String × List String × Taking A) → FollowEvent A
  steps : FollowEvent A

abbrev pub new_follower : {A : Type 0} → Follower A
new_follower = record {
  cache = empty_cache;
  current = none;
  output = record { state = loading; principal = 0 };
}

abbrev pub is_current : Option String → String → Bool
is_current none id = false
is_current (some current) id = current == id

module _ {A : Type 0} where
  -- The state of the followed entry now, carried over the state shown last.
  abbrev pub carry_entry : Stamped A → Option (Slot A) → Stamped A
  carry_entry shown none = shown
  carry_entry shown (some slot) = carry shown slot.shown

  abbrev pub followed : Cache A → Option String → Option (Slot A)
  followed c none = none
  followed c (some id) = lookup c id

  -- A new key opens its entry. With no arguments there is no question, and the state is Loading.
  abbrev pub move : Follower A → Option (String × List String × Taking A) → Follower A
  move f none = record f {
    current = none;
    output = record { state = loading; principal = f.output.principal };
  }
  move f (some (id, depends, taking)) =
      if is_current f.current id
      then f
      else record f { cache = open_slot f.cache id depends taking; current = some id }

  unfoldable pub follow : Follower A → FollowEvent A → Follower A
  follow f (happens event) = record f { cache = step f.cache event }
  follow f (moves next) = move f next
  follow f steps = record f { output = carry_entry f.output (followed f.cache f.current) }

  unfoldable pub run_follow : Follower A → List (FollowEvent A) → Follower A
  run_follow f [] = f
  run_follow f (event ∷ events) = run_follow (follow f event) events
