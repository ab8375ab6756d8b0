-- ===== src/Traversal.antt =====
-- packages/effect-frame/src/router/traversal.ts: `makeSource`, the traversals of one location. A traversal
-- is the number under which the platform offers it, and `finished` is the log of the calls of `finish`.
pub mod Finished
pub mod Tests
use effect_frame.Base.{
  ℕ, Bool, true, false, not, List, [], ◌∷◌, ◌++◌, eqb, if◌then◌else◌, any, filter,
}

pub record Source : Type 0 where
  pub queue : List ℕ
  pub live : List ℕ
  pub consuming : Bool
  pub finished : List ℕ

abbrev pub new_source : Source
new_source = record { queue = []; live = []; consuming = false; finished = [] }

abbrev pub finish_one : Source → ℕ → Source
finish_one s n = record s { finished = n ∷ s.finished }

-- What `track` holds: its finish also takes it out of the live ones.
unfoldable pub finish_held : Source → ℕ → Source
finish_held s n = record (finish_one s n) { live = filter (λ m. not (eqb m n)) s.live }

unfoldable pub offer : Source → ℕ → Source
offer s n =
    if not s.consuming
    then finish_one s n
    else record s { queue = s.queue ++ n ∷ []; live = s.live ++ n ∷ [] }

-- Whether the caller becomes the one consumer. A second is a defect, and changes nothing.
abbrev pub consume_when : Bool → Source → Bool × Source
consume_when true s = (false, s)
consume_when false s = (true, record s { consuming = true })

unfoldable pub consume : Source → Bool × Source
consume s = consume_when s.consuming s

-- `finish` of each that the consumer left, in order.
unfoldable pub finish_all : Source → List ℕ → Source
finish_all s [] = s
finish_all s (n ∷ left) = finish_all (finish_held s n) left

-- The consumer's scope closes.
unfoldable pub release : Source → Source
release s = finish_all (record s { consuming = false; queue = []; live = [] }) s.live

-- What happens to the source. `takes` is the consumer's stream, `ends` the router that is done with one.
pub data Move : Type 0 where
  offers ends : ℕ → Move
  consumes closes takes : Move

abbrev pub rest : List ℕ → List ℕ
rest [] = []
rest (n ∷ ns) = ns

unfoldable pub move : Source → Move → Source
move s (offers n) = offer s n
move s (ends n) = finish_held s n
move s consumes = (consume s).1
move s closes = release s
move s takes = record s { queue = rest s.queue }

unfoldable pub moves : Source → List Move → Source
moves s [] = s
moves s (m ∷ ms) = moves (move s m) ms
