-- ===== src/Traversal/Tests.antt =====
-- A source whose router leaves with traversals in hand.
use effect_frame.Base.{◌≡◌, refl, true, List, [], ◌∷◌, All, filter}
use effect_frame.Traversal.{
  Move, offers, ends, consumes, closes, takes, new_source, finish_held, finish_all, offer, consume,
  release, move, moves,
}
use effect_frame.Traversal.Finished.{holds, offered, moves-finished}

-- One before any router, one that the router ends, one that it takes and leaves, and one in the queue.
abbrev visit : List Move
visit =
    offers 1
    ∷ consumes
    ∷ offers 2
    ∷ takes
    ∷ ends 2
    ∷ offers 3
    ∷ takes
    ∷ offers 4
    ∷ consumes
    ∷ closes
    ∷ []

ends-all : (moves new_source visit).finished ≡ 4 ∷ 3 ∷ 2 ∷ 1 ∷ []
unfolding moves move offer consume release finish_all finish_held filter
ends-all = refl

moves-finished_example :
    All (λ n. holds n (moves new_source visit).finished ≡ true) (offered [] visit)
unfolding moves move offer consume release finish_all finish_held filter
moves-finished_example = moves-finished visit refl
