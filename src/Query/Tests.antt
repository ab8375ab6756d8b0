-- ===== src/Query/Tests.antt =====
-- The query cache, a followed query and a streamed document on concrete histories.
use effect_frame.Base.{
  ℕ, ◌≡◌, refl, true, false, Option, none, some, List, [], ◌∷◌, String, ◌==◌, All, any, filter,
  find?,
}
use effect_frame.Query.{
  QueryState, loading, ready, Slot, succeeds, amend, recount, land, reject, refresh, begin_read,
  commit_reply, end_read, forget, forget_owed, read_after, run_task, remove_at, run_at, land_seed,
  carry,
}
use effect_frame.Query.Cache.{
  Cache, empty_cache, Event, opens, begins, replies, tasks, overrides, claims, settles, forgets,
  seeds, principal_changes, no_seed, open_seed, settled_seed, open_slot, close_slot, principal_gone,
  deliver_all, remove_claim, claim, release, settle, step, run,
}
use effect_frame.Query.Isolated.{IsIsolated, run-HoldsFor}
use effect_frame.Query.Follow.{FollowEvent, happens, moves, steps, new_follower, follow, run_follow}
use effect_frame.Query.Document.{
  new_document, Call, places, takes, settles_as, ends, expires, find_seed, change_seed, placeholder,
  settle_state, end_seeds, end_stream, expire, take_seed, call, calls,
}
use effect_frame.Query.Document.Landing.{calls-outcome}
use effect_frame.Query.Document.Seeds.{outcome}
use effect_frame.Query.Document.Ended.{landed, unsettled, landed-settled_or}

unfoldable query : Unit {0}
unfolding amend recount land reject refresh begin_read commit_reply end_read forget forget_owed
    read_after run_task remove_at run_at land_seed carry open_slot close_slot principal_gone
    deliver_all remove_claim claim release settle step run any filter find? follow run_follow
    find_seed change_seed placeholder settle_state end_seeds end_stream expire take_seed call calls
query = tt

-- A command settles while a read is in flight, and then the principal changes before that read ends, and the
-- entries forget after it. The first read brings 0 and the second 1: each value is the principal that it was
-- read for. Another entry waits for a seed that settles, with 0, before the change has reached it.
abbrev history : List (Event ℕ)
history =
    opens "posts" ("Post" ∷ []) no_seed
    ∷ opens "likes" ("Post" ∷ []) (settled_seed (ready 0 false))
    ∷ opens "tags" [] open_seed
    ∷ tasks "posts" 0
    ∷ begins "posts"
    ∷ claims 1 "Post"
    ∷ settles 1 []
    ∷ principal_changes
    ∷ replies "posts" (succeeds 0)
    ∷ seeds "tags" (ready 0 false)
    ∷ forgets "posts"
    ∷ forgets "likes"
    ∷ tasks "posts" 0
    ∷ begins "posts"
    ∷ replies "posts" (succeeds 1)
    ∷ overrides "posts" (λ v. v)
    ∷ []

abbrev shown_in : Cache ℕ → String → Option (QueryState ℕ)
shown_in c id = elim (find? (λ (slot : Slot ℕ). slot.id == id) c.live) [
  | none ↦ none
  | some slot ↦ some slot.shown.state
]

-- The read of before the change of principal never shows. The claim is still open, so the second shows stale.
history-shown : shown_in (run empty_cache history) "posts" ≡ some (ready 1 true)
unfolding query
history-shown = refl

abbrev ReadFor : ℕ → ℕ → Type 0
ReadFor p v = v ≡ p

run-HoldsFor_example :
    let last = run empty_cache history in
    All (λ s. s.owed ≡ 0 → IsIsolated ReadFor last.principal s) last.live
unfolding query
run-HoldsFor_example = run-HoldsFor ReadFor history (
  tt,
  (
    refl,
    (
      tt,
      (
        tt,
        (
          tt,
          (
            tt,
            (
              tt,
              (
                tt,
                (
                  (refl, (tt, (tt, tt))),
                  (
                    (tt, (tt, (tt, tt))),
                    (tt, (tt, (tt, (tt, ((refl, (tt, (tt, tt))), ((λ v h. h), tt)))))),
                  ),
                ),
              ),
            ),
          ),
        ),
      ),
    ),
  ),
)

-- Before its forget has run, an entry shows a value of the principal that is gone.
held_shown :
    (shown_in (run empty_cache history) "tags" ≡ some (ready 0 false))
    × (shown_in (step (run empty_cache history) (forgets "tags")) "tags" ≡ some loading)
unfolding query
held_shown = (refl, refl)

-- A query follows its arguments across a change of principal.
abbrev visit : List (FollowEvent ℕ)
visit =
    moves (some ("posts", "Post" ∷ [], no_seed))
    ∷ happens (tasks "posts" 0)
    ∷ happens (begins "posts")
    ∷ happens (replies "posts" (succeeds 0))
    ∷ steps
    ∷ happens principal_changes
    ∷ moves (some ("likes", "Post" ∷ [], open_seed))
    ∷ []

visit-stays : (run_follow new_follower visit).output.state ≡ ready 0 false
unfolding query
visit-stays = refl

-- The step drops the value of the principal that is gone, where it would keep one of the same principal.
visit-drops : (follow (run_follow new_follower visit) steps).output.state ≡ loading
unfolding query
visit-drops = refl

-- The shell drew two keys open. One settles late and the other never does.
abbrev page : List (Call ℕ)
page = places "a" ∷ places "b" ∷ takes "a" ∷ settles_as "a" (ready 1 false) true ∷ []

calls-outcome_example :
    outcome
      (calls (calls new_document page) (settles_as "a" (ready 2 false) true ∷ ends ∷ expires ∷ []))
      "a"
    ≡ some (ready 1 false)
unfolding query
calls-outcome_example =
    calls-outcome page (settles_as "a" (ready 2 false) true ∷ ends ∷ expires ∷ []) "a"
      (ready 1 false) refl

landed-settled_or_example :
    (landed (calls (calls new_document page) (ends ∷ expires ∷ [])) "b" ≡ some (unsettled "b"))
    × (landed (calls (calls new_document page) (expires ∷ ends ∷ [])) "b" ≡ some (unsettled "b"))
unfolding query
landed-settled_or_example = landed-settled_or page "b" _ refl
