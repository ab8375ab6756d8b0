-- ===== src/Query/Tasks.antt =====
-- A fiber of a cache entry either waits, ends, or starts a refresh: a property that a refresh keeps, and
-- that does not read the list of fibers, is kept by running one.
use effect_frame.Base.{ℕ, Bool, true, false, List, ltb, if◌then◌else◌, Option-cases, inl, inr}
use effect_frame.Query.{
  Slot, Task, reread, refresh_since, refreshing, after_hydration, refresh, run_task, run_at,
  after_task, remove_at, is_idle,
}

pub chosen : {A : Type 0} (P : A → Type 0) (b : Bool) (x y : A) → P x → P y → P (if b then x else y)
chosen P true x y p q = p
chosen P false x y p q = q

module _ {A : Type 0} (P : Slot A → Type 0) (p : ℕ) where
  run_task-by :
      (s : Slot A) (hydrated : Bool) (task : Task)
      → P s
      → P (refresh p s)
      → P (run_task p hydrated task s).1
  unfolding run_task
  run_task-by s hydrated reread i j =
      chosen (λ (r : Bool × Slot A). P r.1) (is_idle s.flight) _ _ j i
  run_task-by s hydrated (refresh_since k) i j =
      chosen (λ (r : Bool × Slot A). P r.1) (ltb k s.read_started) _ _ i
        (chosen (λ (r : Bool × Slot A). P r.1) (is_idle s.flight) _ _ j i)
  run_task-by s hydrated refreshing i j = j
  run_task-by s hydrated after_hydration i j =
      chosen (λ (r : Bool × Slot A). P r.1) hydrated _ _ j i

  after_task-by :
      (others : List Task) (r : Bool × Slot A)
      → ((t : Slot A) (ts : List Task) → P t → P (record t { tasks = ts }))
      → P r.1
      → P (after_task others r)
  after_task-by others (true, slot) k i = k slot others i
  after_task-by others (false, slot) k i = i

  pub run_at-by :
      (s : Slot A) (hydrated : Bool) (index : ℕ)
      → ((t : Slot A) (ts : List Task) → P t → P (record t { tasks = ts }))
      → P s
      → P (refresh p s)
      → P (run_at p hydrated index s)
  unfolding run_at
  run_at-by s hydrated index k i j = elim (Option-cases (remove_at index s.tasks)) [
    | inl e ↦ rw (e, run_at) i
    | inr ((task, others), e) ↦
        rw (e, run_at) (after_task-by others _ k (run_task-by s hydrated task i j))
  ]
