-- ===== src/Serving/Pointwise.antt =====
-- `batch` and `get` of query-host.ts against their pointwise description.
use effect_frame.Base.{
  ℕ, Bool, true, false, ◌||◌, Option, none, some, List, [], ◌∷◌, map, String, ◌≡◌, refl, sym, ap,
  ◌∙◌, subst, get_elem?, map_from, All, All-map_of, inl, inr, arith, if◌then◌else◌,
}
use effect_frame.Engine.{◌>>=◌}
use effect_frame.Vocabulary.{QueryKey}
use effect_frame.Policy.{Principal, Resolved}
use effect_frame.Serving.{QueryBatchResult, Refreshed, Implementation, written, get_or}
use effect_frame.Serving.Requests.{Group, sort_keys, batch, omitted_query_refresh}
use effect_frame.Serving.Writes.{has, read-IsRight, All-indexed, has-indexed}
use effect_frame.Serving.Groups.{Served, name_of, Fits}
use effect_frame.Serving.Whole.{Fits-IsWhole, IsWhole, every_group, every_group_lem, has_any_lem}
use effect_frame.Serving.Answers.{
  AnswersEach, has_text, all_canonical, answer, answer_by, IsHosted, by_name-is,
}
use effect_frame.Serving.Runs.{
  texts, set_all, set_groups, group_writes, run_groups_lem, has-set_groups,
}
use effect_frame.Serving.Sorted.{served_of, sort_keys-Fits, sort_keys-IsHosted, has-sort_keys}
use effect_frame.Serving.Placed.{
  indexed, IsAnswer, IsPlaced, sort_keys-IsRight, served_of-IsServed, pick-IsEntry, IsEntry,
  set_all-IsRight, entry-answer, texts-pick, every_served-all_canonical,
}

module _ {Claims : Type 0} (queries : List (Resolved Claims Implementation))
    (principal : Principal Claims) (canonicalize : String → Option String)
    (one : Implementation → List String → String → QueryBatchResult) (keys : List QueryKey) where
  abbrev served : List Served
  served = served_of queries principal (indexed queries principal 0 keys)

  abbrev sorted : List (ℕ × Refreshed) × List Group
  sorted = sort_keys queries principal (indexed queries principal 0 keys) ([], [])

  group-IsRight :
      (group : Group) (results : List (ℕ × Refreshed))
      → IsHosted queries principal group.implementation
      → IsWhole served group
      → All (IsAnswer queries principal canonicalize one keys) results
      → All
          (IsAnswer queries principal canonicalize one keys)
          (group_writes canonicalize one group results)
  unfolding set_all
  group-IsRight group results hosted (inl e) h =
      subst
        (λ l. All (IsAnswer queries principal canonicalize one keys) (
          set_all
            (answer_by canonicalize one group.implementation (texts canonicalize group.entries)) l
            results))
        (sym e) h
  group-IsRight group results hosted (inr e) h =
      let companions =
        ap (texts canonicalize) e
        ∙ texts-pick queries principal canonicalize (name_of group) 0 keys in
      let placed =
        All-indexed (IsPlaced queries principal canonicalize one keys) (λ key. key) keys
          (λ i key at. at) in
      let entries = pick-IsEntry queries principal canonicalize one keys (name_of group) served (
        served_of-IsServed queries principal canonicalize one keys
          (indexed queries principal 0 keys) placed) in
      let every_entry =
        subst (All (IsEntry queries principal canonicalize one keys (name_of group))) (sym e)
          entries in
      set_all-IsRight queries principal canonicalize one keys
        (answer_by canonicalize one group.implementation (texts canonicalize group.entries))
        group.entries results
        (All-map_of (IsEntry queries principal canonicalize one keys (name_of group)) _
          group.entries
          (λ entry.
            entry-answer queries principal canonicalize one keys group entry hosted companions)
          every_entry)
        h

  groups-IsRight :
      (groups : List Group) (results : List (ℕ × Refreshed))
      → All (λ group. IsHosted queries principal group.implementation) groups
      → All (IsWhole served) groups
      → All (IsAnswer queries principal canonicalize one keys) results
      → All
          (IsAnswer queries principal canonicalize one keys)
          (set_groups canonicalize one groups results)
  unfolding set_groups
  groups-IsRight [] results hosted whole h = h
  groups-IsRight (group ∷ groups) results hosted whole h =
      groups-IsRight groups (group_writes canonicalize one group results) hosted.1 whole.1
        (group-IsRight group results hosted.0 whole.0 h)

  hosted_each :
      (group : Group)
      → All (λ (r : Resolved Claims Implementation). AnswersEach (one r.entry) r.entry.mode) queries
      → IsHosted queries principal group.implementation
      → AnswersEach (one group.implementation) group.implementation.mode
  hosted_each group each (r, found, same) =
      subst (λ m. AnswersEach (one m) m.mode) same
        (by_name-is (λ q. AnswersEach (one q.entry) q.entry.mode) queries _ r each found).0

  -- The writes of the whole request.
  abbrev writes : List (ℕ × Refreshed)
  writes = set_groups canonicalize one sorted.1 sorted.0

  sorted-IsHosted : All (λ group. IsHosted queries principal group.implementation) sorted.1
  sorted-IsHosted =
      sort_keys-IsHosted queries principal (indexed queries principal 0 keys) ([], []) tt

  sorted-Fits : Fits sorted.1 served
  sorted-Fits = sort_keys-Fits queries principal (indexed queries principal 0 keys) ([], []) [] refl

  writes-IsRight : All (IsAnswer queries principal canonicalize one keys) writes
  writes-IsRight =
      groups-IsRight sorted.1 sorted.0 sorted-IsHosted (Fits-IsWhole sorted.1 served sorted-Fits) (
        sort_keys-IsRight queries principal canonicalize one keys (indexed queries principal 0 keys)
          ([], [])
          (All-indexed (IsPlaced queries principal canonicalize one keys) (λ key. key) keys
            (λ i key at. at))
          tt)

  or_comm : (a b : Bool) → (a || b) ≡ (b || a)
  or_comm a b = ground arith

  has-writes : (i : ℕ) (key : QueryKey) → get_elem? keys i ≡ some key → has i writes ≡ true
  unfolding map_from has
  has-writes i key at =
      has-set_groups canonicalize one i sorted.1 sorted.0
      ∙ ap (λ b. b || has i sorted.0) (sym (has_any_lem i sorted.1 served sorted-Fits))
      ∙ or_comm (has i served) (has i sorted.0)
      ∙ sym (has-sort_keys queries principal i (indexed queries principal 0 keys) ([], []) [])
      ∙ ap (λ b. b || (false || false)) (has-indexed (λ k. k) i keys key at)

  every_group_canonical :
      every_group (has_text canonicalize) sorted.1
      ≡ all_canonical queries principal canonicalize keys
  every_group_canonical =
      sym (every_group_lem (has_text canonicalize) sorted.1 served sorted-Fits)
      ∙ every_served-all_canonical queries principal canonicalize 0 keys

  map_ran :
      (b : Bool) (f : List (ℕ × Refreshed) → List Refreshed) (W : List (ℕ × Refreshed))
      → ((if b then some W else none) >>= (λ results. some (f results)))
        ≡ (if b then some (f W) else none)
  map_ran true f W = refl
  map_ran false f W = refl

  -- If every batched query answers each argument by a function of it and of the others of its request, a
  -- request ends without an answer when the arguments of some key that is found and allowed are no JSON.
  -- Otherwise it answers each key in its own place: a key that is unknown, of another version or refused by
  -- its policy with that failure, a key of a single query with its own run, and a key of a batched query with
  -- what one call makes of it beside the request's allowed keys of the same query, in order.
  pub batch_lem :
      All (λ (r : Resolved Claims Implementation). AnswersEach (one r.entry) r.entry.mode) queries
      → batch queries principal canonicalize keys ≡ (
          if all_canonical queries principal canonicalize keys
          then some (map (answer queries principal canonicalize one keys) keys)
          else none)
  unfolding batch
  batch_lem each =
      let shown = λ (W : List (ℕ × Refreshed)).
        map_from 0 (λ key index. get_or (omitted_query_refresh key) (written index W)) keys in
      let ran = run_groups_lem canonicalize one sorted.1 sorted.0 (
        All-map_of (λ (group : Group). IsHosted queries principal group.implementation)
          (λ group. AnswersEach (one group.implementation) group.implementation.mode) sorted.1
          (λ group. hosted_each group each) sorted-IsHosted) in
      ap (λ o. o >>= (λ results. some (shown results))) ran
      ∙ map_ran (every_group (has_text canonicalize) sorted.1) shown writes
      ∙ ap (λ b. if b then some (shown writes) else none) every_group_canonical
      ∙ ap (λ l. if all_canonical queries principal canonicalize keys then some l else none)
          (read-IsRight keys (answer queries principal canonicalize one keys) omitted_query_refresh
            writes writes-IsRight has-writes)
