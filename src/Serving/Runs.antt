-- ===== src/Serving/Runs.antt =====
-- The groups of a request of query-host.ts, run: each writes the answer of each of its entries, unless a
-- text is no JSON, which ends the request.
use effect_frame.Base.{
  ℕ, Bool, true, false, ◌||◌, Option, none, some, List, [], ◌∷◌, map, String, ◌≡◌, refl, ap, ◌∙◌,
  inl, inr, Bool-cases, Option-cases, All, arith, if◌then◌else◌,
}
use effect_frame.Engine.{◌>>=◌}
use effect_frame.Vocabulary.{QueryKey, Result}
use effect_frame.Query.{QueryFailure}
use effect_frame.Serving.{QueryBatchResult, Refreshed, Implementation, Mode, single, batched}
use effect_frame.Serving.Requests.{
  Group, answered, of_slot, set_batched, set_single, canonical_args, run_mode, run_groups,
}
use effect_frame.Serving.Writes.{has}
use effect_frame.Serving.Whole.{every, every_group, has_any}
use effect_frame.Serving.Answers.{AnswersEach, text_of, has_text, answer_mode, answer_by}

unfoldable pub set_all :
    (QueryKey → Refreshed) → List (ℕ × QueryKey) → List (ℕ × Refreshed) → List (ℕ × Refreshed)
set_all f [] results = results
set_all f ((index, key) ∷ entries) results = set_all f entries ((index, f key) ∷ results)

module _ (canonicalize : String → Option String) where
  abbrev pub texts : List (ℕ × QueryKey) → List String
  texts [] = []
  texts ((index, key) ∷ entries) = text_of canonicalize key ∷ texts entries

  abbrev all_text : List (ℕ × QueryKey) → Bool
  all_text = every (has_text canonicalize)

  set_single_lem :
      (run : String → Result QueryFailure String) (entries : List (ℕ × QueryKey))
      (results : List (ℕ × Refreshed))
      → set_single canonicalize run entries results ≡ (
          if all_text entries
          then some (set_all (λ key. answered key (run (text_of canonicalize key))) entries results)
          else none)
  unfolding set_single every set_all
  set_single_lem run [] results = refl
  set_single_lem run ((index, key) ∷ entries) results =
      elim (Option-cases (canonicalize key.args)) [
        | inl e ↦ rw e refl
        | inr (args, e) ↦
            rw e (set_single_lem run entries ((index, answered key (run args)) ∷ results))
      ]

  canonical_args_lem :
      (entries : List (ℕ × QueryKey))
      → canonical_args canonicalize entries
        ≡ (if all_text entries then some (texts entries) else none)
  unfolding canonical_args every
  canonical_args_lem [] = refl
  canonical_args_lem ((index, key) ∷ entries) = elim (Option-cases (canonicalize key.args)) [
    | inl e ↦ rw e refl
    | inr (args, e) ↦
        let rest = canonical_args_lem entries in
        rw (e, rest) (tail args (all_text entries) (texts entries))
  ]
    where
      tail :
          (args : String) (b : Bool) (rest : List String)
          → ((if b then some rest else none) >>= (λ l. some (args ∷ l)))
            ≡ (if b then some (args ∷ rest) else none)
      tail args true rest = refl
      tail args false rest = refl

  set_batched_lem :
      (each : String → QueryBatchResult) (entries : List (ℕ × QueryKey))
      (results : List (ℕ × Refreshed))
      → set_batched entries (map each (texts entries)) results
        ≡ set_all (λ key. of_slot key (each (text_of canonicalize key))) entries results
  unfolding set_batched set_all
  set_batched_lem each [] results = refl
  set_batched_lem each ((index, key) ∷ entries) results = set_batched_lem each entries _

  run_batched :
      (b : Bool) (run_batch : List String → List QueryBatchResult) (entries : List (ℕ × QueryKey))
      (results : List (ℕ × Refreshed)) (args : List String)
      → ((if b then some args else none)
          >>= (λ l. some (set_batched entries (run_batch l) results)))
        ≡ (if b then some (set_batched entries (run_batch args) results) else none)
  run_batched true run_batch entries results args = refl
  run_batched false run_batch entries results args = refl

  run_mode_lem :
      (each : List String → String → QueryBatchResult) (mode : Mode) (entries : List (ℕ × QueryKey))
      (results : List (ℕ × Refreshed))
      → AnswersEach each mode
      → run_mode canonicalize mode entries results ≡ (
          if all_text entries
          then some (set_all (answer_mode canonicalize each mode (texts entries)) entries results)
          else none)
  run_mode_lem each (single run) entries results h = set_single_lem run entries results
  run_mode_lem each (batched run_batch) entries results h =
      ap (λ o. o >>= (λ args. some (set_batched entries (run_batch args) results)))
        (canonical_args_lem entries)
      ∙ run_batched (all_text entries) run_batch entries results (texts entries)
      ∙ ap (λ W. if all_text entries then some W else none)
          (ap (λ slots. set_batched entries slots results) (h (texts entries))
            ∙ set_batched_lem (each (texts entries)) entries results)

  module _ (one : Implementation → List String → String → QueryBatchResult) where
    abbrev pub group_writes : Group → List (ℕ × Refreshed) → List (ℕ × Refreshed)
    group_writes group =
        set_all (answer_by canonicalize one group.implementation (texts group.entries))
          group.entries

    unfoldable pub set_groups : List Group → List (ℕ × Refreshed) → List (ℕ × Refreshed)
    set_groups [] results = results
    set_groups (group ∷ groups) results = set_groups groups (group_writes group results)

    pub run_groups_lem :
        (groups : List Group) (results : List (ℕ × Refreshed))
        → All (λ group. AnswersEach (one group.implementation) group.implementation.mode) groups
        → run_groups canonicalize groups results ≡ (
            if every_group (has_text canonicalize) groups
            then some (set_groups groups results)
            else none)
    unfolding run_groups every_group set_groups
    run_groups_lem [] results h = refl
    run_groups_lem (group ∷ groups) results h =
        let first =
          run_mode_lem (one group.implementation) group.implementation.mode group.entries results
            h.0 in
        elim (Bool-cases (all_text group.entries)) [
          | inl e ↦ rw (first, e) (run_groups_lem groups (group_writes group results) h.1)
          | inr e ↦ rw (first, e) refl
        ]

has-set_all :
    (f : QueryKey → Refreshed) (i : ℕ) (entries : List (ℕ × QueryKey))
    (results : List (ℕ × Refreshed))
    → has i (set_all f entries results) ≡ (has i entries || has i results)
unfolding set_all has
has-set_all f i [] results = refl
has-set_all f i ((j, key) ∷ entries) results =
    let rest = has-set_all f i entries ((j, f key) ∷ results) in ground (arith, rest)

module _ (canonicalize : String → Option String)
    (one : Implementation → List String → String → QueryBatchResult) where
  pub has-set_groups :
      (i : ℕ) (groups : List Group) (results : List (ℕ × Refreshed))
      → has i (set_groups canonicalize one groups results) ≡ (has_any i groups || has i results)
  unfolding set_groups has_any
  has-set_groups i [] results = refl
  has-set_groups i (group ∷ groups) results =
      let rest = has-set_groups i groups (group_writes canonicalize one group results) in
      let first =
        has-set_all
          (answer_by canonicalize one group.implementation (texts canonicalize group.entries)) i
          group.entries results in
      ground (arith, rest, first)
