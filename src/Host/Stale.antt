-- ===== src/Host/Stale.antt =====
-- The keys that a batch of host.ts answers, and those that a contract makes stale.
use effect_frame.Base.{
  Bool, true, false, Option, none, some, List, [], ◌∷◌, map, String, ◌≡◌, refl, sym, ap, ◌∙◌, All,
  arith, filter, any, ◌==◌, eq_of_some, if◌then◌else◌,
}
use effect_frame.Vocabulary.{QueryKey}
use effect_frame.Policy.{Principal, Resolved}
use effect_frame.Serving
use effect_frame.Serving.{
  QueryBatchResult, result_slot, failure_slot, Refreshed, refreshed, refresh_failed, Mode, single,
  batched,
}
use effect_frame.Serving.Requests.{dependents, depends_on, by_name, later}
use effect_frame.Serving.Answers.{AnswersEach, answer, all_canonical}
use effect_frame.Serving.Pointwise.{batch_lem}
use effect_frame.Host.{Moments, HostedQuery}
use effect_frame.Host.Transport.{read_from, batch_stale}

module _ {Claims : Type 0} (queries : List (Resolved Claims Serving.Implementation))
    (principal : Principal Claims) (canonicalize : String → Option String)
    (one : Serving.Implementation → List String → String → QueryBatchResult) where
  some_if : (b : Bool) (xs ys : List Refreshed) → (if b then some xs else none) ≡ some ys → xs ≡ ys
  some_if true xs ys h = eq_of_some xs ys h
  some_if false xs ys h = cc

  pub batch_stale-answers :
      (keys : List QueryKey) (answers : List Refreshed)
      → All
          (λ (r : Resolved Claims Serving.Implementation). AnswersEach (one r.entry) r.entry.mode)
          queries
      → batch_stale principal canonicalize queries keys ≡ some answers
      → answers ≡ map (answer queries principal canonicalize one keys) keys
  batch_stale-answers [] answers each h = sym (eq_of_some _ _ h)
  batch_stale-answers (key ∷ keys) answers each h = sym (
      some_if (all_canonical queries principal canonicalize (key ∷ keys)) _ answers
        (sym (batch_lem queries principal canonicalize one (key ∷ keys) each) ∙ h))

abbrev pub is_among : String → List String → Bool
is_among name [] = false
is_among name (other ∷ others) = if other == name then true else is_among name others

any-is_among :
    (name : String) (names : List String) → any (λ other. other == name) names ≡ is_among name names
unfolding any
any-is_among name [] = refl
any-is_among name (other ∷ others) = ground (arith, any-is_among name others)

module _ {Claims Instance : Type 0} where
  -- Every query of the host answers its arguments one by one, whatever it reads.
  abbrev pub ReadsEach :
      (Serving.Implementation → List String → String → QueryBatchResult)
      → Resolved Claims (HostedQuery Instance)
      → Type 0
  ReadsEach one r =
      (seen : Moments Instance) → AnswersEach (one (read_from seen r).entry) (r.entry.mode seen)

  abbrev pub AllReadEach :
      (Serving.Implementation → List String → String → QueryBatchResult)
      → Option (List (Resolved Claims (HostedQuery Instance)))
      → Type 0
  AllReadEach one none = Unit
  AllReadEach one (some queries) = All (ReadsEach one) queries

  pub read_from-each :
      (one : Serving.Implementation → List String → String → QueryBatchResult)
      (seen : Moments Instance) (queries : List (Resolved Claims (HostedQuery Instance)))
      → All (ReadsEach one) queries
      → All
          (λ (r : Resolved Claims Serving.Implementation). AnswersEach (one r.entry) r.entry.mode)
          (map (read_from seen) queries)
  read_from-each one seen [] h = tt
  read_from-each one seen (r ∷ queries) h = (h.0 seen, read_from-each one seen queries h.1)

  -- The query that serves a name: the last one of it that the host was given.
  abbrev pub hosted_as :
      String
      → List (Resolved Claims (HostedQuery Instance))
      → Option (Resolved Claims (HostedQuery Instance))
  hosted_as name [] = none
  hosted_as name (r ∷ queries) =
      later (hosted_as name queries) (if r.entry.contract.name == name then some r else none)

  -- A query that declares a dependency on the contract.
  abbrev pub declares : String → Option (Resolved Claims (HostedQuery Instance)) → Bool
  declares contract none = false
  declares contract (some r) = is_among contract r.entry.contract.depends

  -- The active keys whose query declares a dependency on the contract, in their order.
  abbrev pub stale_keys :
      String → List (Resolved Claims (HostedQuery Instance)) → List QueryKey → List QueryKey
  stale_keys contract queries [] = []
  stale_keys contract queries (key ∷ active) =
      let rest = stale_keys contract queries active in
      if declares contract (hosted_as key.query queries) then key ∷ rest else rest

  -- What each of the stale keys is answered at these moments, in one request.
  abbrev pub stale_answers :
      (String → Option String)
      → (Serving.Implementation → List String → String → QueryBatchResult)
      → Principal Claims
      → String
      → List QueryKey
      → Option (List (Resolved Claims (HostedQuery Instance)))
      → Moments Instance
      → List Refreshed
  stale_answers canonicalize one principal contract active none seen = []
  stale_answers canonicalize one principal contract active (some queries) seen =
      let keys = stale_keys contract queries active in
      map (answer (map (read_from seen) queries) principal canonicalize one keys) keys

  module _ (seen : Moments Instance) where
    abbrev read_found :
        Option (Resolved Claims (HostedQuery Instance))
        → Option (Resolved Claims Serving.Implementation)
    read_found none = none
    read_found (some r) = some (read_from seen r)

    read_later :
        (b : Bool) (r : Resolved Claims (HostedQuery Instance))
        (o : Option (Resolved Claims (HostedQuery Instance)))
        → later (read_found o) (if b then some (read_from seen r) else none)
          ≡ read_found (later o (if b then some r else none))
    read_later true r none = refl
    read_later false r none = refl
    read_later b r (some other) = refl

    by_name-read_from :
        (name : String) (queries : List (Resolved Claims (HostedQuery Instance)))
        → by_name (map (read_from seen) queries) name ≡ read_found (hosted_as name queries)
    unfolding by_name
    by_name-read_from name [] = refl
    by_name-read_from name (r ∷ queries) =
        ap (λ o. later o (if r.entry.contract.name == name then some (read_from seen r) else none))
          (by_name-read_from name queries)
        ∙ read_later (r.entry.contract.name == name) r (hosted_as name queries)

    depends_on-declares :
        (current : List (Resolved Claims Serving.Implementation)) (principal : Principal Claims)
        (contract : String) (o : Option (Resolved Claims (HostedQuery Instance)))
        → depends_on current principal contract (read_found o) ≡ declares contract o
    depends_on-declares current principal contract none = refl
    depends_on-declares current principal contract (some r) =
        any-is_among contract r.entry.contract.depends

    pub dependents-stale_keys :
        (principal : Principal Claims) (contract : String)
        (queries : List (Resolved Claims (HostedQuery Instance))) (active : List QueryKey)
        → dependents (map (read_from seen) queries) principal contract active
          ≡ stale_keys contract queries active
    unfolding dependents filter
    dependents-stale_keys principal contract queries [] = refl
    dependents-stale_keys principal contract queries (key ∷ active) =
        let rest = dependents-stale_keys principal contract queries active in
        let current = map (read_from seen) queries in
        let same =
          ap (depends_on current principal contract) (by_name-read_from key.query queries)
          ∙ depends_on-declares current principal contract (hosted_as key.query queries) in
        rw (same, rest) refl
