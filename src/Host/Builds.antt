-- ===== src/Host/Builds.antt =====
-- `build` of host.ts: a host serves only once every policy name that it was given stands in the table.
use effect_frame.Base.{
  Bool, true, false, not, Option, none, some, List, [], ◌∷◌, ◌++◌, map, String, ◌≡◌, ◌≢◌, ◌⊎◌, inl,
  inr, refl, sym, ap, ◌∙◌, filter, flatten, All, if◌then◌else◌,
}
use effect_frame.Vocabulary.{failure, success}
use effect_frame.Policy
use effect_frame.Policy.{Policy, Declared, Resolved, Resolution, refuse_missing, missing_names}
use effect_frame.Policy.Missing.{in_table, missing_lem, IsRuled, resolved-IsRuled, entries-resolved}
use effect_frame.Host.{
  Implementation, HostedQuery, Built, declare_actor, declare_query, serving_of, built_unless, build,
}

append_nil : {A : Type 0} (xs : List A) → xs ++ [] ≡ xs
append_nil [] = refl
append_nil (x ∷ xs) = ap (λ l. x ∷ l) (append_nil xs)

full_step :
    {A B : Type 0} (b : Bool) (f : A → B) (x : A) (out kept xs : List A)
    → (map f out ≡ [] → kept ≡ xs)
    → map f (if not b then x ∷ out else out) ≡ []
    → (if b then x ∷ kept else kept) ≡ x ∷ xs
full_step true f x out kept xs ih h = ap (λ l. x ∷ l) (ih h)
full_step false f x out kept xs ih h = cc

-- Nothing is left out when nothing is missing.
filter_full :
    {A B : Type 0} (p : A → Bool) (f : A → B) (xs : List A)
    → map f (filter (λ x. not (p x)) xs) ≡ []
    → filter p xs ≡ xs
unfolding filter
filter_full p f [] h = refl
filter_full p f (x ∷ xs) h = full_step (p x) f x _ _ xs (filter_full p f xs) h

split_nil : {A : Type 0} (xs ys : List A) → xs ++ ys ≡ [] → (xs ≡ []) × (ys ≡ [])
split_nil [] ys h = (refl, h)
split_nil (x ∷ xs) ys h = cc

List-cases : {A : Type 0} (xs : List A) → (xs ≡ []) ⊎ ((x : A) × (rest : List A) × (xs ≡ x ∷ rest))
List-cases [] = inl refl
List-cases (x ∷ rest) = inr (x, rest, refl)

module _ {Claims Instance : Type 0} (policies : String → Option (Policy Claims))
    (implementations : List (Implementation Instance)) (queries : List (HostedQuery Instance)) where
  -- The declarations outside the table: the actors', then the queries'.
  abbrev pub misses : List Declared
  misses =
      map declare_actor
        (filter (λ entry. not (in_table policies declare_actor entry)) implementations)
      ++ map declare_query (filter (λ entry. not (in_table policies declare_query entry)) queries)

  -- A host that serves all it was given, each by the rule of its own name.
  abbrev pub Serves :
      Option (List (Resolved Claims (HostedQuery Instance))) → List (HostedQuery Instance) → Type 0
  Serves none queries = queries ≡ []
  Serves (some resolved) queries =
      (map (λ (r : Resolved Claims (HostedQuery Instance)). r.entry) resolved ≡ queries)
      × All (IsRuled policies declare_query) resolved

  abbrev pub IsComplete : Built Claims Instance → Type 0
  IsComplete host =
      (map (λ (r : Resolved Claims (Implementation Instance)). r.entry) host.actors
        ≡ implementations)
      × (All (IsRuled policies declare_actor) host.actors × Serves host.serving queries)

  resolved_full :
      {A : Type 0} (declare : A → Declared) (entries : List A)
      → map declare (filter (λ entry. not (in_table policies declare entry)) entries) ≡ []
      → map (λ (r : Resolved Claims A). r.entry) (Policy.resolve policies declare entries).resolved
        ≡ entries
  resolved_full declare entries h =
      entries-resolved policies declare entries
      ∙ filter_full (in_table policies declare) declare entries h

  serving_full :
      map declare_query (filter (λ entry. not (in_table policies declare_query entry)) queries) ≡ []
      → Serves (serving_of queries (Policy.resolve policies declare_query queries).resolved) queries
  serving_full = serves_given queries
    where
      serves_given :
          (given : List (HostedQuery Instance))
          → map declare_query (filter (λ entry. not (in_table policies declare_query entry)) given)
            ≡ []
          → Serves (serving_of given (Policy.resolve policies declare_query given).resolved) given
      serves_given [] h = refl
      serves_given (q ∷ given) h = (
        resolved_full declare_query (q ∷ given) h,
        resolved-IsRuled policies declare_query (q ∷ given),
      )

  refuse_missing_lem :
      refuse_missing (
        (Policy.resolve policies declare_actor implementations).missing
        ∷ (Policy.resolve policies declare_query queries).missing
        ∷ [])
      ≡ missing_names misses
  unfolding refuse_missing flatten
  refuse_missing_lem = ap missing_names (
      ap (λ l. (Policy.resolve policies declare_actor implementations).missing ++ l) (append_nil _)
      ∙ ap (λ l. l ++ (Policy.resolve policies declare_query queries).missing)
          (missing_lem policies declare_actor implementations)
      ∙ ap
          (λ l.
            map declare_actor
              (filter (λ entry. not (in_table policies declare_actor entry)) implementations)
            ++ l)
          (missing_lem policies declare_query queries))

  abbrev resolved_host : Built Claims Instance
  resolved_host = record {
    actors = (Policy.resolve policies declare_actor implementations).resolved;
    serving = serving_of queries (Policy.resolve policies declare_query queries).resolved;
  }

  -- A host is built exactly when every policy name that its contracts and queries declare stands in the table.
  -- Then it serves each of them, in order and by the rule of its own name. Otherwise building fails with
  -- every declaration whose name is missing, the actors' before the queries', each in its order.
  pub build_lem :
      ((host : Built Claims Instance) × (build policies implementations queries ≡ success host)
        × (misses ≡ [])
        × IsComplete host)
      ⊎ ((misses ≢ []) × (build policies implementations queries ≡ failure misses))
  unfolding build
  build_lem = elim (List-cases misses) [
    | inl e ↦
        let (none_actor, none_query) = split_nil _ _ e in
        inl (
          resolved_host,
          ap (λ o. built_unless o resolved_host) (refuse_missing_lem ∙ ap missing_names e),
          e,
          (
            resolved_full declare_actor implementations none_actor,
            (resolved-IsRuled policies declare_actor implementations, serving_full none_query),
          ),
        )
    | inr (miss, rest, e) ↦ inr (
      (λ none_missing. cc (none_missing, e)),
      ap (λ o. built_unless o resolved_host) (refuse_missing_lem ∙ ap missing_names e)
          ∙ ap (λ l. failure l) (sym e),
    )
  ]
