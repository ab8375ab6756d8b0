-- ===== src/Policy/Rules.antt =====
-- What the rules of policy.ts allow, and what their combinations do with the rules they are made of.
use effect_frame.Base.{
  ℕ, ◌++◌, ◌∙◌, ◌&&◌, Bool, true, false, Option, none, some, List, [], ◌∷◌, ◌≡◌, ◌↔◌, ◌⊎◌, refl,
  arith, String, ◌==◌, eqb, eqb_iff, eq_iff, find?, Bool-cases, inl, inr, All, if◌then◌else◌,
}
use effect_frame.Policy.{
  Principal, anonymous, authenticated, Subject, Action, Policy, Verdict, allowed, unauthorized,
  refuse, each_of, FirstSuccess, verdicts, all, any, only_authenticated, for_subjects, decided,
  decode_subject, decode_by, is_named, Named, actor, query,
}

-- The Boolean reading of a verdict.
abbrev pub allows : Verdict → Bool
allows allowed = true
allows (unauthorized name) = false

abbrev pub IsAuthenticated : {Claims : Type 0} → Principal Claims → Type 0
IsAuthenticated anonymous = ⊥
IsAuthenticated (authenticated who claims) = Unit

abbrev pub some_allows : List Verdict → Bool
some_allows [] = false
some_allows (allowed ∷ verdicts) = true
some_allows (unauthorized name ∷ verdicts) = some_allows verdicts

module _ (first_success_of : List Verdict → Verdict) (says : FirstSuccess first_success_of) where
  first_success_lem :
      (vs : List Verdict) (last : Verdict)
      → first_success_of (vs ++ last ∷ []) ≡ (if some_allows vs then allowed else last)
  first_success_lem [] last = says.only last
  first_success_lem (allowed ∷ vs) last = says.stops (vs ++ last ∷ [])
  first_success_lem (unauthorized name ∷ []) last = says.goes_on name last [] ∙ says.only last
  first_success_lem (unauthorized name ∷ v ∷ vs) last =
      says.goes_on name v (vs ++ last ∷ []) ∙ first_success_lem (v ∷ vs) last

both_true : (a b : Bool) → (a && b) ≡ true → (a ≡ true) × (b ≡ true)
both_true true b h = (refl, h)
both_true false b h = absurd (cc)

each_of_allowed : (vs : List Verdict) → (each_of vs ≡ allowed) ↔ All (λ v. v ≡ allowed) vs
unfolding each_of
each_of_allowed [] = ((λ e. tt), (λ h. refl))
each_of_allowed (allowed ∷ vs) =
    ((λ e. (refl, (each_of_allowed vs).0 e)), (λ h. (each_of_allowed vs).1 h.1))
each_of_allowed (unauthorized name ∷ vs) = ((λ e. cc), (λ h. cc))

only_authenticated_allowed :
    {Claims : Type 0} (who : Principal Claims) (s : Subject) (action : Action)
    → (only_authenticated who s action ≡ allowed) ↔ IsAuthenticated who
unfolding only_authenticated
only_authenticated_allowed anonymous s action = ((λ e. cc), (λ h. absurd h))
only_authenticated_allowed (authenticated subject claims) s action = ((λ e. tt), (λ h. refl))

module _ {Key : Type 0} where
  -- The member has this name and this version.
  abbrev pub HasName : String → ℕ → Named Key → Type 0
  HasName name version named = (named.name ≡ name) × (named.version ≡ version)

  -- The first member of this name and version reads the text as the key.
  abbrev pub Reads : List (Named Key) → String → ℕ → String → Key → Type 0
  Reads [] name version text key = ⊥
  Reads (named ∷ members) name version text key =
      (HasName name version named × (named.decode text ≡ some key))
      ⊎ ((¬ HasName name version named) × Reads members name version text key)

  -- What a rule's contracts and queries read from a subject: its key, or its arguments.
  abbrev pub ReadsSubject : List (Named Key) → List (Named Key) → Subject → Key → Type 0
  ReadsSubject contracts queries (actor address) key =
      Reads contracts address.contract address.version address.key key
  ReadsSubject contracts queries (query asked) key =
      Reads queries asked.query asked.version asked.args key

  is_named_iff :
      (name : String) (version : ℕ) (named : Named Key)
      → (is_named name version named ≡ true) ↔ HasName name version named
  is_named_iff name version named =
      let names = eq_iff named.name name in
      let versions = eqb_iff named.version version in
      (
        (λ e.
            let (first, second) = both_true (named.name == name) (eqb named.version version) e in
            (names.0 first, versions.0 second)),
        (λ h. rw (names.1 h.0, versions.1 h.1) refl),
      )

  decode_by-Reads :
      (members : List (Named Key)) (name : String) (version : ℕ) (text : String) (key : Key)
      → (decode_by members name version text ≡ some key) ↔ Reads members name version text key
  unfolding decode_by find?
  decode_by-Reads [] name version text key = ((λ e. cc), (λ h. absurd h))
  decode_by-Reads (named ∷ members) name version text key =
      let here = is_named_iff name version named in
      let rest = decode_by-Reads members name version text key in
      elim (Bool-cases (is_named name version named)) [
        | inl e ↦ (
          (λ h. inl (here.0 e, rw e at h)),
          elim [ (inl h) ↦ rw e h.1 | (inr h) ↦ absurd (h.0 (here.0 e)) ],
        )
        | inr e ↦ (
          (λ h. inr ((λ is. cc (here.1 is)), rest.0 (rw e at h))),
          elim [ (inl h) ↦ absurd (cc (here.1 h.0)) | (inr h) ↦ rw e (rest.1 h.1) ],
        )
      ]

  decode_subject-Reads :
      (contracts queries : List (Named Key)) (s : Subject) (key : Key)
      → (decode_subject contracts queries s ≡ some key) ↔ ReadsSubject contracts queries s key
  unfolding decode_subject
  decode_subject-Reads contracts queries (actor address) key =
      decode_by-Reads contracts address.contract address.version address.key key
  decode_subject-Reads contracts queries (query asked) key =
      decode_by-Reads queries asked.query asked.version asked.args key

module _ {Claims : Type 0} (who : Principal Claims) (s : Subject) (action : Action) where
  -- A choice of rules refuses in its own name, whatever its rules refuse with.
  pub any_lem :
      (first_success_of : List Verdict → Verdict) (ps : List (Policy Claims))
      → FirstSuccess first_success_of
      → any first_success_of ps who s action
        ≡ (if some_allows (verdicts ps who s action) then allowed else refuse s)
  unfolding any
  any_lem first_success_of ps says =
      first_success_lem first_success_of says (verdicts ps who s action) (refuse s)

  module _ {Key : Type 0} (contracts queries : List (Named Key))
      (check : Principal Claims → Key → Action → Bool) where
    decided_allowed :
        (o : Option Key)
        → (decided s o (λ key. check who key action) ≡ allowed)
          ↔ ((key : Key) × (o ≡ some key) × (check who key action ≡ true))
    unfolding decided
    decided_allowed none = ((λ e. cc), (λ h. cc h.1))
    decided_allowed (some key) = elim (Bool-cases (check who key action)) [
      | inl e ↦ ((λ h. (key, refl, e)), (λ h. rw e refl))
      | inr e ↦ ((λ h. cc), (λ h. ground (arith, h.1, h.2)))
    ]

    -- A rule over typed keys behind `authenticated` allows a request exactly when the caller is authenticated
    -- and there is a key that the check accepts and that is read from the request: the first contract (for
    -- an actor) or query (for a query) among the rule's own that has the name and the version asked for
    -- reads it from the address's key or from the arguments.
    pub for_subjects-allowed :
        (all (only_authenticated ∷ for_subjects contracts queries check ∷ []) who s action
          ≡ allowed)
        ↔ (IsAuthenticated who
            × ((key : Key) × ReadsSubject contracts queries s key × (check who key action ≡ true)))
    unfolding all for_subjects
    for_subjects-allowed =
        let asked = only_authenticated_allowed who s action in
        let decides = decided_allowed (decode_subject contracts queries s) in
        let reads = decode_subject-Reads contracts queries s in
        let both = each_of_allowed (
          verdicts (only_authenticated ∷ for_subjects contracts queries check ∷ []) who s action) in
        (
          (λ e.
              let (key, is, accepts) = decides.0 (both.0 e).1.0 in
              (asked.0 (both.0 e).0, (key, (reads key).0 is, accepts))),
          (λ h.
              let (key, is, accepts) = h.1 in
              both.1 (asked.1 h.0, (decides.1 (key, (reads key).1 is, accepts), tt))),
        )
