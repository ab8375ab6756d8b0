-- ===== src/Serving/Groups.antt =====
-- The groups of one request of query-host.ts: each key that may be served stands, in order, in the one
-- group of its implementation.
use effect_frame.Base.{
  ℕ, Bool, true, false, ◌||◌, List, [], ◌∷◌, ◌++◌, String, ◌==◌, eq_iff, eq_refl, ◌≡◌, refl, sym,
  ap, ◌∙◌, subst, inl, inr, Bool-cases, All, arith, if◌then◌else◌,
}
use effect_frame.Vocabulary.{QueryKey}
use effect_frame.Serving.{Implementation}
use effect_frame.Serving.Requests.{Group, add_to, is_query}
use effect_frame.Serving.Writes.{has}

==-sym : (a b : String) (c : Bool) → (b == a) ≡ c → (a == b) ≡ c
==-sym a b true h = subst (λ t. (a == t) ≡ true) (sym ((eq_iff b a).0 h)) (eq_refl a)
==-sym a b false h = elim (Bool-cases (a == b)) [
  | inl same ↦ let one = (eq_iff a b).0 same in cc (h, subst (λ t. (t == a) ≡ true) one (eq_refl a))
  | inr other ↦ other
]

-- A key that may be served, with its place and its implementation.
abbrev pub Served : Type 0
Served = ℕ × (QueryKey × Implementation)

abbrev pub entry_of : Served → ℕ × QueryKey
entry_of (i, (key, implementation)) = (i, key)

-- The served keys of one query's name, and the others.
unfoldable pub pick : String → List Served → List (ℕ × QueryKey)
pick name [] = []
pick name ((i, (key, implementation)) ∷ served) =
    if is_query name implementation then (i, key) ∷ pick name served else pick name served

unfoldable pub leave : String → List Served → List Served
leave name [] = []
leave name ((i, (key, implementation)) ∷ served) =
    if is_query name implementation
    then leave name served
    else (i, (key, implementation)) ∷ leave name served

abbrev pub name_of : Group → String
name_of group = group.implementation.contract.name

-- The groups hold exactly these served keys.
abbrev pub Fits : List Group → List Served → Type 0
Fits [] served = served ≡ []
Fits (group ∷ groups) served =
    (group.entries ≡ pick (name_of group) served) × Fits groups (leave (name_of group) served)

append_nil : {A : Type 0} (xs : List A) → xs ++ [] ≡ xs
append_nil [] = refl
append_nil (x ∷ xs) = ap (λ l. x ∷ l) (append_nil xs)

is_query_sym :
    (a b : Implementation) (c : Bool)
    → is_query a.contract.name b ≡ c
    → is_query b.contract.name a ≡ c
is_query_sym a b c h = ==-sym a.contract.name b.contract.name c h

module _ (name : String) (i : ℕ) (key : QueryKey) (m : Implementation) where
  pick-append :
      (xs : List Served)
      → pick name (xs ++ (i, (key, m)) ∷ [])
        ≡ pick name xs ++ (if is_query name m then (i, key) ∷ [] else [])
  unfolding pick
  pick-append [] = refl
  pick-append ((j, (k, n)) ∷ xs) = let rest = pick-append xs in ground (arith, rest)

  leave-append :
      (xs : List Served)
      → leave name (xs ++ (i, (key, m)) ∷ [])
        ≡ leave name xs ++ (if is_query name m then [] else (i, (key, m)) ∷ [])
  unfolding leave
  leave-append [] = refl
  leave-append ((j, (k, n)) ∷ xs) = let rest = leave-append xs in ground (arith, rest)

  pick-hit :
      (xs : List Served)
      → is_query name m ≡ true
      → pick name (xs ++ (i, (key, m)) ∷ []) ≡ pick name xs ++ (i, key) ∷ []
  pick-hit xs h = rw (pick-append xs, h) refl

  leave-hit :
      (xs : List Served)
      → is_query name m ≡ true
      → leave name (xs ++ (i, (key, m)) ∷ []) ≡ leave name xs
  leave-hit xs h = rw (leave-append xs, h) (append_nil _)

  pick-miss :
      (xs : List Served)
      → is_query name m ≡ false
      → pick name (xs ++ (i, (key, m)) ∷ []) ≡ pick name xs
  pick-miss xs h = rw (pick-append xs, h) (append_nil _)

  leave-miss :
      (xs : List Served)
      → is_query name m ≡ false
      → leave name (xs ++ (i, (key, m)) ∷ []) ≡ leave name xs ++ (i, (key, m)) ∷ []
  leave-miss xs h = rw (leave-append xs, h) refl

-- One more served key goes to its own group.
module _ (i : ℕ) (key : QueryKey) (m : Implementation) where
  pub add_to-Fits :
      (groups : List Group) (served : List Served)
      → Fits groups served
      → Fits (add_to m (i, key) groups) (served ++ (i, (key, m)) ∷ [])
  unfolding add_to pick leave
  add_to-Fits [] served h =
      let own = eq_refl m.contract.name in
      subst
        (λ l.
          Fits (record { implementation = m; entries = (i, key) ∷ [] } ∷ [])
            (l ++ (i, (key, m)) ∷ []))
        (sym h)
        (sym (pick-hit m.contract.name i key m [] own), leave-hit m.contract.name i key m [] own)
  add_to-Fits (group ∷ groups) served h =
      elim (Bool-cases (is_query m.contract.name group.implementation)) [
        | inl same ↦
            let hit = is_query_sym m group.implementation true same in
            rw same (
              ap (λ l. l ++ (i, key) ∷ []) h.0 ∙ sym (pick-hit (name_of group) i key m served hit),
              subst (Fits groups) (sym (leave-hit (name_of group) i key m served hit)) h.1,
            )
        | inr other ↦
            let miss = is_query_sym m group.implementation false other in
            rw other (
              h.0 ∙ sym (pick-miss (name_of group) i key m served miss),
              subst (Fits (add_to m (i, key) groups))
                  (sym (leave-miss (name_of group) i key m served miss))
                  (add_to-Fits groups (leave (name_of group) served) h.1),
            )
      ]

pub has-pick :
    (name : String) (i : ℕ) (served : List Served)
    → has i served ≡ (has i (pick name served) || has i (leave name served))
unfolding has pick leave
has-pick name i [] = refl
has-pick name i ((j, (key, m)) ∷ served) = let rest = has-pick name i served in ground (arith, rest)

-- A property of implementations that each served key brings along.
module _ (P : Implementation → Type 0) where
  pub add_to-each :
      (groups : List Group) (prepared : ℕ × QueryKey) (m : Implementation)
      → P m
      → All (λ group. P group.implementation) groups
      → All (λ group. P group.implementation) (add_to m prepared groups)
  unfolding add_to
  add_to-each [] prepared m p h = (p, tt)
  add_to-each (group ∷ groups) prepared m p h =
      elim (Bool-cases (is_query m.contract.name group.implementation)) [
        | inl same ↦ rw same (h.0, h.1)
        | inr other ↦ rw other (h.0, add_to-each groups prepared m p h.1)
      ]
