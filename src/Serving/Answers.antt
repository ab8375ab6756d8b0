-- ===== src/Serving/Answers.antt =====
-- What each key of a request of query-host.ts is answered, with no word of places, groups or maps.
use effect_frame.Base.{
  Bool, true, false, ◌&&◌, Option, none, some, List, [], ◌∷◌, map, String, eq_iff, ◌≡◌, ◌⊎◌, refl,
  sym, ap, ◌∙◌, subst, inl, inr, All, eqb, eq_of_some, is_some, if◌then◌else◌,
}
use effect_frame.Vocabulary.{QueryKey, Result, failure, success}
use effect_frame.Query.{QueryFailure}
use effect_frame.Policy
use effect_frame.Policy.{Principal, Resolved, Verdict, allowed, query, read}
use effect_frame.Serving.{
  QueryBatchResult, Refreshed, refresh_failed, Implementation, Mode, single, batched, get_or,
}
use effect_frame.Serving.Requests.{
  is_query, answered, of_slot, later, by_name, of_version, authorized, authorize, check,
}

-- An implementation answers each argument by a function of it and of its companions.
abbrev pub AnswersEach : (List String → String → QueryBatchResult) → Mode → Type 0
AnswersEach one (single run) = Unit
AnswersEach one (batched run_batch) = (args : List String) → run_batch args ≡ map (one args) args

-- A result of `check` that is a success, told by clauses.
abbrev pub on_success :
    {A : Type 0} → (Implementation → A → A) → Result QueryFailure Implementation → A → A
on_success f (failure error) rest = rest
on_success f (success m) rest = f m rest

module _ (canonicalize : String → Option String) where
  -- The canonical text of a key's arguments, and whether it has one.
  abbrev pub text_of : QueryKey → String
  text_of key = get_or "" (canonicalize key.args)

  abbrev pub has_text : QueryKey → Bool
  has_text key = is_some (canonicalize key.args)

  -- What a served key is answered beside its companions' texts.
  abbrev pub answer_mode :
      (List String → String → QueryBatchResult) → Mode → List String → QueryKey → Refreshed
  answer_mode each (single run) together key = answered key (run (text_of key))
  answer_mode each (batched run_batch) together key = of_slot key (each together (text_of key))

  module _ (one : Implementation → List String → String → QueryBatchResult) where
    abbrev pub answer_by : Implementation → List String → QueryKey → Refreshed
    answer_by m = answer_mode (one m) m.mode

module _ {Claims : Type 0} (queries : List (Resolved Claims Implementation))
    (principal : Principal Claims) where
  -- The keys of a request that the implementation of a name serves.
  abbrev pub member : String → QueryKey → Implementation → List QueryKey → List QueryKey
  member name key m rest = if is_query name m then key ∷ rest else rest

  unfoldable pub members : String → List QueryKey → List QueryKey
  members name [] = []
  members name (key ∷ keys) =
      on_success (member name key) (check queries principal key) (members name keys)

  module _ (canonicalize : String → Option String) where
    unfoldable pub all_canonical : List QueryKey → Bool
    all_canonical [] = true
    all_canonical (key ∷ keys) =
        on_success (λ m rest. has_text canonicalize key && rest) (check queries principal key)
          (all_canonical keys)

    module _ (one : Implementation → List String → String → QueryBatchResult) where
      abbrev pub answer_checked :
          List QueryKey → QueryKey → Result QueryFailure Implementation → Refreshed
      answer_checked keys key (failure error) = refresh_failed key error
      answer_checked keys key (success m) =
          answer_by canonicalize one m (map (text_of canonicalize) (members m.contract.name keys))
            key

      unfoldable pub answer : List QueryKey → QueryKey → Refreshed
      answer keys key = answer_checked keys key (check queries principal key)

  -- An implementation that the map by name holds.
  abbrev pub IsHosted : Implementation → Type 0
  IsHosted m =
      (r : Resolved Claims Implementation) × (by_name queries m.contract.name ≡ some r)
      × (r.entry ≡ m)

authorized_of :
    (entry m : Implementation) (v : Verdict) → authorized entry v ≡ success m → entry ≡ m
authorized_of entry m allowed h = cc
authorized_of entry m (Policy.unauthorized name) h = cc

all_unit : {A : Type 0} (xs : List A) → All {0, 0} (λ x. Unit) xs
all_unit [] = tt
all_unit (x ∷ xs) = (tt, all_unit xs)

module _ {Claims : Type 0} where
  -- A query that is found has the name, and the property that all have.
  later_if :
      (o : Option (Resolved Claims Implementation)) (b : Bool)
      (q r : Resolved Claims Implementation)
      → later o (if b then some q else none) ≡ some r
      → (o ≡ some r) ⊎ ((b ≡ true) × (q ≡ r))
  later_if none true q r h = inr (refl, eq_of_some q r h)
  later_if none false q r h = cc
  later_if (some found) b q r h = inl h

  pub by_name-is :
      (P : Resolved Claims Implementation → Type 0)
      (queries : List (Resolved Claims Implementation)) (name : String)
      (r : Resolved Claims Implementation)
      → All P queries
      → by_name queries name ≡ some r
      → P r × (is_query name r.entry ≡ true)
  unfolding by_name
  by_name-is P [] name r h e = cc
  by_name-is P (q ∷ queries) name r h e =
      elim (later_if (by_name queries name) (is_query name q.entry) q r e) [
        | inl found ↦ by_name-is P queries name r h.1 found
        | inr (named, same) ↦
            (subst P same h.0, subst (λ t. is_query name t.entry ≡ true) same named)
      ]

  module _ (queries : List (Resolved Claims Implementation)) (principal : Principal Claims) where
    version_of :
        (b : Bool) (key : QueryKey) (r : Resolved Claims Implementation) (error : QueryFailure)
        (m : Implementation)
        → authorize queries principal key (if b then success r else failure error) ≡ success m
        → r.entry ≡ m
    version_of false key r error m h = cc
    version_of true key r error m h = authorized_of r.entry m _ h

    found_as :
        (o : Option (Resolved Claims Implementation)) (key : QueryKey) (m : Implementation)
        → by_name queries key.query ≡ o
        → authorize queries principal key (of_version key o) ≡ success m
        → IsHosted queries principal m
    found_as none key m e h = cc
    found_as (some r) key m e h =
        let same = version_of (eqb r.entry.contract.version key.version) key r _ m h in
        let named = (by_name-is (λ q. Unit) queries key.query r (all_unit queries) e).1 in
        let name = (eq_iff r.entry.contract.name key.query).0 named in
        let renamed = sym name ∙ ap (λ (t : Implementation). t.contract.name) same in
        (r, subst (λ t. by_name queries t ≡ some r) renamed e, same)

    pub check-IsHosted :
        (key : QueryKey) (m : Implementation)
        → check queries principal key ≡ success m
        → IsHosted queries principal m
    unfolding check
    check-IsHosted key m h = found_as (by_name queries key.query) key m refl h

    -- A name has one hosted implementation.
    pub IsHosted-same :
        (m n : Implementation)
        → IsHosted queries principal m
        → IsHosted queries principal n
        → is_query n.contract.name m ≡ true
        → m ≡ n
    IsHosted-same m n hm hn e =
        let name = (eq_iff m.contract.name n.contract.name).0 e in
        let found = subst (λ t. by_name queries t ≡ some hm.0) name hm.1 in
        let one = eq_of_some _ _ (sym found ∙ hn.1) in
        sym hm.2 ∙ ap (λ (r : Resolved Claims Implementation). r.entry) one ∙ hn.2
