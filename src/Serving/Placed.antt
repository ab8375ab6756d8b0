-- ===== src/Serving/Placed.antt =====
-- In a request of query-host.ts every write stands for its own key: the refusals that the loop over the
-- checked keys writes, and what the groups write.
use effect_frame.Base.{
  ℕ, suc, Bool, true, false, ◌&&◌, Option, some, List, [], ◌∷◌, map, String, ◌≡◌, refl, sym, ap,
  ◌∙◌, get_elem?, map_from, All, Bool-cases, inl, inr, if◌then◌else◌,
}
use effect_frame.Vocabulary.{QueryKey, Result, success, Result-by}
use effect_frame.Query.{QueryFailure}
use effect_frame.Policy.{Principal, Resolved}
use effect_frame.Serving.{QueryBatchResult, Refreshed, refresh_failed, Implementation}
use effect_frame.Serving.Requests.{Group, add_to, is_query, check, sort_key, sort_keys}
use effect_frame.Serving.Writes.{IsRight}
use effect_frame.Serving.Groups.{Served, name_of, pick}
use effect_frame.Serving.Whole.{every_served}
use effect_frame.Serving.Answers.{
  on_success, member, members, text_of, has_text, all_canonical, answer, answer_by, answer_checked,
  IsHosted, check-IsHosted, IsHosted-same,
}
use effect_frame.Serving.Runs.{texts, set_all}
use effect_frame.Serving.Sorted.{served_of, add_served}

module _ {Claims : Type 0} (queries : List (Resolved Claims Implementation))
    (principal : Principal Claims) where
  -- The keys of a request, each with its place.
  abbrev pub indexed : ℕ → List QueryKey → List (ℕ × QueryKey)
  indexed k keys = map_from k (λ key i. (i, key)) keys

  abbrev Check : Type 0
  Check = Result QueryFailure Implementation

  module _ (canonicalize : String → Option String) where
    texts-pick_if :
        (name : String) (i : ℕ) (key : QueryKey) (m : Implementation) (b : Bool)
        (rest : List (ℕ × QueryKey)) (others : List QueryKey)
        → texts canonicalize rest ≡ map (text_of canonicalize) others
        → texts canonicalize (if b then (i, key) ∷ rest else rest)
          ≡ map (text_of canonicalize) (if b then key ∷ others else others)
    texts-pick_if name i key m true rest others h = ap (λ l. text_of canonicalize key ∷ l) h
    texts-pick_if name i key m false rest others h = h

    -- The entries of a name are its members.
    pub texts-pick :
        (name : String) (k : ℕ) (keys : List QueryKey)
        → texts canonicalize (pick name (served_of queries principal (indexed k keys)))
          ≡ map (text_of canonicalize) (members queries principal name keys)
    unfolding pick served_of members map_from
    texts-pick name k [] = refl
    texts-pick name k (key ∷ keys) =
        Result-by
          (λ (r : Check).
            texts canonicalize (
              pick name (
                on_success (add_served queries principal (k, key)) r
                  (served_of queries principal (indexed (suc k) keys))))
            ≡ map (text_of canonicalize) (
                on_success (member queries principal name key) r
                  (members queries principal name keys)))
          (check queries principal key) (λ error e. texts-pick name (suc k) keys)
          (λ m e. texts-pick_if name k key m (is_query name m) _ _ (texts-pick name (suc k) keys))

    -- The served keys all have a text exactly when the request's do.
    pub every_served-all_canonical :
        (k : ℕ) (keys : List QueryKey)
        → every_served (has_text canonicalize) (served_of queries principal (indexed k keys))
          ≡ all_canonical queries principal canonicalize keys
    unfolding every_served served_of all_canonical map_from
    every_served-all_canonical k [] = refl
    every_served-all_canonical k (key ∷ keys) =
        Result-by
          (λ (r : Check).
            every_served (has_text canonicalize) (
              on_success (add_served queries principal (k, key)) r
                (served_of queries principal (indexed (suc k) keys)))
            ≡ on_success (λ m rest. has_text canonicalize key && rest) r
                (all_canonical queries principal canonicalize keys))
          (check queries principal key) (λ error e. every_served-all_canonical (suc k) keys)
          (λ m e.
            ap (λ b. has_text canonicalize key && b) (every_served-all_canonical (suc k) keys))

    module _ (one : Implementation → List String → String → QueryBatchResult)
        (keys : List QueryKey) where
      abbrev pub IsAnswer : ℕ × Refreshed → Type 0
      IsAnswer = IsRight keys (answer queries principal canonicalize one keys)

      abbrev pub IsPlaced : ℕ × QueryKey → Type 0
      IsPlaced (i, key) = get_elem? keys i ≡ some key

      -- The refusals.
      pub sort_keys-IsRight :
          (items : List (ℕ × QueryKey)) (s : List (ℕ × Refreshed) × List Group)
          → All IsPlaced items
          → All IsAnswer s.0
          → All IsAnswer (sort_keys queries principal items s).0
      unfolding sort_keys answer
      sort_keys-IsRight [] s p h = h
      sort_keys-IsRight ((i, key) ∷ items) s p h =
          Result-by
            (λ (r : Check).
              All IsAnswer
                (sort_keys queries principal items (sort_key queries principal (i, key) r s)).0)
            (check queries principal key)
            (λ error e.
              sort_keys-IsRight items ((i, refresh_failed key error) ∷ s.0, s.1) p.1
                (
                  (
                    key,
                    p.0,
                    sym (ap (answer_checked queries principal canonicalize one keys key) e),
                  ),
                  h,
                ))
            (λ m e. sort_keys-IsRight items (s.0, add_to m (i, key) s.1) p.1 h)

      abbrev pub IsServed : Served → Type 0
      IsServed (i, (key, m)) =
          (get_elem? keys i ≡ some key) × (check queries principal key ≡ success m)

      pub served_of-IsServed :
          (items : List (ℕ × QueryKey))
          → All IsPlaced items
          → All IsServed (served_of queries principal items)
      unfolding served_of
      served_of-IsServed [] p = tt
      served_of-IsServed ((i, key) ∷ items) p =
          Result-by
            (λ (r : Check). All IsServed (
              on_success (add_served queries principal (i, key)) r
                (served_of queries principal items)))
            (check queries principal key) (λ error e. served_of-IsServed items p.1)
            (λ m e. ((p.0, e), served_of-IsServed items p.1))

      -- An entry of the group of a name.
      abbrev pub IsEntry : String → ℕ × QueryKey → Type 0
      IsEntry name (i, key) =
          (get_elem? keys i ≡ some key)
          × ((m : Implementation) × (check queries principal key ≡ success m)
              × (is_query name m ≡ true))

      pub pick-IsEntry :
          (name : String) (served : List Served)
          → All IsServed served
          → All (IsEntry name) (pick name served)
      unfolding pick
      pick-IsEntry name [] p = tt
      pick-IsEntry name ((i, (key, m)) ∷ served) p = elim (Bool-cases (is_query name m)) [
        | inl e ↦ rw e ((p.0.0, (m, p.0.1, e)), pick-IsEntry name served p.1)
        | inr e ↦ rw e (pick-IsEntry name served p.1)
      ]

      pub set_all-IsRight :
          (f : QueryKey → Refreshed) (entries : List (ℕ × QueryKey))
          (results : List (ℕ × Refreshed))
          → All
              (λ entry.
                IsPlaced entry
                × (f entry.1 ≡ answer queries principal canonicalize one keys entry.1))
              entries
          → All IsAnswer results
          → All IsAnswer (set_all f entries results)
      unfolding set_all
      set_all-IsRight f [] results p h = h
      set_all-IsRight f ((i, key) ∷ entries) results p h =
          set_all-IsRight f entries ((i, f key) ∷ results) p.1 ((key, p.0.0, p.0.1), h)

      -- What a whole group writes for one of its entries.
      pub entry-answer :
          (group : Group) (entry : ℕ × QueryKey)
          → IsHosted queries principal group.implementation
          → texts canonicalize group.entries
            ≡ map (text_of canonicalize) (members queries principal (name_of group) keys)
          → IsEntry (name_of group) entry
          → IsPlaced entry
            × (answer_by canonicalize one group.implementation
                  (texts canonicalize group.entries)
                  entry.1
                ≡ answer queries principal canonicalize one keys entry.1)
      unfolding answer
      entry-answer group (i, key) hosted same (at, (m, e, named)) =
          let own = check-IsHosted queries principal key m e in
          let one_m = IsHosted-same queries principal m group.implementation own hosted named in
          (
            at,
            ap (λ l. answer_by canonicalize one group.implementation l key) same
                ∙ sym (
                    ap (answer_checked queries principal canonicalize one keys key) e
                    ∙ ap
                        (λ n.
                          answer_checked queries principal canonicalize one keys key (success n))
                        one_m),
          )
