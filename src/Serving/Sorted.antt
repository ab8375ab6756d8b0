-- ===== src/Serving/Sorted.antt =====
-- The loop over the checked keys of query-host.ts: each key is answered or served, in its place.
use effect_frame.Base.{
  ℕ, Bool, false, ◌||◌, List, [], ◌∷◌, ◌++◌, ◌≡◌, refl, sym, ap, ◌∙◌, subst, eqb, All, arith,
}
use effect_frame.Vocabulary.{QueryKey, Result-by}
use effect_frame.Policy.{Principal, Resolved}
use effect_frame.Serving.{Refreshed, refresh_failed, Implementation}
use effect_frame.Serving.Requests.{Group, add_to, check, sort_key, sort_keys}
use effect_frame.Serving.Writes.{has, has-append}
use effect_frame.Serving.Groups.{Served, Fits, add_to-Fits, add_to-each}
use effect_frame.Serving.Answers.{on_success, IsHosted, check-IsHosted}

shift_left : (a b c d : Bool) → ((a || b) || (c || d)) ≡ (b || ((a || c) || d))
shift_left a b c d = ground arith

shift_right : (a b c d : Bool) → ((a || b) || (c || d)) ≡ (b || (c || (d || (a || false))))
shift_right a b c d = ground arith

module _ {Claims : Type 0} (queries : List (Resolved Claims Implementation))
    (principal : Principal Claims) where
  abbrev pub add_served : ℕ × QueryKey → Implementation → List Served → List Served
  add_served (i, key) m rest = (i, (key, m)) ∷ rest

  -- The keys that may be served, in order.
  unfoldable pub served_of : List (ℕ × QueryKey) → List Served
  served_of [] = []
  served_of ((i, key) ∷ keys) =
      on_success (add_served (i, key)) (check queries principal key) (served_of keys)

  abbrev Sorted : Type 0
  Sorted = List (ℕ × Refreshed) × List Group

  append_one :
      (xs : List Served) (x : Served) (ys : List Served) → (xs ++ x ∷ []) ++ ys ≡ xs ++ x ∷ ys
  append_one [] x ys = refl
  append_one (z ∷ xs) x ys = ap (λ l. z ∷ l) (append_one xs x ys)

  append_nil : (xs : List Served) → xs ≡ xs ++ []
  append_nil [] = refl
  append_nil (x ∷ xs) = ap (λ l. x ∷ l) (append_nil xs)

  -- The groups hold exactly the keys that may be served.
  pub sort_keys-Fits :
      (keys : List (ℕ × QueryKey)) (s : Sorted) (served : List Served)
      → Fits s.1 served
      → Fits (sort_keys queries principal keys s).1 (served ++ served_of keys)
  unfolding sort_keys served_of
  sort_keys-Fits [] s served h = subst (Fits s.1) (append_nil served) h
  sort_keys-Fits ((i, key) ∷ keys) s served h =
      Result-by
        (λ r.
          Fits (sort_keys queries principal keys (sort_key queries principal (i, key) r s)).1
            (served ++ on_success (add_served (i, key)) r (served_of keys)))
        (check queries principal key)
        (λ error e. sort_keys-Fits keys ((i, refresh_failed key error) ∷ s.0, s.1) served h)
        (λ m e.
          subst (Fits (sort_keys queries principal keys (s.0, add_to m (i, key) s.1)).1)
            (append_one served (i, (key, m)) (served_of keys))
            (sort_keys-Fits keys (s.0, add_to m (i, key) s.1) (served ++ (i, (key, m)) ∷ [])
              (add_to-Fits i key m s.1 served h)))

  -- The groups' implementations are those that the host holds.
  pub sort_keys-IsHosted :
      (keys : List (ℕ × QueryKey)) (s : Sorted)
      → All (λ group. IsHosted queries principal group.implementation) s.1
      → All
          (λ group. IsHosted queries principal group.implementation)
          (sort_keys queries principal keys s).1
  unfolding sort_keys
  sort_keys-IsHosted [] s h = h
  sort_keys-IsHosted ((i, key) ∷ keys) s h =
      Result-by
        (λ r.
          All (λ group. IsHosted queries principal group.implementation)
            (sort_keys queries principal keys (sort_key queries principal (i, key) r s)).1)
        (check queries principal key)
        (λ error e. sort_keys-IsHosted keys ((i, refresh_failed key error) ∷ s.0, s.1) h)
        (λ m e.
          sort_keys-IsHosted keys (s.0, add_to m (i, key) s.1)
            (add_to-each (IsHosted queries principal) s.1 (i, key) m
              (check-IsHosted queries principal key m e) h))

  -- No place is lost.
  pub has-sort_keys :
      (i : ℕ) (keys : List (ℕ × QueryKey)) (s : Sorted) (served : List Served)
      → (has i keys || (has i s.0 || has i served))
        ≡ (has i (sort_keys queries principal keys s).0 || has i (served ++ served_of keys))
  unfolding sort_keys served_of has
  has-sort_keys i [] s served = ap (λ l. has i s.0 || has i l) (append_nil served)
  has-sort_keys i ((j, key) ∷ keys) s served =
      Result-by
        (λ r. (has i ((j, key) ∷ keys) || (has i s.0 || has i served)) ≡ (
          has i (sort_keys queries principal keys (sort_key queries principal (j, key) r s)).0
          || has i (served ++ on_success (add_served (j, key)) r (served_of keys))))
        (check queries principal key)
        (λ error e.
          shift_left (eqb i j) (has i keys) (has i s.0) (has i served)
          ∙ has-sort_keys i keys ((j, refresh_failed key error) ∷ s.0, s.1) served)
        (λ m e.
          let rest =
            has-sort_keys i keys (s.0, add_to m (j, key) s.1) (served ++ (j, (key, m)) ∷ []) in
          let more = has-append i served ((j, (key, m)) ∷ []) in
          shift_right (eqb i j) (has i keys) (has i s.0) (has i served)
          ∙ ap (λ b. has i keys || (has i s.0 || b)) (sym more)
          ∙ rest
          ∙ ap
              (λ l.
                has i (sort_keys queries principal keys (s.0, add_to m (j, key) s.1)).0 || has i l)
              (append_one served (j, (key, m)) (served_of keys)))
