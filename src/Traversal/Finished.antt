-- ===== src/Traversal/Finished.antt =====
-- The platform never waits for a router that is gone.
use effect_frame.Base.{
  ℕ, ◌≡◌, refl, sym, subst, ◌⊎◌, inl, inr, Bool, true, false, not, ◌||◌, List, [], ◌∷◌, ◌++◌, eqb,
  eqb_iff, if◌then◌else◌, any, filter, All, arith, Bool-cases,
}
use effect_frame.Traversal.{
  Source, new_source, finish_one, finish_held, offer, consume, consume_when, finish_all, release,
  Move, offers, ends, consumes, closes, takes, move, moves,
}

abbrev pub holds : ℕ → List ℕ → Bool
holds n ns = any (λ m. eqb m n) ns

-- A traversal is finished, or live.
abbrev pub IsKept : Source → ℕ → Type 0
IsKept s n = (holds n s.live || holds n s.finished) ≡ true

-- The traversals that were offered, the latest first.
pub offered : List ℕ → List Move → List ℕ
offered ns [] = ns
offered ns (offers n ∷ ms) = offered (n ∷ ns) ms
offered ns (ends n ∷ ms) = offered ns ms
offered ns (consumes ∷ ms) = offered ns ms
offered ns (closes ∷ ms) = offered ns ms
offered ns (takes ∷ ms) = offered ns ms

holds-append : (n : ℕ) (xs ys : List ℕ) → holds n (xs ++ ys) ≡ (holds n xs || holds n ys)
unfolding any
holds-append n [] ys = refl
holds-append n (x ∷ xs) ys = ground (arith, holds-append n xs ys)

holds-filter :
    (n m : ℕ) (xs : List ℕ)
    → eqb m n ≡ false
    → holds n (filter (λ x. not (eqb x m)) xs) ≡ holds n xs
unfolding any filter
holds-filter n m [] e = refl
holds-filter n m (x ∷ xs) e =
    ground (arith, holds-filter n m xs e, eqb_iff x m, eqb_iff x n, eqb_iff m n)

or-true : (b : Bool) → (b || true) ≡ true
or-true true = refl
or-true false = refl

or-left : (b c : Bool) → b ≡ true → (b || c) ≡ true
or-left b c e = rw (e) refl

finish_held-IsKept : (s : Source) (m n : ℕ) → IsKept s n → IsKept (finish_held s m) n
unfolding finish_held any
finish_held-IsKept s m n k = elim (Bool-cases (eqb m n)) [
  | inl e ↦ rw (e) (or-true (holds n (filter (λ x. not (eqb x m)) s.live)))
  | inr e ↦ rw (e, holds-filter n m s.live e) k
]

finish_held-holds : (s : Source) (n : ℕ) → IsKept (finish_held s n) n
unfolding finish_held any
finish_held-holds s n =
    rw ((eqb_iff n n).1 refl) (or-true (holds n (filter (λ x. not (eqb x n)) s.live)))

finish_all-IsKept :
    (left : List ℕ) (s : Source) (n : ℕ)
    → IsKept s n ⊎ (holds n left ≡ true)
    → IsKept (finish_all s left) n
unfolding finish_all any
finish_all-IsKept [] s n (inl k) = k
finish_all-IsKept [] s n (inr h) = absurd (cc)
finish_all-IsKept (m ∷ left) s n (inl k) =
    finish_all-IsKept left (finish_held s m) n (inl (finish_held-IsKept s m n k))
finish_all-IsKept (m ∷ left) s n (inr h) = elim (Bool-cases (eqb m n)) [
  | inl e ↦
      let same = (eqb_iff m n).0 e in
      finish_all-IsKept left (finish_held s m) n
        (inl (subst (λ x. IsKept (finish_held s x) n) (sym same) (finish_held-holds s n)))
  | inr e ↦
      finish_all-IsKept left (finish_held s m) n (inr (subst (λ b. (b || holds n left) ≡ true) e h))
]

release-IsKept : (s : Source) (n : ℕ) → IsKept s n → IsKept (release s) n
unfolding release any
release-IsKept s n k = elim (Bool-cases (holds n s.live)) [
  | inl e ↦ finish_all-IsKept s.live _ n (inr e)
  | inr e ↦ finish_all-IsKept s.live _ n (inl (subst (λ b. (b || holds n s.finished) ≡ true) e k))
]

offer-IsKept : (s : Source) (m n : ℕ) → IsKept s n → IsKept (offer s m) n
unfolding offer any
offer-IsKept s m n k = go s.consuming (holds n s.live) refl
  where
    go :
        (b x : Bool)
        → holds n s.live ≡ x
        → IsKept
            (if not b
              then finish_one s m
              else record s { queue = s.queue ++ m ∷ []; live = s.live ++ m ∷ [] })
            n
    go true true e = rw (holds-append n s.live (m ∷ []), e) refl
    go true false e =
        rw (holds-append n s.live (m ∷ []), e)
          (rw (subst (λ b. (b || holds n s.finished) ≡ true) e k) (or-true (eqb m n || false)))
    go false true e = rw (e) refl
    go false false e = rw (e, subst (λ b. (b || holds n s.finished) ≡ true) e k) (or-true (eqb m n))

offer-holds : (s : Source) (n : ℕ) → IsKept (offer s n) n
unfolding offer any
offer-holds s n = go s.consuming
  where
    here : eqb n n ≡ true
    here = (eqb_iff n n).1 refl

    go :
        (b : Bool)
        → IsKept
            (if not b
              then finish_one s n
              else record s { queue = s.queue ++ n ∷ []; live = s.live ++ n ∷ [] })
            n
    go true =
        rw (holds-append n s.live (n ∷ []), here)
          (or-left _ (holds n s.finished) (or-true (holds n s.live)))
    go false = rw (here) (or-true (holds n s.live))

-- With no consumer nothing is held.
abbrev Quiet : Bool → List ℕ → Type 0
Quiet true live = Unit
Quiet false live = live ≡ []

finish_held-Quiet :
    (s : Source) (n : ℕ) (b : Bool) → Quiet b s.live → Quiet b (finish_held s n).live
unfolding finish_held filter
finish_held-Quiet s n true q = tt
finish_held-Quiet s n false q = rw (q) refl

finish_all-Quiet : (left : List ℕ) (s : Source) → s.live ≡ [] → (finish_all s left).live ≡ []
unfolding finish_all
finish_all-Quiet [] s q = q
finish_all-Quiet (n ∷ left) s q =
    finish_all-Quiet left (finish_held s n) (finish_held-Quiet s n false q)

Quiet-empty : (b : Bool) (live : List ℕ) → live ≡ [] → Quiet b live
Quiet-empty true live q = tt
Quiet-empty false live q = q

move-Quiet :
    (s : Source) (m : Move) → Quiet s.consuming s.live → Quiet (move s m).consuming (move s m).live
unfolding move offer consume release
move-Quiet s (offers n) q = go s.consuming refl q
  where
    go :
        (b : Bool)
        → s.consuming ≡ b
        → Quiet b s.live
        → Quiet
            (if not b
              then finish_one s n
              else record s { queue = s.queue ++ n ∷ []; live = s.live ++ n ∷ [] }).consuming
            (if not b
              then finish_one s n
              else record s { queue = s.queue ++ n ∷ []; live = s.live ++ n ∷ [] }).live
    go true e q = rw (e) tt
    go false e q = rw (e) q
move-Quiet s (ends n) q = unfold finish_held in finish_held-Quiet s n s.consuming q
move-Quiet s consumes q = go s.consuming refl q
  where
    go :
        (b : Bool)
        → s.consuming ≡ b
        → Quiet b s.live
        → Quiet (consume_when b s).1.consuming (consume_when b s).1.live
    go true e q = rw (e) tt
    go false e q = tt
move-Quiet s closes q = Quiet-empty _ _ (finish_all-Quiet s.live _ refl)
move-Quiet s takes q = q

move-IsKept : (s : Source) (m : Move) (n : ℕ) → IsKept s n → IsKept (move s m) n
unfolding move consume
move-IsKept s (offers m) n k = offer-IsKept s m n k
move-IsKept s (ends m) n k = finish_held-IsKept s m n k
move-IsKept s consumes n k = go s.consuming
  where
    go : (b : Bool) → IsKept (consume_when b s).1 n
    go true = k
    go false = k
move-IsKept s closes n k = release-IsKept s n k
move-IsKept s takes n k = k

All-move : (s : Source) (m : Move) (ns : List ℕ) → All (IsKept s) ns → All (IsKept (move s m)) ns
All-move s m [] h = tt
All-move s m (n ∷ ns) h = (move-IsKept s m n h.0, All-move s m ns h.1)

moves-IsKept :
    (ms : List Move) (s : Source) (ns : List ℕ)
    → All (IsKept s) ns
    → Quiet s.consuming s.live
    → All (IsKept (moves s ms)) (offered ns ms) × Quiet (moves s ms).consuming (moves s ms).live
unfolding moves offered move
moves-IsKept [] s ns h q = (h, q)
moves-IsKept (offers n ∷ ms) s ns h q =
    moves-IsKept ms (move s (offers n)) (n ∷ ns) (offer-holds s n, All-move s (offers n) ns h)
      (move-Quiet s (offers n) q)
moves-IsKept (ends n ∷ ms) s ns h q =
    moves-IsKept ms (move s (ends n)) ns (All-move s (ends n) ns h) (move-Quiet s (ends n) q)
moves-IsKept (consumes ∷ ms) s ns h q =
    moves-IsKept ms (move s consumes) ns (All-move s consumes ns h) (move-Quiet s consumes q)
moves-IsKept (closes ∷ ms) s ns h q =
    moves-IsKept ms (move s closes) ns (All-move s closes ns h) (move-Quiet s closes q)
moves-IsKept (takes ∷ ms) s ns h q =
    moves-IsKept ms (move s takes) ns (All-move s takes ns h) (move-Quiet s takes q)

All-finished :
    (s : Source) (ns : List ℕ)
    → s.live ≡ []
    → All (IsKept s) ns
    → All (λ n. holds n s.finished ≡ true) ns
unfolding any
All-finished s [] q h = tt
All-finished s (n ∷ ns) q h =
    (subst (λ live. (holds n live || holds n s.finished) ≡ true) q h.0, All-finished s ns q h.1)

-- Whatever happens to a source from its start, once no router consumes it, each traversal that was
-- offered has been finished: the platform waits for none of them, neither those that came with no router,
-- nor those that a router left in the queue or took and did not finish.
pub moves-finished :
    (ms : List Move)
    → (moves new_source ms).consuming ≡ false
    → All (λ n. holds n (moves new_source ms).finished ≡ true) (offered [] ms)
moves-finished ms idle =
    let kept = moves-IsKept ms new_source [] tt refl in
    All-finished (moves new_source ms) (offered [] ms)
      (subst (λ b. Quiet b (moves new_source ms).live) idle kept.1) kept.0
