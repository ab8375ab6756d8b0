-- ===== src/Display/Moves.antt =====
-- How an offer moves the log: it holds a candidate, or it advances the base. The recursion of
-- `offer` is two calls deep at most.
use effect_frame.Base.{
  ℕ, ◌<◌, ◌≡◌, refl, sym, ap, subst, false, Option, none, some, List, [], ◌∷◌, ◌++◌, leb, arith,
  any, if◌then◌else◌, Bool-cases, inl, inr,
}
use mathlib.Core.List.{foldl, flat_map}
use effect_frame.Vocabulary.{Committed}
use effect_frame.Display.{
  Log, memberships, is_unknown, outside, rebuild, offer_held, offer_step, offer, reoffer, greatest,
  sort_newest, to_array,
}

ltb_of_leb : (a b : ℕ) → leb a b ≡ false → b < a
ltb_of_leb a b h = ground arith

module _ {State Message : Type 0} (predict : State → Message → Option State) where
  abbrev pub advanced : Log State Message → Committed State → Log State Message
  advanced log c = rebuild predict (record log { held = none }) c (outside predict log c.revision)

  -- One step of an offer.
  pub data Moves (l m : Log State Message) : Type 0 where
    holds : (h : Option (Committed State)) → m ≡ record l { held = h } → Moves l m
    advances :
        (c : Committed State)
        → l.base.revision < c.revision
        → any is_unknown (memberships predict l c.revision) ≡ false
        → m ≡ advanced l c
        → Moves l m

  pub data Chain : Log State Message → Log State Message → Type 0 where
    done : (l : Log State Message) → Chain l l
    more : (l k m : Log State Message) → Moves l k → Chain k m → Chain l m

  pub Chain-trans :
      (n : Log State Message) {l m : Log State Message} → Chain l m → Chain m n → Chain l n
  Chain-trans n (done l) d = d
  Chain-trans n (more l k m s c) d = more l k n s (Chain-trans n c d)

  -- What each move keeps, a chain keeps.
  pub Chain-keeps {ℓ} :
      (P : Log State Message → Type ℓ)
      → ((l : Log State Message) (h : Option (Committed State)) → P l → P (record l { held = h }))
      → ((l : Log State Message) (c : Committed State)
          → l.base.revision < c.revision
          → any is_unknown (memberships predict l c.revision) ≡ false
          → P l
          → P (advanced l c))
      → {l m : Log State Message} → Chain l m
      → P l
      → P m
  Chain-keeps P hold advance (done l) p = p
  Chain-keeps P hold advance (more l k m (holds h e) c) p =
      Chain-keeps P hold advance c (subst P (sym e) (hold l h p))
  Chain-keeps P hold advance (more l k m (advances d lt known e) c) p =
      Chain-keeps P hold advance c (subst P (sym e) (advance l d lt known p))

  offer_step-Chain :
      (again : Log State Message → Committed State → Log State Message)
      → ((l : Log State Message) (c : Committed State) → l.held ≡ none → Chain l (again l c))
      → (l : Log State Message) (c : Committed State) → Chain l (offer_step predict again l c)
  unfolding offer_step
  offer_step-Chain again rest l c = elim (Bool-cases (leb c.revision l.base.revision)) [
    | inl old ↦ rw old (done l)
    | inr new ↦ rw new (elim (Bool-cases (any is_unknown (memberships predict l c.revision))) [
      | inl open_now ↦ rw open_now (more l _ _ (holds (some (greatest l.held c)) refl) (done _))
      | inr known ↦ rw known (step l.held (ltb_of_leb _ _ new) known)
    ])
  ]
    where
      step :
          (h : Option (Committed State))
          → l.base.revision < c.revision
          → any is_unknown (memberships predict l c.revision) ≡ false
          → Chain l (offer_held predict again h (advanced l c))
      step none lt known = more l _ _ (advances c lt known refl) (done _)
      step (some h) lt known =
          more l _ _ (advances c lt known refl) (rest (advanced l c) h (unfold rebuild in refl))

  module _ (f g : Log State Message → Committed State → Log State Message) (l : Log State Message)
      (c : Committed State) where
    offer_step-tail :
        offer_held predict f l.held (advanced l c) ≡ offer_held predict g l.held (advanced l c)
        → offer_step predict f l c ≡ offer_step predict g l c
    unfolding offer_step
    offer_step-tail = ap λ h.
        if leb c.revision l.base.revision
        then l
        else if any is_unknown (memberships predict l c.revision)
        then record l { held = some (greatest l.held c) }
        else h

    -- With nothing held there is no inner call.
    offer_step-again : l.held ≡ none → offer_step predict f l c ≡ offer_step predict g l c
    offer_step-again e = offer_step-tail (
        subst (λ h. offer_held predict f h (advanced l c) ≡ offer_held predict g h (advanced l c))
          (sym e) refl)

  -- `offer` satisfies the recursive equation by which the source defines it, so its recursion ends:
  -- the call that it makes of itself finds nothing held.
  offer_lem :
      (l : Log State Message) (c : Committed State)
      → offer predict l c ≡ offer_step predict (offer predict) l c
  unfolding offer rebuild
  offer_lem l c = offer_step-tail _ _ l c (tail l.held)
    where
      tail :
          (h : Option (Committed State))
          → offer_held predict (offer_step predict (λ log _. log)) h (advanced l c)
            ≡ offer_held predict (offer predict) h (advanced l c)
      tail none = refl
      tail (some h) =
          offer_step-again (λ log _. log) (offer_step predict (λ log _. log)) (advanced l c) h refl

  pub offer-Chain : (l : Log State Message) (c : Committed State) → Chain l (offer predict l c)
  unfolding offer
  offer-Chain = offer_step-Chain _ (λ l c e. offer_step-Chain _ (λ k d f. done k) l c)

  pub foldl-offer-Chain :
      (l : Log State Message) (cs : List (Committed State)) → Chain l (foldl (offer predict) l cs)
  foldl-offer-Chain l [] = done l
  foldl-offer-Chain l (c ∷ cs) =
      Chain-trans _ (offer-Chain l c) (foldl-offer-Chain (offer predict l c) cs)

  abbrev candidates : Log State Message → List (Committed State)
  candidates l = sort_newest (to_array l.held ++ flat_map (λ o. to_array o.exact) l.overlays)

  pub reoffer-Chain : (l : Log State Message) → Chain l (reoffer predict l)
  unfolding reoffer
  reoffer-Chain l =
      more l _ _ (holds none refl) (foldl-offer-Chain (record l { held = none }) (candidates l))
