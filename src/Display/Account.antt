-- ===== src/Display/Account.antt =====
-- An offer never moves the base back, and loses no prediction.
use effect_frame.Base.{
  ℕ, ◌≤◌, ◌<◌, ◌≡◌, ◌≢◌, refl, sym, ap, subst, ◌⊎◌, Bool, true, false, Option, none, List, [], ◌∷◌,
  map, filter, All, any, arith, if◌then◌else◌, Option-cases, Bool-cases, inl, inr,
}
use mathlib.Core.List.{Memᴰ}
use effect_frame.Vocabulary.{Committed}
use effect_frame.Display.{
  Log, Overlay, Membership, included, excluded, unknown, membership, memberships, is_excluded,
  is_unknown, outside, replay, rebuild, offer, Event, offers, predicts, releases, admits, receives,
  apply, update, display, on_predict, on_release, on_admit, on_receipt, recorded, incorporate,
  update_overlay,
}
use effect_frame.Display.Moves.{Chain, Chain-keeps, advanced, offer-Chain, reoffer-Chain}
use effect_frame.Display.Truth.{Serial, InBase, membership_sound, IsExact}
use effect_frame.Display.Exact.{IsTrue, rebuild-IsTrue, outside-IsExact}

mem-filter_of :
    {A : Type 0} (p : A → Bool) (a : A) (xs : List A)
    → Memᴰ a xs
    → p a ≡ true
    → Memᴰ a (filter p xs)
unfolding filter
mem-filter_of p a [] m h = elim m [ ]
mem-filter_of p a (x ∷ xs) (Memᴰ.head e) h = rw (subst (λ y. p y ≡ true) e h) (Memᴰ.head e)
mem-filter_of p a (x ∷ xs) (Memᴰ.tail m) h = elim (Bool-cases (p x)) [
  | inl e ↦ rw e (Memᴰ.tail (mem-filter_of p a xs m h))
  | inr e ↦ rw e (mem-filter_of p a xs m h)
]

any_mem :
    {A B : Type 0} (p : B → Bool) (f : A → B) (a : A) (xs : List A)
    → Memᴰ a xs
    → any p (map f xs) ≡ false
    → p (f a) ≡ false
unfolding any
any_mem p f a [] m h = elim m [ ]
any_mem p f a (x ∷ xs) (Memᴰ.head e) h = subst (λ y. p (f y) ≡ false) (sym e) (ground arith)
any_mem p f a (x ∷ xs) (Memᴰ.tail m) h = any_mem p f a xs m (ground arith)

All_mem {ℓ} : {A : Type 0} (P : A → Type ℓ) (a : A) (xs : List A) → All P xs → Memᴰ a xs → P a
All_mem P a [] h m = elim m [ ]
All_mem P a (x ∷ xs) h (Memᴰ.head e) = subst P (sym e) h.0
All_mem P a (x ∷ xs) h (Memᴰ.tail m) = All_mem P a xs h.1 m

known_cases : (m : Membership) → is_unknown m ≡ false → (m ≡ included) ⊎ (m ≡ excluded)
known_cases included h = inl refl
known_cases excluded h = inr refl
known_cases unknown h = cc

module _ {State Message : Type 0} (predict : State → Message → Option State) where
  -- Every prediction succeeds.
  abbrev pub IsTotal : Type 0
  IsTotal = (s : State) (m : Message) → predict s m ≢ none

  kept-total :
      IsTotal → (s : State) (os : List (Overlay State Message)) → (replay predict s os).kept ≡ os
  unfolding replay
  kept-total total s [] = refl
  kept-total total s (o ∷ os) = elim (Option-cases (predict s o.message)) [
    | inl e ↦ absurd (total s o.message e)
    | inr (next, e) ↦ rw (e, replay) (ap (λ l. o ∷ l) (kept-total total next os))
  ]

  module _ (truth : Serial) (total : IsTotal) (log : Log State Message) where
    -- Each overlay of `log` is still in `m`, or its command is in the base of `m`.
    abbrev pub Accounts : Log State Message → Type 0
    Accounts m =
        (o : Overlay State Message)
        → Memᴰ o log.overlays
        → Memᴰ o m.overlays ⊎ InBase truth m.base.revision o.command_id

    abbrev Carried : Log State Message → Type 0
    Carried m = IsTrue truth predict m × Accounts m

    advanced-Accounts :
        (l : Log State Message) (c : Committed State)
        → l.base.revision < c.revision
        → any is_unknown (memberships predict l c.revision) ≡ false
        → Carried l
        → Accounts (advanced predict l c)
    unfolding rebuild
    advanced-Accounts l c lt known (t, acc) o m = elim (acc o m) [
      | inr (n, e, le) ↦ inr (n, e, omega arith)
      | inl still ↦
          elim (known_cases (membership o c.revision l.anchor)
            (any_mem is_unknown (λ x. membership x c.revision l.anchor) o l.overlays still known)) [
              | inl e ↦
                  let x = All_mem (IsExact truth l.base.revision) o l.overlays t.overlays still in
                  inr (
                    (membership_sound truth o c.revision l.anchor x.positioned x.receipted
                        t.anchor).0
                      e)
              | inr e ↦ inl (
                  subst (Memᴰ o) (sym (kept-total total c.state (outside predict l c.revision)))
                    (mem-filter_of _ o l.overlays still (ap is_excluded e)))
            ]
    ]

    -- With true evidence and predictions that succeed, an offer loses no prediction: each overlay is
    -- still there after it, or the new base holds its command.
    pub offer-Accounts :
        (c : Committed State) (o : Overlay State Message)
        → IsTrue truth predict log
        → Memᴰ o log.overlays
        → Memᴰ o (offer predict log c).overlays
          ⊎ InBase truth (offer predict log c).base.revision o.command_id
    offer-Accounts c o t =
        (Chain-keeps predict Carried
            (λ l h x. (record { overlays = x.0.overlays; anchor = x.0.anchor }, x.1))
            (λ l d lt known x. (
              rebuild-IsTrue truth predict (record l { held = none }) d _
                  (outside-IsExact truth predict l d.revision x.0) x.0.anchor,
              advanced-Accounts l d lt known x,
            ))
            (offer-Chain predict log c) (t, λ d m. inl m)).1
          o

  module _ (n : ℕ) where
    abbrev Reached : Log State Message → Type 0
    Reached l = n ≤ l.base.revision

    Chain-Reached : {l m : Log State Message} → Chain predict l m → Reached l → Reached m
    unfolding rebuild
    Chain-Reached = Chain-keeps predict Reached (λ l h r. r) (λ l c lt known r. omega arith)

    if-Reached :
        (b : Bool) (l m : Log State Message) → Reached l → Reached m → Reached (if b then l else m)
    if-Reached true l m p q = p
    if-Reached false l m p q = q

    apply-Reached :
        (e : Event State Message) (l : Log State Message) → Reached l → Reached (apply predict e l)
    unfolding apply on_predict on_release on_admit on_receipt incorporate recorded update_overlay
        rebuild
    apply-Reached (offers c) l r = Chain-Reached (offer-Chain predict l c) r
    apply-Reached (predicts id message) l r = r
    apply-Reached (releases id) l r = if-Reached _ l _ r (Chain-Reached (reoffer-Chain predict _) r)
    apply-Reached (admits id p) l r = Chain-Reached (reoffer-Chain predict _) r
    apply-Reached (receives id p done) l r =
        Chain-Reached (reoffer-Chain predict _) (if-Reached _ _ _ r r)

    display-Reached :
        (es : List (Event State Message)) (l : Log State Message)
        → Reached l
        → Reached (display predict l es)
    unfolding display update
    display-Reached [] l r = r
    display-Reached (e ∷ es) l r =
        display-Reached es _ (apply-Reached e (record l { dropped = [] }) r)

  -- No sequence of events takes the base of a display back to an older revision.
  base-le-display :
      (es : List (Event State Message)) (log : Log State Message)
      → log.base.revision ≤ (display predict log es).base.revision
  base-le-display es log = display-Reached log.base.revision es log (omega arith)
