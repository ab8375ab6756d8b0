-- ===== src/Display/Exact.antt =====
-- Under true evidence the overlays of a display are exactly commands that its base does not hold.
use effect_frame.Base.{
  ℕ, ◌≡◌, refl, ap, ◌∙◌, Bool, true, false, Option, none, some, List, [], ◌∷◌, map, String, ◌==◌,
  eq_iff, filter, All, All-append, leb, if◌then◌else◌, Option-cases, Bool-cases, inl, inr,
}
use effect_frame.Vocabulary.{Committed}
use effect_frame.Display.{
  Log, Overlay, Anchor, Membership, included, excluded, unknown, membership, is_excluded, outside,
  replay, rebuild, incorporate, update_overlay, update, initial, or_else, on_predict, on_release,
  on_admit, on_receipt, recorded, anchored, Event, offers, predicts, releases, admits, receives,
  apply, display,
}
use effect_frame.Display.Moves.{Chain, Chain-keeps, offer-Chain, reoffer-Chain}
use effect_frame.Display.Truth.{
  Serial, InBase, IsTrueAnchor, IsTruePosition, IsExact, membership_sound,
}

All-filter_of {ℓ κ ι} :
    {A : Type ℓ} (P : A → Type κ) (Q : A → Type ι) (p : A → Bool) (xs : List A)
    → ((a : A) → P a → p a ≡ true → Q a)
    → All P xs
    → All Q (filter p xs)
unfolding filter
All-filter_of P Q p [] f h = tt
All-filter_of P Q p (x ∷ xs) f h = elim (Bool-cases (p x)) [
  | inl e ↦ rw e (f x h.0 e, All-filter_of P Q p xs f h.1)
  | inr e ↦ rw e (All-filter_of P Q p xs f h.1)
]

All-map {ℓ κ} :
    {A : Type ℓ} (P : A → Type κ) (f : A → A) (xs : List A)
    → ((a : A) → P a → P (f a))
    → All P xs
    → All P (map f xs)
All-map P f [] keeps h = tt
All-map P f (x ∷ xs) keeps h = (keeps x h.0, All-map P f xs keeps h.1)

excluded_of : (m : Membership) → is_excluded m ≡ true → m ≡ excluded
excluded_of included h = cc
excluded_of excluded h = refl
excluded_of unknown h = cc

module _ (truth : Serial) {State Message : Type 0} (predict : State → Message → Option State) where
  pub record IsTrue (log : Log State Message) : Type 0 where
    pub overlays : All (IsExact truth log.base.revision) log.overlays
    pub anchor : IsTrueAnchor truth log.anchor

  All-kept {ℓ} :
      (P : Overlay State Message → Type ℓ) (s : State) (os : List (Overlay State Message))
      → All P os
      → All P (replay predict s os).kept
  unfolding replay
  All-kept P s [] h = tt
  All-kept P s (o ∷ os) h = elim (Option-cases (predict s o.message)) [
    | inl e ↦ rw (e, replay) (All-kept P s os h.1)
    | inr (next, e) ↦ rw (e, replay) (h.0, All-kept P next os h.1)
  ]

  pub rebuild-IsTrue :
      (log : Log State Message) (base : Committed State) (os : List (Overlay State Message))
      → All (IsExact truth base.revision) os
      → IsTrueAnchor truth log.anchor
      → IsTrue (rebuild predict log base os)
  unfolding rebuild
  rebuild-IsTrue log base os h a = record {
    overlays = All-kept (IsExact truth base.revision) base.state os h;
    anchor = a;
  }

  pub outside-IsExact :
      (log : Log State Message) (n : ℕ) → IsTrue log → All (IsExact truth n) (outside predict log n)
  outside-IsExact log n t =
      All-filter_of (IsExact truth log.base.revision) (IsExact truth n)
        (λ o. is_excluded (membership o n log.anchor)) log.overlays
        (λ o x e. record {
          positioned = x.positioned;
          receipted = x.receipted;
          absent =
              (membership_sound truth o n log.anchor x.positioned x.receipted t.anchor).1
                (excluded_of _ e);
        })
        t.overlays

  pub Chain-IsTrue : {l m : Log State Message} → Chain predict l m → IsTrue l → IsTrue m
  Chain-IsTrue =
      Chain-keeps predict IsTrue (λ l h t. record { overlays = t.overlays; anchor = t.anchor })
        (λ l c lt known t.
          rebuild-IsTrue (record l { held = none }) c _ (outside-IsExact l c.revision t) t.anchor)

  update_overlay-IsTrue :
      (log : Log State Message) (id : String) (f : Overlay State Message → Overlay State Message)
      → ((o : Overlay State Message)
          → o.command_id ≡ id
          → IsExact truth log.base.revision o
          → IsExact truth log.base.revision (f o))
      → IsTrue log
      → IsTrue (update_overlay log id f)
  unfolding update_overlay
  update_overlay-IsTrue log id f keeps t = record {
    overlays = All-map _ _ log.overlays at t.overlays;
    anchor = t.anchor;
  }
    where
      at :
          (o : Overlay State Message)
          → IsExact truth log.base.revision o
          → IsExact truth log.base.revision (if o.command_id == id then f o else o)
      at o x = elim (Bool-cases (o.command_id == id)) [
        | inl e ↦ rw e (keeps o ((eq_iff _ _).0 e) x)
        | inr e ↦ rw e x
      ]

  if-IsTrue :
      (b : Bool) (l m : Log State Message) → IsTrue l → IsTrue m → IsTrue (if b then l else m)
  if-IsTrue true l m p q = p
  if-IsTrue false l m p q = q

  All-filter {ℓ} :
      (P : Overlay State Message → Type ℓ) (p : Overlay State Message → Bool)
      (os : List (Overlay State Message))
      → All P os
      → All P (filter p os)
  All-filter P p os h = All-filter_of P P p os (λ o x _. x) h

  incorporate-IsTrue : (log : Log State Message) → IsTrue log → IsTrue (incorporate predict log)
  unfolding incorporate
  incorporate-IsTrue log t =
      if-IsTrue _ log _ t
        (rebuild-IsTrue log log.base _ (All-filter _ _ log.overlays t.overlays) t.anchor)

  release-IsTrue :
      (id : String) (log : Log State Message) → IsTrue log → IsTrue (on_release predict id log)
  unfolding on_release
  release-IsTrue id log t = if-IsTrue _ log _ t (
      Chain-IsTrue (reoffer-Chain predict _)
        (rebuild-IsTrue log log.base _ (All-filter _ _ log.overlays t.overlays) t.anchor))

  anchored-IsTrueAnchor :
      (id : String) (p : Option ℕ) (n : ℕ) (a : Option Anchor)
      → IsTruePosition truth id p
      → truth.revision id ≡ some n
      → IsTrueAnchor truth a
      → IsTrueAnchor truth (anchored p n a)
  unfolding anchored
  anchored-IsTrueAnchor id none n a here done t = t
  anchored-IsTrueAnchor id (some p) n none here done t = (id, here, done)
  anchored-IsTrueAnchor id (some p) n (some known) here done t =
      elim (Bool-cases (leb p known.admitted)) [ inl e ↦ rw e t | inr e ↦ rw e (id, here, done) ]

  -- What each event reports is so; a command is predicted only while the base does not hold it.
  abbrev pub IsTrueEvent : ℕ → Event State Message → Type 0
  IsTrueEvent base (offers c) = Unit {0}
  IsTrueEvent base (predicts id message) = ¬ InBase truth base id
  IsTrueEvent base (releases id) = Unit {0}
  IsTrueEvent base (admits id p) = truth.position id ≡ some p
  IsTrueEvent base (receives id p done) =
      IsTruePosition truth id p × (truth.revision id ≡ some done.revision)

  IsTruePosition-or_else :
      (id other : String) (p q : Option ℕ)
      → other ≡ id
      → IsTruePosition truth id p
      → IsTruePosition truth other q
      → IsTruePosition truth other (or_else p q)
  IsTruePosition-or_else id other none q e a b = b
  IsTruePosition-or_else id other (some n) q e a b = ap truth.position e ∙ a

  apply-IsTrue :
      (e : Event State Message) (log : Log State Message)
      → IsTrueEvent log.base.revision e
      → IsTrue log
      → IsTrue (apply predict e log)
  unfolding apply on_predict on_admit on_receipt recorded
  apply-IsTrue (offers c) log h t = Chain-IsTrue (offer-Chain predict log c) t
  apply-IsTrue (predicts id message) log h t =
      rebuild-IsTrue log log.base _
        (All-append _ log.overlays _ t.overlays
          (record { positioned = tt; receipted = tt; absent = h }, tt))
        t.anchor
  apply-IsTrue (releases id) log h t = release-IsTrue id log t
  apply-IsTrue (admits id p) log h t = Chain-IsTrue (reoffer-Chain predict _) (
      update_overlay-IsTrue log id _
        (λ o e x. record {
          positioned = ap truth.position e ∙ h;
          receipted = x.receipted;
          absent = x.absent;
        })
        t)
  apply-IsTrue (receives id p done) log h t = Chain-IsTrue (reoffer-Chain predict _) (
      incorporate-IsTrue _ (
        update_overlay-IsTrue (record log { anchor = anchored p done.revision log.anchor }) id _
          (λ o e x. record {
            positioned = IsTruePosition-or_else id o.command_id p o.admitted e h.0 x.positioned;
            receipted = ap truth.revision e ∙ h.1;
            absent = x.absent;
          })
          (record {
            overlays = t.overlays;
            anchor = anchored-IsTrueAnchor id p done.revision log.anchor h.0 h.1 t.anchor;
          })))

  abbrev pub AreTrueEvents : List (Event State Message) → Log State Message → Type 0
  AreTrueEvents [] log = Unit {0}
  AreTrueEvents (e ∷ es) log =
      IsTrueEvent log.base.revision e × AreTrueEvents es (update (apply predict e) log).1

  display-IsTrue :
      (es : List (Event State Message)) (log : Log State Message)
      → AreTrueEvents es log
      → IsTrue log
      → IsTrue (display predict log es)
  unfolding display update
  display-IsTrue [] log h t = t
  display-IsTrue (e ∷ es) log h t =
      let next =
        apply-IsTrue e (record log { dropped = [] }) h.0
          (record { overlays = t.overlays; anchor = t.anchor }) in
      display-IsTrue es _ h.1 (record { overlays = next.overlays; anchor = next.anchor })

  -- Events whose reports are true leave a display whose every overlay is a command that the base does
  -- not hold (so a committed command is never shown twice), with true recorded evidence.
  pub display-initial-IsTrue :
      (base : Committed State) (es : List (Event State Message))
      → AreTrueEvents es (initial predict base)
      → IsTrue (display predict (initial predict base) es)
  display-initial-IsTrue base es h =
      display-IsTrue es (initial predict base) h
        (unfold initial in record { overlays = tt; anchor = tt })
