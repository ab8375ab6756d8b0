-- ===== src/Display/Coherent.antt =====
-- What the display shows is its base with its overlays applied, after every event.
use effect_frame.Base.{
  ℕ, suc, ◌≡◌, refl, sym, ap, ◌∙◌, Bool, true, false, Option, some, List, [], ◌∷◌, map, String,
  ◌==◌, length, if◌then◌else◌, Option-cases, Bool-cases, inl, inr,
}
use effect_frame.Vocabulary.{Committed, Revision, committed, provisional}
use effect_frame.Display.{
  Log, Overlay, committed_shown, replay, shown_of, rebuild, incorporate, update_overlay, update,
  initial, on_predict, on_release, on_admit, on_receipt, recorded, Event, offers, predicts,
  releases, admits, receives, apply, display,
}
use effect_frame.Display.Moves.{Chain, Chain-keeps, offer-Chain, reoffer-Chain}

module _ {State Message : Type 0} (predict : State → Message → Option State) where
  -- Every overlay's prediction succeeds in turn, from the first state to the last.
  abbrev pub Applies : State → List (Overlay State Message) → State → Type 0
  Applies s [] t = s ≡ t
  Applies s (o ∷ os) t = (next : State) × (predict s o.message ≡ some next) × Applies next os t

  abbrev pub numbered_by : ℕ → List (Overlay State Message) → Revision
  numbered_by base [] = committed base
  numbered_by base (o ∷ os) = provisional base (suc (length os))

  -- The shown state is the base with all overlays applied in order. It is numbered as committed when
  -- there is none, and otherwise by the base's revision and the number of overlays.
  pub record Shows (log : Log State Message) : Type 0 where
    pub applied : Applies log.base.state log.overlays log.shown.state
    pub numbered : log.shown.revision ≡ numbered_by log.base.revision log.overlays

  replay-Applies :
      (s : State) (os : List (Overlay State Message))
      → Applies s (replay predict s os).kept (replay predict s os).state
  unfolding replay
  replay-Applies s [] = refl
  replay-Applies s (o ∷ os) = elim (Option-cases (predict s o.message)) [
    | inl e ↦ rw (e, replay) (replay-Applies s os)
    | inr (next, e) ↦ rw (e, replay) (next, e, replay-Applies next os)
  ]

  shown_of-Applies :
      (base : Committed State) (t : State) (os : List (Overlay State Message)) (ids : List String)
      → Applies base.state os t
      → let shown = shown_of predict base (record { state = t; kept = os; dropped = ids }) in
        Applies base.state os shown.state × (shown.revision ≡ numbered_by base.revision os)
  unfolding shown_of committed_shown
  shown_of-Applies base t [] ids a = (refl, refl)
  shown_of-Applies base t (o ∷ os) ids a = (a, refl)

  rebuild-Shows :
      (log : Log State Message) (base : Committed State) (os : List (Overlay State Message))
      → Shows (rebuild predict log base os)
  unfolding rebuild
  rebuild-Shows log base os =
      let run = replay predict base.state os in
      let (a, n) =
        shown_of-Applies base run.state run.kept run.dropped (replay-Applies base.state os) in
      record { applied = a; numbered = n }

  Chain-Shows : {l m : Log State Message} → Chain predict l m → Shows l → Shows m
  Chain-Shows =
      Chain-keeps predict Shows (λ l h s. record { applied = s.applied; numbered = s.numbered })
        (λ l c lt known s. rebuild-Shows _ c _)

  -- A change that leaves the message alone changes no replay.
  Applies-map :
      (f : Overlay State Message → Overlay State Message)
      → ((o : Overlay State Message) → (f o).message ≡ o.message)
      → (s t : State) (os : List (Overlay State Message)) → Applies s os t
      → Applies s (map f os) t
  Applies-map f same s t [] a = a
  Applies-map f same s t (o ∷ os) (next, p, a) =
      (next, ap (predict s) (same o) ∙ p, Applies-map f same next t os a)

  length-map :
      (f : Overlay State Message → Overlay State Message) (os : List (Overlay State Message))
      → length (map f os) ≡ length os
  length-map f [] = refl
  length-map f (o ∷ os) = ap suc (length-map f os)

  numbered_by-map :
      (f : Overlay State Message → Overlay State Message) (n : ℕ)
      (os : List (Overlay State Message))
      → numbered_by n (map f os) ≡ numbered_by n os
  numbered_by-map f n [] = refl
  numbered_by-map f n (o ∷ os) = ap (λ k. provisional n (suc k)) (length-map f os)

  update_overlay-Shows :
      (log : Log State Message) (id : String) (f : Overlay State Message → Overlay State Message)
      → ((o : Overlay State Message) → (f o).message ≡ o.message)
      → Shows log
      → Shows (update_overlay log id f)
  unfolding update_overlay
  update_overlay-Shows log id f same s = record {
    applied = Applies-map _ at log.base.state log.shown.state log.overlays s.applied;
    numbered = s.numbered ∙ sym (numbered_by-map _ log.base.revision log.overlays);
  }
    where
      at : (o : Overlay State Message) → (if o.command_id == id then f o else o).message ≡ o.message
      at o = elim (Bool-cases (o.command_id == id)) [ inl e ↦ rw e (same o) | inr e ↦ rw e refl ]

  if-Shows : (b : Bool) (l m : Log State Message) → Shows l → Shows m → Shows (if b then l else m)
  if-Shows true l m p q = p
  if-Shows false l m p q = q

  incorporate-Shows : (log : Log State Message) → Shows log → Shows (incorporate predict log)
  unfolding incorporate
  incorporate-Shows log s = if-Shows _ log _ s (rebuild-Shows log log.base _)

  release-Shows :
      (id : String) (log : Log State Message) → Shows log → Shows (on_release predict id log)
  unfolding on_release
  release-Shows id log s =
      if-Shows _ log _ s (Chain-Shows (reoffer-Chain predict _) (rebuild-Shows log log.base _))

  apply-Shows :
      (e : Event State Message) (log : Log State Message) → Shows log → Shows (apply predict e log)
  unfolding apply on_predict on_admit on_receipt recorded
  apply-Shows (offers c) log s = Chain-Shows (offer-Chain predict log c) s
  apply-Shows (predicts id message) log s = rebuild-Shows log log.base _
  apply-Shows (releases id) log s = release-Shows id log s
  apply-Shows (admits id position) log s =
      Chain-Shows (reoffer-Chain predict _) (update_overlay-Shows log id _ (λ o. refl) s)
  apply-Shows (receives id position done) log s = Chain-Shows (reoffer-Chain predict _) (
      incorporate-Shows _ (
        update_overlay-Shows (record log { anchor = _ }) id _ (λ o. refl)
          (record { applied = s.applied; numbered = s.numbered })))

  display-Shows :
      (es : List (Event State Message)) (log : Log State Message)
      → Shows log
      → Shows (display predict log es)
  unfolding display update
  display-Shows [] log s = s
  display-Shows (e ∷ es) log s =
      let next =
        apply-Shows e (record log { dropped = [] })
          (record { applied = s.applied; numbered = s.numbered }) in
      display-Shows es _ (record { applied = next.applied; numbered = next.numbered })

  -- After any sequence of offers, predictions, releases, admissions and receipts, the display shows
  -- its base with all of its overlays applied in order: a committed value when it has no overlay, and
  -- otherwise a provisional one whose base and depth are the base's revision and the overlay count.
  pub display-initial-Shows :
      (base : Committed State) (es : List (Event State Message))
      → Shows (display predict (initial predict base) es)
  unfolding initial committed_shown
  display-initial-Shows base es = display-Shows es _ (record { applied = refl; numbered = refl })
