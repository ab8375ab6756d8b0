-- ===== src/Display.antt =====
-- packages/effect-frame/src/actor/provisional.ts: what a remote reference shows while commands that
-- it predicted are not yet in the committed base. `predict` is application code: a parameter, with
-- `none` for a prediction that throws. One `SubscriptionRef.modify` is one update of the log.
pub mod Moves
pub mod Coherent
pub mod Truth
pub mod Exact
pub mod Account
pub mod Serial
pub mod Tests
use effect_frame.Base.{
  ℕ, suc, ◌≡◌, Bool, true, false, not, ◌||◌, Option, none, some, List, [], ◌∷◌, ◌++◌, map, String,
  ◌==◌, eqb, leb, ltb, if◌then◌else◌, any, filter, length,
}
use mathlib.Core.List.{foldl, flat_map}
use effect_frame.Vocabulary.{Committed, Revision, committed, provisional, Displayed}

-- The admission position of a command and the revision that it committed.
pub record Anchor : Type 0 where
  pub admitted : ℕ
  pub revision : ℕ

-- One predicted command that the committed base does not hold yet.
pub record Overlay (State Message : Type 0) : Type 0 where
  pub command_id : String
  pub message : Message
  pub admitted : Option ℕ
  pub exact : Option (Committed State)

pub record Log (State Message : Type 0) : Type 0 where
  pub base : Committed State
  pub held : Option (Committed State)
  pub overlays : List (Overlay State Message)
  pub anchor : Option Anchor
  pub shown : Displayed State
  pub dropped : List String

pub data Membership : Type 0 where
  included excluded unknown : Membership

-- What the newest anchor says of an admission position.
unfoldable pub placed_by : ℕ → ℕ → Anchor → Membership
placed_by position revision known =
    if ltb revision known.revision
    then (if leb known.admitted position then excluded else unknown)
    else (if leb position known.admitted
        then included
        else if eqb known.revision revision
        then excluded
        else unknown)

abbrev pub placed : Option ℕ → ℕ → Option Anchor → Membership
placed none revision anchor = unknown
placed (some position) revision none = unknown
placed (some position) revision (some known) = placed_by position revision known

abbrev pub is_unknown : Membership → Bool
is_unknown unknown = true
is_unknown included = false
is_unknown excluded = false

abbrev pub is_excluded : Membership → Bool
is_excluded excluded = true
is_excluded included = false
is_excluded unknown = false

abbrev pub is_included : Membership → Bool
is_included included = true
is_included excluded = false
is_included unknown = false

abbrev pub is_some {ℓ} : {A : Type ℓ} → Option A → Bool
is_some none = false
is_some (some a) = true

abbrev pub to_array {ℓ} : {A : Type ℓ} → Option A → List A
to_array none = []
to_array (some a) = a ∷ []

abbrev pub or_else {ℓ} : {A : Type ℓ} → Option A → Option A → Option A
or_else none b = b
or_else (some a) b = some a

-- The anchor keeps the greatest admission position seen.
unfoldable pub anchored : Option ℕ → ℕ → Option Anchor → Option Anchor
anchored none revision anchor = anchor
anchored (some position) revision none = some (record { admitted = position; revision = revision })
anchored (some position) revision (some known) =
    if leb position known.admitted
    then some known
    else some (record { admitted = position; revision = revision })

module _ {State Message : Type 0} where
  -- Whether a committed revision holds one predicted command: its own receipt decides, or else the
  -- newest anchor does.
  unfoldable pub membership : Overlay State Message → ℕ → Option Anchor → Membership
  membership overlay revision anchor = elim overlay.exact [
    | some exact ↦ if leb exact.revision revision then included else excluded
    | none ↦ placed overlay.admitted revision anchor
  ]

  unfoldable pub update_overlay :
      Log State Message
      → String
      → (Overlay State Message → Overlay State Message)
      → Log State Message
  update_overlay log id change = record log {
    overlays =
        map (λ overlay. if overlay.command_id == id then change overlay else overlay) log.overlays;
  }

  -- One serialized update: it starts with no dropped entries and hands on those it drops.
  unfoldable pub update :
      (Log State Message → Log State Message) → Log State Message → List String × Log State Message
  update step current =
      let next = step (record current { dropped = [] }) in
      (next.dropped, record next { dropped = [] })

module _ {State : Type 0} where
  unfoldable pub committed_shown : Committed State → Displayed State
  committed_shown base = record { revision = committed base.revision; state = base.state }

  unfoldable pub greatest : Option (Committed State) → Committed State → Committed State
  greatest none candidate = candidate
  greatest (some current) candidate =
      if ltb candidate.revision current.revision then current else candidate

  -- `toSorted` by falling revision. The sort is stable, so an element goes before its equals.
  unfoldable pub insert_newest : Committed State → List (Committed State) → List (Committed State)
  insert_newest c [] = c ∷ []
  insert_newest c (d ∷ ds) =
      if ltb c.revision d.revision then d ∷ insert_newest c ds else c ∷ d ∷ ds

  unfoldable pub sort_newest : List (Committed State) → List (Committed State)
  unfolding insert_newest
  sort_newest [] = []
  sort_newest (c ∷ cs) = insert_newest c (sort_newest cs)

-- What the loop of `rebuild` has computed: the state, the overlays kept and the entries dropped.
pub record Replayed (State Message : Type 0) : Type 0 where
  pub state : State
  pub kept : List (Overlay State Message)
  pub dropped : List String

abbrev pub keep :
    {State Message : Type 0}
    → Overlay State Message
    → Replayed State Message
    → Replayed State Message
keep overlay rest = record rest { kept = overlay ∷ rest.kept }

abbrev pub drop :
    {State Message : Type 0} → String → Replayed State Message → Replayed State Message
drop id rest = record rest { dropped = id ∷ rest.dropped }

module _ {State Message : Type 0} (predict : State → Message → Option State) where
  -- The loop of `rebuild`: a prediction that throws drops its entry, and the rest goes on without it.
  unfoldable pub replay : State → List (Overlay State Message) → Replayed State Message
  replay state [] = record { state = state; kept = []; dropped = [] }
  replay state (overlay ∷ overlays) = elim (predict state overlay.message) [
    | some next ↦ keep overlay (replay next overlays)
    | none ↦ drop overlay.command_id (replay state overlays)
  ]

  -- The base alone, or the state that the kept overlays lead to.
  unfoldable pub shown_of : Committed State → Replayed State Message → Displayed State
  shown_of base run = elim run.kept [
    | [] ↦ committed_shown base
    | _ ∷ _ ↦ record { revision = provisional base.revision (length run.kept); state = run.state }
  ]

  unfoldable pub rebuild :
      Log State Message → Committed State → List (Overlay State Message) → Log State Message
  rebuild log base overlays =
      let run = replay base.state overlays in
      record log {
        base = base;
        overlays = run.kept;
        shown = shown_of base run;
        dropped = log.dropped ++ run.dropped;
      }

  abbrev pub memberships : Log State Message → ℕ → List Membership
  memberships log revision = map (λ o. membership o revision log.anchor) log.overlays

  -- The overlays that stay: those the candidate does not hold.
  abbrev pub outside : Log State Message → ℕ → List (Overlay State Message)
  outside log revision = filter (λ o. is_excluded (membership o revision log.anchor)) log.overlays

  -- A newer held state may be classifiable over the new base.
  abbrev pub offer_held :
      (Log State Message → Committed State → Log State Message)
      → Option (Committed State)
      → Log State Message
      → Log State Message
  offer_held again none advanced = advanced
  offer_held again (some held) advanced = again advanced held

  -- `offer` with `again` for its call of itself.
  unfoldable pub offer_step :
      (Log State Message → Committed State → Log State Message)
      → Log State Message
      → Committed State
      → Log State Message
  offer_step again log candidate =
      if leb candidate.revision log.base.revision
      then log
      else if any is_unknown (memberships log candidate.revision)
      then record log { held = some (greatest log.held candidate) }
      else offer_held again log.held
          (rebuild (record log { held = none }) candidate (outside log candidate.revision))

  -- The inner call has nothing held, so it never calls again.
  unfoldable pub offer : Log State Message → Committed State → Log State Message
  unfolding offer_step
  offer = offer_step (offer_step (λ log _. log))

  unfoldable pub reoffer : Log State Message → Log State Message
  reoffer log =
      foldl offer (record log { held = none })
        (sort_newest (to_array log.held ++ flat_map (λ o. to_array o.exact) log.overlays))

  -- Drops every overlay whose own receipt the base already holds.
  unfoldable pub incorporate : Log State Message → Log State Message
  incorporate log =
      let overlays =
        filter (λ o. not (is_included (membership o log.base.revision none))) log.overlays in
      if eqb (length overlays) (length log.overlays) then log else rebuild log log.base overlays

  -- The display's operations, each under one `update`.
  unfoldable pub initial : Committed State → Log State Message
  initial base = record {
    base = base;
    held = none;
    overlays = [];
    anchor = none;
    shown = committed_shown base;
    dropped = [];
  }

  unfoldable pub on_predict : String → Message → Log State Message → Log State Message
  on_predict id message current = rebuild current current.base (
      current.overlays
      ++ record { command_id = id; message = message; admitted = none; exact = none } ∷ [])

  unfoldable pub on_release : String → Log State Message → Log State Message
  on_release id current =
      let overlays = filter (λ o. not (o.command_id == id) || is_some o.exact) current.overlays in
      if eqb (length overlays) (length current.overlays)
      then current
      else reoffer (rebuild current current.base overlays)

  unfoldable pub on_admit : String → ℕ → Log State Message → Log State Message
  on_admit id position current =
      reoffer (update_overlay current id (λ o. record o { admitted = some position }))

  unfoldable pub recorded :
      String → Option ℕ → Committed State → Log State Message → Log State Message
  recorded id position done current =
      update_overlay (record current { anchor = anchored position done.revision current.anchor }) id
        (λ o. record o { admitted = or_else position o.admitted; exact = some done })

  unfoldable pub on_receipt :
      String → Option ℕ → Committed State → Log State Message → Log State Message
  on_receipt id position done current = reoffer (incorporate (recorded id position done current))

-- The calls of a display: `offer`, `predict` and the close of its scope, `admit` and `receipt`.
pub data Event (State Message : Type 0) : Type 0 where
  offers : Committed State → Event State Message
  predicts : String → Message → Event State Message
  releases : String → Event State Message
  admits : String → ℕ → Event State Message
  receives : String → Option ℕ → Committed State → Event State Message

module _ {State Message : Type 0} (predict : State → Message → Option State) where
  unfoldable pub apply : Event State Message → Log State Message → Log State Message
  apply (offers c) log = offer predict log c
  apply (predicts id message) log = on_predict predict id message log
  apply (releases id) log = on_release predict id log
  apply (admits id position) log = on_admit predict id position log
  apply (receives id position done) log = on_receipt predict id position done log

  unfoldable pub display : Log State Message → List (Event State Message) → Log State Message
  display log [] = log
  display log (e ∷ es) = display (update (apply e) log).1 es
