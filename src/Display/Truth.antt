-- ===== src/Display/Truth.antt =====
-- Whether a classification is right: against the positions and revisions that the mailbox gave.
use effect_frame.Base.{
  ℕ, ◌≤◌, ◌<◌, ◌≡◌, false, Option, none, some, String, eqb, eqb_iff, leb, ltb, ltb→lt, leb→le,
  arith, Bool-cases, inl, inr,
}
use effect_frame.Vocabulary.{Committed}
use effect_frame.Display.{
  Overlay, Anchor, Membership, included, excluded, unknown, membership, placed, placed_by,
}

ruleset tests = (arith, ltb→lt, leb→le)

le_of_ltb : (a b : ℕ) → ltb a b ≡ false → b ≤ a
le_of_ltb a b h = ground arith

lt_of_leb : (a b : ℕ) → leb a b ≡ false → b < a
lt_of_leb a b h = ground arith

-- What a serial mailbox did with each command ID: its admission position and, once committed, its
-- revision. Commands commit one at a time in the order of their positions.
pub record Serial : Type 0 where
  pub position : String → Option ℕ
  pub revision : String → Option ℕ
  pub earlier_committed :
      (a b : String) (p q n : ℕ)
      → position a ≡ some p
      → position b ≡ some q
      → p ≤ q
      → revision b ≡ some n
      → (m : ℕ) × (revision a ≡ some m) × (m ≤ n)
  pub later_above :
      (a b : String) (p q m n : ℕ)
      → position a ≡ some p
      → position b ≡ some q
      → p < q
      → revision a ≡ some m
      → revision b ≡ some n
      → m < n

module _ (truth : Serial) where
  -- The committed state at revision `n` holds the command.
  abbrev pub InBase : ℕ → String → Type 0
  InBase n id = (m : ℕ) × (truth.revision id ≡ some m) × (m ≤ n)

  -- The anchor is the receipt of some command.
  abbrev pub IsTrueAnchor : Option Anchor → Type 0
  IsTrueAnchor none = Unit {0}
  IsTrueAnchor (some known) =
      (id : String) × (truth.position id ≡ some known.admitted)
      × (truth.revision id ≡ some known.revision)

  abbrev pub IsTruePosition : String → Option ℕ → Type 0
  IsTruePosition id none = Unit {0}
  IsTruePosition id (some p) = truth.position id ≡ some p

  abbrev pub IsTrueExact : {State : Type 0} → String → Option (Committed State) → Type 0
  IsTrueExact id none = Unit {0}
  IsTrueExact id (some done) = truth.revision id ≡ some done.revision

  abbrev Right : ℕ → String → Membership → Type 0
  Right n id included = InBase n id
  Right n id excluded = ¬ InBase n id
  Right n id unknown = Unit {0}

  module _ (n p : ℕ) (id : String) (known : Anchor) (here : truth.position id ≡ some p)
      (a : IsTrueAnchor (some known)) where
    outside_below : n < known.revision → known.admitted ≤ p → ¬ InBase n id
    outside_below lt le (m, e, below) =
        let (k, f, up) = truth.earlier_committed a.0 id known.admitted p m a.1 here le e in
        let same : k ≡ known.revision = ground (arith, a.2) in absurd (omega arith)

    inside : known.revision ≤ n → p ≤ known.admitted → InBase n id
    inside le before =
        let (m, e, up) =
          truth.earlier_committed id a.0 p known.admitted known.revision here a.1 before a.2 in
        (m, e, omega arith)

    outside_at : known.revision ≡ n → known.admitted < p → ¬ InBase n id
    outside_at same lt (m, e, below) =
        let above = truth.later_above a.0 id known.admitted p known.revision m a.1 here lt a.2 e in
        absurd (omega arith)

  placed_by-Right :
      (n p : ℕ) (id : String) (known : Anchor)
      → truth.position id ≡ some p
      → IsTrueAnchor (some known)
      → Right n id (placed_by p n known)
  unfolding placed_by
  placed_by-Right n p id known here a = elim (Bool-cases (ltb n known.revision)) [
    | inl newer ↦ rw newer (elim (Bool-cases (leb known.admitted p)) [
      | inl after ↦ rw after (outside_below n p id known here a (omega tests) (omega tests))
      | inr before ↦ rw before tt
    ])
    | inr reached ↦ rw reached (elim (Bool-cases (leb p known.admitted)) [
      | inl before ↦ rw before (inside n p id known here a (le_of_ltb _ _ reached) (omega tests))
      | inr after ↦ rw after (elim (Bool-cases (eqb known.revision n)) [
        | inl same ↦
            rw same (outside_at n p id known here a ((eqb_iff _ _).0 same) (lt_of_leb _ _ after))
        | inr apart ↦ rw apart tt
      ])
    ])
  ]

  placed-Right :
      (n : ℕ) (id : String) (position : Option ℕ) (anchor : Option Anchor)
      → IsTruePosition id position
      → IsTrueAnchor anchor
      → Right n id (placed position n anchor)
  placed-Right n id none anchor p a = tt
  placed-Right n id (some p) none here a = tt
  placed-Right n id (some p) (some known) here a = placed_by-Right n p id known here a

  module _ {State Message : Type 0} where
    -- All that the log has recorded of one overlay is so, and the base does not hold its command.
    pub record IsExact (base : ℕ) (o : Overlay State Message) : Type 0 where
      pub positioned : IsTruePosition o.command_id o.admitted
      pub receipted : IsTrueExact o.command_id o.exact
      pub absent : ¬ InBase base o.command_id

    -- With true evidence the classification is right: an included command is in the committed state
    -- at that revision, and an excluded one is not.
    pub membership_sound :
        (o : Overlay State Message) (n : ℕ) (anchor : Option Anchor)
        → IsTruePosition o.command_id o.admitted
        → IsTrueExact o.command_id o.exact
        → IsTrueAnchor anchor
        → (membership o n anchor ≡ included → InBase n o.command_id)
          × (membership o n anchor ≡ excluded → ¬ InBase n o.command_id)
    unfolding membership
    membership_sound o n anchor p x a = read (membership o n anchor) (go o.exact x)
      where
        read :
            (m : Membership)
            → Right n o.command_id m
            → (m ≡ included → InBase n o.command_id) × (m ≡ excluded → ¬ InBase n o.command_id)
        read included r = (λ _. r, λ e. absurd (cc))
        read excluded r = (λ e. absurd (cc), λ _. r)
        read unknown r = (λ e. absurd (cc), λ e. absurd (cc))

        go :
            (exact : Option (Committed State))
            → IsTrueExact o.command_id exact
            → Right n o.command_id (membership (record o { exact = exact }) n anchor)
        go none t = placed-Right n o.command_id o.admitted anchor p a
        go (some done) t = elim (Bool-cases (leb done.revision n)) [
          | inl held ↦ rw held (done.revision, t, omega tests)
          | inr not_yet ↦ rw not_yet (λ (m, e, le). absurd (ground (arith, t)))
        ]
