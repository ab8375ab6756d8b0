-- ===== src/Vocabulary.antt =====
-- packages/effect-frame/src/actor/vocabulary.ts, engine-types.ts, contract.ts and query.ts: the words the
-- actor parts share.
use effect_frame.Base.{ℕ, Option, String, ◌≡◌, refl}

-- A committed state and its revision, as an engine hands it on.
pub record Committed (State : Type 0) : Type 0 where
  pub revision : ℕ
  pub state : State

-- A committed revision has a number; a provisional one only its base and its depth.
pub data Revision : Type 0 where
  committed : ℕ → Revision
  provisional : (base depth : ℕ) → Revision

-- What a reference shows: `Applied` and `Provisional` differ in the revision alone.
pub record Displayed (State : Type 0) : Type 0 where
  pub revision : Revision
  pub state : State

pub record DurableReceipt : Type 0 where
  pub command_id : String
  pub admitted : ℕ
  pub committed : Option ℕ

-- Where an actor is, and what a query is asked for.
pub record Address : Type 0 where
  pub contract : String
  pub version : ℕ
  pub key : String

pub record QueryKey : Type 0 where
  pub query : String
  pub version : ℕ
  pub args : String

-- What `Effect.result` makes of a computation that may fail.
pub data Result (E A : Type 0) : Type 0 where
  failure : E → Result E A
  success : A → Result E A

-- To split on a computed result and keep the equation.
pub Result-by :
    {E A : Type 0} (P : Result E A → Type 0) (r : Result E A)
    → ((e : E) → r ≡ failure e → P (failure e))
    → ((a : A) → r ≡ success a → P (success a))
    → P r
Result-by P (failure e) f g = f e refl
Result-by P (success a) f g = g a refl
