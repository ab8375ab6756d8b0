-- ===== src/Policy.antt =====
-- packages/effect-frame/src/actor/policy.ts and principal.ts: who is asking, the rules and their
-- combinations, and the names that a host resolves before it serves. A rule may read actors or queries: a
-- `Policy` is a rule as it answers at one moment, and a history has the rules of every moment.
pub mod Rules
pub mod Missing
pub mod Tests
use effect_frame.Base.{
  ◌≡◌, ℕ, Bool, true, false, ◌&&◌, Option, none, some, List, [], ◌∷◌, ◌++◌, map, String, eqb, ◌==◌,
  find?, flatten, if◌then◌else◌,
}
use effect_frame.Vocabulary.{Address, QueryKey}
use effect_frame.Engine.{◌>>=◌}

-- A session's claims are any JSON record.
pub data Principal (Claims : Type 0) : Type 0 where
  anonymous : Principal Claims
  authenticated : String → Claims → Principal Claims

pub data Subject : Type 0 where
  actor : Address → Subject
  query : QueryKey → Subject

pub data Action : Type 0 where
  read send : Action

-- A rule answers nothing, or fails with `Unauthorized` and a name.
pub data Verdict : Type 0 where
  allowed : Verdict
  unauthorized : String → Verdict

abbrev pub Policy : Type 0 → Type 0
Policy Claims = Principal Claims → Subject → Action → Verdict

-- The name a refusal carries: the contract or the query reached for.
abbrev pub name_of : Subject → String
name_of (actor address) = address.contract
name_of (query key) = key.query

abbrev pub refuse : Subject → Verdict
refuse subject = unauthorized (name_of subject)

-- Checks one after another, each in the next one's way: the first failure is the whole's.
unfoldable pub each_of : List Verdict → Verdict
each_of [] = allowed
each_of (allowed ∷ verdicts) = each_of verdicts
each_of (unauthorized name ∷ verdicts) = unauthorized name

-- What the Effect library says of `firstSuccessOf`: the first success, or else the last failure.
pub record FirstSuccess (first_success_of : List Verdict → Verdict) : Type 0 where
  pub only : (verdict : Verdict) → first_success_of (verdict ∷ []) ≡ verdict
  pub stops : (verdicts : List Verdict) → first_success_of (allowed ∷ verdicts) ≡ allowed
  pub goes_on :
      (name : String) (verdict : Verdict) (verdicts : List Verdict)
      → first_success_of (unauthorized name ∷ verdict ∷ verdicts)
        ≡ first_success_of (verdict ∷ verdicts)

-- One contract or query that a rule names. Its codec reads the encoded key or arguments.
pub record Named (Key : Type 0) : Type 0 where
  pub name : String
  pub version : ℕ
  pub decode : String → Option Key

module _ {Key : Type 0} where
  abbrev pub is_named : String → ℕ → Named Key → Bool
  is_named name version named = (named.name == name) && eqb named.version version

  -- The named member of this name and version reads the text.
  unfoldable pub decode_by : List (Named Key) → String → ℕ → String → Option Key
  decode_by named name version text =
      find? (is_named name version) named >>= λ (found : Named Key). found.decode text

  unfoldable pub decode_subject : List (Named Key) → List (Named Key) → Subject → Option Key
  decode_subject contracts queries (actor address) =
      decode_by contracts address.contract address.version address.key
  decode_subject contracts queries (query key) = decode_by queries key.query key.version key.args

  -- Runs `check` on what was read from the subject; nothing read refuses.
  unfoldable pub decided : Subject → Option Key → (Key → Bool) → Verdict
  decided subject none check = refuse subject
  decided subject (some value) check = if check value then allowed else refuse subject

module _ {Claims : Type 0} where
  abbrev pub allow_all : Principal Claims → Subject → Action → Verdict
  allow_all principal subject action = allowed

  unfoldable pub only_authenticated : Principal Claims → Subject → Action → Verdict
  only_authenticated (authenticated who claims) subject action = allowed
  only_authenticated anonymous subject action = refuse subject

  module _ {Key : Type 0} where
    unfoldable pub of :
        (Subject → Option Key)
        → (String → Claims → Key → Action → Bool)
        → Principal Claims
        → Subject
        → Action
        → Verdict
    of decode check anonymous subject action = refuse subject
    of decode check (authenticated who claims) subject action =
        decided subject (decode subject) (λ key. check who claims key action)

    unfoldable pub for_subjects :
        List (Named Key)
        → List (Named Key)
        → (Principal Claims → Key → Action → Bool)
        → Principal Claims
        → Subject
        → Action
        → Verdict
    for_subjects contracts queries check principal subject action =
        decided subject (decode_subject contracts queries subject)
          (λ key. check principal key action)

  abbrev pub verdicts : List (Policy Claims) → Principal Claims → Subject → Action → List Verdict
  verdicts [] principal subject action = []
  verdicts (policy ∷ policies) principal subject action =
      policy principal subject action ∷ verdicts policies principal subject action

  unfoldable pub all : List (Policy Claims) → Principal Claims → Subject → Action → Verdict
  all policies principal subject action = each_of (verdicts policies principal subject action)

  unfoldable pub any :
      (List Verdict → Verdict)
      → List (Policy Claims)
      → Principal Claims
      → Subject
      → Action
      → Verdict
  any first_success_of policies principal subject action =
      first_success_of (verdicts policies principal subject action ++ refuse subject ∷ [])

  unfoldable pub by_action :
      Policy Claims → Policy Claims → Principal Claims → Subject → Action → Verdict
  by_action on_read on_send principal subject read = on_read principal subject read
  by_action on_read on_send principal subject send = on_send principal subject send

-- One declaration that a host resolves: who declared which name.
pub data Side : Type 0 where
  actor_side query_side : Side

pub record Declared : Type 0 where
  pub subject : Side
  pub name : String
  pub policy : String

pub record Resolved (Claims A : Type 0) : Type 0 where
  pub entry : A
  pub policy : Policy Claims

pub record Resolution (Claims A : Type 0) : Type 0 where
  pub resolved : List (Resolved Claims A)
  pub missing : List Declared

-- The table is read by its own names alone.
module _ {Claims A : Type 0} (table : String → Option (Policy Claims))
    (declare : A → Declared) where
  abbrev pub filed : A → Option (Policy Claims) → Resolution Claims A → Resolution Claims A
  filed entry none rest = record rest { missing = declare entry ∷ rest.missing }
  filed entry (some policy) rest = record rest {
    resolved = record { entry = entry; policy = policy } ∷ rest.resolved;
  }

  unfoldable pub resolve : List A → Resolution Claims A
  resolve [] = record { resolved = []; missing = [] }
  resolve (entry ∷ entries) = filed entry (table (declare entry).policy) (resolve entries)

abbrev pub missing_names : List Declared → Option (List Declared)
missing_names [] = none
missing_names (miss ∷ misses) = some (miss ∷ misses)

-- What `PolicyNamesMissing` lists, when a resolution has a miss. Only their misses are read.
unfoldable pub refuse_missing : List (List Declared) → Option (List Declared)
refuse_missing resolutions = missing_names (flatten resolutions)
