-- ===== src/Host.antt =====
-- packages/effect-frame/src/actor/host.ts: one host of actors and queries. An instance is what an
-- implementation opens; its operations are those of `HostedInstance`. A handler of a query reads
-- actors through the transport, at moments of its own.
pub mod Transport
pub mod Histories
pub mod Replays
pub mod Stale
pub mod Refreshes
pub mod Builds
pub mod Tests
use Prim.Native.String.{◌++◌ as ◌<>◌}
use effect_frame.Base.{
  ℕ, Bool, true, false, Option, none, some, List, [], ◌∷◌, map, String, eqb, ◌==◌, if◌then◌else◌,
}
use effect_frame.Vocabulary.{Address, QueryKey, Result, failure, success, DurableReceipt}
use effect_frame.Query.{QueryFailure, unknown_query}
use effect_frame.Policy
use effect_frame.Policy.{
  Principal, Policy, Action, read, send, actor, Resolved, Resolution, Declared, actor_side,
  query_side, Verdict, allowed, refuse_missing,
}
use effect_frame.Serving
use effect_frame.Serving.{QueryContract, Mode, Refreshed, refresh_failed}
use effect_frame.Serving.Requests
use effect_frame.Serving.Requests.{later}

pub data RemoteFailure : Type 0 where
  unauthorized : String → RemoteFailure
  contract_mismatch : String → ℕ → ℕ → RemoteFailure
  unknown_contract unreachable : String → RemoteFailure

pub record ActorContract : Type 0 where
  pub name : String
  pub version : ℕ
  pub policy : String

-- The operations of an open instance, each with the instance after it.
pub record HostedInstance (Instance Projection Error : Type 0) : Type 0 where
  pub send : Instance → String → String → Instance × Result Error DurableReceipt
  pub call : Instance → String → String → Instance × Result Error Projection
  pub snapshot : Instance → Projection

-- `opens` is the source's `open`, with the store of the address.
pub record Implementation (Instance : Type 0) : Type 0 where
  pub contract : ActorContract
  pub opens : Address → Instance

abbrev pub Instances : Type 0 → Type 0
Instances Instance = List (String × Instance)

-- The instances at one moment after another.
abbrev pub Moments : Type 0 → Type 0
Moments Instance = List (Instances Instance)

-- A handler reads actors at moments of its own: it is a function of the arguments and of the instances at
-- every moment of its request, from the first to the last.
pub record HostedQuery (Instance : Type 0) : Type 0 where
  pub contract : QueryContract
  pub mode : Moments Instance → Mode

-- What a request comes to: refused by the host, failed by the instance, answered, or a defect.
pub data Answer (Error A : Type 0) : Type 0 where
  unreached : RemoteFailure → Answer Error A
  failed : Error → Answer Error A
  answered : A → Answer Error A
  defect : Answer Error A

-- `digits` writes a version into a key.
module _ (digits : ℕ → String) where
  unfoldable pub address_key : Address → String
  address_key address =
      ((address.contract <> "@") <> digits address.version) <> ("/" <> address.key)

module _ {Instance : Type 0} where
  unfoldable pub instance_at : String → Instances Instance → Option Instance
  instance_at key [] = none
  instance_at key ((name, instance) ∷ instances) =
      if name == key then some instance else instance_at key instances

  -- An instance that changes stays where it is; a new one is last.
  unfoldable pub put_instance : String → Instance → Instances Instance → Instances Instance
  put_instance key instance [] = (key, instance) ∷ []
  put_instance key instance ((name, held) ∷ instances) =
      let rest = put_instance key instance instances in
      if name == key then (name, instance) ∷ instances else (name, held) ∷ rest

  abbrev pub declare_actor : Implementation Instance → Declared
  declare_actor implementation = record {
    subject = actor_side;
    name = implementation.contract.name;
    policy = implementation.contract.policy;
  }

  abbrev pub declare_query : HostedQuery Instance → Declared
  declare_query hosted = record {
    subject = query_side;
    name = hosted.contract.name;
    policy = hosted.contract.policy;
  }

  abbrev pub authorized :
      Implementation Instance → Verdict → Result RemoteFailure (Implementation Instance)
  authorized implementation allowed = success implementation
  authorized implementation (Policy.unauthorized name) = failure (unauthorized name)

-- A host that is built: the resolved implementations and the resolved queries, if it serves any.
pub record Built (Claims Instance : Type 0) : Type 0 where
  pub actors : List (Resolved Claims (Implementation Instance))
  pub serving : Option (List (Resolved Claims (HostedQuery Instance)))

module _ {Claims Instance : Type 0} where
  abbrev pub serving_of :
      List (HostedQuery Instance)
      → List (Resolved Claims (HostedQuery Instance))
      → Option (List (Resolved Claims (HostedQuery Instance)))
  serving_of [] resolved = none
  serving_of (hosted ∷ queries) resolved = some resolved

  abbrev pub built_unless :
      Option (List Declared)
      → Built Claims Instance
      → Result (List Declared) (Built Claims Instance)
  built_unless none built = success built
  built_unless (some misses) built = failure misses

  -- Fails with `PolicyNamesMissing` and the misses before it serves anything.
  unfoldable pub build :
      (String → Option (Policy Claims))
      → List (Implementation Instance)
      → List (HostedQuery Instance)
      → Result (List Declared) (Built Claims Instance)
  build policies implementations queries =
      let actors = Policy.resolve policies declare_actor implementations in
      let served = Policy.resolve policies declare_query queries in
      built_unless (refuse_missing (actors.missing ∷ served.missing ∷ []))
        (record { actors = actors.resolved; serving = serving_of queries served.resolved })

  unfoldable pub by_name :
      List (Resolved Claims (Implementation Instance))
      → String
      → Option (Resolved Claims (Implementation Instance))
  by_name [] name = none
  by_name (resolved ∷ rest) name =
      later (by_name rest name)
        (if resolved.entry.contract.name == name then some resolved else none)

  abbrev pub of_version :
      Address
      → Option (Resolved Claims (Implementation Instance))
      → Result RemoteFailure (Resolved Claims (Implementation Instance))
  of_version address none = failure (unknown_contract address.contract)
  of_version address (some resolved) =
      let expected = resolved.entry.contract.version in
      if eqb expected address.version
      then success resolved
      else failure (contract_mismatch address.contract expected address.version)

  abbrev pub authorize :
      Principal Claims
      → Address
      → Action
      → Result RemoteFailure (Resolved Claims (Implementation Instance))
      → Result RemoteFailure (Implementation Instance)
  authorize principal address action (failure error) = failure error
  authorize principal address action (success resolved) =
      authorized resolved.entry (resolved.policy principal (actor address) action)
