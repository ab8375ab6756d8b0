-- ===== src/Host/Transport.antt =====
-- packages/effect-frame/src/actor/host.ts: the transport of a built host, and its recovery. The lock makes
-- `open_instance` one step. A command reaches its instance in one step, and its queries are read at the
-- moments that follow until the answer; what else reaches the instances at these moments, the handlers' own
-- reads and commands among it, is a parameter here, `meanwhile`.
use effect_frame.Base.{ℕ, Option, none, some, List, [], ◌∷◌, map, String}
use effect_frame.Vocabulary.{Address, QueryKey, Result, failure, success, DurableReceipt}
use effect_frame.Query.{QueryFailure, unknown_query}
use effect_frame.Policy.{Principal, Action, read, send, Resolved}
use effect_frame.Serving
use effect_frame.Serving.{Refreshed, refresh_failed}
use effect_frame.Serving.Requests.{batch, get, dependents}
use effect_frame.Host.{
  RemoteFailure, HostedInstance, Implementation, Instances, Moments, HostedQuery, Answer, unreached,
  failed, answered, defect, address_key, instance_at, put_instance, Built, by_name, of_version,
  authorize,
}

module _ {Claims Instance : Type 0} where
  -- The implementation of a query, its handler reading these moments.
  abbrev pub read_from :
      Moments Instance
      → Resolved Claims (HostedQuery Instance)
      → Resolved Claims Serving.Implementation
  read_from seen resolved = record {
    entry = record { contract = resolved.entry.contract; mode = resolved.entry.mode seen };
    policy = resolved.policy;
  }

abbrev pub unknown_query_refresh : QueryKey → Refreshed
unknown_query_refresh key = refresh_failed key (unknown_query key.query)

abbrev pub answer_or_defect : {Error A : Type 0} → Option A → Answer Error A
answer_or_defect none = defect
answer_or_defect (some a) = answered a

abbrev pub with_value : {Error A B : Type 0} → A → Answer Error B → Answer Error (A × B)
with_value a (unreached error) = unreached error
with_value a (failed error) = failed error
with_value a (answered b) = answered (a, b)
with_value a defect = defect

-- The stale keys, read in one batch.
module _ {Claims : Type 0} (principal : Principal Claims)
    (canonicalize : String → Option String) where
  abbrev pub batch_stale :
      List (Resolved Claims Serving.Implementation) → List QueryKey → Option (List Refreshed)
  batch_stale queries [] = some []
  batch_stale queries (key ∷ keys) = batch queries principal canonicalize (key ∷ keys)

module _ {Claims Instance : Type 0} (digits : ℕ → String) (host : Built Claims Instance) where
  abbrev pub find : Address → Result RemoteFailure (Resolved Claims (Implementation Instance))
  find address = of_version address (by_name host.actors address.contract)

  abbrev pub opened_or :
      Address
      → Implementation Instance
      → Instances Instance
      → Option Instance
      → Instance × Instances Instance
  opened_or address implementation instances (some instance) = (instance, instances)
  opened_or address implementation instances none =
      let instance = implementation.opens address in
      (instance, put_instance (address_key digits address) instance instances)

  unfoldable pub open_instance :
      Address → Implementation Instance → Instances Instance → Instance × Instances Instance
  open_instance address implementation instances =
      opened_or address implementation instances
        (instance_at (address_key digits address) instances)

  -- The host's own wake has no caller and asks no policy.
  abbrev pub woken :
      Address
      → Instances Instance
      → Result RemoteFailure (Resolved Claims (Implementation Instance))
      → Result RemoteFailure Unit × Instances Instance
  woken address instances (failure error) = (failure error, instances)
  woken address instances (success resolved) =
      let (instance, after) = open_instance address resolved.entry instances in (success tt, after)

  unfoldable pub wake :
      Address → Instances Instance → Result RemoteFailure Unit × Instances Instance
  wake address instances = woken address instances (find address)

module _ {Claims Instance Projection Error : Type 0} (digits : ℕ → String)
    (canonicalize : String → Option String) (hosted : HostedInstance Instance Projection Error)
    (host : Built Claims Instance) (principal : Principal Claims) where
  -- Look up, then authorize, then open.
  abbrev pub open_authorized :
      Address
      → Instances Instance
      → Result RemoteFailure (Implementation Instance)
      → Result RemoteFailure Instance × Instances Instance
  open_authorized address instances (failure error) = (failure error, instances)
  open_authorized address instances (success implementation) =
      let (instance, after) = open_instance digits host address implementation instances in
      (success instance, after)

  unfoldable pub resolve :
      Address → Action → Instances Instance → Result RemoteFailure Instance × Instances Instance
  resolve address action instances =
      open_authorized address instances
        (authorize principal address action (find digits host address))

  -- The caller's active keys that the contract made stale, read after the commit.
  abbrev pub refresh_from :
      Option (List (Resolved Claims (HostedQuery Instance)))
      → String
      → List QueryKey
      → Moments Instance
      → Option (List Refreshed)
  refresh_from serving contract [] seen = some []
  refresh_from none contract (key ∷ active) seen = some []
  refresh_from (some queries) contract (key ∷ active) seen =
      let current = map (read_from seen) queries in
      batch_stale principal canonicalize current
        (dependents current principal contract (key ∷ active))

  unfoldable pub refresh_for : String → List QueryKey → Moments Instance → Option (List Refreshed)
  refresh_for contract active seen = refresh_from host.serving contract active seen

  abbrev pub send_reply :
      Address
      → List QueryKey
      → Moments Instance
      → DurableReceipt
      → Option ℕ
      → Answer Error (DurableReceipt × List Refreshed)
  send_reply address active seen receipt none = answered (receipt, [])
  send_reply address active seen receipt (some revision) =
      with_value receipt (answer_or_defect (refresh_for address.contract active seen))

  abbrev pub after_send :
      Address
      → List QueryKey
      → Moments Instance
      → Result Error DurableReceipt
      → Answer Error (DurableReceipt × List Refreshed)
  after_send address active seen (failure error) = failed error
  after_send address active seen (success receipt) =
      send_reply address active seen receipt receipt.committed

  abbrev pub send_to :
      Address
      → String
      → String
      → List QueryKey
      → (Instances Instance → Moments Instance)
      → Result RemoteFailure Instance × Instances Instance
      → Answer Error (DurableReceipt × List Refreshed) × Instances Instance
  send_to address command_id payload active meanwhile (failure error, instances) =
      (unreached error, instances)
  send_to address command_id payload active meanwhile (success instance, instances) =
      let (next, result) = hosted.send instance command_id payload in
      let after = put_instance (address_key digits address) next instances in
      (after_send address active (after ∷ meanwhile after) result, after)

  unfoldable pub send_command :
      Address
      → String
      → String
      → List QueryKey
      → (Instances Instance → Moments Instance)
      → Instances Instance
      → Answer Error (DurableReceipt × List Refreshed) × Instances Instance
  send_command address command_id payload active meanwhile instances =
      send_to address command_id payload active meanwhile (resolve address send instances)

  abbrev pub after_call :
      Address
      → List QueryKey
      → Moments Instance
      → Result Error Projection
      → Answer Error (Projection × List Refreshed)
  after_call address active seen (failure error) = failed error
  after_call address active seen (success projection) =
      with_value projection (answer_or_defect (refresh_for address.contract active seen))

  abbrev pub call_to :
      Address
      → String
      → String
      → List QueryKey
      → (Instances Instance → Moments Instance)
      → Result RemoteFailure Instance × Instances Instance
      → Answer Error (Projection × List Refreshed) × Instances Instance
  call_to address command_id payload active meanwhile (failure error, instances) =
      (unreached error, instances)
  call_to address command_id payload active meanwhile (success instance, instances) =
      let (next, result) = hosted.call instance command_id payload in
      let after = put_instance (address_key digits address) next instances in
      (after_call address active (after ∷ meanwhile after) result, after)

  unfoldable pub call_command :
      Address
      → String
      → String
      → List QueryKey
      → (Instances Instance → Moments Instance)
      → Instances Instance
      → Answer Error (Projection × List Refreshed) × Instances Instance
  call_command address command_id payload active meanwhile instances =
      call_to address command_id payload active meanwhile (resolve address send instances)

  abbrev pub shown_by :
      Result RemoteFailure Instance × Instances Instance
      → Result RemoteFailure Projection × Instances Instance
  shown_by (failure error, instances) = (failure error, instances)
  shown_by (success instance, instances) = (success (hosted.snapshot instance), instances)

  unfoldable pub snapshot :
      Address → Instances Instance → Result RemoteFailure Projection × Instances Instance
  snapshot address instances = shown_by (resolve address read instances)

  abbrev pub read_query :
      Option (List (Resolved Claims (HostedQuery Instance)))
      → QueryKey
      → Moments Instance
      → Option (Result QueryFailure String)
  read_query none key seen = some (failure (unknown_query key.query))
  read_query (some queries) key seen = get (map (read_from seen) queries) principal canonicalize key

  abbrev pub query : QueryKey → Moments Instance → Option (Result QueryFailure String)
  query = read_query host.serving

  abbrev pub read_batch :
      Option (List (Resolved Claims (HostedQuery Instance)))
      → List QueryKey
      → Moments Instance
      → Option (List Refreshed)
  read_batch none keys seen = some (map unknown_query_refresh keys)
  read_batch (some queries) keys seen =
      batch (map (read_from seen) queries) principal canonicalize keys

  abbrev pub query_batch : List QueryKey → Moments Instance → Option (List Refreshed)
  query_batch = read_batch host.serving
