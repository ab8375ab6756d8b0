-- ===== src/Host/Tests.antt =====
-- Tests of a host, and the statements of Replays, Refreshes and Builds at concrete inputs.
use Prim.Native.String.{◌++◌ as ◌<>◌}
use effect_frame.Base.{
  ℕ, Option, none, some, List, [], ◌∷◌, String, ◌==◌, ◌≡◌, refl, ◌⊎◌, ◌≢◌, map_from, filter, any,
  if◌then◌else◌,
}
use effect_frame.Vocabulary.{Address, QueryKey, Result, failure, success, DurableReceipt}
use effect_frame.Policy.{
  Principal, anonymous, authenticated, Policy, refuse, allow_all, only_authenticated,
}
use effect_frame.Serving
use effect_frame.Serving.{
  QueryContract, QueryBatchResult, result_slot, Mode, single, Refreshed, refreshed,
}
use effect_frame.Serving.Requests
use effect_frame.Host.{
  ActorContract, HostedInstance, Implementation, HostedQuery, Instances, Moments, Built, Answer,
  build, by_name, address_key, instance_at, put_instance,
}
use effect_frame.Host.Transport.{open_instance, resolve, refresh_for, send_command}
use effect_frame.Host.Histories.{
  sends, reads, wakes, Request, sent, alone, serve_all, replay, admitted,
}
use effect_frame.Host.Replays.{serve_all-instance_at}
use effect_frame.Host.Stale.{stale_answers}
use effect_frame.Host.Refreshes.{CarriesSent, send_command-carries}
use effect_frame.Host.Builds.{IsComplete, misses, build_lem}

-- An instance is the list of its payloads; the payload "no" is refused, and "later" not yet committed.
abbrev receipt_of : String → String → List String → DurableReceipt
receipt_of id payload log = record {
  command_id = id;
  admitted = 1;
  committed = if payload == "later" then none else some 1;
}

abbrev told : List String → String → String → List String × Result String DurableReceipt
told log id payload =
    if payload == "no"
    then (log, failure "refused")
    else (payload ∷ log, success (receipt_of id payload log))

abbrev asked : List String → String → String → List String × Result String (List String)
asked log id payload = (payload ∷ log, success (payload ∷ log))

abbrev logs : HostedInstance (List String) (List String) String
logs = record { send = told; call = asked; snapshot = λ log. log }

abbrev ledger_contract : ActorContract
ledger_contract = record { name = "ledger"; version = 1; policy = "members" }

abbrev ledger : Implementation (List String)
ledger = record { contract = ledger_contract; opens = λ address. [] }

abbrev joined : List String → String
joined [] = ""
joined (text ∷ texts) = text <> joined texts

abbrev state_of : Option (List String) → String
state_of none = "none"
state_of (some log) = joined log

-- A handler that reads at the last moment of its request.
abbrev latest : Moments (List String) → String
latest [] = "none"
latest (instances ∷ []) = state_of (instance_at "ledger@1/a" instances)
latest (instances ∷ next ∷ seen) = latest (next ∷ seen)

abbrev totals : HostedQuery (List String)
totals = record {
  contract = record { name = "totals"; version = 1; policy = "open"; depends = "ledger" ∷ [] };
  mode = λ seen. single (λ args. success (latest seen));
}

abbrev others : HostedQuery (List String)
others = record {
  contract = record { name = "others"; version = 1; policy = "open"; depends = [] };
  mode = λ seen. single (λ args. success args);
}

abbrev table : String → Option (Policy Unit)
table name =
    if name == "open"
    then some allow_all
    else (if name == "members" then some only_authenticated else none)

abbrev refuse_all : Policy Unit
refuse_all principal subject action = refuse subject

abbrev host : Built Unit (List String)
host = record {
  actors = record { entry = ledger; policy = only_authenticated } ∷ [];
  serving = some (
      record { entry = totals; policy = allow_all }
      ∷ record { entry = others; policy = allow_all }
      ∷ []);
}

abbrev digit : ℕ → String
digit n = "1"

abbrev any_json : String → Option String
any_json text = some text

abbrev at : String → Address
at key = record { contract = "ledger"; version = 1; key = key }

abbrev member : Principal Unit
member = authenticated "ann" tt

abbrev key : String → QueryKey
key name = record { query = name; version = 1; args = "1" }

abbrev active : List QueryKey
active = key "others" ∷ key "totals" ∷ key "gone" ∷ []

-- Anonymous callers are refused; "b" is another key. A handler of the first command's refresh reads "b", and
-- the rule of another moment refuses a member.
abbrev strict : Built Unit (List String)
strict = record host { actors = record { entry = ledger; policy = refuse_all } ∷ [] }

abbrev visits : List (Request Unit (List String))
visits =
    alone (sends host anonymous (at "a") "1" "x")
    ∷ sent host member (at "a") "2" "y" active
        (reads host member (at "b") ∷ sends host member (at "a") "3" "z" ∷ [])
    ∷ alone (reads host anonymous (at "c"))
    ∷ alone (wakes host (at "a"))
    ∷ alone (sends strict member (at "a") "4" "v")
    ∷ alone (sends host member (at "a") "5" "no")
    ∷ alone (sends host member (at "a") "6" "w")
    ∷ []

serve_all-instance_at_example :
    instance_at "ledger@1/a" (serve_all digit any_json logs visits []) ≡ some ("w" ∷ "z" ∷ "y" ∷ [])
unfolding replay admitted address_key by_name only_authenticated instance_at
serve_all-instance_at_example = serve_all-instance_at digit any_json logs "ledger@1/a" visits []

no_slots : Serving.Implementation → List String → String → QueryBatchResult
no_slots m together text = result_slot text

-- Another command lands before the refresh is read.
abbrev and_another : Instances (List String) → Moments (List String)
and_another after = put_instance "ledger@1/a" ("z" ∷ "x" ∷ []) after ∷ []

-- The refresh reads a state that the command left or a later one.
sent_refreshes :
    (send_command digit any_json logs host member (at "a") "1" "x" active and_another []).0
    ≡ Answer.answered (
      record { command_id = "1"; admitted = 1; committed = some 1 },
      refreshed (key "totals") "zx" ∷ [],
    )
unfolding send_command resolve open_instance address_key by_name only_authenticated instance_at
    put_instance refresh_for Requests.dependents Requests.batch Requests.by_name Requests.check
    Requests.sort_keys Requests.add_to Requests.run_groups Requests.set_single Serving.written
    filter map_from any
sent_refreshes = refl

send_command-carries_example :
    let (answer, after) =
      send_command digit any_json logs host member (at "a") "1" "x" active and_another [] in
    CarriesSent answer (
      stale_answers any_json no_slots member "ledger" active host.serving
        (after ∷ and_another after))
send_command-carries_example =
    send_command-carries digit any_json logs host member no_slots (at "a") "1" "x" active
      and_another [] ((λ seen. tt), ((λ seen. tt), tt))

build_lem_example :
    ((built : Built Unit (List String)) × (build table (ledger ∷ []) (totals ∷ []) ≡ success built)
      × (misses table (ledger ∷ []) (totals ∷ []) ≡ [])
      × IsComplete table (ledger ∷ []) (totals ∷ []) built)
    ⊎ ((misses table (ledger ∷ []) (totals ∷ []) ≢ [])
        × (build table (ledger ∷ []) (totals ∷ [])
            ≡ failure (misses table (ledger ∷ []) (totals ∷ []))))
build_lem_example = build_lem table (ledger ∷ []) (totals ∷ [])
