-- ===== src/Host/Histories.antt =====
-- Histories of the requests of host.ts and what they do to one key. A rule may read actors too: the host of
-- a request is the built host with the verdicts that its rules give at that moment.
use effect_frame.Base.{ℕ, Option, none, some, List, [], ◌∷◌, ◌++◌, String, ◌==◌, if◌then◌else◌}
use effect_frame.Vocabulary.{Address, QueryKey, Result, failure, success}
use effect_frame.Policy.{Principal, read, send, Resolved}
use effect_frame.Host.{
  RemoteFailure, HostedInstance, Implementation, Instances, Moments, address_key, Built, authorize,
}
use effect_frame.Host.Transport.{find, send_command, call_command, snapshot, wake}

-- What reaches an instance: a command, a call or a read of a caller or of a handler, or the host's own wake.
pub data Touch (Claims Instance : Type 0) : Type 0 where
  sends calls :
      Built Claims Instance → Principal Claims → Address → String → String → Touch Claims Instance
  reads : Built Claims Instance → Principal Claims → Address → Touch Claims Instance
  wakes : Built Claims Instance → Address → Touch Claims Instance

-- A request that queries are read for comes with all that reaches instances from its own step until its
-- answer, in order: what the handlers of its queries reach, and what others do.
pub data Request (Claims Instance : Type 0) : Type 0 where
  sent called :
      Built Claims Instance
      → Principal Claims
      → Address
      → String
      → String
      → List QueryKey
      → List (Touch Claims Instance)
      → Request Claims Instance
  queried : List (Touch Claims Instance) → Request Claims Instance
  alone : Touch Claims Instance → Request Claims Instance

abbrev pub held_or_opened :
    {Instance : Type 0} → Address → Implementation Instance → Option Instance → Instance
held_or_opened address implementation none = implementation.opens address
held_or_opened address implementation (some instance) = instance

module _ {Claims Instance : Type 0} where
  abbrev pub target : Touch Claims Instance → Address
  target (sends host who address id payload) = address
  target (calls host who address id payload) = address
  target (reads host who address) = address
  target (wakes host address) = address

  -- All that a request reaches instances by, its own step first.
  abbrev pub touches : Request Claims Instance → List (Touch Claims Instance)
  touches (sent host who address id payload active made) = sends host who address id payload ∷ made
  touches (called host who address id payload active made) =
      calls host who address id payload ∷ made
  touches (queried made) = made
  touches (alone touched) = touched ∷ []

  abbrev pub all_touches : List (Request Claims Instance) → List (Touch Claims Instance)
  all_touches [] = []
  all_touches (request ∷ requests) = touches request ++ all_touches requests

  -- Whom a touch reaches: no one, if no contract of its name and version is hosted or the contract's
  -- policy refuses the caller.
  abbrev pub implementation_of :
      Result RemoteFailure (Resolved Claims (Implementation Instance))
      → Result RemoteFailure (Implementation Instance)
  implementation_of (failure error) = failure error
  implementation_of (success resolved) = success resolved.entry

module _ {Claims Instance Projection Error : Type 0} (digits : ℕ → String)
    (canonicalize : String → Option String)
    (hosted : HostedInstance Instance Projection Error) where
  -- What one touch leaves. A handler's command has refreshes of its own, whose touches follow it.
  unfoldable pub touch : Touch Claims Instance → Instances Instance → Instances Instance
  touch (sends host who address id payload) instances =
      (send_command digits canonicalize hosted host who address id payload [] (λ _. []) instances).1
  touch (calls host who address id payload) instances =
      (call_command digits canonicalize hosted host who address id payload [] (λ _. []) instances).1
  touch (reads host who address) instances =
      (snapshot digits canonicalize hosted host who address instances).1
  touch (wakes host address) instances = (wake digits host address instances).1

  unfoldable pub touch_all : List (Touch Claims Instance) → Instances Instance → Instances Instance
  touch_all [] instances = instances
  touch_all (touched ∷ rest) instances = touch_all rest (touch touched instances)

  -- The moments after each of them.
  unfoldable pub trail : List (Touch Claims Instance) → Instances Instance → Moments Instance
  trail [] instances = []
  trail (touched ∷ rest) instances = let next = touch touched instances in next ∷ trail rest next

  -- The instances after a request.
  unfoldable pub serve : Request Claims Instance → Instances Instance → Instances Instance
  serve (sent host who address id payload active made) instances =
      let (answer, after) =
        send_command digits canonicalize hosted host who address id payload active (trail made)
          instances in
      touch_all made after
  serve (called host who address id payload active made) instances =
      let (answer, after) =
        call_command digits canonicalize hosted host who address id payload active (trail made)
          instances in
      touch_all made after
  serve (queried made) instances = touch_all made instances
  serve (alone touched) instances = touch touched instances

  unfoldable pub serve_all :
      List (Request Claims Instance) → Instances Instance → Instances Instance
  serve_all [] instances = instances
  serve_all (request ∷ requests) instances = serve_all requests (serve request instances)

  unfoldable pub admitted : Touch Claims Instance → Result RemoteFailure (Implementation Instance)
  admitted (sends host who address id payload) =
      authorize who address send (find digits host address)
  admitted (calls host who address id payload) =
      authorize who address send (find digits host address)
  admitted (reads host who address) = authorize who address read (find digits host address)
  admitted (wakes host address) = implementation_of (find digits host address)

  -- What an admitted touch does to the instance it reaches.
  abbrev pub operated : Touch Claims Instance → Instance → Instance
  operated (sends host who address id payload) instance =
      let (next, result) = hosted.send instance id payload in next
  operated (calls host who address id payload) instance =
      let (next, result) = hosted.call instance id payload in next
  operated (reads host who address) instance = instance
  operated (wakes host address) instance = instance

  abbrev pub reached :
      Touch Claims Instance
      → Result RemoteFailure (Implementation Instance)
      → Option Instance
      → Option Instance
  reached touched (failure error) held = held
  reached touched (success implementation) held =
      some (operated touched (held_or_opened (target touched) implementation held))

  -- One key alone: the touches of other keys and those that are not admitted are skipped.
  abbrev pub replay_one : String → Touch Claims Instance → Option Instance → Option Instance
  replay_one key touched held =
      if address_key digits (target touched) == key
      then reached touched (admitted touched) held
      else held

  unfoldable pub replay : String → List (Touch Claims Instance) → Option Instance → Option Instance
  replay key [] held = held
  replay key (touched ∷ rest) held = replay key rest (replay_one key touched held)
