-- ===== src/Host/Replays.antt =====
-- The instances of host.ts over any history of requests: each is what the admitted requests of its own key
-- make of it, one after another.
use effect_frame.Base.{
  ℕ, Bool, true, false, Option, some, List, [], ◌∷◌, ◌++◌, String, ◌==◌, eq_iff, eq_refl, ◌≡◌, refl,
  sym, ap, ◌∙◌, subst, inl, inr, Bool-cases, Option-by, if◌then◌else◌,
}
use effect_frame.Vocabulary.{Address, QueryKey, Result, Result-by}
use effect_frame.Policy.{Principal, read, send, Resolved}
use effect_frame.Host.{
  RemoteFailure, HostedInstance, Implementation, Instances, Moments, address_key, instance_at,
  put_instance, Built, authorize,
}
use effect_frame.Host.Transport.{
  find, opened_or, open_instance, open_authorized, resolve, send_to, send_command, call_to,
  call_command, shown_by, snapshot, woken, wake,
}
use effect_frame.Host.Histories.{
  Touch, sends, calls, reads, wakes, Request, sent, called, queried, alone, touches, all_touches,
  touch, touch_all, trail, serve, serve_all, implementation_of, admitted, held_or_opened, reached,
  replay_one, replay,
}

if_twice :
    {A : Type 0} (b : Bool) (x y z : A)
    → (if b then x else z) ≡ (if b then x else (if b then y else z))
if_twice true x y z = refl
if_twice false x y z = refl

not_both : (a b key : String) → (a == b) ≡ false → (a == key) ≡ true → (b == key) ≡ false
not_both a b key differ here = elim (Bool-cases (b == key)) [
  | inl also ↦
      let one = (eq_iff a key).0 here ∙ sym ((eq_iff b key).0 also) in
      cc (differ, subst (λ t. (a == t) ≡ true) one (eq_refl a))
  | inr away ↦ away
]

module _ {Instance : Type 0} where
  -- The map by keys.
  pub instance_at-put_instance :
      (key name : String) (instance : Instance) (instances : Instances Instance)
      → instance_at key (put_instance name instance instances)
        ≡ (if name == key then some instance else instance_at key instances)
  unfolding instance_at put_instance
  instance_at-put_instance key name instance [] = refl
  instance_at-put_instance key name instance ((other, held) ∷ instances) =
      let rest = instance_at-put_instance key name instance instances in
      elim (Bool-cases (other == name)) [
        | inl same ↦ rw same (
            subst
              (λ t. (if other == key then some instance else instance_at key instances) ≡ (
                if t == key
                then some instance
                else (if other == key then some held else instance_at key instances)))
              ((eq_iff other name).0 same) (if_twice (other == key) _ _ _))
        | inr differ ↦ elim (Bool-cases (other == key)) [
          | inl here ↦
              let away = not_both other name key differ here in rw (differ, here, away) refl
          | inr away ↦ rw (differ, away) rest
        ]
      ]

module _ {Claims Instance Projection Error : Type 0} (digits : ℕ → String)
    (canonicalize : String → Option String) (hosted : HostedInstance Instance Projection Error)
    (host : Built Claims Instance) where
  -- An instance that is opened stands under its key, and nothing else moved.
  open-instance_at :
      (key : String) (address : Address) (implementation : Implementation Instance)
      (instances : Instances Instance)
      → let (instance, after) = open_instance digits host address implementation instances in
        (instance
          ≡ held_or_opened address implementation
              (instance_at (address_key digits address) instances))
        × (instance_at key after ≡ (
            if address_key digits address == key then some instance else instance_at key instances))
  unfolding open_instance
  open-instance_at key address implementation instances =
      Option-by
        (λ o.
          let (instance, after) = opened_or digits host address implementation instances o in
          (instance ≡ held_or_opened address implementation o)
          × (instance_at key after ≡ (
              if address_key digits address == key
              then some instance
              else instance_at key instances)))
        (instance_at (address_key digits address) instances)
        (λ e. (refl, instance_at-put_instance key (address_key digits address) _ instances))
        (λ instance e. (
          refl,
          elim (Bool-cases (address_key digits address == key)) [
            | inl same ↦ rw same (
                subst (λ t. instance_at t instances ≡ some instance)
                  ((eq_iff (address_key digits address) key).0 same) e)
            | inr away ↦ rw away refl
          ],
        ))

  module _ (key : String) (address : Address) (implementation : Implementation Instance)
      (instances : Instances Instance) where
    abbrev opened : Instance × Instances Instance
    opened = open_instance digits host address implementation instances

    -- What stands at the key once the opened instance has moved on.
    abbrev moved : (Instance → Instance) → Option Instance
    moved next =
        if address_key digits address == key
        then some (next (held_or_opened address implementation (instance_at key instances)))
        else instance_at key instances

    read-moved : instance_at key opened.1 ≡ moved (λ instance. instance)
    read-moved = elim (Bool-cases (address_key digits address == key)) [
      | inl same ↦
          let (first, there) = open-instance_at key address implementation instances in
          let one = (eq_iff (address_key digits address) key).0 same in
          let held =
            subst (λ t. opened.0 ≡ held_or_opened address implementation (instance_at t instances))
              one first in
          there ∙ rw same (ap (λ i. some i) held)
      | inr away ↦
          let (first, there) = open-instance_at key address implementation instances in
          there ∙ rw away refl
    ]

    put-moved :
        (next : Instance → Instance)
        → instance_at key (put_instance (address_key digits address) (next opened.0) opened.1)
          ≡ moved next
    put-moved next =
        let (first, there) = open-instance_at key address implementation instances in
        instance_at-put_instance key (address_key digits address) (next opened.0) opened.1
        ∙ elim (Bool-cases (address_key digits address == key)) [
          | inl same ↦
              let one = (eq_iff (address_key digits address) key).0 same in
              let held =
                subst
                  (λ t. opened.0 ≡ held_or_opened address implementation (instance_at t instances))
                  one first in
              rw same (ap (λ i. some (next i)) held)
          | inr away ↦ rw away (there ∙ rw away refl)
        ]

  if_same : {A : Type 0} (b : Bool) (x : A) → x ≡ (if b then x else x)
  if_same true x = refl
  if_same false x = refl

  sends-instance_at :
      (key : String) (who : Principal Claims) (address : Address) (id payload : String)
      (active : List QueryKey) (meanwhile : Instances Instance → Moments Instance)
      (instances : Instances Instance)
      → let (answer, after) =
          send_command digits canonicalize hosted host who address id payload active meanwhile
            instances in
        instance_at key after
        ≡ replay_one digits canonicalize hosted key
            (sends host who address id payload)
            (instance_at key instances)
  unfolding send_command resolve admitted
  sends-instance_at key who address id payload active meanwhile instances =
      Result-by
        (λ (r : Result RemoteFailure (Implementation Instance)).
          instance_at key
            (send_to digits canonicalize hosted host who address id payload active meanwhile
              (open_authorized digits canonicalize hosted host who address instances r)).1
          ≡ (if address_key digits address == key
              then reached digits canonicalize hosted (sends host who address id payload) r
                  (instance_at key instances)
              else instance_at key instances))
        (authorize who address send (find digits host address)) (λ e same. if_same _ _)
        (λ m same.
          put-moved key address m instances
            (λ instance. let (next, result) = hosted.send instance id payload in next))

  calls-instance_at :
      (key : String) (who : Principal Claims) (address : Address) (id payload : String)
      (active : List QueryKey) (meanwhile : Instances Instance → Moments Instance)
      (instances : Instances Instance)
      → let (answer, after) =
          call_command digits canonicalize hosted host who address id payload active meanwhile
            instances in
        instance_at key after
        ≡ replay_one digits canonicalize hosted key
            (calls host who address id payload)
            (instance_at key instances)
  unfolding call_command resolve admitted
  calls-instance_at key who address id payload active meanwhile instances =
      Result-by
        (λ (r : Result RemoteFailure (Implementation Instance)).
          instance_at key
            (call_to digits canonicalize hosted host who address id payload active meanwhile
              (open_authorized digits canonicalize hosted host who address instances r)).1
          ≡ (if address_key digits address == key
              then reached digits canonicalize hosted (calls host who address id payload) r
                  (instance_at key instances)
              else instance_at key instances))
        (authorize who address send (find digits host address)) (λ e same. if_same _ _)
        (λ m same.
          put-moved key address m instances
            (λ instance. let (next, result) = hosted.call instance id payload in next))

  reads-instance_at :
      (key : String) (who : Principal Claims) (address : Address) (instances : Instances Instance)
      → instance_at key (snapshot digits canonicalize hosted host who address instances).1
        ≡ replay_one digits canonicalize hosted key
            (reads host who address)
            (instance_at key instances)
  unfolding snapshot resolve admitted
  reads-instance_at key who address instances =
      Result-by
        (λ (r : Result RemoteFailure (Implementation Instance)).
          instance_at key
            (shown_by digits canonicalize hosted host who
              (open_authorized digits canonicalize hosted host who address instances r)).1
          ≡ (if address_key digits address == key
              then reached digits canonicalize hosted (reads host who address) r
                  (instance_at key instances)
              else instance_at key instances))
        (authorize who address read (find digits host address)) (λ e same. if_same _ _)
        (λ m same. read-moved key address m instances)

  wakes-instance_at :
      (key : String) (address : Address) (instances : Instances Instance)
      → instance_at key (wake digits host address instances).1
        ≡ replay_one digits canonicalize hosted key (wakes host address) (instance_at key instances)
  unfolding wake admitted
  wakes-instance_at key address instances =
      Result-by
        (λ (r : Result RemoteFailure (Resolved Claims (Implementation Instance))).
          instance_at key (woken digits host address instances r).1 ≡ (
            if address_key digits address == key
            then reached digits canonicalize hosted (wakes host address) (implementation_of r)
                (instance_at key instances)
            else instance_at key instances))
        (find digits host address) (λ e same. if_same _ _)
        (λ r same. read-moved key address r.entry instances)

module _ {Claims Instance Projection Error : Type 0} (digits : ℕ → String)
    (canonicalize : String → Option String) (hosted : HostedInstance Instance Projection Error)
    (key : String) where
  abbrev replayed : List (Touch Claims Instance) → Option Instance → Option Instance
  replayed = replay digits canonicalize hosted key

  touch-instance_at :
      (touched : Touch Claims Instance) (instances : Instances Instance)
      → instance_at key (touch digits canonicalize hosted touched instances)
        ≡ replay_one digits canonicalize hosted key touched (instance_at key instances)
  unfolding touch
  touch-instance_at (sends host who address id payload) instances =
      sends-instance_at digits canonicalize hosted host key who address id payload [] (λ _. [])
        instances
  touch-instance_at (calls host who address id payload) instances =
      calls-instance_at digits canonicalize hosted host key who address id payload [] (λ _. [])
        instances
  touch-instance_at (reads host who address) instances =
      reads-instance_at digits canonicalize hosted host key who address instances
  touch-instance_at (wakes host address) instances =
      wakes-instance_at digits canonicalize hosted host key address instances

  touch_all-instance_at :
      (made : List (Touch Claims Instance)) (instances : Instances Instance)
      → instance_at key (touch_all digits canonicalize hosted made instances)
        ≡ replayed made (instance_at key instances)
  unfolding touch_all replay
  touch_all-instance_at [] instances = refl
  touch_all-instance_at (touched ∷ made) instances =
      touch_all-instance_at made (touch digits canonicalize hosted touched instances)
      ∙ ap (replayed made) (touch-instance_at touched instances)

  replay-append :
      (made rest : List (Touch Claims Instance)) (held : Option Instance)
      → replayed (made ++ rest) held ≡ replayed rest (replayed made held)
  unfolding replay
  replay-append [] rest held = refl
  replay-append (touched ∷ made) rest held =
      replay-append made rest (replay_one digits canonicalize hosted key touched held)

  serve-instance_at :
      (request : Request Claims Instance) (instances : Instances Instance)
      → instance_at key (serve digits canonicalize hosted request instances)
        ≡ replayed (touches request) (instance_at key instances)
  unfolding serve replay
  serve-instance_at (sent host who address id payload active made) instances =
      touch_all-instance_at made _
      ∙ ap (replayed made) (
          sends-instance_at digits canonicalize hosted host key who address id payload active
            (trail digits canonicalize hosted made) instances)
  serve-instance_at (called host who address id payload active made) instances =
      touch_all-instance_at made _
      ∙ ap (replayed made) (
          calls-instance_at digits canonicalize hosted host key who address id payload active
            (trail digits canonicalize hosted made) instances)
  serve-instance_at (queried made) instances = touch_all-instance_at made instances
  serve-instance_at (alone touched) instances = touch-instance_at touched instances

  -- Over any history of commands, calls, queries, reads and wakes, what stands at a key is what the steps that
  -- reach for this key make of it, the requests' own and those that come before an answer, such as the reads
  -- and commands of the handlers of queries: each step that names a hosted contract in its version and that
  -- its policy admits then, one after another, the first of them opening the instance; a wake asks no policy.
  -- So a step that is refused opens and changes nothing, and no step changes what stands at another key.
  pub serve_all-instance_at :
      (requests : List (Request Claims Instance)) (instances : Instances Instance)
      → instance_at key (serve_all digits canonicalize hosted requests instances)
        ≡ replay digits canonicalize hosted key (all_touches requests) (instance_at key instances)
  unfolding serve_all replay
  serve_all-instance_at [] instances = refl
  serve_all-instance_at (request ∷ requests) instances =
      serve_all-instance_at requests (serve digits canonicalize hosted request instances)
      ∙ ap (replayed (all_touches requests)) (serve-instance_at request instances)
      ∙ sym (replay-append (touches request) (all_touches requests) (instance_at key instances))
