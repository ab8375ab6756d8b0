-- ===== src/Behavior.antt =====
-- packages/effect-frame/src/actor/behavior.ts and behavior-rules.ts: what an actor's author supplies.
-- `open` and its effects are the author's; an open turn is here its `apply`.
use mathlib.Core.Option
use effect_frame.Base.{ℕ, Option, none, some}

-- `refuse` and `wake_at` are optional. `apply` is the turn that `open` gives.
pub record Behavior (State Message Refusal : Type 0) : Type 0 where
  pub initial : State
  pub apply : State → Message → State
  pub predict : Option (State → Message → State)
  pub refuse : Option (Message → Option Refusal)
  pub wake_at : Option (State → Option ℕ)

module _ {State Message Refusal : Type 0} where
  -- When a state next needs the actor, if the behavior names a time.
  unfoldable pub wake_of : Behavior State Message Refusal → State → Option ℕ
  wake_of behavior state = elim behavior.wake_at [ none ↦ none | some at ↦ at state ]

  -- The refusal of one message, if the behavior has a rule and it refuses.
  unfoldable pub refusal_of : Behavior State Message Refusal → Message → Option Refusal
  refusal_of behavior message = elim behavior.refuse [ none ↦ none | some refuse ↦ refuse message ]

  -- `Behavior.reducer`: the prediction is the reduction itself.
  unfoldable pub reducer :
      State
      → (State → Message → State)
      → Option (Message → Option Refusal)
      → Behavior State Message Refusal
  reducer initial reduce refuse = record {
    initial = initial;
    apply = reduce;
    predict = some reduce;
    refuse = refuse;
    wake_at = none;
  }

-- `Value.Set(next)`, the one message of a value actor.
pub data SetValue (A : Type 0) : Type 0 where
  set : A → SetValue A

abbrev pub value_in : {A : Type 0} → SetValue A → A
value_in (set a) = a

abbrev pub on_value : {A Refusal : Type 0} → (A → Option Refusal) → SetValue A → Option Refusal
on_value refuse message = refuse (value_in message)

-- `Behavior.value`: each message replaces the state, and a refusal rule reads the value alone.
unfoldable pub value :
    {A Refusal : Type 0} → A → Option (A → Option Refusal) → Behavior A (SetValue A) Refusal
value initial refuse = record {
  initial = initial;
  apply = λ _ message. value_in message;
  predict = some (λ _ message. value_in message);
  refuse = Option.map on_value refuse;
  wake_at = none;
}
