-- ===== src/Local/Tests.antt =====
-- The local engine on concrete messages.
use effect_frame.Base.{◌≡◌, refl, ℕ, ◌+◌, if◌then◌else◌, eqb, none, some, List, [], ◌∷◌}
use effect_frame.Behavior.{Behavior, reducer, refusal_of}
use effect_frame.Local.{
  Engine, Event, asks, counts, offers, changes, takes, applies, answers, ends, closes, run, on,
  taken_at, opened, refused, ended,
}
use effect_frame.Local.Turns.{places, once, is_given, places-run}

-- A counter that refuses zero.
abbrev counter : Behavior ℕ ℕ ℕ
counter = reducer 0 (λ state n. state + n) (some (λ n. if eqb n 0 then some 7 else none))

-- Two admissions overlap and are offered in the other order. The first that is taken is refused; the other
-- turn dies.
abbrev busy : List (Event ℕ ℕ)
busy =
    asks (λ s. 2)
    ∷ asks (λ s. 0)
    ∷ counts 0
    ∷ counts 0
    ∷ offers 1
    ∷ changes 5
    ∷ offers 0
    ∷ takes none
    ∷ applies
    ∷ answers
    ∷ takes none
    ∷ takes none
    ∷ ends
    ∷ asks (λ s. s)
    ∷ counts 0
    ∷ closes
    ∷ []

abbrev last : Engine ℕ ℕ ℕ
last = run counter eqb (opened counter eqb) busy

-- The refused message made no revision, and the change did.
after_busy :
    (last.replies ≡ refused 2 7 ∷ [])
    × (last.worker ≡ ended (some 1))
    × (last.committed ≡ record { revision = 1; state = 5 })
unfolding run on taken_at refusal_of reducer
after_busy = (refl, refl, refl)

places-run_example : places last 1 ≡ once (is_given last.admission 1)
places-run_example = places-run counter eqb 1 busy
