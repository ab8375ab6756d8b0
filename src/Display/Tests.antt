-- ===== src/Display/Tests.antt =====
-- A display over a counter whose messages add to it.
use effect_frame.Base.{
  ℕ, ◌+◌, ◌≡◌, refl, Option, none, some, List, [], ◌∷◌, filter, any, arith, eq_of_some, sym, ◌∙◌,
  ◌⊎◌,
}
use mathlib.Core.List.{flat_map, Memᴰ}
use effect_frame.Vocabulary.{Committed, provisional}
use effect_frame.Mailbox.{empty_log}
use effect_frame.Mailbox.Valid.{empty_log-IsValid}
use effect_frame.Mailbox.Order.{turns, turns-IsValid}
use effect_frame.Mailbox.Fifo.{turns-empty-IsOrdered}
use effect_frame.Mailbox.Tests.{mailbox, script}
use effect_frame.Display.{
  Log, Overlay, Event, offers, predicts, admits, receives, apply, display, update, initial,
  membership, placed_by, anchored, update_overlay, committed_shown, greatest, insert_newest,
  sort_newest, replay, shown_of, rebuild, offer_step, offer, reoffer, incorporate, on_predict,
  on_release, on_admit, recorded, on_receipt, included, excluded,
}
use effect_frame.Display.Coherent.{Shows, display-initial-Shows}
use effect_frame.Display.Truth.{Serial, InBase, membership_sound}
use effect_frame.Display.Exact.{IsTrue, AreTrueEvents, display-initial-IsTrue}
use effect_frame.Display.Account.{IsTotal, offer-Accounts}
use effect_frame.Display.Serial.{serial_of}

screen : Unit {0}
unfolding apply display update initial membership placed_by anchored update_overlay committed_shown
    greatest insert_newest sort_newest replay shown_of rebuild offer_step offer reoffer incorporate
    on_predict on_release on_admit recorded on_receipt any filter flat_map
screen = tt

abbrev plus : ℕ → ℕ → Option ℕ
plus s m = some (s + m)

abbrev base : Committed ℕ
base = record { revision = 0; state = 10 }

abbrev at_one : Committed ℕ
at_one = record { revision = 1; state = 11 }

-- "a" is predicted, then "b"; the host commits "a" at revision 1 and reports it.
abbrev events : List (Event ℕ ℕ)
events =
    predicts "a" 1
    ∷ predicts "b" 5
    ∷ offers at_one
    ∷ admits "b" 2
    ∷ receives "a" (some 1) at_one
    ∷ []

shown_before :
    (display plus (initial plus base) (predicts "a" 1 ∷ predicts "b" 5 ∷ [])).shown
    ≡ record { revision = provisional 0 2; state = 16 }
unfolding screen
shown_before = refl

-- The base moves under "b" once the receipt of "a" classifies both.
shown_after :
    (display plus (initial plus base) events).shown
    ≡ record { revision = provisional 1 1; state = 16 }
unfolding screen
shown_after = refl

display-initial-Shows_example : Shows plus (display plus (initial plus base) events)
display-initial-Shows_example = display-initial-Shows plus base events

-- The host's side: the mailbox that admitted "a" and "b" and committed "a".
abbrev host : Serial
host =
    serial_of (turns empty_log script) (turns-IsValid empty_log script empty_log-IsValid)
      (turns-empty-IsOrdered script)

position_a : host.position "a" ≡ some 1
unfolding mailbox
position_a = refl

position_b : host.position "b" ≡ some 2
unfolding mailbox
position_b = refl

revision_a : host.revision "a" ≡ some 1
unfolding mailbox
revision_a = refl

revision_b : host.revision "b" ≡ none
unfolding mailbox
revision_b = refl

a_not-InBase : ¬ InBase host 0 "a"
a_not-InBase (m, e, le) =
    let same : m ≡ 1 = eq_of_some m 1 (sym e ∙ revision_a) in absurd (omega arith)

b_not-InBase : (n : ℕ) → ¬ InBase host n "b"
b_not-InBase n (m, e, le) = let f = sym e ∙ revision_b in absurd (cc)

events_true : AreTrueEvents host plus events (initial plus base)
unfolding screen
events_true = (a_not-InBase, (b_not-InBase 0, (tt, (position_b, ((position_a, revision_a), tt)))))

display-initial-IsTrue_example : IsTrue host plus (display plus (initial plus base) events)
display-initial-IsTrue_example = display-initial-IsTrue host plus base events events_true

abbrev waiting_b : Overlay ℕ ℕ
waiting_b = record { command_id = "b"; message = 5; admitted = some 2; exact = none }

membership_sound_example :
    (membership waiting_b 1 (some (record { admitted = 1; revision = 1 })) ≡ included
      → InBase host 1 "b")
    × (membership waiting_b 1 (some (record { admitted = 1; revision = 1 })) ≡ excluded
        → ¬ InBase host 1 "b")
membership_sound_example =
    membership_sound host waiting_b 1 (some (record { admitted = 1; revision = 1 })) position_b tt
      ("a", position_a, revision_a)

plus-IsTotal : IsTotal plus
plus-IsTotal s m = λ e. cc

abbrev shown_two : Log ℕ ℕ
shown_two = display plus (initial plus base) (predicts "a" 1 ∷ predicts "b" 5 ∷ [])

two-IsTrue : IsTrue host plus shown_two
two-IsTrue =
    display-initial-IsTrue host plus base (predicts "a" 1 ∷ predicts "b" 5 ∷ [])
      (unfold screen in (a_not-InBase, (b_not-InBase 0, tt)))

abbrev fresh_b : Overlay ℕ ℕ
fresh_b = record { command_id = "b"; message = 5; admitted = none; exact = none }

b_shown : Memᴰ fresh_b shown_two.overlays
unfolding screen
b_shown = Memᴰ.tail (Memᴰ.head refl)

offer-Accounts_example :
    Memᴰ fresh_b (offer plus shown_two at_one).overlays
    ⊎ InBase host (offer plus shown_two at_one).base.revision "b"
offer-Accounts_example =
    offer-Accounts plus host plus-IsTotal shown_two at_one fresh_b two-IsTrue b_shown
