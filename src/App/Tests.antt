-- ===== src/App/Tests.antt =====
-- src/app/mod.rs: a window that is opened, loses the focus and is asked for again.
use cosmic_pass.Base.{ℕ, ◌≡◌, refl, true, false, none, some, List, [], ◌∷◌, arith}
use cosmic_pass.Base.Int.{ℤ, pos}
use cosmic_pass.Fixtures.{plain_case, containment, deps}
use cosmic_pass.Config.Types.{Modifier}
use cosmic_pass.State.Session.{startup}
use cosmic_pass.App.Labels.{named, unfocused}
use cosmic_pass.App.{CosmicPass, layer}
use cosmic_pass.App.Events.{
  activate, unavailable, init, Arrival, message, activation, run, to_key_press,
}
use cosmic_pass.App.Visible.{Agrees}
use cosmic_pass.App.Runs.{last_instant, run-Agrees}
use cosmic_pass.App.Kept.{run-IsSound}
use cosmic_pass.State.Invariant.Sound.{IsSound}

abbrev shell : CosmicPass
unfolding init
shell = (init plain_case containment 1000 (pos 7) deps 3 unavailable none).0

-- The focus is lost, and the window is asked for 50 ms and 200 ms afterwards.
abbrev focus_lost : List (Arrival × ℕ × ℤ)
focus_lost = (message (layer unfocused 3), 5000, pos 8) ∷ []

abbrev at_once : List (Arrival × ℕ × ℤ)
at_once = (activation activate, 5050, pos 8) ∷ []

abbrev later_on : List (Arrival × ℕ × ℤ)
later_on = (activation activate, 5200, pos 8) ∷ []

closes : (run plain_case containment shell focus_lost).surface.visible ≡ false
unfolding run init startup
closes = refl

comes_back :
    (run plain_case containment
      (run plain_case containment shell focus_lost)
      later_on).surface.visible
    ≡ true
unfolding run init startup
comes_back = refl

keys_named :
    to_key_press
      (record { key = named "Enter"; control = true; shift = false; alt = false; logo = true })
    ≡ some (record { key = "Enter"; modifiers = Modifier.ctrl ∷ Modifier.super ∷ [] })
unfolding to_key_press
keys_named = refl

run-Agrees_example : Agrees (last_instant 1000 at_once) (
    run plain_case containment
      (init plain_case containment 1000 (pos 7) deps 3 unavailable none).0
      at_once)
run-Agrees_example =
    run-Agrees plain_case containment 1000 (pos 7) deps 3 unavailable none at_once (omega arith, tt)

run-IsSound_example :
    IsSound
      (run plain_case containment
        (init plain_case containment 1000 (pos 7) deps 3 unavailable none).0
        at_once).model
run-IsSound_example =
    run-IsSound plain_case containment 1000 (pos 7) deps 3 unavailable none at_once
