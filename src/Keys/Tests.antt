-- ===== src/Keys/Tests.antt =====
-- Key presses at the default shortcuts.
use cosmic_pass.Base.{◌≡◌, refl, some, none, [], ◌∷◌, false, true, decide}
use cosmic_pass.Config.Types.{ctrl, modifiers_discrete}
use cosmic_pass.Config.Defaults.{default_prefs}
use cosmic_pass.State.Types.{Mode, Msg}
use cosmic_pass.Keys.{KeyPress, map_key}
use cosmic_pass.Keys.Modes.{fits, fits-map_key}
use cosmic_pass.Fixtures.{key}

abbrev ctrl_r : KeyPress
ctrl_r = record { key = "r"; modifiers = ctrl ∷ [] }

reveals_in_actions :
    map_key ctrl_r (Mode.actions (key "a") 0) default_prefs (record { caret_at_end = false })
    ≡ some Msg.toggle_reveal
unfolding map_key decide modifiers_discrete default_prefs
reveals_in_actions = refl

fits-map_key_example :
    fits
      (Mode.preferences none)
      (map_key ctrl_r (Mode.preferences none) default_prefs (record { caret_at_end = false }))
    ≡ true
fits-map_key_example =
    fits-map_key ctrl_r (Mode.preferences none) default_prefs (record { caret_at_end = false })
