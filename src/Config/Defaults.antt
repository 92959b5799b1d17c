-- ===== src/Config/Defaults.antt =====
-- src/config.rs: the default chords and preferences.
use cosmic_pass.Base.{List, [], ◌∷◌}
use cosmic_pass.Config.Types.{
  Action, copy_primary, copy_username, copy_totp, copy_url, open_actions, reveal, refresh,
  preferences, sign_in, retry, all_of_them, ctrl, shift, KeyChord, new_chord, Shortcuts, insert,
  Preferences,
}

unfoldable pub default_chord : Action → KeyChord
unfolding new_chord
default_chord copy_primary = new_chord [] "Enter"
default_chord copy_username = new_chord (ctrl ∷ []) "u"
default_chord copy_totp = new_chord (ctrl ∷ []) "o"
default_chord copy_url = new_chord (ctrl ∷ []) "l"
default_chord open_actions = new_chord [] "Tab"
default_chord reveal = new_chord (ctrl ∷ []) "r"
default_chord refresh = new_chord [] "F5"
default_chord preferences = new_chord (ctrl ∷ []) ","
default_chord sign_in = new_chord (ctrl ∷ shift ∷ []) "s"
default_chord retry = new_chord (ctrl ∷ shift ∷ []) "r"

-- The loop that collects the default of each action.
abbrev pub defaults_of : List Action → Shortcuts
defaults_of [] = []
defaults_of (a ∷ actions) = insert a (default_chord a) (defaults_of actions)

-- `Preferences::default`.
unfoldable pub default_prefs : Preferences
unfolding default_chord insert
default_prefs = record {
  clipboard_clear_secs = 90;
  refresh_stale_secs = 300;
  max_results = 12;
  shortcuts = defaults_of all_of_them;
}
