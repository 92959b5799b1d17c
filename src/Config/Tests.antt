-- ===== src/Config/Tests.antt =====
-- The validation of sample preferences, and its theorems at them.
use cosmic_pass.Base.{String, Option, List, find, some, decide, string_discrete, ◌≡◌, refl, [], ◌∷◌}
use cosmic_pass.Config.Types.{
  rank, lookup, insert, chord_discrete, modifiers_discrete, normalized_chord, copy_primary,
  copy_username, copy_url, KeyChord, ctrl, Preferences,
}
use cosmic_pass.Config.Defaults.{default_prefs, default_chord}
use cosmic_pass.Config.Stored.{visit_map, action_named, action_name, last_stored, lookup-visit_map}
use cosmic_pass.Config.Validate.{validated, conflict}
use cosmic_pass.Config.Checked.{IsValid, validated-IsValid}
use cosmic_pass.Config.Conflicts.{FoundClash, conflict_clashes}
use cosmic_pass.Fixtures.{plain_case}

-- Numbers out of range and a chord stored for one action only.
abbrev stored : Preferences
stored = record {
  clipboard_clear_secs = 0;
  refresh_stale_secs = 100000;
  max_results = 1;
  shortcuts = (copy_url, record { modifiers = ctrl ∷ []; key = "o" }) ∷ [];
}

raised : (validated plain_case stored).clipboard_clear_secs ≡ 10
unfolding validated
raised = refl

validated-IsValid_example : IsValid (validated plain_case stored)
validated-IsValid_example = validated-IsValid plain_case stored

abbrev wanted : KeyChord
wanted = record { modifiers = ctrl ∷ []; key = "o" }

conflict_clashes_example :
    FoundClash plain_case default_prefs copy_url wanted
      (conflict plain_case default_prefs copy_url wanted)
conflict_clashes_example = conflict_clashes plain_case default_prefs copy_url wanted

-- A stored chord that is another action's default takes it, and the other keeps its default too.
abbrev taken : Preferences
taken = record {
  clipboard_clear_secs = 90;
  refresh_stale_secs = 300;
  max_results = 12;
  shortcuts = (copy_primary, record { modifiers = ctrl ∷ []; key = "u" }) ∷ [];
}

default_taken_stays :
    conflict plain_case
      (validated plain_case taken)
      copy_primary
      (record { modifiers = ctrl ∷ []; key = "u" })
    ≡ some copy_username
unfolding conflict validated decide chord_discrete rank normalized_chord default_chord lookup
    string_discrete modifiers_discrete
default_taken_stays = refl

abbrev ctrl_key : String → KeyChord
ctrl_key key = record { modifiers = ctrl ∷ []; key = key }

-- A map that an older version stored: one name is no longer known, and one stands twice.
abbrev old_entries : List (String × KeyChord)
old_entries =
    ("open_detail", ctrl_key "d") ∷ ("copy_url", ctrl_key "l") ∷ ("copy_url", ctrl_key "w") ∷ []

abbrev readable : KeyChord → Option KeyChord
readable c = some c

lookup-visit_map_example :
    lookup copy_url ((copy_url, ctrl_key "w") ∷ []) ≡ last_stored readable copy_url old_entries
unfolding visit_map action_named action_name insert find rank
lookup-visit_map_example =
    lookup-visit_map readable copy_url ((copy_url, ctrl_key "w") ∷ []) old_entries refl
