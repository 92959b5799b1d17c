-- ===== src/Config/Validate.antt =====
-- src/config.rs: validation of the preferences, and what a chord is bound to.
use cosmic_pass.Base.{
  ℕ, String, Bool, not, ◌&&◌, Option, some, none, List, [], ◌∷◌, if◌then◌else◌, ◌==◌, ltb, decide,
  unwrap_or, find, any,
}
use cosmic_pass.Base.Unicode.{Unicode}
use cosmic_pass.Config.Types.{
  Action, all_of_them, rank, Modifier, KeyChord, chord_discrete, matches, normalized_chord,
  Shortcuts, lookup, insert, remove, Preferences,
}
use cosmic_pass.Config.Defaults.{default_chord}
use text.Mathlib.Text.{◌==◌ as str_eq}

-- `clamp` into an inclusive range.
unfoldable pub clamp : ℕ → (low high : ℕ) → ℕ
clamp value low high = if ltb value low then low else if ltb high value then high else value

-- `Vec::contains`.
unfoldable pub is_used : KeyChord → List KeyChord → Bool
unfolding any decide
is_used c used = any (λ d. decide (chord_discrete d c)) used

-- The stored chord of `action` if it is usable, else its default.
unfoldable pub kept_chord : Unicode → List KeyChord → Action → Option KeyChord → KeyChord
unfolding is_used
kept_chord u used action none = default_chord action
kept_chord u used action (some c) =
    if not (str_eq c.key "") && not (is_used (normalized_chord u c) used)
    then c
    else default_chord action

-- The loop over the actions: what is stored, the chords used so far, and what is kept.
unfoldable pub validate_loop :
    Unicode → List Action → Shortcuts → List KeyChord → Shortcuts → Shortcuts
unfolding kept_chord remove insert lookup
validate_loop u [] stored used acc = acc
validate_loop u (a ∷ actions) stored used acc =
    let chord = kept_chord u used a (lookup a stored) in
    validate_loop u actions (remove a stored) (normalized_chord u chord ∷ used) (insert a chord acc)

-- `Preferences::validated`.
unfoldable pub validated : Unicode → Preferences → Preferences
unfolding clamp validate_loop
validated u p = record {
  clipboard_clear_secs = clamp p.clipboard_clear_secs 10 600;
  refresh_stale_secs = clamp p.refresh_stale_secs 30 86400;
  max_results = clamp p.max_results 5 200;
  shortcuts = validate_loop u all_of_them p.shortcuts [] [];
}

-- `Preferences::chord`.
unfoldable pub chord : Preferences → Action → KeyChord
unfolding lookup
chord p a = unwrap_or (lookup a p.shortcuts) (default_chord a)

-- The action bound to a key press.
unfoldable pub action_for : Preferences → List Modifier → String → Option Action
unfolding find chord matches
action_for p modifiers key = find (λ a. matches (chord p a) modifiers key) all_of_them

-- The action other than `action` that already uses `wanted`.
unfoldable pub conflict : Unicode → Preferences → Action → KeyChord → Option Action
unfolding find chord decide
conflict u p action wanted =
    find
      (λ a.
        not (rank a == rank action)
        && decide (chord_discrete (normalized_chord u (chord p a)) (normalized_chord u wanted)))
      all_of_them
