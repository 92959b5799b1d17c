-- ===== src/State/Settings.antt =====
-- src/core/state.rs: the preferences, and the mode that edits them.
use cosmic_pass.Base.{ℕ, Option, some, none, [], ◌∷◌, if◌then◌else◌, ◌==◌, leb, decide}
use cosmic_pass.Base.Int.{ℤ, pos, pos_part, max_ℤ, saturating_add_i64, u32_max}
use cosmic_pass.Base.Unicode.{Unicode}
use cosmic_pass.Config.Types.{
  Action, KeyChord, action_label, show_chord, insert, Preferences, prefs_discrete,
}
use cosmic_pass.Config.Defaults.{default_prefs}
use cosmic_pass.Config.Validate.{validated, conflict}
use cosmic_pass.Search.Index.{Matcher}
use cosmic_pass.State.Types.{Mode, Model, Effect, Outcome}
use cosmic_pass.State.View.{notify, leave_mode, recompute_results}
use cosmic_pass.State.Copy.{notified}
use Prim.Native.String.{◌++◌}

-- `Model::apply_prefs`.
unfoldable pub apply_prefs : Matcher → Model → Preferences → Model
unfolding recompute_results
apply_prefs mt m prefs =
    let applied = record m { prefs = prefs } in
    let shown = recompute_results mt applied in
    if prefs.max_results == m.prefs.max_results then applied else shown

-- `Model::save_prefs`.
unfoldable pub save_prefs : Unicode → Matcher → Model → Preferences → Outcome
unfolding validated decide apply_prefs
save_prefs u mt m prefs =
    let valid = validated u prefs in
    if decide (prefs_discrete valid m.prefs)
    then (m, [])
    else (apply_prefs mt m valid, Effect.save_preferences valid ∷ [])

-- The chord is bound unless another action has it.
unfoldable pub bind_chord : Unicode → Matcher → Model → Action → KeyChord → Option Action → Outcome
unfolding notify save_prefs insert show_chord action_label
bind_chord u mt m action chord (some other) =
    notified m (show_chord u chord ++ " is already used by “" ++ action_label other ++ "”")
bind_chord u mt m action chord none =
    let left = record m { view = record (m.view) { mode = Mode.preferences none } } in
    save_prefs u mt left
      (record (left.prefs) { shortcuts = insert action chord left.prefs.shortcuts })

unfoldable pub capture_in : Unicode → Matcher → Model → Mode → KeyChord → Outcome
unfolding bind_chord conflict
capture_in u mt m Mode.list chord = (m, [])
capture_in u mt m (Mode.actions key selected) chord = (m, [])
capture_in u mt m (Mode.preferences none) chord = (m, [])
capture_in u mt m (Mode.preferences (some action)) chord =
    bind_chord u mt m action chord (conflict u m.prefs action chord)

-- `Model::chord_captured`.
unfoldable pub chord_captured : Unicode → Matcher → Model → KeyChord → Outcome
unfolding capture_in
chord_captured u mt m chord = capture_in u mt m m.view.mode chord

-- `Msg::OpenPreferences`.
unfoldable pub open_preferences : Model → Outcome
unfolding leave_mode
open_preferences m =
    let left = leave_mode m in
    (record left { view = record (left.view) { mode = Mode.preferences none } }, [])

-- The timeout moved by `delta` seconds, as a `u32`.
unfoldable pub adjusted : ℕ → ℤ → ℕ
unfolding saturating_add_i64
adjusted current delta =
    let next = pos_part (max_ℤ (saturating_add_i64 (pos current) delta) (pos 0)) in
    if leb next u32_max then next else u32_max

-- `Msg::AdjustClipboardClear`.
unfoldable pub adjust_clipboard_clear : Unicode → Matcher → Model → ℤ → Outcome
unfolding adjusted save_prefs
adjust_clipboard_clear u mt m delta =
    save_prefs u mt m
      (record (m.prefs) { clipboard_clear_secs = adjusted m.prefs.clipboard_clear_secs delta })

abbrev rebinding_in : Mode → Action → Mode
rebinding_in Mode.list action = Mode.list
rebinding_in (Mode.actions key selected) action = Mode.actions key selected
rebinding_in (Mode.preferences old) action = Mode.preferences (some action)

-- `Msg::StartRebind`.
unfoldable pub start_rebind : Model → Action → Outcome
start_rebind m action =
    (record m { view = record (m.view) { mode = rebinding_in m.view.mode action } }, [])

-- `Msg::ResetShortcuts`.
unfoldable pub reset_shortcuts : Unicode → Matcher → Model → Outcome
unfolding save_prefs default_prefs
reset_shortcuts u mt m =
    save_prefs u mt m (record (m.prefs) { shortcuts = default_prefs.shortcuts })
