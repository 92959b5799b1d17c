-- ===== src/Keys/Modes.antt =====
-- src/app/keys.rs: which messages a key press can give in each mode.
use cosmic_pass.Base.{
  [], ◌∷◌, Bool, true, false, not, Option, some, none, ◌≡◌, refl, arith, if_keeps, ℕ, ◌&&◌, ◌||◌,
  map_option, if◌then◌else◌,
}
use cosmic_pass.Config.Types.{
  ctrl, shift, Action, copy_primary, copy_username, copy_totp, copy_url, open_actions, reveal,
  refresh, preferences, sign_in, retry, Preferences,
}
use cosmic_pass.Domain.Items.{ItemKey}
use cosmic_pass.Config.Validate.{action_for}
use cosmic_pass.State.Types.{Mode, Msg}
use cosmic_pass.Keys.{
  is_press, unshifted, step_up, step_down, is_preferences, KeyPress, KeyContext, captured,
  editing_key, preferences_key, bound_message, list_key, map_key,
}

-- What only the preferences editor takes, only the action list, and only the result list.
abbrev only_editor : Msg → Bool
only_editor Msg.reset_shortcuts = true
only_editor (Msg.adjust_clipboard_clear delta) = true
only_editor (Msg.start_rebind action) = true
only_editor (Msg.chord_captured chord) = true
only_editor _ = false

abbrev only_actions : Msg → Bool
only_actions Msg.toggle_reveal = true
only_actions Msg.back = true
only_actions (Msg.activate_action index) = true
only_actions _ = false

abbrev only_list : Msg → Bool
only_list Msg.open_actions = true
only_list Msg.open_preferences = true
only_list Msg.copy_primary = true
only_list _ = false

abbrev is_escape : Msg → Bool
is_escape Msg.escape = true
is_escape _ = false

-- Whether the answer to a key is one for the mode that it is pressed in.
abbrev pub fits : Mode → Option Msg → Bool
fits mode none = true
fits Mode.list (some msg) = not (only_editor msg) && not (only_actions msg)
fits (Mode.actions key selected) (some msg) = not (only_editor msg) && not (only_list msg)
fits (Mode.preferences rebinding) (some msg) = is_escape msg || only_editor msg

record Fits (mode : Mode) (o : Option Msg) : Type 0 where
  holds : fits mode o ≡ true

-- A branch of a test, in a mode.
branch :
    (mode : Mode) (b : Bool) (msg : Msg) {rest : Option Msg}
    → fits mode (some msg) ≡ true
    → Fits mode rest
    → Fits mode (if b then some msg else rest)
branch mode b msg h k = if_keeps (λ o. Fits mode o) b (record { holds = h }) k

bound_in_list : (o : Option Action) → fits Mode.list (bound_message false o) ≡ true
unfolding bound_message
bound_in_list none = refl
bound_in_list (some copy_primary) = refl
bound_in_list (some copy_username) = refl
bound_in_list (some copy_totp) = refl
bound_in_list (some copy_url) = refl
bound_in_list (some open_actions) = refl
bound_in_list (some reveal) = refl
bound_in_list (some refresh) = refl
bound_in_list (some preferences) = refl
bound_in_list (some sign_in) = refl
bound_in_list (some retry) = refl

bound_in_actions :
    (key : ItemKey) (i : ℕ) (o : Option Action)
    → fits (Mode.actions key i) (bound_message true o) ≡ true
unfolding bound_message
bound_in_actions key i none = refl
bound_in_actions key i (some copy_primary) = refl
bound_in_actions key i (some copy_username) = refl
bound_in_actions key i (some copy_totp) = refl
bound_in_actions key i (some copy_url) = refl
bound_in_actions key i (some open_actions) = refl
bound_in_actions key i (some reveal) = refl
bound_in_actions key i (some refresh) = refl
bound_in_actions key i (some preferences) = refl
bound_in_actions key i (some sign_in) = refl
bound_in_actions key i (some retry) = refl

Fits-start_rebind :
    (r : Option Action) (o : Option Action)
    → Fits (Mode.preferences r) (map_option Msg.start_rebind o)
Fits-start_rebind r none = record { holds = refl }
Fits-start_rebind r (some a) = record { holds = refl }

Fits-editing_key :
    (press : KeyPress) (r : Option Action) (prefs : Preferences)
    → Fits (Mode.preferences r) (editing_key press prefs)
unfolding editing_key
Fits-editing_key press r prefs =
    let mode = Mode.preferences r in
    branch mode (is_press press (ctrl ∷ shift ∷ []) "Delete") Msg.reset_shortcuts refl (
      branch mode (unshifted press ("ArrowUp" ∷ "ArrowRight" ∷ "+" ∷ "=" ∷ []))
        (Msg.adjust_clipboard_clear step_up) refl
        (branch mode (unshifted press ("ArrowDown" ∷ "ArrowLeft" ∷ "-" ∷ "_" ∷ []))
          (Msg.adjust_clipboard_clear step_down) refl
          (Fits-start_rebind r (action_for prefs press.modifiers press.key))))

fits-preferences_key :
    (press : KeyPress) (r : Option Action) (prefs : Preferences)
    → fits (Mode.preferences r) (preferences_key press r prefs) ≡ true
unfolding preferences_key captured
fits-preferences_key press none prefs = ground (arith, (Fits-editing_key press none prefs).holds)
fits-preferences_key press (some a) prefs = ground arith

in_list_mode :
    (press : KeyPress) (prefs : Preferences) (ctx : KeyContext)
    → Fits Mode.list (list_key false press prefs ctx)
unfolding list_key
in_list_mode press prefs ctx =
    let next =
      is_press press [] "ArrowDown"
      || is_press press (ctrl ∷ []) "n"
      || is_press press (ctrl ∷ []) "j" in
    let prev =
      is_press press [] "ArrowUp"
      || is_press press (ctrl ∷ []) "p"
      || is_press press (ctrl ∷ []) "k" in
    let bound = action_for prefs press.modifiers press.key in
    branch Mode.list next Msg.select_next refl (
      branch Mode.list prev Msg.select_prev refl (
        branch Mode.list (is_press press [] "PageDown") Msg.page_down refl (
          branch Mode.list (is_press press [] "PageUp") Msg.page_up refl (
            branch Mode.list (is_press press [] "Escape") Msg.escape refl (
              branch Mode.list (ctx.caret_at_end && is_press press [] "ArrowRight") Msg.open_actions
                refl
                (branch Mode.list (is_preferences bound) Msg.open_preferences refl
                  (record { holds = bound_in_list bound })))))))

in_action_mode :
    (key : ItemKey) (i : ℕ) (press : KeyPress) (prefs : Preferences) (ctx : KeyContext)
    → fits (Mode.actions key i) (list_key true press prefs ctx) ≡ true
unfolding list_key
in_action_mode key i press prefs ctx =
    ground (arith, bound_in_actions key i (action_for prefs press.modifiers press.key))

-- A key press gives a message of the mode that it is pressed in, whatever the shortcuts are: only the
-- action list reveals, goes back and copies its row, only the result list opens fields and
-- preferences and copies an item's primary field, and the editor of the preferences neither copies
-- nor reveals.
pub fits-map_key :
    (press : KeyPress) (mode : Mode) (prefs : Preferences) (ctx : KeyContext)
    → fits mode (map_key press mode prefs ctx) ≡ true
unfolding map_key
fits-map_key press Mode.list prefs ctx = (in_list_mode press prefs ctx).holds
fits-map_key press (Mode.preferences r) prefs ctx = fits-preferences_key press r prefs
fits-map_key press (Mode.actions key i) prefs ctx = in_action_mode key i press prefs ctx
