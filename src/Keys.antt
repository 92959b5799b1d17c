-- ===== src/Keys.antt =====
-- src/app/keys.rs: from key presses to messages.
mod Tests
pub mod Modes
use cosmic_pass.Base.{
  String, Bool, true, false, not, ◌&&◌, ◌||◌, Option, some, none, List, [], ◌∷◌, if◌then◌else◌, any,
  decide, map_option, is_some_and, ◌==◌, sort_by, compare,
}
use cosmic_pass.Base.Int.{ℤ, pos, negsuc}
use cosmic_pass.Base.Text.{eq_ignore_ascii_case}
use cosmic_pass.Config.Types.{
  Action, copy_primary, copy_username, copy_totp, copy_url, open_actions, reveal, refresh,
  preferences, sign_in, retry, rank, Modifier, ctrl, shift, modifier_rank, modifiers_discrete,
  new_chord, Preferences,
}
use cosmic_pass.Config.Validate.{action_for}
use cosmic_pass.State.Types.{Mode, Msg}

pub record KeyPress : Type 0 where
  pub key : String
  pub modifiers : List Modifier

-- Whether the search field's caret is at the end of the query.
pub record KeyContext : Type 0 where
  pub caret_at_end : Bool

-- A sorted copy; equal modifiers are kept.
unfoldable pub in_order : List Modifier → List Modifier
unfolding sort_by
in_order ms = sort_by (λ a b. compare (modifier_rank a) (modifier_rank b)) ms

-- `KeyPress::is`.
unfoldable pub is_press : KeyPress → List Modifier → String → Bool
unfolding in_order decide eq_ignore_ascii_case
is_press press modifiers key =
    decide (modifiers_discrete (in_order press.modifiers) (in_order modifiers))
    && eq_ignore_ascii_case press.key key

abbrev pub modifier_keys : List String
modifier_keys =
    "Control" ∷ "Shift" ∷ "Alt" ∷ "Super" ∷ "Meta" ∷ "Hyper" ∷ "AltGraph" ∷ "CapsLock" ∷ []

-- `CLIPBOARD_CLEAR_STEP`, and its negation.
abbrev pub step_up : ℤ
step_up = pos 10

abbrev pub step_down : ℤ
step_down = negsuc 9

unfoldable pub unshifted : KeyPress → List String → Bool
unfolding any is_press
unshifted press keys = any (λ k. is_press press [] k || is_press press (shift ∷ []) k) keys

-- Capture mode: anything but a lone modifier becomes the new binding.
unfoldable pub captured : KeyPress → Option Msg
unfolding any eq_ignore_ascii_case new_chord
captured press =
    if any (eq_ignore_ascii_case press.key) modifier_keys
    then none
    else some (Msg.chord_captured (new_chord press.modifiers press.key))

unfoldable pub editing_key : KeyPress → Preferences → Option Msg
unfolding is_press unshifted action_for
editing_key press prefs =
    if is_press press (ctrl ∷ shift ∷ []) "Delete"
    then some Msg.reset_shortcuts
    else if unshifted press ("ArrowUp" ∷ "ArrowRight" ∷ "+" ∷ "=" ∷ [])
    then some (Msg.adjust_clipboard_clear step_up)
    else if unshifted press ("ArrowDown" ∷ "ArrowLeft" ∷ "-" ∷ "_" ∷ [])
    then some (Msg.adjust_clipboard_clear step_down)
    else map_option Msg.start_rebind (action_for prefs press.modifiers press.key)

abbrev rebinding_key : KeyPress → Option Action → Preferences → Option Msg
rebinding_key press none prefs = editing_key press prefs
rebinding_key press (some action) prefs = captured press

unfoldable pub preferences_key : KeyPress → Option Action → Preferences → Option Msg
unfolding is_press captured editing_key
preferences_key press rebinding prefs =
    if is_press press [] "Escape" then some Msg.escape else rebinding_key press rebinding prefs

-- The message of a bound action, in the action list or in the result list.
unfoldable pub bound_message : (in_actions : Bool) → Option Action → Option Msg
bound_message in_actions none = none
bound_message in_actions (some refresh) = some Msg.refresh_requested
bound_message in_actions (some copy_primary) =
    if in_actions then some (Msg.activate_action none) else some Msg.copy_primary
bound_message in_actions (some copy_username) = some Msg.copy_username
bound_message in_actions (some copy_totp) = some Msg.copy_totp
bound_message in_actions (some copy_url) = some Msg.copy_url
bound_message in_actions (some open_actions) = if in_actions then none else some Msg.open_actions
bound_message in_actions (some reveal) = if in_actions then some Msg.toggle_reveal else none
bound_message in_actions (some sign_in) = some Msg.start_login
bound_message in_actions (some retry) = some Msg.startup
bound_message in_actions (some preferences) = none

abbrev pub is_preferences : Option Action → Bool
is_preferences none = false
is_preferences (some a) = rank a == rank preferences

-- The keys of the result list and of the action list.
unfoldable pub list_key : (in_actions : Bool) → KeyPress → Preferences → KeyContext → Option Msg
unfolding is_press action_for bound_message rank
list_key in_actions press prefs ctx =
    if is_press press [] "ArrowDown"
      || is_press press (ctrl ∷ []) "n"
      || is_press press (ctrl ∷ []) "j"
    then some Msg.select_next
    else if is_press press [] "ArrowUp"
        || is_press press (ctrl ∷ []) "p"
        || is_press press (ctrl ∷ []) "k"
    then some Msg.select_prev
    else if is_press press [] "PageDown"
    then some Msg.page_down
    else if is_press press [] "PageUp"
    then some Msg.page_up
    else if is_press press [] "Escape"
    then some Msg.escape
    else if in_actions && (is_press press [] "ArrowLeft" || is_press press (shift ∷ []) "Tab")
    then some Msg.back
    else if not in_actions && ctx.caret_at_end && is_press press [] "ArrowRight"
    then some Msg.open_actions
    else if not in_actions && is_preferences (action_for prefs press.modifiers press.key)
    then some Msg.open_preferences
    else bound_message in_actions (action_for prefs press.modifiers press.key)

unfoldable pub map_key : KeyPress → Mode → Preferences → KeyContext → Option Msg
unfolding preferences_key list_key
map_key press Mode.list prefs ctx = list_key false press prefs ctx
map_key press (Mode.preferences rebinding) prefs ctx = preferences_key press rebinding prefs
map_key press (Mode.actions key selected) prefs ctx = list_key true press prefs ctx
