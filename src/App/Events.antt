-- ===== src/App/Events.antt =====
-- src/app/mod.rs: what reaches the shell from outside: starting, D-Bus, the keyboard and the clock.
use cosmic_pass.Base.{
  ℕ, String, Bool, true, false, not, ◌&&◌, Option, none, some, List, [], ◌∷◌, ◌++◌, if◌then◌else◌,
  is_some, map_option,
}
use cosmic_pass.Base.Int.{ℤ}
use cosmic_pass.Base.Unicode.{Unicode}
use cosmic_pass.Config.Types.{Modifier, Preferences}
use cosmic_pass.Config.Defaults.{default_prefs}
use cosmic_pass.Config.Validate.{validated}
use cosmic_pass.Search.Index.{Matcher}
use cosmic_pass.State.Types.{Model, Msg, SessionState, new_model}
use cosmic_pass.State.Query.{revealed_totp}
use cosmic_pass.Runtime.{Deps}
use cosmic_pass.Keys.{KeyPress}
use cosmic_pass.App.Popup.{recently_hidden, new_surface}
use cosmic_pass.App.Labels.{Key, named, character, unidentified, KeyStroke, LayerEvent}
use cosmic_pass.App.{CosmicPass, Message, key, layer, Ran, chain, dispatch, update_inner}

pub data RemoteAction : Type 0 where
  show hide refresh background : RemoteAction

-- `Details`, with an action as it is read from its text, which may hold none.
pub data Details : Type 0 where
  activate open_files : Details
  activate_action : Option RemoteAction → Details

-- What the settings store answers: nothing, what it read, or defaults where it could not read.
pub data StoredPreferences : Type 0 where
  unavailable : StoredPreferences
  entry : Preferences → StoredPreferences
  partial : Preferences → StoredPreferences

unfoldable pub load_preferences : Unicode → StoredPreferences → Preferences
unfolding validated default_prefs
load_preferences u unavailable = default_prefs
load_preferences u (entry p) = validated u p
load_preferences u (partial p) = validated u p

-- `to_key_press`: the modifiers in the order in which they are asked for.
abbrev when_held : Bool → Modifier → List Modifier
when_held true m = m ∷ []
when_held false m = []

abbrev key_name : Key → Option String
key_name (named name) = some name
key_name (character c) = some c
key_name unidentified = none

unfoldable pub to_key_press : KeyStroke → Option KeyPress
to_key_press k =
    map_option
      (λ name. record {
        key = name;
        modifiers =
            when_held k.control Modifier.ctrl
            ++ when_held k.shift Modifier.shift
            ++ when_held k.alt Modifier.alt
            ++ when_held k.logo Modifier.super;
      })
      (key_name k.key)

abbrev is_character : Key → Bool
is_character (character c) = true
is_character _ = false

-- The events that the shell listens to, and whether a widget has taken a key.
pub data Event : Type 0 where
  on_layer : LayerEvent → (id : ℕ) → Event
  on_key_pressed : KeyStroke → (captured : Bool) → Event
  unrelated : Event

unfoldable pub listened : Event → Option Message
unfolding to_key_press
listened (on_layer e id) = some (layer e id)
listened (on_key_pressed k captured) =
    if (is_character k.key && not k.control) && captured
    then none
    else map_option key (to_key_press k)
listened unrelated = none

-- Whether the clock is listened to: a code counts down in the open window.
unfoldable pub is_ticking : Model → Bool
unfolding revealed_totp
is_ticking m = m.view.visible && is_some (revealed_totp m)

abbrev pub starts_hidden : Option RemoteAction → Bool
starts_hidden (some background) = true
starts_hidden (some hide) = true
starts_hidden _ = false

-- The shell before its first message.
unfoldable pub new_app : Deps → ℕ → Preferences → CosmicPass
unfolding new_model
new_app deps id prefs = record {
  model = new_model prefs;
  deps = deps;
  surface = new_surface id;
  show_requested_at = none;
  last_press = none;
  session_log = SessionState.unknown;
  lines = [];
}

module _ (u : Unicode) (mt : Matcher) (at : ℕ) (now : ℤ) where
  -- `CosmicPass::init`, after the toolkit has made the surface's id.
  unfoldable pub init : Deps → ℕ → StoredPreferences → Option RemoteAction → Ran
  unfolding load_preferences new_app dispatch
  init deps id stored action =
      let started =
        dispatch u mt at now Msg.startup (new_app deps id (load_preferences u stored)) in
      let shown = chain started (λ app. dispatch u mt at now Msg.show app) in
      if starts_hidden action then started else shown

  -- `CosmicPass::dbus_activation`.
  unfoldable pub dbus_activation : Details → CosmicPass → Ran
  unfolding dispatch recently_hidden
  dbus_activation activate app =
      let toggled = dispatch u mt at now Msg.toggle app in
      if recently_hidden at app.surface then (app, []) else toggled
  dbus_activation (activate_action (some show)) app = dispatch u mt at now Msg.show app
  dbus_activation (activate_action (some hide)) app = dispatch u mt at now Msg.hide app
  dbus_activation (activate_action (some refresh)) app =
      dispatch u mt at now Msg.refresh_requested app
  dbus_activation (activate_action (some background)) app = (app, [])
  dbus_activation (activate_action none) app = (app, [])
  dbus_activation open_files app = (app, [])

-- What reaches the shell: a message of its own, or an activation.
pub data Arrival : Type 0 where
  message : Message → Arrival
  activation : Details → Arrival

unfoldable pub arrive : Unicode → Matcher → ℕ → ℤ → Arrival → CosmicPass → CosmicPass
unfolding update_inner dbus_activation
arrive u mt at now (message m) app = (update_inner u mt at now m app).0
arrive u mt at now (activation d) app = (dbus_activation u mt at now d app).0

-- A run of the shell: what arrives, each at its instant and its time of day.
unfoldable pub run : Unicode → Matcher → CosmicPass → List (Arrival × ℕ × ℤ) → CosmicPass
unfolding arrive
run u mt app [] = app
run u mt app ((a, at, now) ∷ rest) = run u mt (arrive u mt at now a app) rest
