-- ===== src/App/Labels.antt =====
-- src/app/mod.rs: the names under which messages, effects, sessions and keys are logged, without
-- what they carry.
use cosmic_pass.Base.{String, Bool}
use cosmic_pass.State.Types.{SessionState, Msg, Effect}

-- `Key` of the toolkit. A named key is known by the name that its `Debug` prints.
pub data Key : Type 0 where
  named character : String → Key
  unidentified : Key

pub data LayerEvent : Type 0 where
  focused unfocused done : LayerEvent

pub record KeyStroke : Type 0 where
  pub key : Key
  pub control : Bool
  pub shift : Bool
  pub alt : Bool
  pub logo : Bool

unfoldable pub msg_name : Msg → String
msg_name (Msg.query_changed query) = "QueryChanged"
msg_name (Msg.data_loaded listing) = "DataLoaded"
msg_name (Msg.cache_loaded file) = "CacheLoaded"
msg_name (Msg.tick at) = "Tick"
msg_name (Msg.prefs_loaded prefs) = "PrefsLoaded"
msg_name _ = "other"

unfoldable pub effect_name : Effect → String
effect_name Effect.show_window = "ShowWindow"
effect_name Effect.hide_window = "HideWindow"
effect_name Effect.refresh = "Refresh"
effect_name Effect.probe_session = "ProbeSession"
effect_name Effect.probe_version = "ProbeVersion"
effect_name (Effect.fetch_and_copy key field secret cancel) = "FetchAndCopy"
effect_name (Effect.fetch_totp_and_copy key field cancel) = "FetchTotpAndCopy"
effect_name (Effect.copy value secret) = "Copy"
effect_name Effect.persist = "Persist"
effect_name Effect.load_cache = "LoadCache"
effect_name Effect.delete_cache = "DeleteCache"
effect_name Effect.start_login = "StartLogin"
effect_name (Effect.fetch_reveal key field index generation cancel) = "FetchReveal"
effect_name (Effect.fetch_totp key cancel) = "FetchTotp"
effect_name (Effect.expire_notice id) = "ExpireNotice"
effect_name (Effect.save_preferences prefs) = "SavePreferences"

unfoldable pub session_label : SessionState → String
session_label SessionState.unknown = "Unknown"
session_label SessionState.checking = "Checking"
session_label (SessionState.signed_in account) = "SignedIn"
session_label SessionState.signed_out = "SignedOut"
session_label SessionState.locked = "Locked"
session_label SessionState.cli_missing = "CliMissing"
session_label SessionState.logging_in = "LoggingIn"
session_label (SessionState.error message) = "Error"

unfoldable pub key_label : Key → String
key_label (named name) = "Named"
key_label (character c) = "Character"
key_label unidentified = "Unidentified"
