-- ===== src/Runtime.antt =====
-- src/runtime.rs: what is done for each effect of the reducer, and the message that answers it.
-- The backend, the clipboard and the cache are parameters: what they answer to a call.
mod Tests
pub mod Round
use cosmic_pass.Base.{
  ℕ, String, Bool, true, false, Option, none, some, List, [], ◌∷◌, ◌++◌, map, if◌then◌else◌,
  or_else,
}
use cosmic_pass.Config.Types.{Preferences}
use cosmic_pass.Domain.Items.{AccountId, ItemKey, CacheFile, Listing}
use cosmic_pass.Domain.Version.{CliVersion}
use cosmic_pass.Pass.Error.{PassError, field_missing, Result, ok, err}
use cosmic_pass.State.Types.{Model, Msg, Effect, Token}
use cosmic_pass.State.Query.{cache_snapshot}
use text.Mathlib.Text.{◌==◌ as str_eq}

-- `PassBackend`: the answers to its calls, and the lines that a sign-in prints.
pub record Backend : Type 0 where
  pub account : Result AccountId
  pub version : Result CliVersion
  pub list_all : Result Listing
  pub get_field : ItemKey → String → Token → Result String
  pub totp : ItemKey → Token → Result (List (String × String))
  pub login : List String × Result (Unit {0})

-- The cache is what loading it gives. The clipboard answers with the text of its error.
pub record Deps : Type 0 where
  pub backend : Backend
  pub clipboard : String → Bool → ℕ → Option String
  pub cache : Option (Option CacheFile)
  pub save_preferences : Bool

-- What a future does before it answers, where that is not a call that answers.
pub data Act : Type 0 where
  idle delete_all sleep : Act
  save_debounced : CacheFile → Act
  write_entry : Preferences → Act

pub data Step : Type 0 where
  show_window hide_window : Step
  future : Act → Option Msg → Step
  stream : List Msg → Step
  unhandled : Effect → Step

-- `BTreeMap::remove`, of which the value is taken.
unfoldable pub code_of : List (String × String) → String → Option String
code_of [] field = none
code_of ((name, code) ∷ codes) field =
    let rest = code_of codes field in if str_eq name field then some code else rest

abbrev ok_or_missing : Option String → Result String
ok_or_missing none = err field_missing
ok_or_missing (some code) = ok code

-- The code of a field. The login's code may be reported under either of two names.
unfoldable pub pick_totp : List (String × String) → String → Result String
unfolding code_of
pick_totp codes field =
    let alias = if str_eq field "totp_uri" then "totp" else field in
    ok_or_missing (or_else (code_of codes field) (code_of codes alias))

abbrev picked : Result (List (String × String)) → String → Result String
picked (ok codes) field = pick_totp codes field
picked (err e) field = err e

abbrev listed : Result Listing → Msg
listed (ok listing) = Msg.data_loaded listing
listed (err e) = Msg.refresh_failed e

-- A message for each line, and one for the end.
unfoldable pub login_stream : List String × Result (Unit {0}) → List Msg
login_stream (lines, result) = map Msg.login_line lines ++ Msg.login_finished result ∷ []

abbrev loaded : Option (Option CacheFile) → Option CacheFile
loaded none = none
loaded (some file) = file

abbrev persisted : Option (Option CacheFile) → Option CacheFile → Step
persisted (some cache) (some file) = future (save_debounced file) none
persisted _ _ = unhandled Effect.persist

abbrev deleted : Option (Option CacheFile) → Step
deleted none = future idle none
deleted (some cache) = future delete_all none

abbrev answer : Msg → Step
answer msg = future idle (some msg)

-- `execute`.
unfoldable pub execute : Effect → Deps → Model → Step
unfolding login_stream pick_totp cache_snapshot
execute Effect.show_window deps m = show_window
execute Effect.hide_window deps m = hide_window
execute Effect.refresh deps m = answer (listed deps.backend.list_all)
execute (Effect.fetch_and_copy key field secret cancel) deps m =
    answer (Msg.copy_fetched key (deps.backend.get_field key field cancel))
execute (Effect.fetch_totp_and_copy key field cancel) deps m =
    answer (Msg.copy_fetched key (picked (deps.backend.totp key cancel) field))
execute (Effect.copy value secret) deps m =
    answer (Msg.copy_finished (deps.clipboard value secret m.prefs.clipboard_clear_secs))
execute Effect.probe_session deps m = answer (Msg.session_probed deps.backend.account)
execute Effect.probe_version deps m = answer (Msg.version_probed deps.backend.version)
execute Effect.start_login deps m = stream (login_stream deps.backend.login)
execute (Effect.fetch_reveal key field index generation cancel) deps m =
    answer (Msg.reveal_fetched key index generation (deps.backend.get_field key field cancel))
execute (Effect.fetch_totp key cancel) deps m =
    answer (Msg.totp_fetched key (deps.backend.totp key cancel))
execute Effect.load_cache deps m = answer (Msg.cache_loaded (loaded deps.cache))
execute Effect.persist deps m = persisted deps.cache (cache_snapshot m)
execute Effect.delete_cache deps m = deleted deps.cache
execute (Effect.save_preferences prefs) deps m =
    if deps.save_preferences
    then future (write_entry prefs) none
    else unhandled (Effect.save_preferences prefs)
execute (Effect.expire_notice id) deps m = future sleep (some (Msg.notice_expired id))
