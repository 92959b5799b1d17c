-- ===== src/State/Session.antt =====
-- src/core/state.rs: signing in and out, the data that belongs to an account, and errors.
use cosmic_pass.Base.{
  String, Bool, true, false, not, ◌||◌, Option, some, none, List, [], ◌∷◌, ◌++◌, if◌then◌else◌,
  decide, string_discrete, is_some, or_else,
}
use cosmic_pass.Base.Int.{ℤ}
use cosmic_pass.Base.Unicode.{Unicode}
use cosmic_pass.Base.Text.{codes, chars, from_chars, has_prefix, split_whitespace}
use cosmic_pass.Domain.Items.{AccountId, CacheFile, Listing}
use cosmic_pass.Domain.Version.{CliVersion, warning}
use cosmic_pass.Pass.Error.{PassError, Result, ok, err, to_string}
use cosmic_pass.Search.Index.{Matcher}
use cosmic_pass.State.Types.{
  SessionState, DataSource, refresh_error, Model, Effect, Outcome, empty_data,
}
use cosmic_pass.State.Query.{signed_in_account, can_start_login}
use cosmic_pass.State.View.{clear_revealed, recompute_results, request_refresh, replace_items}
use cosmic_pass.Usage.Table.{empty_table, from_records}
use Prim.Native.Char.{Char, code}
use mathlib.Core.List.{map}

-- The state without what belongs to an account; a refresh in flight stays noted.
unfoldable pub forget : Model → Model
forget m = record m {
  data_state = record empty_data { refreshing = m.data_state.refreshing };
  usage = empty_table;
  data_account = none;
  index = [];
}

-- With nothing revealed and the first row selected.
unfoldable pub wipe : Model → Model
unfolding forget clear_revealed
wipe m =
    let cleared = clear_revealed (forget m) in
    record cleared { view = record (cleared.view) { selected = 0 } }

-- `Model::clear_data`.
unfoldable pub clear_data : Matcher → Model → Model
unfolding wipe recompute_results
clear_data mt m = recompute_results mt (wipe m)

-- `Model::session_error`.
unfoldable pub session_error : Matcher → Model → PassError → Outcome
unfolding clear_data refresh_error to_string
session_error mt m PassError.signed_out =
    (clear_data mt (record m { session = SessionState.signed_out }), Effect.delete_cache ∷ [])
session_error mt m PassError.locked = (record m { session = SessionState.locked }, [])
session_error mt m PassError.cli_missing = (record m { session = SessionState.cli_missing }, [])
session_error mt m PassError.local_data =
    (record m { session = SessionState.error (to_string PassError.local_data) }, [])
session_error mt m e = (
  record m {
    data_state = record (m.data_state) { stale = true; last_error = some (refresh_error e) };
  },
  [],
)

abbrev pub is_other : AccountId → Option AccountId → Bool
is_other account none = false
is_other account (some a) = not (decide (string_discrete a account))

-- `Model::signed_in`.
unfoldable pub signed_in : Matcher → Model → AccountId → Outcome
unfolding signed_in_account decide clear_data request_refresh
signed_in mt m account =
    let other = is_other account (signed_in_account m.session) || is_other account m.data_account in
    let base = if other then clear_data mt m else m in
    let asked =
      request_refresh
        (record base { session = SessionState.signed_in account; data_account = some account }) in
    (asked.0, (if other then Effect.delete_cache ∷ [] else []) ++ asked.1)

-- The state that a cache file is loaded into.
unfoldable pub from_file : Model → CacheFile → Model
unfolding from_records
from_file m file = record m {
  data_state = record (m.data_state) {
    stale = true;
    source = DataSource.disk_cache;
    cached_at = some file.fetched_at;
  };
  data_account = some file.account;
  usage = from_records file.usage;
}

abbrev listing_of : CacheFile → Listing
listing_of file = record { vaults = file.vaults; items = file.items }

-- `Model::cache_loaded`: a file is used before the first refresh, unless it is another account's.
unfoldable pub load_file : Unicode → Matcher → Model → CacheFile → Outcome
unfolding signed_in_account decide from_file replace_items
load_file u mt m file =
    let filled = replace_items u mt (from_file m file) (listing_of file) in
    if is_some m.data_state.fetched_at
    then (m, [])
    else if is_other file.account (signed_in_account m.session)
    then (m, Effect.delete_cache ∷ [])
    else (filled, [])

unfoldable pub cache_loaded : Unicode → Matcher → Model → Option CacheFile → Outcome
unfolding load_file
cache_loaded u mt m none = (m, [])
cache_loaded u mt m (some file) = load_file u mt m file

-- The state that a fetched listing is loaded into.
unfoldable pub refreshed : Model → ℤ → Model
unfolding signed_in_account
refreshed m now = record m {
  data_state = record (m.data_state) {
    refreshing = false;
    stale = false;
    last_error = none;
    source = DataSource.memory;
    fetched_at = some now;
    cached_at = none;
  };
  data_account = or_else (signed_in_account m.session) m.data_account;
}

-- `Msg::DataLoaded`.
unfoldable pub data_loaded : Unicode → Matcher → Model → Listing → ℤ → Outcome
unfolding refreshed replace_items
data_loaded u mt m listing now = (replace_items u mt (refreshed m now) listing, Effect.persist ∷ [])

-- `Msg::RefreshFailed`.
unfoldable pub refresh_failed : Matcher → Model → PassError → Outcome
unfolding session_error
refresh_failed mt m e =
    session_error mt
      (record m { data_state = record (m.data_state) { refreshing = false; stale = true } }) e

-- The session after `Msg::Startup`.
abbrev checked : SessionState → SessionState
checked SessionState.logging_in = SessionState.logging_in
checked (SessionState.signed_in account) = SessionState.signed_in account
checked _ = SessionState.checking

-- `Msg::Startup`.
unfoldable pub startup : Model → Outcome
startup m = (
  record m { session = checked m.session },
  Effect.load_cache ∷ Effect.probe_version ∷ Effect.probe_session ∷ [],
)

-- What an error says of a session that is being checked.
abbrev probe_result : PassError → SessionState
probe_result PassError.network = SessionState.unknown
probe_result PassError.timeout = SessionState.unknown
probe_result PassError.cancelled = SessionState.unknown
probe_result e = SessionState.error (to_string e)

abbrev settled : PassError → SessionState → SessionState
settled e SessionState.checking = probe_result e
settled e SessionState.unknown = probe_result e
settled e s = s

-- `Msg::SessionProbed`.
unfoldable pub session_probed : Matcher → Model → Result AccountId → Outcome
unfolding signed_in session_error to_string
session_probed mt m (ok account) = signed_in mt m account
session_probed mt m (err e) =
    let (after, effects) = session_error mt m e in
    (record after { session = settled e after.session }, effects)

-- `Msg::VersionProbed`.
unfoldable pub version_probed : Model → Result CliVersion → Outcome
unfolding warning
version_probed m (ok found) = (record m { cli_warning = warning found }, [])
version_probed m (err e) = (record m { cli_warning = none }, [])

-- `Msg::StartLogin`.
unfoldable pub start_login : Model → Outcome
unfolding can_start_login
start_login m =
    if can_start_login m.session
    then (record m { session = SessionState.logging_in; login_url = none }, Effect.start_login ∷ [])
    else (m, [])

-- The first word that starts with `https://`.
abbrev https_word : List (List Char) → Option String
https_word [] = none
https_word (w ∷ ws) =
    let rest = https_word ws in
    if has_prefix (codes "https://") (map code w) then some (from_chars w) else rest

-- `Msg::LoginLine`.
unfoldable pub login_line : Model → String → Outcome
unfolding split_whitespace
login_line m line =
    (record m { login_url = or_else m.login_url (https_word (split_whitespace (chars line))) }, [])

-- `Msg::LoginFinished`.
unfoldable pub login_finished : Model → Result (Unit {0}) → Outcome
unfolding to_string
login_finished m (ok done) =
    (record m { login_url = none; session = SessionState.checking }, Effect.probe_session ∷ [])
login_finished m (err e) =
    (record m { login_url = none; session = SessionState.error (to_string e) }, [])
