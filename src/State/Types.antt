-- ===== src/State/Types.antt =====
-- src/core/state.rs and src/core/effects.rs: the state, the messages and the effects.
use cosmic_pass.Base.{ℕ, String, Bool, false, Option, none, List, []}
use cosmic_pass.Base.Int.{ℤ}
use cosmic_pass.Config.Types.{Action, KeyChord, Preferences}
use cosmic_pass.Domain.Items.{AccountId, ItemKey, Vault, ItemSummary, FieldRef, CacheFile, Listing}
use cosmic_pass.Domain.Version.{CliVersion}
use cosmic_pass.Pass.Error.{PassError, Result}
use cosmic_pass.Search.Index.{ResultRow, SearchIndex}
use cosmic_pass.Totp.{TotpDisplay}
use cosmic_pass.Usage.Table.{UsageTable, empty_table}

pub data SessionState : Type 0 where
  unknown checking signed_out locked cli_missing logging_in : SessionState
  signed_in : AccountId → SessionState
  error : String → SessionState

pub data DataSource : Type 0 where
  memory disk_cache : DataSource

pub data RefreshError : Type 0 where
  unreachable other : RefreshError

-- `RefreshError::of`.
unfoldable pub refresh_error : PassError → RefreshError
refresh_error PassError.network = RefreshError.unreachable
refresh_error PassError.timeout = RefreshError.unreachable
refresh_error _ = RefreshError.other

pub record DataState : Type 0 where
  pub vaults : List Vault
  pub items : List ItemSummary
  pub fetched_at : Option ℤ
  pub stale : Bool
  pub refreshing : Bool
  pub source : DataSource
  pub cached_at : Option ℤ
  pub last_error : Option RefreshError

-- A handle of a `CancellationToken`: its clones share one number.
abbrev pub Token : Type 0
Token = ℕ

pub data Mode : Type 0 where
  list : Mode
  actions : (key : ItemKey) (selected : ℕ) → Mode
  preferences : (rebinding : Option Action) → Mode

pub record PendingFetch : Type 0 where
  pub key : ItemKey
  pub cancel : Token
  pub secret : Bool

pub record Notice : Type 0 where
  pub id : ℕ
  pub text : String

-- The secret that the field list reveals, or waits for.
pub record RevealTarget : Type 0 where
  pub generation : ℕ
  pub key : ItemKey
  pub index : ℕ
  pub field : FieldRef
  pub modified_at : ℤ

pub data Revealed : Type 0 where
  nothing : Revealed
  field : (target : RevealTarget) (value : Option String) → Revealed
  totp : (code : Option TotpDisplay) (fetching : Bool) → Revealed

pub record ViewState : Type 0 where
  pub visible : Bool
  pub query : String
  pub results : List ResultRow
  pub selected : ℕ
  pub mode : Mode
  pub pending : Option PendingFetch
  pub revealed : Revealed
  pub reveal_totp_cancel : Option Token
  pub reveal_cancel : Option Token
  pub notice : Option Notice
  pub copying : Bool

-- The cancellation tokens: how many were made, and which are cancelled.
pub record Tokens : Type 0 where
  pub made : ℕ
  pub cancelled : List Token

pub record Model : Type 0 where
  pub session : SessionState
  pub data_state : DataState
  pub view : ViewState
  pub prefs : Preferences
  pub usage : UsageTable
  pub login_url : Option String
  pub cli_warning : Option String
  pub data_account : Option AccountId
  pub index : SearchIndex
  pub next_notice : ℕ
  pub next_reveal : ℕ
  pub tokens : Tokens

pub data Msg : Type 0 where
  toggle show hide select_next select_prev page_down page_up refresh_requested copy_primary escape :
      Msg
  query_changed : String → Msg
  select : ℕ → Msg
  data_loaded : Listing → Msg
  refresh_failed : PassError → Msg
  notice_expired : ℕ → Msg
  copy_fetched : ItemKey → Result String → Msg
  copy_finished : (failure : Option String) → Msg
  copy_username copy_totp copy_url open_actions back startup start_login toggle_reveal : Msg
  activate_action : Option ℕ → Msg
  session_probed : Result AccountId → Msg
  version_probed : Result CliVersion → Msg
  login_line : String → Msg
  login_finished : Result (Unit {0}) → Msg
  reveal_fetched : (key : ItemKey) (index generation : ℕ) → Result String → Msg
  totp_fetched : ItemKey → Result (List (String × String)) → Msg
  tick : ℤ → Msg
  cache_loaded : Option CacheFile → Msg
  open_preferences reset_shortcuts : Msg
  adjust_clipboard_clear : ℤ → Msg
  start_rebind : Action → Msg
  chord_captured : KeyChord → Msg
  prefs_loaded : Preferences → Msg

pub data Effect : Type 0 where
  show_window hide_window refresh probe_session probe_version persist load_cache delete_cache
        start_login :
      Effect
  fetch_and_copy : (key : ItemKey) (field : String) (secret : Bool) (cancel : Token) → Effect
  fetch_totp_and_copy : (key : ItemKey) (field : String) (cancel : Token) → Effect
  copy : (value : String) (secret : Bool) → Effect
  fetch_reveal : (key : ItemKey) (field : String) (index generation : ℕ) (cancel : Token) → Effect
  fetch_totp : (key : ItemKey) (cancel : Token) → Effect
  save_preferences : Preferences → Effect
  expire_notice : (id : ℕ) → Effect

-- A handler's new state and the effects that it asks for.
abbrev pub Outcome : Type 0
Outcome = Model × List Effect

-- The `Default` values.
abbrev pub empty_data : DataState
empty_data = record {
  vaults = [];
  items = [];
  fetched_at = none;
  stale = false;
  refreshing = false;
  source = DataSource.memory;
  cached_at = none;
  last_error = none;
}

abbrev pub empty_view : ViewState
empty_view = record {
  visible = false;
  query = "";
  results = [];
  selected = 0;
  mode = Mode.list;
  pending = none;
  revealed = Revealed.nothing;
  reveal_totp_cancel = none;
  reveal_cancel = none;
  notice = none;
  copying = false;
}

-- `Model::new`.
unfoldable pub new_model : Preferences → Model
new_model prefs = record {
  session = SessionState.unknown;
  data_state = empty_data;
  view = empty_view;
  prefs = prefs;
  usage = empty_table;
  login_url = none;
  cli_warning = none;
  data_account = none;
  index = [];
  next_notice = 0;
  next_reveal = 0;
  tokens = record { made = 0; cancelled = [] };
}
