-- ===== src/Testing.antt =====
-- src/testing.rs: the in-memory backend and clipboard that the tests script. A call is one step: whether
-- it is cancelled before its delay is over is an argument. The latest entry of a map stands first.
pub mod Harness
pub mod Runs
pub mod Registered
mod Tests
use cosmic_pass.Base.{
  ℕ, suc, String, Bool, true, false, ◌&&◌, Option, none, some, List, [], ◌∷◌, ◌++◌, decide,
  unwrap_or, if◌then◌else◌,
}
use cosmic_pass.Base.Int.{pos}
use cosmic_pass.Domain.Items.{
  AccountId, ItemKey, ItemKind, ItemSummary, FieldRef, Listing, key_discrete,
}
use cosmic_pass.Domain.Version.{CliVersion, tested_min}
use cosmic_pass.Pass.Error.{PassError, cancelled, field_missing, Result, ok, err}
use cosmic_pass.Clipboard.{ClipboardError}
use text.Mathlib.Text.{◌==◌ as str_eq}

abbrev pub summary : String → String → ItemKind → ItemSummary
summary id title kind = record {
  key = record { share = "s"; item = id };
  vault_name = "Personal";
  kind = kind;
  title = title;
  username = none;
  email = none;
  subtitle = none;
  urls = [];
  totp_fields = [];
  fields = [];
  modified_at = pos 0;
}

abbrev pub listing : List ItemSummary → Listing
listing items = record { vaults = record { share_id = "s"; name = "Personal" } ∷ []; items = items }

-- The value of a key in a map whose latest entries stand first.
unfoldable pub value_at : {K V : Type 0} → (K → K → Bool) → K → List (K × V) → Option V
value_at same k [] = none
value_at same k ((l, v) ∷ entries) =
    let rest = value_at same k entries in if same l k then some v else rest

-- `HashMap::insert` for each entry in turn, as `collect` does it.
unfoldable pub extend : {K V : Type 0} → List (K × V) → List (K × V) → List (K × V)
extend entries [] = entries
extend entries (e ∷ es) = extend (e ∷ entries) es

abbrev pub FieldKey : Type 0
FieldKey = ItemKey × String

abbrev pub Fields : Type 0
Fields = List (FieldKey × Result String)

unfoldable pub same_key : ItemKey → ItemKey → Bool
same_key a b = decide (key_discrete a b)

unfoldable pub same_field : FieldKey → FieldKey → Bool
unfolding same_key
same_field (a, f) (b, g) = same_key a b && str_eq f g

pub record BackendState : Type 0 where
  pub account : Result AccountId
  pub version : Result CliVersion
  pub listed : Result Listing
  pub fields : Fields
  pub codes : List (ItemKey × Result (List (String × String)))
  pub login_lines : List String
  pub login_result : Result (Unit {0})
  pub delay : ℕ
  pub list_calls : ℕ
  pub field_calls : ℕ
  pub totp_calls : ℕ
  pub login_calls : ℕ

abbrev pub stored_value : ItemKey → String → Option String → Fields
stored_value key name none = []
stored_value key name (some value) = ((key, name), ok value) ∷ []

unfoldable pub stored_fields : ItemKey → List FieldRef → Fields
stored_fields key [] = []
stored_fields key (f ∷ fs) = stored_value key f.name f.value ++ stored_fields key fs

unfoldable pub registered : List ItemSummary → Fields
unfolding stored_fields
registered [] = []
registered (i ∷ items) = stored_fields i.key i.fields ++ registered items

unfoldable pub with_items : List ItemSummary → BackendState
unfolding registered extend
with_items items = record {
  account = ok "account-1";
  version = ok tested_min;
  listed = ok (listing items);
  fields = extend [] (registered items);
  codes = [];
  login_lines = [];
  login_result = ok tt;
  delay = 0;
  list_calls = 0;
  field_calls = 0;
  totp_calls = 0;
  login_calls = 0;
}

abbrev pub set_listing : Result Listing → BackendState → BackendState
set_listing r s = record s { listed = r }

abbrev pub set_account : Result AccountId → BackendState → BackendState
set_account r s = record s { account = r }

abbrev pub set_version : Result CliVersion → BackendState → BackendState
set_version r s = record s { version = r }

abbrev pub set_field : ItemKey → String → String → BackendState → BackendState
set_field key field value s = record s { fields = ((key, field), ok value) ∷ s.fields }

abbrev pub fail_field : ItemKey → String → PassError → BackendState → BackendState
fail_field key field error s = record s { fields = ((key, field), err error) ∷ s.fields }

-- The codes are a map with the latest entry of a name first, too.
unfoldable pub set_totp : ItemKey → List (String × String) → BackendState → BackendState
unfolding extend
set_totp key codes s = record s { codes = (key, ok (extend [] codes)) ∷ s.codes }

abbrev pub set_login : List String → Result (Unit {0}) → BackendState → BackendState
set_login lines result s = record s { login_lines = lines; login_result = result }

abbrev pub set_delay : ℕ → BackendState → BackendState
set_delay n s = record s { delay = n }

-- `wait` before an answer, given whether the call is cancelled first.
abbrev pub waited : {A : Type 0} → Bool → Result A → Result A
waited true answer = err cancelled
waited false answer = answer

abbrev pub list_all : BackendState → Result Listing × BackendState
list_all s = (s.listed, record s { list_calls = suc s.list_calls })

unfoldable pub get_field : BackendState → Bool → ItemKey → String → Result String × BackendState
unfolding value_at same_field
get_field s cut key field =
    let found = unwrap_or (value_at same_field (key, field) s.fields) (err field_missing) in
    (waited cut found, record s { field_calls = suc s.field_calls })

unfoldable pub totp : BackendState → Bool → ItemKey → Result (List (String × String)) × BackendState
unfolding value_at same_key
totp s cut key =
    let found = unwrap_or (value_at same_key key s.codes) (ok []) in
    (waited cut found, record s { totp_calls = suc s.totp_calls })

abbrev pub login : BackendState → (List String × Result (Unit {0})) × BackendState
login s = ((s.login_lines, s.login_result), record s { login_calls = suc s.login_calls })

pub record FakeClipboard : Type 0 where
  pub copies : List (String × Bool × ℕ)
  pub is_failing : Bool

abbrev pub no_copies : FakeClipboard
no_copies = record { copies = []; is_failing = false }

abbrev pub fail : FakeClipboard → FakeClipboard
fail c = record c { is_failing = true }

unfoldable pub copy : FakeClipboard → String → Bool → ℕ → Option ClipboardError × FakeClipboard
copy c value secret clear_after =
    if c.is_failing
    then (some ClipboardError.unavailable, c)
    else (none, record c { copies = c.copies ++ (value, secret, clear_after) ∷ [] })
