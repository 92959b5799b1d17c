-- ===== src/Domain/Items.antt =====
-- src/model.rs: vaults, items, field references and the cache file.
use cosmic_pass.Base.{
  ℕ, String, Bool, true, false, not, ◌&&◌, Option, some, none, List, map, if◌then◌else◌, ◌==◌,
  then_with, Ordering, string_discrete, find, keep, all,
}
use cosmic_pass.Base.Int.{ℤ}
use cosmic_pass.Base.Text.{codes, to_ascii_lowercase, is_whitespace, same_codes}
use text.Mathlib.Text.{◌==◌ as str_eq}
use Prim.Native.String

-- The identifiers are transparent wrappers of texts.
abbrev pub ShareId : Type 0
ShareId = String

abbrev pub ItemId : Type 0
ItemId = String

abbrev pub AccountId : Type 0
AccountId = String

pub record ItemKey : Type 0 where
  pub share : ShareId
  pub item : ItemId

unfoldable pub key_discrete : Discrete ItemKey
key_discrete = hlevel string_discrete

pub record Vault : Type 0 where
  pub share_id : ShareId
  pub name : String

pub data ItemKind : Type 0 where
  login note credit_card identity alias ssh_key wifi custom : ItemKind
  unknown : String → ItemKind

-- `name` without `_` and `-`, in ASCII lower case.
unfoldable pub normalized : String → List ℕ
unfolding keep
normalized name =
    map to_ascii_lowercase (keep (λ c. not (c == b'_') && not (c == b'-')) (codes name))

unfoldable pub from_cli : String → ItemKind
unfolding normalized
from_cli name =
    let n = normalized name in
    if same_codes n (codes "login")
    then login
    else if same_codes n (codes "note")
    then note
    else if same_codes n (codes "creditcard")
    then credit_card
    else if same_codes n (codes "identity")
    then identity
    else if same_codes n (codes "alias")
    then alias
    else if same_codes n (codes "sshkey")
    then ssh_key
    else if same_codes n (codes "wifi")
    then wifi
    else if same_codes n (codes "custom")
    then custom
    else unknown name

pub record FieldRef : Type 0 where
  pub name : String
  pub label : String
  pub secret : Bool
  pub value : Option String

unfoldable pub field_discrete : Discrete FieldRef
field_discrete = hlevel string_discrete

pub record ItemSummary : Type 0 where
  pub key : ItemKey
  pub vault_name : String
  pub kind : ItemKind
  pub title : String
  pub username : Option String
  pub email : Option String
  pub subtitle : Option String
  pub urls : List String
  pub totp_fields : List String
  pub fields : List FieldRef
  pub modified_at : ℤ

unfoldable pub display_title : ItemSummary → String
unfolding all
display_title s = if all is_whitespace (codes s.title) then "(untitled)" else s.title

-- `ItemSummary::field`.
unfoldable pub field : ItemSummary → String → Option FieldRef
unfolding find
field s name = find (λ f. str_eq f.name name) s.fields

-- `FieldRef::secret`, `plain` and `unstored`.
abbrev pub secret_field : String → String → FieldRef
secret_field name label = record { name = name; label = label; secret = true; value = none }

abbrev pub plain_field : String → String → String → FieldRef
plain_field name label value = record {
  name = name;
  label = label;
  secret = false;
  value = some value;
}

abbrev pub unstored_field : String → String → FieldRef
unstored_field name label = record { name = name; label = label; secret = false; value = none }

-- core/usage.rs: when and how often an item was copied.
pub record UsageRecord : Type 0 where
  pub key : ItemKey
  pub last_used : ℤ
  pub count : ℕ

abbrev pub cache_format_version : ℕ
cache_format_version = 2

pub record CacheFile : Type 0 where
  pub format_version : ℕ
  pub account : AccountId
  pub fetched_at : ℤ
  pub vaults : List Vault
  pub items : List ItemSummary
  pub usage : List UsageRecord

-- pass/backend.rs: all active items across all vaults.
pub record Listing : Type 0 where
  pub vaults : List Vault
  pub items : List ItemSummary

abbrev pub compare_text : String → String → Ordering
compare_text = Prim.Native.String.compare

-- The derived order of `ItemKey`: by share, then by item.
unfoldable pub compare_key : ItemKey → ItemKey → Ordering
compare_key a b = then_with (compare_text a.share b.share) (compare_text a.item b.item)
