-- ===== src/Actions/Rows.antt =====
-- src/core/actions.rs: copy sources, the shortcuts' accessors and the action list.
use cosmic_pass.Base.{
  ℕ, suc, String, Bool, true, false, Option, some, none, List, [], ◌∷◌, ◌++◌, if◌then◌else◌, ◌==◌,
  decide, string_discrete, or_else, and_then, map_option, find, position, get_elem?, head,
}
use cosmic_pass.Config.Types.{Action, copy_primary, copy_username, copy_totp, copy_url}
use cosmic_pass.Domain.Items.{
  ItemKind, login, credit_card, note, FieldRef, ItemSummary, field_discrete, field,
}
use text.Mathlib.Text.{◌==◌ as str_eq}

-- What to copy: a field, or the current one-time code of a TOTP field.
pub data CopySource : Type 0 where
  field_source : FieldRef → CopySource
  totp_source : String → CopySource

unfoldable pub source_discrete : Discrete CopySource
source_discrete = hlevel (field_discrete, string_discrete)

abbrev pub is_secret : CopySource → Bool
is_secret (field_source f) = f.secret
is_secret (totp_source name) = true

pub record ActionEntry : Type 0 where
  pub source : CopySource
  pub label : String
  pub shortcut : Option Action
  pub field_index : Option ℕ

unfoldable pub source_label : CopySource → String
source_label (field_source f) = f.label
source_label (totp_source name) = if str_eq name "totp_uri" then "One-time code" else name

unfoldable pub entry : CopySource → Option Action → Option ℕ → ActionEntry
unfolding source_label
entry source shortcut at = record {
  source = source;
  label = source_label source;
  shortcut = shortcut;
  field_index = at;
}

unfoldable pub index_of : ItemSummary → String → Option ℕ
unfolding position
index_of item name = position (λ f. str_eq f.name name) item.fields

-- The user name, else the e-mail address.
unfoldable pub username_index : ItemSummary → Option ℕ
unfolding index_of
username_index item = or_else (index_of item "username") (index_of item "email")

-- The first website.
unfoldable pub url_index : ItemSummary → Option ℕ
unfolding index_of
url_index item = index_of item "url"

-- The field at a position. Indexing past the end, which would panic, gives `none`.
unfoldable pub field_at : ItemSummary → ℕ → Option CopySource
unfolding get_elem?
field_at item i = map_option field_source (get_elem? item.fields i)

unfoldable pub username_action : ItemSummary → Option CopySource
unfolding username_index field_at
username_action item = and_then (username_index item) (field_at item)

unfoldable pub totp_action : ItemSummary → Option CopySource
totp_action item = map_option totp_source (head item.totp_fields)

unfoldable pub url_action : ItemSummary → Option CopySource
unfolding url_index field_at
url_action item = and_then (url_index item) (field_at item)

-- The name of the field that Enter copies, for the kinds that have one.
unfoldable pub preferred_name : ItemKind → Option String
preferred_name login = some "password"
preferred_name credit_card = some "number"
preferred_name note = some "note"
preferred_name _ = none

unfoldable pub primary_field : ItemSummary → Option FieldRef
unfolding preferred_name field find
primary_field item =
    or_else
      (or_else (and_then (preferred_name item.kind) (field item))
        (find (λ f. f.secret) item.fields))
      (head item.fields)

-- The source copied by Enter.
unfoldable pub primary_action : ItemSummary → Option CopySource
unfolding primary_field totp_action
primary_action item = elim (primary_field item) [
  | some f ↦ some (field_source f)
  | none ↦ totp_action item
]

-- Whether `source` is the primary one.
unfoldable pub is_primary : Option CopySource → CopySource → Bool
unfolding decide
is_primary none source = false
is_primary (some p) source = decide (source_discrete p source)

-- The first position of a field equal to the one that the primary row shows.
unfoldable pub primary_at : ItemSummary → CopySource → Option ℕ
unfolding position decide
primary_at item (field_source f) = position (λ g. decide (field_discrete g f)) item.fields
primary_at item (totp_source name) = none

unfoldable pub primary_rows : ItemSummary → Option CopySource → List ActionEntry
unfolding primary_at entry
primary_rows item none = []
primary_rows item (some source) = entry source (some copy_primary) (primary_at item source) ∷ []

abbrev is_at : Option ℕ → ℕ → Bool
is_at none i = false
is_at (some j) i = j == i

-- The shortcut of the field at position `i`.
unfoldable pub field_shortcut : (username url : Option ℕ) → ℕ → Option Action
field_shortcut username url i =
    if is_at username i then some copy_username else if is_at url i then some copy_url else none

-- The loop over the fields, from position `i` on.
unfoldable pub field_rows :
    (primary : Option CopySource) (username url : Option ℕ) → ℕ → List FieldRef → List ActionEntry
unfolding is_primary entry field_shortcut
field_rows primary username url i [] = []
field_rows primary username url i (f ∷ fs) =
    let rest = field_rows primary username url (suc i) fs in
    if is_primary primary (field_source f)
    then rest
    else entry (field_source f) (field_shortcut username url i) (some i) ∷ rest

-- The loop over the one-time codes; only the first one has a shortcut.
unfoldable pub totp_rows : Option CopySource → ℕ → List String → List ActionEntry
unfolding is_primary entry
totp_rows primary i [] = []
totp_rows primary i (name ∷ names) =
    let rest = totp_rows primary (suc i) names in
    if is_primary primary (totp_source name)
    then rest
    else entry (totp_source name) (if i == 0 then some copy_totp else none) none ∷ rest

-- Every copyable field of an item, the primary one first.
unfoldable pub all_actions : ItemSummary → List ActionEntry
unfolding primary_action primary_rows field_rows totp_rows username_index url_index
all_actions item =
    let primary = primary_action item in
    primary_rows item primary
    ++ (field_rows primary (username_index item) (url_index item) 0 item.fields
        ++ totp_rows primary 0 item.totp_fields)
