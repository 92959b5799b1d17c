-- ===== src/View/Rows.antt =====
-- src/app/view/actions.rs: what a row of the action list says.
use cosmic_pass.Base.{
  ℕ, String, Bool, true, false, Option, none, some, List, [], ◌∷◌, if◌then◌else◌, is_some_and,
  is_some, unwrap_or,
}
use cosmic_pass.Base.Int.{ℤ}
use cosmic_pass.Base.Decimal.{show_decimal}
use cosmic_pass.Domain.Items.{ItemKind}
use cosmic_pass.Actions.Rows.{CopySource, field_source, totp_source, ActionEntry}
use cosmic_pass.State.Types.{Model}
use cosmic_pass.State.Query.{revealed_totp, revealed_value, revealing_field, revealing_totp}
use cosmic_pass.Totp.{TotpDisplay, remaining}
use Prim.Native.String.{◌++◌ as text_append}
use text.Mathlib.Text.{◌==◌ as str_eq}

infixr 60 ◌then◌
abbrev ◌then◌ : String → String → String
s then t = text_append s t

abbrev pub no_value : String
no_value = "—"

abbrev pub mask : String
mask = "••••••••"

abbrev pub totp_mask : String
totp_mask = "••••••"

abbrev pub kind_label : ItemKind → String
kind_label ItemKind.login = "Login"
kind_label ItemKind.note = "Note"
kind_label ItemKind.credit_card = "Credit card"
kind_label ItemKind.identity = "Identity"
kind_label ItemKind.alias = "Alias"
kind_label ItemKind.ssh_key = "SSH key"
kind_label ItemKind.wifi = "Wi-Fi"
kind_label ItemKind.custom = "Custom"
kind_label (ItemKind.unknown name) = name

-- What the reveal chord would do to the highlighted row.
pub data Reveal : Type 0 where
  masked shown plain : Reveal

abbrev pub shown_if : Bool → Reveal
shown_if true = shown
shown_if false = masked

abbrev pub is_code_of : String → Option TotpDisplay → Bool
is_code_of field none = false
is_code_of field (some t) = str_eq t.field field

-- The value that the list reveals at a position.
abbrev pub value_at : Model → Option ℕ → Option String
value_at m none = none
value_at m (some index) = revealed_value m index

unfoldable pub reveal_state : Model → CopySource → Option ℕ → Reveal
unfolding revealed_totp revealed_value
reveal_state m (totp_source name) index = shown_if (is_code_of name (revealed_totp m))
reveal_state m (field_source f) index =
    if f.secret then shown_if (is_some (value_at m index)) else plain

abbrev pub code_hint : String → Option TotpDisplay → ℤ → String
code_hint field none now = totp_mask
code_hint field (some t) now =
    if str_eq t.field field
    then t.code
    then " · "
    then show_decimal (remaining t now)
    then "s"
    else totp_mask

-- The line under an action's label.
unfoldable pub value_hint : Model → CopySource → Option ℕ → ℤ → String
unfolding revealed_totp revealed_value remaining show_decimal
value_hint m (totp_source name) index now = code_hint name (revealed_totp m) now
value_hint m (field_source f) index now =
    if f.secret then unwrap_or (value_at m index) mask else unwrap_or f.value no_value

-- Whether a row's value is still being fetched.
unfoldable pub fetching : Model → CopySource → Option ℕ → Bool
unfolding revealing_totp revealing_field
fetching m (totp_source name) index = revealing_totp m
fetching m (field_source f) index = is_some_and index (revealing_field m)

-- A row's own chord, behind the activation chord.
abbrev pub shortcut_caption : Option String → Option String → String
shortcut_caption none none = ""
shortcut_caption (some o) none = o
shortcut_caption none (some a) = a
shortcut_caption (some o) (some a) = a then " · " then o

abbrev pub empty_notice : List ActionEntry → Option String
empty_notice [] = some "This item has no copyable fields"
empty_notice (e ∷ es) = none

abbrev pub reveal_caption : Option Reveal → String → String → String
reveal_caption none reveal copy = copy then " to copy"
reveal_caption (some plain) reveal copy = copy then " to copy"
reveal_caption (some masked) reveal copy = reveal then " to reveal · " then copy then " to copy"
reveal_caption (some shown) reveal copy = reveal then " to hide · " then copy then " to copy"
