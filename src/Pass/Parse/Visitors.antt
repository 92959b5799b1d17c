-- ===== src/Pass/Parse/Visitors.antt =====
-- src/pass/parse.rs: the visitors of an item's maps. A map is the list of its entries, in the order of
-- the text. The derived decoders of the bodies are a parameter: `none` is a value that they refuse,
-- `some none` is `null`.
use cosmic_pass.Base.{
  String, Option, none, some, List, [], ◌∷◌, unwrap_or, if◌then◌else◌, all, map_option, and_then,
}
use cosmic_pass.Base.Text.{codes, is_whitespace}
use cosmic_pass.Domain.Items.{ItemKind, from_cli}
use cosmic_pass.Pass.Parse.Raw.{
  CustomFieldKind, text_field, hidden_field, totp_field, other_field, LoginBody, CardBody,
  IdentityBody, WifiBody, SshBody, CustomBody, KindContent, missing, empty_login, empty_card,
  empty_identity, empty_wifi, empty_ssh, empty_custom,
}
use package.text.Mathlib.Text.{◌==◌ as str_eq}

-- A derived decoder of a body that may be `null`.
abbrev Decoder : Type 0 → Type 0 → Type 0
Decoder V B = V → Option (Option B)

pub record Decoders (V : Type 0) : Type 0 where
  pub login_body : Decoder V LoginBody
  pub card_body : Decoder V CardBody
  pub identity_body : Decoder V IdentityBody
  pub wifi_body : Decoder V WifiBody
  pub ssh_body : Decoder V SshBody
  pub custom_body : Decoder V CustomBody

-- The kind that a key of a custom field's content names; the last key counts.
unfoldable pub custom_field_kind_of : String → CustomFieldKind
custom_field_kind_of key =
    if str_eq key "Text"
    then text_field
    else if str_eq key "Hidden"
    then hidden_field
    else if str_eq key "Totp"
    then totp_field
    else other_field

unfoldable pub visit_custom_field : CustomFieldKind → List String → CustomFieldKind
unfolding custom_field_kind_of
visit_custom_field kind [] = kind
visit_custom_field kind (key ∷ keys) = visit_custom_field (custom_field_kind_of key) keys

unfoldable pub custom_field_kind : List String → CustomFieldKind
unfolding visit_custom_field
custom_field_kind = visit_custom_field other_field

-- A text that is blank counts as none. It reads the plain texts of the bodies.
unfoldable pub text : Option String → Option String
unfolding all
text none = none
text (some s) = if all is_whitespace (codes s) then none else some s

-- `opt`: the default of a body in place of `null`.
abbrev pub opt : {A : Type 0} → A → Option A → A
opt default value = unwrap_or value default

unfoldable login_texts : LoginBody → LoginBody
unfolding text
login_texts b = record b { username = text b.username; email = text b.email }

unfoldable card_texts : CardBody → CardBody
unfolding text
card_texts b = record b {
  cardholder_name = text b.cardholder_name;
  expiration_date = text b.expiration_date;
}

unfoldable identity_texts : IdentityBody → IdentityBody
unfolding text
identity_texts b = record b { full_name = text b.full_name; email = text b.email }

unfoldable wifi_texts : WifiBody → WifiBody
unfolding text
wifi_texts b = record b { ssid = text b.ssid }

unfoldable ssh_texts : SshBody → SshBody
unfolding text
ssh_texts b = record b { public_key = text b.public_key }

module _ {V : Type 0} (d : Decoders V) where
  unfoldable pub decode_kind : String → V → ItemKind → Option KindContent
  unfolding login_texts card_texts identity_texts wifi_texts ssh_texts
  decode_kind name v ItemKind.login =
      map_option (λ b. KindContent.login (opt empty_login (map_option login_texts b)))
        (d.login_body v)
  decode_kind name v ItemKind.credit_card =
      map_option (λ b. KindContent.card (opt empty_card (map_option card_texts b))) (d.card_body v)
  decode_kind name v ItemKind.identity =
      map_option (λ b. KindContent.identity (opt empty_identity (map_option identity_texts b)))
        (d.identity_body v)
  decode_kind name v ItemKind.wifi =
      map_option (λ b. KindContent.wifi (opt empty_wifi (map_option wifi_texts b))) (d.wifi_body v)
  decode_kind name v ItemKind.ssh_key =
      map_option (λ b. KindContent.ssh (opt empty_ssh (map_option ssh_texts b))) (d.ssh_body v)
  decode_kind name v ItemKind.custom =
      map_option (λ b. KindContent.custom (opt empty_custom b)) (d.custom_body v)
  decode_kind name v ItemKind.note = some KindContent.note
  decode_kind name v ItemKind.alias = some KindContent.alias
  decode_kind name v (ItemKind.unknown other) = some (KindContent.unknown name)

  -- `KindContent`'s `visit_map`: every entry is decoded, and the last one counts.
  unfoldable pub visit_kind : KindContent → List (String × V) → Option KindContent
  unfolding decode_kind from_cli
  visit_kind kind [] = some kind
  visit_kind kind ((name, v) ∷ rest) =
      and_then (decode_kind name v (from_cli name)) (λ next. visit_kind next rest)

  unfoldable pub kind_content : List (String × V) → Option KindContent
  unfolding visit_kind
  kind_content = visit_kind missing
