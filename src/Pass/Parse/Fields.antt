-- ===== src/Pass/Parse/Fields.antt =====
-- src/pass/parse.rs: the fields of a summary, from the parts of an item.
use cosmic_pass.Base.{
  ℕ, zero, suc, ◌+◌, String, true, false, not, ◌&&◌, Option, none, some, List, [], ◌∷◌, ◌++◌,
  if◌then◌else◌,
}
use cosmic_pass.Base.Decimal.{show_decimal}
use cosmic_pass.Base.Text.{contains}
use cosmic_pass.Domain.Items.{FieldRef, ItemSummary, secret_field, plain_field, unstored_field}
use cosmic_pass.Pass.Parse.Raw.{
  NonEmpty, CustomFieldKind, text_field, hidden_field, totp_field, other_field, RawCustomField,
  RawSection,
}
use text.Mathlib.Text.{◌==◌ as str_eq}
use Prim.Native.String.{◌++◌ as text_append}

-- `Vec::push`.
abbrev pub push : {A : Type 0} → List A → A → List A
push xs x = xs ++ x ∷ []

unfoldable pub secret_if : List FieldRef → NonEmpty → String → String → List FieldRef
secret_if fields true name label = push fields (secret_field name label)
secret_if fields false name label = fields

unfoldable pub plain_if : List FieldRef → Option String → String → String → List FieldRef
plain_if fields none name label = fields
plain_if fields (some v) name label = push fields (plain_field name label v)

-- A member's presence, its name and its label.
abbrev pub Member : Type 0
Member = NonEmpty × String × String

unfoldable pub unstored_if : List FieldRef → List Member → List FieldRef
unstored_if fields [] = fields
unstored_if fields ((true, name, label) ∷ ms) =
    unstored_if (push fields (unstored_field name label)) ms
unstored_if fields ((false, name, label) ∷ ms) = unstored_if fields ms

-- The name and the label of a login's website.
unfoldable pub website_field : ℕ → String × String
unfolding show_decimal
website_field zero = ("url", "Website")
website_field (suc i) =
    let n = show_decimal (suc i + 1) in (text_append "url" n, text_append "Website " n)

unfoldable pub push_websites : ℕ → List FieldRef → List String → List FieldRef
unfolding website_field
push_websites i fields [] = fields
push_websites i fields (url ∷ urls) =
    push_websites (suc i) (push fields (plain_field (website_field i).0 (website_field i).1 url))
      urls

-- `pass-cli`'s selector of a name, with its section where that is unambiguous.
unfoldable pub qualified : Option String → String → String
unfolding contains
qualified none name = name
qualified (some s) name =
    if not (str_eq s "") && not (contains s ".") && not (contains name ".")
    then text_append s (text_append "." name)
    else name

unfoldable pub custom_field : ItemSummary → Option String → String → CustomFieldKind → ItemSummary
unfolding qualified
custom_field s section name hidden_field = record s {
  fields = push s.fields (secret_field (qualified section name) name);
}
custom_field s section name totp_field = record s { totp_fields = push s.totp_fields name }
custom_field s section name text_field = s
custom_field s section name other_field = s

unfoldable pub custom_fields_in : ItemSummary → Option String → List RawCustomField → ItemSummary
unfolding custom_field
custom_fields_in s section [] = s
custom_fields_in s section (f ∷ fs) =
    custom_fields_in (custom_field s section f.name f.content) section fs

unfoldable pub custom_fields : ItemSummary → List RawCustomField → ItemSummary
unfolding custom_fields_in
custom_fields s raw = custom_fields_in s none raw

unfoldable pub section_fields : ItemSummary → List RawSection → ItemSummary
unfolding custom_fields_in
section_fields s [] = s
section_fields s (x ∷ xs) = section_fields (custom_fields_in s x.section_name x.section_fields) xs
