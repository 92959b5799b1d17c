-- ===== src/Pass/Parse/Selectors.antt =====
-- src/pass/parse.rs: what the selectors of an item address.
use cosmic_pass.Base.{
  ℕ, ◌≡◌, refl, ◌∙◌, ap, String, Bool, true, false, not, ◌&&◌, Option, none, some, List, [], ◌∷◌,
  ◌++◌, if◌then◌else◌, arith, ◌==◌, map_option,
}
use cosmic_pass.Base.Text.{codes, contains, contains_codes}
use cosmic_pass.Domain.Items.{FieldRef, ShareId, field}
use cosmic_pass.Pass.Parse.Raw.{RawItem}
use cosmic_pass.Pass.Parse.Fields.{qualified}
use cosmic_pass.Pass.Parse.Output.{own_name, dedupe_selectors, empty_summary, filled, into_summary}
use cosmic_pass.Pass.Parse.Dedupe.{last_named, is_distinct, is_distinct-keep_last, find-keep_last}
use Prim.Native.Char.{code}
use Prim.Native.String.append
use Prim.Native.String.{◌++◌ as text_append}
use text.Mathlib.Text.{◌==◌ as str_eq}

abbrev pub field_name : FieldRef → String
field_name f = f.name

-- No two fields of a listed item have one selector, and no two of its one-time codes have one name.
pub into_summary_distinct :
    (share : ShareId) (vault_name : String) (raw : RawItem)
    → (is_distinct field_name (into_summary share vault_name raw).fields ≡ true)
      × (is_distinct own_name (into_summary share vault_name raw).totp_fields ≡ true)
unfolding into_summary dedupe_selectors
into_summary_distinct share vault_name raw =
    let s = filled raw.content (empty_summary raw share vault_name) in
    (is_distinct-keep_last field_name s.fields, is_distinct-keep_last own_name s.totp_fields)

-- Looking a selector up in a listed item finds the field that was pushed last under it, and nothing
-- only if no field was.
pub field-into_summary :
    (share : ShareId) (vault_name : String) (raw : RawItem) (selector : String)
    → field (into_summary share vault_name raw) selector
      ≡ last_named field_name selector
          (filled raw.content (empty_summary raw share vault_name)).fields
unfolding into_summary dedupe_selectors field
field-into_summary share vault_name raw selector =
    find-keep_last field_name selector
      (filled raw.content (empty_summary raw share vault_name)).fields

-- What is before the first dot of a text, and what is after it.
abbrev with_first : ℕ → List ℕ × List ℕ → List ℕ × List ℕ
with_first c (a, b) = (c ∷ a, b)

unfoldable pub split_dot : List ℕ → Option (List ℕ × List ℕ)
split_dot [] = none
split_dot (c ∷ cs) =
    let rest = map_option (with_first c) (split_dot cs) in if c == b'.' then some ([], cs) else rest

codes-append : (s t : String) → codes (text_append s t) ≡ codes s ++ codes t
codes-append String.[] t = ap codes (append.nil t)
codes-append (String.◌∷◌ c s) t =
    ap codes (append.cons c s t) ∙ ap (λ cs. code c ∷ cs) (codes-append s t)

split_dot-append :
    (a b : List ℕ) → contains_codes (b'.' ∷ []) a ≡ false → split_dot (a ++ b'.' ∷ b) ≡ some (a, b)
unfolding split_dot contains_codes
split_dot-append [] b h = refl
split_dot-append (c ∷ a) b h = ground (arith, split_dot-append a b)

-- Whether a selector may name its section.
abbrev pub can_qualify : String → String → Bool
can_qualify s name = not (str_eq s "") && not (contains s ".") && not (contains name ".")

no_dot :
    (s name : String) → can_qualify s name ≡ true → contains_codes (b'.' ∷ []) (codes s) ≡ false
unfolding contains
no_dot s name h = ground arith

qualified-codes :
    (s name : String)
    → can_qualify s name ≡ true
    → codes (qualified (some s) name) ≡ codes s ++ b'.' ∷ codes name
unfolding qualified
qualified-codes s name h = rw (h, codes-append s (text_append "." name), codes-append "." name) refl

-- A selector that names its section gives back the section and the field's name when it is split at
-- its first dot, where the section is not empty and neither of them has a dot.
split_dot-qualified :
    (section name : String)
    → can_qualify section name ≡ true
    → split_dot (codes (qualified (some section) name)) ≡ some (codes section, codes name)
split_dot-qualified section name h =
    ap split_dot (qualified-codes section name h)
    ∙ split_dot-append (codes section) (codes name) (no_dot section name h)
