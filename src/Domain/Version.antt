-- ===== src/Domain/Version.antt =====
-- src/model.rs and src/core/version.rs: the releases of `pass-cli`, and the warning for old ones.
use cosmic_pass.Base.{
  ℕ, String, Option, some, none, List, [], ◌∷◌, map, if◌then◌else◌, ◌==◌, leb, compare, Ordering,
  then_with, is_lt, and_then, map_option,
}
use cosmic_pass.Base.Int.{u32_max}
use cosmic_pass.Base.Text.{trim, split_at, digits_from}
use cosmic_pass.Base.Decimal.{show_decimal}
use Prim.Native.Char.{Char, code}
use Prim.Native.String.{◌++◌}

pub record CliVersion : Type 0 where
  pub major : ℕ
  pub minor : ℕ
  pub patch : ℕ

abbrev pub version : ℕ → ℕ → ℕ → CliVersion
version a b c = record { major = a; minor = b; patch = c }

-- `u32::from_str`: digits, at least one, behind a `+` that may be left out.
abbrev digits : List ℕ → Option ℕ
digits [] = none
digits (c ∷ cs) = digits_from 0 (c ∷ cs)

abbrev unsigned : List ℕ → List ℕ
unsigned [] = []
unsigned (c ∷ cs) = if c == b'+' then cs else c ∷ cs

abbrev pub fits_u32 : Option ℕ → Option ℕ
fits_u32 none = none
fits_u32 (some n) = if leb n u32_max then some n else none

unfoldable pub parse_u32 : List ℕ → Option ℕ
unfolding digits_from
parse_u32 cs = fits_u32 (digits (unsigned cs))

unfoldable pub part : List Char → Option ℕ
unfolding trim parse_u32
part cs = parse_u32 (map code (trim cs))

-- The pieces between the dots: one to three of them.
unfoldable pub from_parts : List (List Char) → Option CliVersion
unfolding part
from_parts [] = none
from_parts (a ∷ []) = map_option (λ x. version x 0 0) (part a)
from_parts (a ∷ b ∷ []) = and_then (part a) (λ x. map_option (λ y. version x y 0) (part b))
from_parts (a ∷ b ∷ c ∷ []) =
    and_then (part a) (λ x. and_then (part b) (λ y. map_option (version x y) (part c)))
from_parts (a ∷ b ∷ c ∷ d ∷ more) = none

-- `CliVersion::from_str`.
unfoldable pub from_str : List Char → Option CliVersion
unfolding from_parts split_at
from_str text = from_parts (split_at (λ c. c == b'.') text)

-- The derived order: by precedence.
unfoldable pub compare_version : CliVersion → CliVersion → Ordering
compare_version a b =
    then_with (compare a.major b.major)
      (then_with (compare a.minor b.minor) (compare a.patch b.patch))

-- The `Display` text.
unfoldable pub show_version : CliVersion → String
unfolding show_decimal
show_version v = show_decimal v.major ++ "." ++ show_decimal v.minor ++ "." ++ show_decimal v.patch

-- The oldest version that the program is known to work with.
abbrev pub tested_min : CliVersion
tested_min = version 2 3 0

-- The warning for a version below it, none for any other.
unfoldable pub warning : CliVersion → Option String
unfolding compare_version show_version
warning found =
    if is_lt (compare_version found tested_min)
    then some (
        "pass-cli "
        ++ show_version found
        ++ " is older than the tested "
        ++ show_version tested_min
        ++ "; some fields may not copy. Upgrade pass-cli.")
    else none
