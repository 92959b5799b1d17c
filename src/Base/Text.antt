-- ===== src/Base/Text.antt =====
-- Texts character by character: what the code does with `str` beyond comparing it.
use Prim.Native.Nat.{ℕ, ◌+◌, ◌-◌, ◌*◌}
use Prim.Native.Char.{Char, code}
use Prim.Native.String.{String}
use mathlib.Core.Path.{◌≡◌, refl, ap}
use mathlib.Core.Bool.{Bool, true, false, ◌&&◌, ◌||◌}
use mathlib.Core.Option.{Option, some, none}
use mathlib.Core.List.{List, [], ◌∷◌, map, reverse}
use cosmic_pass.Base.Tests.{leb, ◌==◌, if◌then◌else◌}

-- The code points of a text.
abbrev pub codes : String → List ℕ
codes String.[] = []
codes (String.◌∷◌ c s) = code c ∷ codes s

abbrev pub chars : String → List Char
chars String.[] = []
chars (String.◌∷◌ c s) = c ∷ chars s

abbrev pub from_chars : List Char → String
from_chars [] = String.[]
from_chars (c ∷ cs) = String.◌∷◌ c (from_chars cs)

-- Collecting the characters of a text gives the text.
pub from_chars-chars : (s : String) → from_chars (chars s) ≡ s
from_chars-chars String.[] = refl
from_chars-chars (String.◌∷◌ c s) = ap (String.◌∷◌ c) (from_chars-chars s)

unfoldable pub same_codes : List ℕ → List ℕ → Bool
same_codes [] [] = true
same_codes [] (b ∷ bs) = false
same_codes (a ∷ xs) [] = false
same_codes (a ∷ xs) (b ∷ bs) = a == b && same_codes xs bs

-- `char::to_ascii_lowercase`.
abbrev pub to_ascii_lowercase : ℕ → ℕ
to_ascii_lowercase c = if leb b'A' c && leb c b'Z' then c + 32 else c

-- `str::eq_ignore_ascii_case`.
unfoldable pub eq_ignore_ascii_case : String → String → Bool
unfolding same_codes
eq_ignore_ascii_case s t =
    same_codes (map to_ascii_lowercase (codes s)) (map to_ascii_lowercase (codes t))

-- `char::is_whitespace`: Unicode's White_Space.
unfoldable pub is_whitespace : ℕ → Bool
is_whitespace c =
    (leb 9 c && leb c 13)
    || c == 32
    || c == 0x85
    || c == 0xa0
    || c == 0x1680
    || (leb 0x2000 c && leb c 0x200a)
    || c == 0x2028
    || c == 0x2029
    || c == 0x202f
    || c == 0x205f
    || c == 0x3000

-- Whether a text starts with a piece, and what follows it: `str::strip_prefix`.
unfoldable pub strip_prefix : List ℕ → List Char → Option (List Char)
strip_prefix [] cs = some cs
strip_prefix (p ∷ ps) [] = none
strip_prefix (p ∷ ps) (c ∷ cs) = let rest = strip_prefix ps cs in if p == code c then rest else none

abbrev pub has_prefix : List ℕ → List ℕ → Bool
has_prefix [] cs = true
has_prefix (p ∷ ps) [] = false
has_prefix (p ∷ ps) (c ∷ cs) = p == c && has_prefix ps cs

-- `str::contains` of a piece.
unfoldable pub contains_codes : List ℕ → List ℕ → Bool
contains_codes piece [] = has_prefix piece []
contains_codes piece (c ∷ cs) = has_prefix piece (c ∷ cs) || contains_codes piece cs

unfoldable pub contains : String → String → Bool
unfolding contains_codes
contains text piece = contains_codes (codes piece) (codes text)

unfoldable pub trim_start : List Char → List Char
trim_start [] = []
trim_start (c ∷ cs) = let rest = trim_start cs in if is_whitespace (code c) then rest else c ∷ cs

-- `str::trim`.
unfoldable pub trim : List Char → List Char
unfolding trim_start is_whitespace
trim cs = reverse (trim_start (reverse (trim_start cs)))

-- Splitting at every character that passes a test: as many pieces as such characters, and one.
unfoldable pub split_at : (ℕ → Bool) → List Char → List (List Char)
split_at sep [] = [] ∷ []
split_at sep (c ∷ cs) = elim (split_at sep cs) [
  | [] ↦ (c ∷ []) ∷ []
  | piece ∷ pieces ↦ if sep (code c) then [] ∷ piece ∷ pieces else (c ∷ piece) ∷ pieces
]

-- `str::split_whitespace`: the pieces that are not empty.
abbrev pub nonempty : List (List Char) → List (List Char)
nonempty [] = []
nonempty ([] ∷ ps) = nonempty ps
nonempty ((c ∷ cs) ∷ ps) = (c ∷ cs) ∷ nonempty ps

unfoldable pub split_whitespace : List Char → List (List Char)
unfolding split_at is_whitespace
split_whitespace cs = nonempty (split_at is_whitespace cs)

-- A decimal number of any size, `none` for a character that is no digit.
unfoldable pub digits_from : ℕ → List ℕ → Option ℕ
digits_from acc [] = some acc
digits_from acc (c ∷ cs) =
    let rest = digits_from (acc * 10 + (c - b'0')) cs in
    if leb b'0' c && leb c b'9' then rest else none
