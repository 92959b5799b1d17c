-- ===== src/Domain/Timestamp.antt =====
-- src/model.rs: `parse_timestamp` and `days_from_civil`.
use cosmic_pass.Base.{
  ℕ, ◌+◌, ◌-◌, ◌*◌, ◌/◌, ◌%◌, zero, suc, String, Bool, false, not, ◌&&◌, ◌||◌, Option, none, some,
  List, [], ◌∷◌, ◌++◌, if◌then◌else◌, ◌==◌, leb, ltb, length, take, get_elem?, and_then, map_option,
}
use cosmic_pass.Base.Int.{ℤ, pos, pos_part, ◌+ℤ◌, ◌-ℤ◌, ◌*ℤ◌, leb_ℤ, ltb_ℤ, div_euclid}
use cosmic_pass.Base.Text.{codes, digits_from}

-- The bytes of a character in UTF-8.
unfoldable pub utf8 : ℕ → List ℕ
utf8 c =
    if ltb c 0x80
    then c ∷ []
    else if ltb c 0x800
    then (0xc0 + c / 0x40) ∷ (0x80 + c % 0x40) ∷ []
    else if ltb c 0x10000
    then (0xe0 + c / 0x1000) ∷ (0x80 + c / 0x40 % 0x40) ∷ (0x80 + c % 0x40) ∷ []
    else (0xf0 + c / 0x40000)
      ∷ (0x80 + c / 0x1000 % 0x40)
      ∷ (0x80 + c / 0x40 % 0x40)
      ∷ (0x80 + c % 0x40)
      ∷ []

unfoldable pub utf8_all : List ℕ → List ℕ
unfolding utf8
utf8_all [] = []
utf8_all (c ∷ cs) = utf8 c ++ utf8_all cs

-- `str::as_bytes`.
abbrev pub as_bytes : String → List ℕ
as_bytes s = utf8_all (codes s)

abbrev pub drop : ℕ → List ℕ → List ℕ
drop _ [] = []
drop zero (b ∷ bs) = b ∷ bs
drop (suc n) (b ∷ bs) = drop n bs

-- `str::is_char_boundary`, for a position that is at most the length.
abbrev continues : Option ℕ → Bool
continues none = false
continues (some b) = leb 0x80 b && ltb b 0xc0

-- `str::get` of a range, by the bytes of the text.
unfoldable pub get_range : List ℕ → ℕ → ℕ → Option (List ℕ)
unfolding get_elem? take
get_range b from to =
    if leb to (length b) && not (continues (get_elem? b from)) && not (continues (get_elem? b to))
    then some (take (to - from) (drop from b))
    else none

abbrev digits : List ℕ → Option ℕ
digits [] = none
digits (c ∷ cs) = digits_from 0 (c ∷ cs)

abbrev minus : ℕ → ℤ
minus n = pos 0 -ℤ pos n

-- `i64::from_str` of a text too short to overflow: digits behind a sign that may be left out.
unfoldable pub parse_i64 : List ℕ → Option ℤ
unfolding digits_from ◌-ℤ◌
parse_i64 [] = none
parse_i64 (c ∷ cs) =
    if c == b'-'
    then map_option minus (digits cs)
    else if c == b'+'
    then map_option pos (digits cs)
    else map_option pos (digits (c ∷ cs))

unfoldable pub num : List ℕ → ℕ → ℕ → Option ℤ
unfolding get_range parse_i64
num b from to = and_then (get_range b from to) parse_i64

-- Days since 1970-01-01. Months start at 1, and the year of the era is never negative.
unfoldable pub days_from_civil : ℤ → ℕ → ℕ → ℤ
unfolding ◌-ℤ◌ ◌+ℤ◌ ◌*ℤ◌ div_euclid
days_from_civil year m d =
    let y = if leb m 2 then year -ℤ pos 1 else year in
    let era = div_euclid y 400 in
    let yoe = pos_part (y -ℤ era *ℤ pos 400) in
    let mp = (m + 9) % 12 in
    let doy = (153 * mp + 2) / 5 + d - 1 in
    let doe = yoe * 365 + yoe / 4 - yoe / 100 + doy in era *ℤ pos 146097 +ℤ pos doe -ℤ pos 719468

-- Whether the parts are out of range; hours, minutes and seconds have no lower bound.
unfoldable pub out_of_range : ℤ → ℤ → ℤ → ℤ → ℤ → Bool
out_of_range m d hh mm ss =
    not (leb_ℤ (pos 1) m && leb_ℤ m (pos 12))
    || not (leb_ℤ (pos 1) d && leb_ℤ d (pos 31))
    || ltb_ℤ (pos 23) hh
    || ltb_ℤ (pos 59) mm
    || ltb_ℤ (pos 60) ss

unfoldable pub seconds : ℤ → ℤ → ℤ → ℤ → ℤ → ℤ → ℤ
unfolding days_from_civil ◌*ℤ◌ ◌+ℤ◌
seconds y m d hh mm ss =
    days_from_civil y (pos_part m) (pos_part d) *ℤ pos 86400 +ℤ hh *ℤ pos 3600 +ℤ mm *ℤ pos 60 +ℤ ss

unfoldable pub is_byte : ℕ → Option ℕ → Bool
is_byte c none = false
is_byte c (some b) = b == c

-- The parts are read in order, and the first that fails ends the reading.
unfoldable pub parse_parts : List ℕ → Option ℤ
unfolding num out_of_range seconds
parse_parts b = and_then (num b 0 4) (λ y. and_then (num b 5 7) (λ m. and_then (num b 8 10) (λ d.
    and_then (num b 11 13) (λ hh. and_then (num b 14 16) (λ mm.
      and_then (num b 17 19)
        (λ ss. if out_of_range m d hh mm ss then none else some (seconds y m d hh mm ss)))))))

-- `parse_timestamp`, on the bytes of the text.
unfoldable pub parse_bytes : List ℕ → Option ℤ
unfolding parse_parts is_byte get_elem?
parse_bytes b =
    let parts = parse_parts b in
    if ltb (length b) 19
      || not (is_byte b'-' (get_elem? b 4))
      || not (is_byte b'-' (get_elem? b 7))
      || not (is_byte b'T' (get_elem? b 10))
    then none
    else parts

unfoldable pub parse_timestamp : String → Option ℤ
unfolding parse_bytes utf8_all
parse_timestamp text = parse_bytes (as_bytes text)
