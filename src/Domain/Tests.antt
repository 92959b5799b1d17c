-- ===== src/Domain/Tests.antt =====
-- Versions of pass-cli below and at the tested minimum.
use cosmic_pass.Base.{◌≡◌, refl, none}
use cosmic_pass.Base.{some, get_elem?, take}
use cosmic_pass.Base.Int.{pos, ◌-ℤ◌, ◌+ℤ◌, ◌*ℤ◌, div_euclid}
use cosmic_pass.Base.Text.{digits_from}
use cosmic_pass.Domain.Timestamp.{
  parse_timestamp, parse_bytes, parse_parts, num, get_range, parse_i64, days_from_civil,
  out_of_range, seconds, is_byte, utf8_all, utf8,
}
use cosmic_pass.Domain.Calendar.{day_at, days_from_civil-day_at}
use cosmic_pass.Domain.Version.{version, warning}

quiet_at_the_minimum : warning (version 2 3 0) ≡ none
unfolding warning
quiet_at_the_minimum = refl

-- The day after 28 February of a leap year, and the epoch.
leap_day : parse_timestamp "2024-02-29T00:00:01" ≡ some (pos 1709164801)
unfolding parse_timestamp parse_bytes parse_parts num get_range get_elem? take parse_i64 digits_from
    ◌-ℤ◌ ◌+ℤ◌ ◌*ℤ◌ div_euclid days_from_civil out_of_range seconds is_byte utf8_all utf8
leap_day = refl

-- The parts of the time have no lower bound: an hour before midnight is read.
negative_hour : parse_timestamp "1970-01-02T-1:00:00" ≡ some (pos 82800)
unfolding parse_timestamp parse_bytes parse_parts num get_range get_elem? take parse_i64 digits_from
    ◌-ℤ◌ ◌+ℤ◌ ◌*ℤ◌ div_euclid days_from_civil out_of_range seconds is_byte utf8_all utf8
negative_hour = refl

days_from_civil-day_at_example :
    days_from_civil (pos (day_at 59).year) (day_at 59).month (day_at 59).day ≡ pos 59 -ℤ pos 719162
days_from_civil-day_at_example = days_from_civil-day_at 59
