-- ===== src/Domain/Calendar.antt =====
-- src/model.rs: the day numbers of `days_from_civil`, month by month.
use cosmic_pass.Base.{
  refl, ap, ◌∙◌, sym, Bool-cases, inl, inr, ℕ, suc, ◌+◌, ◌-◌, ◌*◌, ◌/◌, ◌%◌, ◌≤◌, ◌≡◌, Bool, ◌&&◌,
  ◌||◌, not, false, if◌then◌else◌, ◌==◌, leb, ltb, zero, true, ltb→lt, arith,
}
use cosmic_pass.Base.Int.{ℤ, pos, pos_part, add_pos, mul_pos, ◌+ℤ◌, ◌-ℤ◌, ◌*ℤ◌, div_euclid}
use cosmic_pass.Domain.Timestamp.{days_from_civil}

abbrev pub is_leap : ℕ → Bool
is_leap y = (y % 4 == 0) && (not (y % 100 == 0) || y % 400 == 0)

abbrev pub days_in_month : ℕ → ℕ → ℕ
days_in_month y m =
    if m == 2
    then (if is_leap y then 29 else 28)
    else if m == 4 || m == 6 || m == 9 || m == 11
    then 30
    else 31

-- The days before March of a year, since March of year 0.
abbrev marches : ℕ → ℕ
marches y = y / 400 * 146097 + (y % 400 * 365 + y % 400 / 4 - y % 400 / 100)

abbrev day_of_year : ℕ → ℕ → ℕ
day_of_year m d = (153 * ((m + 9) % 12) + 2) / 5 + d - 1

year_of_era : (y : ℕ) → pos_part (pos y -ℤ pos (y / 400 * 400)) ≡ y % 400
unfolding ◌-ℤ◌
year_of_era y = ground arith

abbrev year_in_era : ℤ → ℕ
year_in_era y = pos_part (y -ℤ div_euclid y 400 *ℤ pos 400)

abbrev from_march : ℤ → ℕ → ℕ → ℤ
from_march y m d =
    div_euclid y 400 *ℤ pos 146097
    +ℤ pos (year_in_era y * 365 + year_in_era y / 4 - year_in_era y / 100 + day_of_year m d)
    -ℤ pos 719468

-- The day number, in a year that starts in March.
days_from_march :
    (y : ℤ) (m d : ℕ) → days_from_civil y m d ≡ from_march (if leb m 2 then y -ℤ pos 1 else y) m d
unfolding days_from_civil
days_from_march y m d = refl

from_march-pos :
    (y m d : ℕ) → from_march (pos y) m d ≡ pos (marches y + day_of_year m d) -ℤ pos 719468
unfolding div_euclid
from_march-pos y m d =
    rw (mul_pos (y / 400) 400, year_of_era y, mul_pos (y / 400) 146097, add_pos)
      (ap (λ n. pos n -ℤ pos 719468) (omega arith))

marches-suc : (y : ℕ) → marches (suc y) ≡ marches y + 365 + (if is_leap (suc y) then 1 else 0)
marches-suc y = ground arith

-- A day of the calendar, from the year 1 on, and the one after it.
pub record Day : Type 0 where
  pub year : ℕ
  pub month : ℕ
  pub day : ℕ

abbrev day : ℕ → ℕ → ℕ → Day
day y m d = record { year = y; month = m; day = d }

-- The day after, given whether the month goes on, and whether the year does.
unfoldable pub after : Bool → Bool → Day → Day
after true _ c = day c.year c.month (c.day + 1)
after false true c = day c.year (c.month + 1) 1
after false false c = day (c.year + 1) 1 1

unfoldable pub next : Day → Day
unfolding after
next c = after (ltb c.day (days_in_month c.year c.month)) (ltb c.month 12) c

-- The day `n` days after 1 January of the year 1.
unfoldable pub day_at : ℕ → Day
day_at zero = day 1 1 1
day_at (suc n) = next (day_at n)

abbrev IsDay : Day → Type 0
IsDay c =
    (1 ≤ c.year)
    × (1 ≤ c.month)
    × (c.month ≤ 12)
    × (1 ≤ c.day)
    × (c.day ≤ days_in_month c.year c.month)

days_in_month_pos : (y m : ℕ) → 1 ≤ days_in_month y m
days_in_month_pos y m = ground arith

IsDay-after :
    (month year : Bool) (c : Day)
    → IsDay c
    → ltb c.day (days_in_month c.year c.month) ≡ month
    → ltb c.month 12 ≡ year
    → IsDay (after month year c)
unfolding after
IsDay-after true year c (a, b, k, x, y) e f = (a, b, k, omega arith, omega (arith, ltb→lt _ _ e))
IsDay-after false true c (a, b, k, x, y) e f = (
  a,
  omega arith,
  omega (arith, ltb→lt _ _ f),
  omega arith,
  days_in_month_pos c.year (c.month + 1),
)
IsDay-after false false c h e f =
    (omega arith, omega arith, omega arith, omega arith, days_in_month_pos (c.year + 1) 1)

IsDay-day_at : (n : ℕ) → IsDay (day_at n)
unfolding day_at next
IsDay-day_at zero = (omega arith, omega arith, omega arith, omega arith, omega arith)
IsDay-day_at (suc n) = IsDay-after _ _ (day_at n) (IsDay-day_at n) refl refl

-- Days since March of the year 0.
unfoldable count : ℕ → ℕ → ℕ → ℕ
count y m d = if leb m 2 then marches (y - 1) + day_of_year m d else marches y + day_of_year m d

abbrev count_of : Day → ℕ
count_of c = count c.year c.month c.day

count-next_month :
    (y m : ℕ) → 1 ≤ y → 1 ≤ m → m ≤ 11 → count y (m + 1) 1 ≡ count y m (days_in_month y m) + 1
unfolding count
count-next_month zero m h k l = elim h [ ]
count-next_month (suc y) m h k l = grind (arith, marches-suc y)

last_day : (d k : ℕ) → d ≤ k → ltb d k ≡ false → k ≡ d
last_day d k h e = ground arith

last_month : (m : ℕ) → m ≤ 12 → ltb m 12 ≡ false → 12 ≡ m
last_month m h e = ground arith

not_last_month : (m : ℕ) → ltb m 12 ≡ true → m ≤ 11
not_last_month m e = ground arith

count-next_day : (y m d : ℕ) → 1 ≤ d → count y m (d + 1) ≡ count y m d + 1
unfolding count
count-next_day y m d h = ground arith

count-next_year : (y : ℕ) → count (y + 1) 1 1 ≡ count y 12 (days_in_month y 12) + 1
unfolding count
count-next_year y = omega arith

count_end :
    (y m d : ℕ)
    → 12 ≡ m
    → days_in_month y m ≡ d
    → count y 12 (days_in_month y 12) + 1 ≡ count y m d + 1
count_end y m d e f = rw (sym f, sym e) refl

count-after :
    (month year : Bool) (c : Day)
    → IsDay c
    → ltb c.day (days_in_month c.year c.month) ≡ month
    → ltb c.month 12 ≡ year
    → count_of (after month year c) ≡ count_of c + 1
unfolding after
count-after true year c (a, b, k, x, y) e f = count-next_day c.year c.month c.day x
count-after false true c (a, b, k, x, y) e f =
    count-next_month c.year c.month a b (not_last_month c.month f)
    ∙ ap (λ d. count c.year c.month d + 1) (last_day c.day (days_in_month c.year c.month) y e)
count-after false false c (a, b, k, x, y) e f =
    count-next_year c.year
    ∙ count_end c.year c.month c.day (last_month c.month k f)
        (last_day c.day (days_in_month c.year c.month) y e)

count-day_at : (n : ℕ) → count_of (day_at n) ≡ n + 306
unfolding day_at next count
count-day_at zero = refl
count-day_at (suc n) =
    omega (arith, count-after _ _ (day_at n) (IsDay-day_at n) refl refl, count-day_at n)

year_before : (y : ℕ) → pos (suc y) -ℤ pos 1 ≡ pos y
unfolding ◌-ℤ◌
year_before y = ground arith

epoch : (n : ℕ) → pos (n + 306) -ℤ pos 719468 ≡ pos n -ℤ pos 719162
unfolding ◌-ℤ◌
epoch n = ground arith

days_from_civil_lem :
    (y m d : ℕ) → 1 ≤ y → days_from_civil (pos y) m d ≡ pos (count y m d) -ℤ pos 719468
unfolding count
days_from_civil_lem zero m d h = elim h [ ]
days_from_civil_lem (suc y) m d h = elim (Bool-cases (leb m 2)) [
  | inl e ↦
      rw (days_from_march, e, year_before, from_march-pos)
        (ap (λ k. pos (marches k + day_of_year m d) -ℤ pos 719468) (omega arith))
  | inr e ↦ rw (days_from_march, e, from_march-pos) refl
]

-- The day `n` days after 1 January of the year 1, found by going on from day to day through months of
-- 28 to 31 days, has the number `n - 719162`, so that 1 January 1970 has the number 0.
pub days_from_civil-day_at :
    (n : ℕ)
    → days_from_civil (pos (day_at n).year) (day_at n).month (day_at n).day ≡ pos n -ℤ pos 719162
days_from_civil-day_at n =
    days_from_civil_lem (day_at n).year (day_at n).month (day_at n).day (IsDay-day_at n).0
    ∙ ap (λ k. pos k -ℤ pos 719468) (count-day_at n)
    ∙ epoch n
