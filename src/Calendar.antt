-- ===== src/Calendar.antt =====
-- Months, for `monthRange`, `shiftMonth` and `sundayWeekOf` of
-- apps/tracker/lib/domain/schedule/month.ts. A month `YYYY-MM` is the number `YYYY * 12 + MM - 1`
-- by which `shiftMonth` counts, and the start of a month is what `Date.UTC` makes of its first day.
pub mod Lengths
mod Tests
use ap_academy_landing.Prelude.{
  ℕ, ◌+◌, ◌-◌, ◌*◌, ◌/◌, ◌%◌, Bool, not, ◌&&◌, ◌||◌, leb, ◌==◌, if◌then◌else◌,
}
use ap_academy_landing.Wallclock.{Date, add_days, sub_days, iso_weekday}

-- The leap years before a year; the year 0 is one.
abbrev pub leaps_before : ℕ → ℕ
leaps_before y = (y + 3) / 4 - (y + 99) / 100 + (y + 399) / 400

abbrev pub is_leap : ℕ → Bool
is_leap y = y % 4 == 0 && (not (y % 100 == 0) || y % 400 == 0)

abbrev pub year_start : ℕ → Date
year_start y = 365 * y + leaps_before y

-- The days of a common year before a month, January being 0.
abbrev pub days_before : ℕ → ℕ
days_before m =
    if m == 0
    then 0
    else if m == 1
    then 31
    else if m == 2
    then 59
    else if m == 3
    then 90
    else if m == 4
    then 120
    else if m == 5
    then 151
    else if m == 6
    then 181
    else if m == 7
    then 212
    else if m == 8
    then 243
    else if m == 9
    then 273
    else if m == 10
    then 304
    else 334

abbrev pub leap_day : ℕ → ℕ → ℕ
leap_day y m = if is_leap y && leb 2 m then 1 else 0

-- `Date.UTC(y, m, 1)`, as a day
unfoldable pub month_start : ℕ → Date
month_start month =
    year_start (month / 12) + days_before (month % 12) + leap_day (month / 12) (month % 12)

abbrev pub shift_month : ℕ → ℕ → ℕ
shift_month month n = month + n

unfoldable pub month_range : ℕ → Date × Date
unfolding month_start
month_range month = (month_start month, sub_days (month_start (shift_month month 1)) 1)

unfoldable pub sunday_week_of : Date → Date × Date
sunday_week_of date = let from = sub_days date (iso_weekday date % 7) in (from, add_days from 6)
