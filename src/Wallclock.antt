-- ===== src/Wallclock.antt =====
-- apps/tracker/lib/domain/schedule/wallclock.ts.
-- A date is the number of its day, counted from 0000-01-01 (a Saturday), and a time the minutes
-- since midnight. `Text` relates the times to their texts `HH:MM`, and `Zone` places both in UTC.
-- The dates are those after the year 100, so that going back a week never reaches day 0.
pub mod Weeks
pub mod Text
pub mod Zone
mod Tests
use ap_academy_landing.Prelude.{ℕ, ◌+◌, ◌-◌, ◌*◌, ◌%◌}

abbrev pub Date : Type 0
Date = ℕ

abbrev pub Time : Type 0
Time = ℕ

-- Milliseconds; day 0 begins at 0.
abbrev pub Instant : Type 0
Instant = ℕ

abbrev pub minute_ms : ℕ
minute_ms = 60000

abbrev pub hour_ms : ℕ
hour_ms = 3600000

abbrev pub day_ms : ℕ
day_ms = 86400000

unfoldable pub parse_date : Date → Instant
parse_date d = d * day_ms

-- `addDays(iso, n)`, and `addDays(iso, -n)`.
abbrev pub add_days : Date → ℕ → Date
add_days d n = d + n

abbrev pub sub_days : Date → ℕ → Date
sub_days d n = d - n

-- 0 is Sunday.
abbrev pub utc_day : Date → ℕ
utc_day d = (d + 6) % 7

-- 1 is Monday, 7 is Sunday.
abbrev pub iso_weekday : Date → ℕ
iso_weekday d = (utc_day d + 6) % 7 + 1

-- `addDays(iso, 1 - isoWeekday(iso))`
abbrev pub iso_week_start : Date → Date
iso_week_start d = sub_days d (iso_weekday d - 1)

-- Called only where `a ≤ b`.
abbrev pub days_between : Date → Date → ℕ
days_between a b = b - a
