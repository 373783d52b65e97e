-- ===== src/Wallclock/Weeks.antt =====
-- The arithmetic of weekdays that the schedule components share.
use ap_academy_landing.Prelude.{ℕ, ◌+◌, ◌-◌, ◌%◌, ◌≤◌, ◌≡◌, arith}
use ap_academy_landing.Wallclock.{Date, add_days, iso_weekday, iso_week_start}

-- The week of a date starts on the one Monday among it and the six days before it.
pub iso_week_start_lem :
    (d : Date)
    → 7 ≤ d
    → (iso_weekday (iso_week_start d) ≡ 1)
      × (iso_week_start d ≤ d)
      × (d ≤ add_days (iso_week_start d) 6)
iso_week_start_lem d h = omega arith

-- A week later is the same weekday, and dates of one weekday lie whole weeks apart.
pub iso_weekday-eq_iff : (a b : Date) → a ≤ b → iso_weekday a ≡ iso_weekday b → (b - a) % 7 ≡ 0
iso_weekday-eq_iff a b h e = omega arith

pub iso_weekday_offset :
    (d w : ℕ) → 7 ≤ d → 1 ≤ w → w ≤ 7 → iso_weekday (iso_week_start d + (w - 1)) ≡ w
iso_weekday_offset d w h lo hi = omega arith
