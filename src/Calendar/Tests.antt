-- ===== src/Calendar/Tests.antt =====
-- Concrete months, and the theorem of the component at one.
use ap_academy_landing.Prelude.{◌+◌, ◌≡◌, refl}
use ap_academy_landing.Calendar.{month_range, month_start}
use ap_academy_landing.Calendar.Lengths.{month_range-days, days_until}

-- November 2026 runs from day 740286 to day 740315.
november_2026 : month_range 24322 ≡ (740286, 740315)
unfolding month_range month_start
november_2026 = refl

month_range-days_example :
    ((month_range 24289).0 ≡ days_until 24289) × ((month_range 24289).1 + 1 ≡ days_until 24290)
month_range-days_example = month_range-days 24289
