-- ===== src/Calendar/Lengths.antt =====
-- The lengths of months and years, and the weeks from Sunday to Saturday.
use native.Mathlib.Decide.{dec_lt}
use ap_academy_landing.Prelude.{
  ℕ, zero, suc, ◌+◌, ◌/◌, ◌%◌, ◌≤◌, ◌<◌, ◌≡◌, refl, Bool, false, ◌&&◌, ◌||◌, arith, leb, ◌==◌,
  if◌then◌else◌, ap, ◌∙◌,
}
use ap_academy_landing.Wallclock.{Date, iso_weekday}
use ap_academy_landing.Calendar.{
  year_start, is_leap, days_before, leap_day, month_start, month_range, sunday_week_of,
}

year_start-suc : (y : ℕ) → year_start (y + 1) ≡ year_start y + (if is_leap y then 366 else 365)
year_start-suc y = ground arith

-- The days of a month, January being 0, of a year that is a leap year or not.
abbrev pub month_days : Bool → ℕ → ℕ
month_days leap m =
    if m == 1
    then (if leap then 29 else 28)
    else if m == 3 || (m == 5 || (m == 8 || m == 10))
    then 30
    else 31

abbrev first_of : ℕ → ℕ → Date
first_of y m = year_start y + days_before m + leap_day y m

days_before-suc : (m : ℕ) → m < 11 → days_before (m + 1) ≡ days_before m + month_days false m
days_before-suc zero h = refl
days_before-suc (suc zero) h = refl
days_before-suc (suc (suc zero)) h = refl
days_before-suc (suc (suc (suc zero))) h = refl
days_before-suc (suc (suc (suc (suc zero)))) h = refl
days_before-suc (suc (suc (suc (suc (suc zero))))) h = refl
days_before-suc (suc (suc (suc (suc (suc (suc zero)))))) h = refl
days_before-suc (suc (suc (suc (suc (suc (suc (suc zero))))))) h = refl
days_before-suc (suc (suc (suc (suc (suc (suc (suc (suc zero)))))))) h = refl
days_before-suc (suc (suc (suc (suc (suc (suc (suc (suc (suc zero))))))))) h = refl
days_before-suc (suc (suc (suc (suc (suc (suc (suc (suc (suc (suc zero)))))))))) h = refl
days_before-suc (suc (suc (suc (suc (suc (suc (suc (suc (suc (suc (suc m))))))))))) h =
    absurd (omega arith)

leap_day-suc :
    (leap : Bool) (m : ℕ)
    → (if leap && leb 2 (m + 1) then 1 else 0) + month_days false m
      ≡ (if leap && leb 2 m then 1 else 0) + month_days leap m
leap_day-suc leap m = ground arith

first_of-suc : (y m : ℕ) → m < 11 → first_of y (m + 1) ≡ first_of y m + month_days (is_leap y) m
first_of-suc y m h = omega (arith, days_before-suc m h, leap_day-suc (is_leap y) m)

first_of-december : (y : ℕ) → first_of (y + 1) 0 ≡ first_of y 11 + month_days (is_leap y) 11
first_of-december y = ground (arith, year_start-suc y)

next_in_year :
    (month : ℕ)
    → month % 12 < 11
    → ((month + 1) / 12 ≡ month / 12) × ((month + 1) % 12 ≡ month % 12 + 1)
next_in_year month h = omega arith

next_year :
    (month : ℕ)
    → 11 ≤ month % 12
    → ((month + 1) / 12 ≡ month / 12 + 1) × ((month + 1) % 12 ≡ 0) × (month % 12 ≡ 11)
next_year month h = omega arith

month_start-suc :
    (month : ℕ)
    → month_start (month + 1) ≡ month_start month + month_days (is_leap (month / 12)) (month % 12)
unfolding month_start
month_start-suc month = elim (dec_lt (month % 12) 11) [
  | yes h ↦ let n = next_in_year month h in rw (n.0, n.1) (first_of-suc (month / 12) (month % 12) h)
  | no h ↦
      let n = next_year month (omega arith) in rw (n.0, n.1, n.2) (first_of-december (month / 12))
]

pub month_days_pos : (leap : Bool) (m : ℕ) → 1 ≤ month_days leap m
month_days_pos leap m = ground arith

-- The days of the months before a month, from January of the year 0 on.
abbrev pub days_until : ℕ → ℕ
days_until zero = 0
days_until (suc month) = days_until month + month_days (is_leap (month / 12)) (month % 12)

month_start-days_until : (month : ℕ) → month_start month ≡ days_until month
unfolding month_start
month_start-days_until zero = refl
month_start-days_until (suc month) =
    let h = month_start-days_until month in
    let e : suc month ≡ month + 1 = omega arith in
    rw e (month_start-suc month ∙ ap (λ d. d + month_days (is_leap (month / 12)) (month % 12)) h)

pub month_range-suc :
    (month : ℕ)
    → (month_range month).1 + 1
      ≡ (month_range month).0 + month_days (is_leap (month / 12)) (month % 12)
unfolding month_range
month_range-suc month =
    omega (arith, month_start-suc month, month_days_pos (is_leap (month / 12)) (month % 12))

-- A month's range starts as many days after day 0, the first day of the year 0, as the Gregorian
-- calendar gives to the months before it, and ends the day before the range of the next month starts.
pub month_range-days :
    (month : ℕ)
    → ((month_range month).0 ≡ days_until month)
      × ((month_range month).1 + 1 ≡ days_until (suc month))
unfolding month_range
month_range-days month = (
  month_start-days_until month,
  month_range-suc month
      ∙ ap (λ d. d + month_days (is_leap (month / 12)) (month % 12)) (month_start-days_until month),
)

pub sunday_week_of_lem :
    (d : Date)
    → 7 ≤ d
    → (iso_weekday (sunday_week_of d).0 ≡ 7)
      × ((sunday_week_of d).0 ≤ d)
      × (d ≤ (sunday_week_of d).1)
unfolding sunday_week_of
sunday_week_of_lem d h = omega arith
