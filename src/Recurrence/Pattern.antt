-- ===== src/Recurrence/Pattern.antt =====
-- `patternDates` of recurrence.ts against `isPatternDate`.
use ap_academy_landing.Prelude.{
  ℕ, zero, suc, ◌+◌, ◌-◌, ◌*◌, ◌/◌, ◌%◌, ◌<◌, ◌≡◌, Bool, false, ◌&&◌, Option, none, some, List, [],
  ◌∷◌, arith, ltb, leb, ◌==◌, if◌then◌else◌, any,
}
use ap_academy_landing.Wallclock.{Date, days_between}
use ap_academy_landing.Recurrence.Types.{
  ClassSeries, SeriesKind, one_off, weekly, in_range, is_pattern_date, pattern_on,
}

-- `s.kind === "weekly" && until && until < to ? until : to`
abbrev pub last_date : SeriesKind → Option Date → Date → Date
last_date one_off until to = to
last_date weekly none to = to
last_date weekly (some until) to = if ltb until to then until else to

-- The loop `for (; d <= last; d = addDays(d, 7))`, on fuel.
unfoldable pub dates_until : ℕ → Date → Date → List Date
dates_until zero d last = []
dates_until (suc n) d last =
    let rest = dates_until n (d + 7) last in if leb d last then d ∷ rest else []

-- `addDays(d, Math.ceil(daysBetween(d, from) / 7) * 7)`, where `d < from`
abbrev pub first_from : Date → Date → Date
first_from d from = if ltb d from then d + (days_between d from + 6) / 7 * 7 else d

abbrev pub dates_of : SeriesKind → Option Date → Date → Date → Date → List Date
dates_of one_off until start from to = if leb from start && leb start to then start ∷ [] else []
dates_of weekly until start from to =
    dates_until (last_date weekly until to + 1) (first_from start from) (last_date weekly until to)

unfoldable pub pattern_dates : ClassSeries → Date → Date → List Date
unfolding dates_until
pattern_dates s from to = dates_of s.kind s.effective_until s.start_date from to

abbrev pub has_date : List Date → Date → Bool
has_date dates d = any (λ x. x == d) dates

has_date-dates_until :
    (n : ℕ) (start last d : Date)
    → last < n + start
    → has_date (dates_until n start last) d ≡ (leb start d && leb d last && (d - start) % 7 == 0)
unfolding dates_until
has_date-dates_until zero start last d h = ground arith
has_date-dates_until (suc n) start last d h =
    ground (arith, has_date-dates_until n (start + 7) last d)

has_date-dates_of :
    (k : SeriesKind) (until : Option Date) (start from to d : Date)
    → has_date (dates_of k until start from to) d
      ≡ ((if ltb d start then false else pattern_on k until start d) && in_range from to d)
has_date-dates_of one_off until start from to d = ground arith
has_date-dates_of weekly none start from to d =
    ground (arith, has_date-dates_until (to + 1) (first_from start from) to d)
has_date-dates_of weekly (some until) start from to d = ground (
  arith,
  has_date-dates_until (last_date weekly (some until) to + 1) (first_from start from)
      (last_date weekly (some until) to) d,
)

-- The dates enumerated for a range are those of the range that the series' rule accepts one by one.
pub has_date-pattern_dates :
    (s : ClassSeries) (from to d : Date)
    → has_date (pattern_dates s from to) d ≡ (is_pattern_date s d && in_range from to d)
unfolding pattern_dates is_pattern_date
has_date-pattern_dates s from to d =
    has_date-dates_of s.kind s.effective_until s.start_date from to d
