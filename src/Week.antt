-- ===== src/Week.antt =====
-- apps/tracker/lib/domain/schedule/week.ts: the totals of a week.
-- Its `union` is the code of availability.ts, and is taken from `Availability.Spans`.
pub mod Totals
mod Tests
use ap_academy_landing.Prelude.{
  ℕ, ◌-◌, min, max, Bool, true, false, not, Option, none, some, List, map, ◌==◌, if◌then◌else◌, all,
  filter, sum_by,
}
use ap_academy_landing.Wallclock.{Date, add_days, iso_week_start}
use ap_academy_landing.Availability.Spans.{Span, union}
use ap_academy_landing.Availability.{AvailabilityDay, DayState, available, unavailable, not_entered}
use ap_academy_landing.Recurrence.{Occurrence, is_cancelled}

pub record WeekTotals : Type 0 where
  pub scheduled_minutes : ℕ
  pub available_minutes : Option ℕ
  pub remaining_minutes : Option ℕ

unfoldable pub week_of : Date → Date × Date
week_of date = (iso_week_start date, add_days (iso_week_start date) 6)

-- The common minutes of two spans; `-` stops at 0 where they have none.
unfoldable pub overlap : Span → Span → ℕ
overlap a b = min a.1 b.1 - max a.0 b.0

abbrev pub is_not_entered : DayState → Bool
is_not_entered not_entered = true
is_not_entered available = false
is_not_entered unavailable = false

abbrev pub live_of : List Occurrence → List Occurrence
live_of occurrences = filter (λ o. not (is_cancelled o.status)) occurrences

abbrev pub class_span : Occurrence → Span
class_span o = (o.start_time, o.end_time)

-- The spans booked on one day, unioned.
unfoldable pub booked : List Occurrence → Date → List Span
booked live date = union (map class_span (filter (λ o. o.date == date) live))

-- The two inner loops, over the spans and over the intervals.
unfoldable pub inside_spans : List Span → List Span → ℕ
unfolding overlap
inside_spans spans intervals = sum_by (λ s. sum_by (overlap s) intervals) spans

-- The loop over the days.
unfoldable pub inside_days : List Occurrence → List AvailabilityDay → ℕ
unfolding inside_spans booked
inside_days live days = sum_by (λ day. inside_spans (booked live day.date) day.intervals) days

-- `Math.max(0, available - inside)`
unfoldable pub week_totals : List Occurrence → List AvailabilityDay → WeekTotals
unfolding inside_days
week_totals occurrences days =
    let live = live_of occurrences in
    let scheduled = sum_by (λ o. o.duration_minutes) live in
    let available = sum_by (λ d. d.available_minutes) days in
    if all (λ d. is_not_entered d.state) days
    then record {
      scheduled_minutes = scheduled;
      available_minutes = none;
      remaining_minutes = none;
    }
    else record {
      scheduled_minutes = scheduled;
      available_minutes = some available;
      remaining_minutes = some (available - inside_days live days);
    }
