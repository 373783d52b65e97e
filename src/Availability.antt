-- ===== src/Availability.antt =====
-- apps/tracker/lib/domain/schedule/availability.ts: a staff member's open hours, day by day.
pub mod Spans
pub mod Cover
pub mod Minutes
pub mod Days
mod Tests
use ap_academy_landing.Prelude.{
  ℕ, zero, suc, ◌+◌, ◌-◌, ◌==◌, Bool, true, ◌&&◌, Option, none, some, List, [], ◌∷◌, ◌++◌, map,
  filter, sum_by, leb,
}
use ap_academy_landing.Wallclock.{Date, Time, add_days, iso_weekday}
use Spans.{Span, union, subtract}

pub record AvailabilityWindow : Type 0 where
  pub weekday : ℕ
  pub start_time : Time
  pub end_time : Time
  pub effective_from : Date
  pub effective_until : Option Date

pub data ExceptionKind : Type 0 where
  time_off extra : ExceptionKind

pub record AvailabilityException : Type 0 where
  pub on_date : Date
  pub kind : ExceptionKind
  pub start_time : Option Time
  pub end_time : Option Time

pub data DayState : Type 0 where
  available unavailable not_entered : DayState

pub record AvailabilityDay : Type 0 where
  pub date : Date
  pub state : DayState
  pub intervals : List Span
  pub available_minutes : ℕ

-- `!until || date <= until`
abbrev pub open_until : Option Date → Date → Bool
open_until none date = true
open_until (some until) date = leb date until

abbrev pub is_effective : Date → AvailabilityWindow → Bool
is_effective date w =
    w.weekday == iso_weekday date
    && (leb w.effective_from date && open_until w.effective_until date)

abbrev pub window_span : AvailabilityWindow → Span
window_span w = (w.start_time, w.end_time)

-- Both times are given.
abbrev pub times : Option Time → Option Time → Option Span
times (some a) (some b) = some (a, b)
times (some a) none = none
times none b = none

abbrev pub extra_of : ExceptionKind → Option Span → List Span
extra_of extra (some s) = s ∷ []
extra_of extra none = []
extra_of time_off s = []

-- The spans that the first loop over `today` pushes.
abbrev pub extra_spans : List AvailabilityException → List Span
extra_spans [] = []
extra_spans (e ∷ es) = extra_of e.kind (times e.start_time e.end_time) ++ extra_spans es

abbrev pub whole_day : Option Span → Span
whole_day none = (0, 1440)
whole_day (some s) = s

abbrev pub cut_of : ExceptionKind → Option Span → List Span → List Span
cut_of extra s spans = spans
cut_of time_off s spans = subtract spans (whole_day s)

-- The second loop over `today`.
pub cut_all : List AvailabilityException → List Span → List Span
cut_all [] spans = spans
cut_all (e ∷ es) spans = cut_all es (cut_of e.kind (times e.start_time e.end_time) spans)

abbrev pub length_of : Span → ℕ
length_of s = s.1 - s.0

abbrev pub state_of : List Span → DayState
state_of [] = unavailable
state_of (s ∷ spans) = available

pub entered_spans : List AvailabilityWindow → List AvailabilityException → Date → List Span
entered_spans windows exceptions date =
    map window_span (filter (is_effective date) windows)
    ++ extra_spans (filter (λ e. e.on_date == date) exceptions)

pub open_spans : List AvailabilityWindow → List AvailabilityException → Date → List Span
unfolding cut_all entered_spans
open_spans windows exceptions date =
    cut_all (filter (λ e. e.on_date == date) exceptions)
      (union (entered_spans windows exceptions date))

pub entered_day : List AvailabilityWindow → List AvailabilityException → Date → AvailabilityDay
unfolding open_spans
entered_day windows exceptions date =
    let spans = open_spans windows exceptions date in
    record {
      date = date;
      state = state_of spans;
      intervals = spans;
      available_minutes = sum_by length_of spans;
    }

abbrev pub blank_day : Date → AvailabilityDay
blank_day date = record { date = date; state = not_entered; intervals = []; available_minutes = 0 }

-- One round of the loop over the dates.
pub compute_day : List AvailabilityWindow → List AvailabilityException → Date → AvailabilityDay
unfolding entered_day
compute_day [] [] date = blank_day date
compute_day [] (e ∷ es) date = entered_day [] (e ∷ es) date
compute_day (w ∷ ws) es date = entered_day (w ∷ ws) es date

-- The loop, over the rounds that are left.
days_from : List AvailabilityWindow → List AvailabilityException → ℕ → Date → List AvailabilityDay
unfolding compute_day
days_from windows exceptions zero date = []
days_from windows exceptions (suc n) date =
    compute_day windows exceptions date ∷ days_from windows exceptions n (add_days date 1)

unfoldable pub compute_availability :
    List AvailabilityWindow → List AvailabilityException → Date → Date → List AvailabilityDay
unfolding days_from
compute_availability windows exceptions from to = days_from windows exceptions (to + 1 - from) from
