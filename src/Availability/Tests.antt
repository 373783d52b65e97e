-- ===== src/Availability/Tests.antt =====
-- Concrete days, and the theorems of the component at them.
use ap_academy_landing.Prelude.{
  ℕ, ◌≡◌, refl, List, [], ◌∷◌, none, some, arith, count_below, sort_by, insert_by, ◌&&◌, leb, ◌==◌,
  if◌then◌else◌, find,
}
use ap_academy_landing.Availability.Spans.{covers, merge_from, merge, union, subtract}
use ap_academy_landing.Availability.Cover.{covers-compute_day, open_at}
use ap_academy_landing.Availability.Days.{
  find-compute_availability, available_minutes-count, state-StateMeans, StateMeans,
}
use ap_academy_landing.Availability.{
  compute_availability, AvailabilityWindow, AvailabilityException, time_off, entered_spans,
  open_spans, cut_all, entered_day, compute_day,
}

-- 2026-11-09, a Monday
abbrev monday : ℕ
monday = 740294

-- Mondays 16:00 to 18:00, and 17:00 to 19:30
abbrev two_windows : List AvailabilityWindow
two_windows =
    record {
      weekday = 1;
      start_time = 960;
      end_time = 1080;
      effective_from = 740000;
      effective_until = none;
    }
    ∷ record {
      weekday = 1;
      start_time = 1020;
      end_time = 1170;
      effective_from = 740000;
      effective_until = none;
    }
    ∷ []

-- Time off that Monday from 16:30 to 17:00
abbrev one_break : List AvailabilityException
one_break =
    record { on_date = 740294; kind = time_off; start_time = some 990; end_time = some 1020 } ∷ []

intervals_of_monday :
    (compute_day two_windows one_break monday).intervals ≡ (960, 990) ∷ (1020, 1170) ∷ []
unfolding compute_day entered_day open_spans entered_spans cut_all union subtract merge merge_from
    sort_by insert_by
intervals_of_monday = refl

available_minutes-count_example :
    (compute_day two_windows one_break monday).available_minutes
    ≡ count_below 1440 (open_at two_windows one_break monday)
available_minutes-count_example =
    available_minutes-count two_windows one_break monday (omega arith) (omega arith)

state-StateMeans_example :
    StateMeans two_windows one_break monday (compute_day two_windows one_break monday).state
state-StateMeans_example = state-StateMeans two_windows one_break monday (omega arith) (omega arith)

covers-compute_day_example :
    covers (compute_day two_windows one_break monday).intervals 1000
    ≡ open_at two_windows one_break monday 1000
covers-compute_day_example = covers-compute_day two_windows one_break monday 1000

find-compute_availability_example :
    find (λ day. day.date == 740295) (compute_availability two_windows one_break 740294 740300) ≡ (
      if leb 740294 740295 && leb 740295 740300
      then some (compute_day two_windows one_break 740295)
      else none)
find-compute_availability_example =
    find-compute_availability two_windows one_break 740294 740300 740295
