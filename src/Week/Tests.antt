-- ===== src/Week/Tests.antt =====
-- A concrete week, and the theorem of the component at it.
use ap_academy_landing.Prelude.{ℕ, ◌≡◌, refl, none, some, List, [], ◌∷◌, arith, sum_by}
use ap_academy_landing.Recurrence.{Occurrence, Status, SeriesKind}
use ap_academy_landing.Availability.{AvailabilityDay, available}
use ap_academy_landing.Week.{week_totals}
use ap_academy_landing.Week.Totals.{remaining_minutes-count, free_minutes}

abbrev class_at : ℕ → ℕ → Occurrence
class_at start end = record {
  occurrence_key = ("s1", 740294);
  series_id = "s1";
  original_date = 740294;
  date = 740294;
  start_time = start;
  end_time = end;
  duration_minutes = 60;
  starts_at = 0;
  ends_at = 0;
  staff_id = "t1";
  student_id = "p1";
  subject = "Math";
  status = Status.scheduled;
  kind = SeriesKind.weekly;
  purpose = none;
}

-- Open from 16:00 to 18:00, with two overlapping classes
abbrev one_day : List AvailabilityDay
one_day =
    record {
      date = 740294;
      state = available;
      intervals = (960, 1080) ∷ [];
      available_minutes = 120;
    }
    ∷ []

abbrev two_classes : List Occurrence
two_classes = class_at 960 1020 ∷ class_at 990 1050 ∷ []

remaining_minutes-count_example :
    (week_totals two_classes one_day).remaining_minutes
    ≡ some (sum_by (free_minutes two_classes) one_day)
remaining_minutes-count_example =
    remaining_minutes-count two_classes one_day (omega arith)
      (((omega arith, omega arith, omega arith, tt), refl), tt) refl
