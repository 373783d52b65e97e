-- ===== src/Conflicts/Tests.antt =====
-- Concrete classes, and the theorems of the component at them.
use ap_academy_landing.Prelude.{
  ℕ, ◌-◌, String, ◌≡◌, refl, not, ◌&&◌, Option, none, some, List, [], ◌∷◌, arith, any, str_eq,
}
use ap_academy_landing.Recurrence.{Occurrence, Status, SeriesKind}
use ap_academy_landing.Availability.{AvailabilityWindow}
use ap_academy_landing.Availability.Cover.{open_at}
use ap_academy_landing.Conflicts.{StaffAvailability, judge, find_conflicts, has_id}
use ap_academy_landing.Conflicts.Reasons.{all_from}
use ap_academy_landing.Conflicts.Upcoming.{is_conflict, from_rows, judge-open_at}
use ap_academy_landing.Conflicts.Lists.{lacks_entry, NoRepeat, not_entered-find_conflicts}

-- A class on 2026-11-09, a Monday
abbrev class_at : ℕ → ℕ → Occurrence
class_at start end = record {
  occurrence_key = ("s1", 740294);
  series_id = "s1";
  original_date = 740294;
  date = 740294;
  start_time = start;
  end_time = end;
  duration_minutes = 60;
  starts_at = 0;
  ends_at = 0;
  staff_id = "t1";
  student_id = "p1";
  subject = "Math";
  status = Status.scheduled;
  kind = SeriesKind.weekly;
  purpose = none;
}

-- Mondays 16:00 to 18:00
abbrev mondays : List AvailabilityWindow
mondays =
    record {
      weekday = 1;
      start_time = 960;
      end_time = 1080;
      effective_from = 740000;
      effective_until = none;
    }
    ∷ []

judge-open_at_example :
    is_conflict (judge 740290 (class_at 1050 1110) (some (from_rows mondays [] 740290 740300)))
    ≡ not (all_from (1110 - 1050) 1050 (open_at mondays [] 740294))
judge-open_at_example =
    judge-open_at mondays [] 740290 740300 740290 (class_at 1050 1110) (omega arith) tt
      (omega arith) (omega arith) refl (omega arith) (omega arith) (omega arith)

abbrev on_mondays : String → Option StaffAvailability
on_mondays id = some (from_rows mondays [] 740290 740300)

abbrev nothing_entered : String → Option StaffAvailability
nothing_entered id = some (from_rows [] [] 740290 740300)

not_entered-find_conflicts_example :
    (has_id (find_conflicts nothing_entered 740290 (class_at 1050 1110 ∷ [])).1 "t1"
      ≡ any
          (λ o. lacks_entry 740290 o (nothing_entered o.staff_id) && str_eq o.staff_id "t1")
          (class_at 1050 1110 ∷ []))
    × NoRepeat (find_conflicts nothing_entered 740290 (class_at 1050 1110 ∷ [])).1
not_entered-find_conflicts_example =
    not_entered-find_conflicts nothing_entered 740290 "t1" (class_at 1050 1110 ∷ [])
