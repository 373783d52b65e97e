-- ===== src/Booking/Tests.antt =====
-- Concrete candidates, and the theorems of the component at them.
use ap_academy_landing.Prelude.{
  ℕ, String, ◌≡◌, refl, true, false, ◌&&◌, ◌||◌, Option, none, List, [], ◌∷◌, ◌==◌, any, all,
  sort_by,
}
use ap_academy_landing.Recurrence.{Occurrence, Status, SeriesKind}
use ap_academy_landing.Booking.{check_booking, availability_problems, clash, busy_from}
use ap_academy_landing.Booking.Problems.{
  any-check_booking, busy_passes, check_booking_free, is_free,
}
use ap_academy_landing.Conflicts.{StaffAvailability}

-- A class of teacher t1 on 2026-11-09
abbrev class_at : String → String → ℕ → ℕ → Occurrence
class_at id student start end = record {
  occurrence_key = (id, 740294);
  series_id = id;
  original_date = 740294;
  date = 740294;
  start_time = start;
  end_time = end;
  duration_minutes = 60;
  starts_at = 0;
  ends_at = 0;
  staff_id = "t1";
  student_id = student;
  subject = "Math";
  status = Status.scheduled;
  kind = SeriesKind.weekly;
  purpose = none;
}

abbrev taken : List Occurrence
taken = class_at "s1" "p1" 960 1020 ∷ []

abbrev no_rows : String → Option StaffAvailability
no_rows id = none

any-check_booking_example :
    any
      (λ p. p.start_time == 990)
      (check_booking (class_at "new" "p2" 990 1050 ∷ []) taken no_rows false 740294 [])
    ≡ (any (busy_passes (λ p. p.start_time == 990) [] taken) (class_at "new" "p2" 990 1050 ∷ [])
        || (false
            && any
                (λ p. p.start_time == 990)
                (availability_problems no_rows 740294 (class_at "new" "p2" 990 1050 ∷ []))))
any-check_booking_example =
    any-check_booking (λ p. p.start_time == 990) (class_at "new" "p2" 990 1050 ∷ []) taken no_rows
      false 740294 []

nothing_taken :
    check_booking (class_at "new" "p2" 1020 1080 ∷ []) taken no_rows false 740294 [] ≡ []
unfolding check_booking busy_from clash sort_by
nothing_taken = refl

check_booking_free_example : all (is_free [] taken) (class_at "new" "p2" 1020 1080 ∷ []) ≡ true
check_booking_free_example =
    check_booking_free (class_at "new" "p2" 1020 1080 ∷ []) taken no_rows false 740294 []
      nothing_taken
