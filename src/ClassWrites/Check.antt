-- ===== src/ClassWrites/Check.antt =====
-- `validateBooking` of schedule-handlers.ts, and the other checks that an attempt makes.
use ap_academy_landing.Prelude.{
  ℕ, String, Bool, true, false, not, ◌&&◌, Option, none, some, List, [], ◌∷◌, ◌++◌, leb,
  if◌then◌else◌, filter, str_eq,
}
use ap_academy_landing.Wallclock.{Date, Instant}
use ap_academy_landing.Availability.{
  compute_availability, AvailabilityWindow, AvailabilityException,
}
use ap_academy_landing.Recurrence.{
  ClassSeries, ClassException, Occurrence, Key, is_cancelled, in_range,
}
use ap_academy_landing.Recurrence.Expand.{expand_occurrences}
use ap_academy_landing.Conflicts.{StaffAvailability}
use ap_academy_landing.Booking.{BookingProblem, check_booking}
use ap_academy_landing.ClassWrites.{SeriesRecord, World}
use ap_academy_landing.ClassWrites.Reads.{
  in_period, staff_exceptions, staff_rows, Classes, list_series_for_student, list_windows,
}

-- What is to be checked. `is_excluded` drops the class's own occurrences from the others, and
-- `is_candidate` narrows the candidates.
pub record Booking : Type 0 where
  pub series : ClassSeries
  pub exceptions : List ClassException
  pub window : Option (Date × Date)
  pub check_availability : Bool
  pub is_excluded : Occurrence → Bool
  pub is_candidate : Occurrence → Bool

-- The rows that the check reads: `listSeries` and `listAvailabilityExceptions` take those of the
-- window.
pub record Rows : Type 0 where
  pub of_staff : Classes
  pub of_student : Classes
  pub windows : List AvailabilityWindow
  pub availability_exceptions : List AvailabilityException

abbrev pub rows_of : World → Booking → Rows
rows_of w b = record {
  of_staff = staff_rows w b.series.staff_id;
  of_student = list_series_for_student w b.series.student_id;
  windows = list_windows w b.series.staff_id;
  availability_exceptions = staff_exceptions w b.series.staff_id;
}

-- `new Map(…map((s) => [s.id, s]))`
unfoldable pub put_class : ClassSeries → List ClassSeries → List ClassSeries
put_class s [] = s ∷ []
put_class s (x ∷ xs) = let rest = put_class s xs in if str_eq x.id s.id then s ∷ xs else x ∷ rest

unfoldable pub merged : List ClassSeries → List SeriesRecord → List ClassSeries
unfolding put_class
merged kept [] = kept
merged kept (s ∷ ss) = merged (put_class s.class kept) ss

abbrev pub is_empty_list : {A : Type 0} → List A → Bool
is_empty_list [] = true
is_empty_list (x ∷ xs) = false

module _ (behind : Instant → ℕ) (key_le : Key → Key → Bool) (today : Date) where
  abbrev pub candidates_of : Booking → Date → Date → List Occurrence
  candidates_of b from to =
      filter (λ o. not (is_cancelled o.status) && (leb today o.date && b.is_candidate o))
        (expand_occurrences behind key_le (b.series ∷ []) b.exceptions from to)

  abbrev pub others_of : Booking → Date → Date → Classes → Classes → List Occurrence
  others_of b from to by_teacher by_student =
      filter (λ o. not (b.is_excluded o))
        (expand_occurrences behind key_le (merged [] (by_teacher.series ++ by_student.series))
          (by_teacher.exceptions ++ by_student.exceptions) from to)

  abbrev pub availability_of : Rows → Date → Date → StaffAvailability
  availability_of r from to =
      let exceptions = filter (λ x. in_range from to x.on_date) r.availability_exceptions in
      record { days = compute_availability r.windows exceptions from to; exceptions = exceptions }

  abbrev pub availability_map : Rows → Booking → Date → Date → String → Option StaffAvailability
  availability_map r b from to id =
      if b.check_availability && str_eq id b.series.staff_id
      then some (availability_of r from to)
      else none

  abbrev pub problems_in : Rows → Booking → Date → Date → List BookingProblem
  problems_in r b from to =
      let candidates = candidates_of b from to in
      if is_empty_list candidates
      then []
      else check_booking candidates
          (others_of b from to (in_period from to r.of_staff) r.of_student)
          (availability_map r b from to) b.check_availability today []

  abbrev pub problems_of : Rows → Booking → Option (Date × Date) → List BookingProblem
  problems_of r b none = []
  problems_of r b (some (from, to)) = problems_in r b from to

  -- The problems that `validateBooking` answers; none lets the write go on.
  unfoldable pub validate_booking : World → Booking → List BookingProblem
  unfolding check_booking expand_occurrences compute_availability merged
  validate_booking w b = problems_of (rows_of w b) b b.window
