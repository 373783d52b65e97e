-- ===== src/ClassWrites/Reads.antt =====
-- What the check of a booking reads: `listSeries`, `listSeriesForStudent`, `listWindows` and
-- `listAvailabilityExceptions` of apps/tracker/lib/data/schedule.ts, for one teacher and one student.
use ap_academy_landing.Prelude.{
  String, Bool, true, false, not, ◌&&◌, ◌||◌, Option, none, some, List, ◌++◌, map, leb, any, filter,
  str_eq,
}
use ap_academy_landing.Wallclock.{Date}
use ap_academy_landing.Availability.{AvailabilityWindow, AvailabilityException}
use ap_academy_landing.Recurrence.{ClassException, ChangeKind, in_range}
use ap_academy_landing.ClassWrites.{SeriesRecord, World}

abbrev pub has_series : List SeriesRecord → ClassException → Bool
has_series series e = any (λ s. str_eq s.class.id e.series_id) series

-- Some series, with the exceptions of these.
pub record Classes : Type 0 where
  pub series : List SeriesRecord
  pub exceptions : List ClassException

abbrev pub with_exceptions : World → List SeriesRecord → Classes
with_exceptions w series = record {
  series = series;
  exceptions = filter (has_series series) w.exceptions;
}

unfoldable pub staff_rows : World → String → Classes
staff_rows w id = with_exceptions w (filter (λ s. str_eq s.class.staff_id id) w.series)

-- `listSeriesForStudent`
unfoldable pub student_rows : World → String → Classes
student_rows w id = with_exceptions w (filter (λ s. str_eq s.class.student_id id) w.series)

abbrev pub runs_from : Option Date → Date → Bool
runs_from none from = true
runs_from (some until) from = leb from until

abbrev pub may_run : Date → Date → SeriesRecord → Bool
may_run from to s = leb s.class.start_date to && runs_from s.class.effective_until from

abbrev pub date_in : Date → Date → Option Date → Bool
date_in from to none = false
date_in from to (some date) = in_range from to date

abbrev pub touches : Date → Date → ClassException → Bool
touches from to e = in_range from to e.original_date || date_in from to e.new_date

abbrev pub is_move : ChangeKind → Bool
is_move ChangeKind.moved = true
is_move ChangeKind.cancelled = false

abbrev pub is_moved_in : Date → Date → List ClassException → SeriesRecord → Bool
is_moved_in from to exceptions s =
    any (λ e. touches from to e && (is_move e.kind && str_eq e.series_id s.class.id)) exceptions

-- `listSeries`, over the rows of the teacher: a series that reaches the range only through a move
-- comes after the others.
abbrev pub in_period : Date → Date → Classes → Classes
in_period from to c =
    let series =
      filter (may_run from to) c.series
      ++ filter (λ s. not (may_run from to s) && is_moved_in from to c.exceptions s) c.series in
    record {
      series = series;
      exceptions = filter (λ e. touches from to e && has_series series e) c.exceptions;
    }

abbrev pub list_series : World → Date → Date → String → Classes
list_series w from to staff_id = in_period from to (staff_rows w staff_id)

abbrev pub list_series_for_student : World → String → Classes
list_series_for_student w student_id = student_rows w student_id

unfoldable pub list_windows : World → String → List AvailabilityWindow
list_windows w staff_id = map (λ x. x.window) (filter (λ x. str_eq x.staff_id staff_id) w.windows)

-- `listAvailabilityExceptions`, before the range is taken
unfoldable pub staff_exceptions : World → String → List AvailabilityException
staff_exceptions w staff_id =
    map (λ x. x.exception) (filter (λ x. str_eq x.staff_id staff_id) w.availability_exceptions)

abbrev pub list_availability_exceptions : World → Date → Date → String → List AvailabilityException
list_availability_exceptions w from to staff_id =
    filter (λ x. in_range from to x.on_date) (staff_exceptions w staff_id)
