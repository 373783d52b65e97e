-- ===== src/ClassWrites/Edit.antt =====
-- `handleEditOccurrence` and `attemptSplit` of schedule-handlers.ts.
use ap_academy_landing.Prelude.{
  ℕ, String, Bool, true, false, not, ◌&&◌, ◌||◌, Option, none, some, List, [], ◌∷◌, leb, ◌==◌,
  if◌then◌else◌, some_or, filter, str_eq,
}
use ap_academy_landing.Wallclock.{Date, Time, iso_weekday}
use ap_academy_landing.Recurrence.{ClassSeries, ClassException, ClassPurpose, Status, Occurrence}
use ap_academy_landing.Recurrence.Split.{SplitChanges, SplitPlan, plan_split}
use ap_academy_landing.Booking.{booking_window}
use ap_academy_landing.ClassWrites.{
  LockedWriteArgs, OneOffFields, Position, Seen, SeriesRecord, World,
}
use ap_academy_landing.ClassWrites.Args.{
  is_weekly_kind, is_given, has_fields, with_fields, moved_exception,
}
use ap_academy_landing.ClassWrites.Reads.{list_series_for_student}
use ap_academy_landing.ClassWrites.Check.{Booking}
use ap_academy_landing.ClassWrites.Rounds.{Response}
use ap_academy_landing.ClassWrites.Steps.{
  ScheduleDeps, active_teacher, check_makeup_for, is_makeup, prepare_student,
}
use ap_academy_landing.ClassWrites.Create.{no_class}
use ap_academy_landing.ClassWrites.Cancel.{Scope}

-- The `changes` of `EditBody`.
pub record Changes : Type 0 where
  pub date : Option Date
  pub start_time : Option Time
  pub staff_id : Option String
  pub student_id : Option String
  pub subject : Option String
  pub duration_minutes : Option ℕ
  pub weekday : Option ℕ
  pub purpose : Option (Option ClassPurpose)
  pub makeup_for : Option (Option String)

-- `EditBody`
pub record EditBody : Type 0 where
  pub request_id : String
  pub expected_updated_at : String
  pub scope : Scope
  pub expected_date : Option Date
  pub expected_start_time : Option Time
  pub changes : Changes

-- `rest`
abbrev pub split_changes : Changes → SplitChanges
split_changes c = record {
  staff_id = c.staff_id;
  student_id = c.student_id;
  subject = c.subject;
  start_time = c.start_time;
  duration_minutes = c.duration_minutes;
  weekday = c.weekday;
}

-- `c.x && c.x !== s.x`, of a number and of a text that is not empty
abbrev pub changes_number : Option ℕ → ℕ → Bool
changes_number none x = false
changes_number (some y) x = not (y == 0) && not (y == x)

abbrev pub changes_text : Option String → String → Bool
changes_text none x = false
changes_text (some y) x = not (str_eq y x)

abbrev pub is_truthy : Option ℕ → Bool
is_truthy none = false
is_truthy (some x) = not (x == 0)

-- `c.x !== undefined && c.x !== s.x`
abbrev pub sets_number : Option ℕ → ℕ → Bool
sets_number none x = false
sets_number (some y) x = not (y == x)

abbrev pub purpose_code : Option ClassPurpose → ℕ
purpose_code none = 0
purpose_code (some ClassPurpose.makeup) = 1
purpose_code (some ClassPurpose.trial) = 2
purpose_code (some ClassPurpose.extra) = 3

abbrev pub same_purpose : Option ClassPurpose → Option ClassPurpose → Bool
same_purpose a b = purpose_code a == purpose_code b

abbrev pub same_link : Option String → Option String → Bool
same_link none none = true
same_link none (some b) = false
same_link (some a) none = false
same_link (some a) (some b) = str_eq a b

abbrev pub kept_if : {A : Type 0} → Bool → Option A → Option A
kept_if true a = a
kept_if false a = none

abbrev pub new_purpose : Changes → ClassSeries → Option ClassPurpose
new_purpose c s = some_or c.purpose s.purpose

-- A link stays only on a makeup.
abbrev pub new_link : Changes → ClassSeries → Option String
new_link c s = some_or c.makeup_for (kept_if (is_makeup (new_purpose c s)) s.makeup_for)

-- `fields`
abbrev pub fields_of : Changes → ClassSeries → OneOffFields
fields_of c s = record {
  staff_id = kept_if (changes_text c.staff_id s.staff_id) c.staff_id;
  subject = kept_if (changes_text c.subject s.subject) c.subject;
  duration_minutes =
      kept_if (changes_number c.duration_minutes s.duration_minutes) c.duration_minutes;
  purpose = kept_if (not (same_purpose (new_purpose c s) s.purpose)) (some (new_purpose c s));
  makeup_for = kept_if (not (same_link (new_link c s) s.makeup_for)) (some (new_link c s));
}

abbrev pub is_moved_status : Status → Bool
is_moved_status Status.moved = true
is_moved_status Status.scheduled = false
is_moved_status Status.cancelled = false

-- What the scope "this" may not change.
abbrev pub needs_future : Changes → Bool → Bool
needs_future c one_off =
    is_given c.student_id
    || (is_given c.weekday
        || (not one_off
            && (is_given c.staff_id || (is_given c.subject || is_truthy c.duration_minutes))))

-- Where the occurrence goes, and whether that is a change.
abbrev pub goes_to : Changes → Position → Date × Time
goes_to c now = (some_or c.date now.date, some_or c.start_time now.start_time)

abbrev pub moves_from : Position → Date × Time → Bool
moves_from now to = not (to.0 == now.date) || not (to.1 == now.start_time)

abbrev pub exceptions_if : Bool → ClassException → List ClassException
exceptions_if true e = e ∷ []
exceptions_if false e = []

abbrev pub is_occurrence : String → Date → Occurrence → Bool
is_occurrence series_id date o = str_eq o.series_id series_id && o.original_date == date

abbrev pub asked_series : Changes → ClassSeries → ClassSeries
asked_series c s = if is_weekly_kind s.kind then s else with_fields (fields_of c s) s

abbrev pub moved_booking : Changes → ClassSeries → Date → Position → Booking
moved_booking c s date now =
    let to = goes_to c now in
    let moves = moves_from now to in
    let fields = fields_of c s in
    record {
      series = asked_series c s;
      exceptions =
          exceptions_if (moves || is_moved_status now.status) (moved_exception s.id date to.0 to.1);
      window = some (to.0, to.0);
      check_availability = moves || (is_given fields.staff_id || is_given fields.duration_minutes);
      is_excluded = is_occurrence s.id date;
      is_candidate = λ o. o.original_date == date;
    }

abbrev pub edit_args : Changes → SeriesRecord → Seen → Date → Position → LockedWriteArgs
edit_args c s seen date now =
    let to = goes_to c now in
    let fields = fields_of c s.class in
    if not (is_weekly_kind s.class.kind) && has_fields fields
    then LockedWriteArgs.edit_one_off seen date (kept_if (moves_from now to) (some to)) fields now
    else LockedWriteArgs.move seen date to.0 to.1 now

abbrev pub link_response :
    Bool → World → String → Option ClassPurpose → Option (Option String) → Option Response
link_response up w student_id purpose none = none
link_response up w student_id purpose (some link) = check_makeup_for up w student_id purpose link

abbrev pub teacher_response : ScheduleDeps → Bool → Option String → Option Response
teacher_response deps true (some id) = active_teacher deps.staff id
teacher_response deps true none = none
teacher_response deps false id = none

-- What a split asks for.
abbrev pub split_plan : World → Changes → ClassSeries → Date → SplitPlan
split_plan w c s date =
    plan_split s
      (filter (λ e. str_eq e.series_id s.id) (list_series_for_student w s.student_id).exceptions)
      date (split_changes c) no_class

abbrev pub is_retimed : Changes → ClassSeries → Date → Bool
is_retimed c s date =
    sets_number c.weekday (iso_weekday date)
    || (sets_number c.start_time s.start_time
        || (sets_number c.duration_minutes s.duration_minutes
            || changes_text c.staff_id s.staff_id))

abbrev pub split_booking : Date → SplitPlan → Changes → ClassSeries → Date → Booking
split_booking today plan c s date = record {
  series = plan.new_series;
  exceptions = plan.exceptions;
  window = booking_window plan.new_series.start_date today plan.new_series.effective_until;
  check_availability = is_retimed c s date;
  is_excluded = λ o. str_eq o.series_id s.id && leb date o.original_date;
  is_candidate = λ o. true;
}

abbrev pub prepare_new :
    ScheduleDeps → Bool → World → Option String → String → Option Response × World
prepare_new deps up w none old = (none, w)
prepare_new deps up w (some id) old =
    if str_eq id old then (none, w) else prepare_student deps up w id
