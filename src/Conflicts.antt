-- ===== src/Conflicts.antt =====
-- apps/tracker/lib/domain/schedule/conflicts.ts: upcoming classes that do not fit the open hours.
-- The `Map` of availability is a function of the staff id.
pub mod Reasons
pub mod Upcoming
pub mod Lists
mod Tests
use ap_academy_landing.Prelude.{
  String, Bool, true, false, ◌&&◌, ◌||◌, Option, none, some, List, [], ◌∷◌, ◌++◌, ltb, leb, ◌==◌,
  if◌then◌else◌, any, find, str_eq,
}
use ap_academy_landing.Wallclock.{Date, Time}
use ap_academy_landing.Availability.Spans.{Span}
use ap_academy_landing.Availability.{
  AvailabilityDay, AvailabilityException, ExceptionKind, DayState, available, unavailable,
  not_entered, times,
}
use ap_academy_landing.Recurrence.{Occurrence, is_cancelled}

pub data ConflictReason : Type 0 where
  time_off outside_availability : ConflictReason

pub record Conflict : Type 0 where
  pub occurrence : Occurrence
  pub reason : ConflictReason

pub record StaffAvailability : Type 0 where
  pub days : List AvailabilityDay
  pub exceptions : List AvailabilityException

abbrev pub is_time_off : ExceptionKind → Bool
is_time_off ExceptionKind.time_off = true
is_time_off ExceptionKind.extra = false

-- `!x.startTime || !x.endTime`, or the times overlap the class
abbrev pub meets : Option Span → Time → Time → Bool
meets none s e = true
meets (some x) s e = ltb x.0 e && ltb s x.1

abbrev pub hits : Occurrence → AvailabilityException → Bool
hits o x =
    is_time_off x.kind
    && (x.on_date == o.date && meets (times x.start_time x.end_time) o.start_time o.end_time)

abbrev pub fits : List Span → Time → Time → Bool
fits intervals s e = any (λ i. leb i.0 s && leb e i.1) intervals

-- What one round of the loop adds.
pub data Outcome : Type 0 where
  skip missing : Outcome
  conflict : ConflictReason → Outcome

abbrev pub exceptions_of : Option StaffAvailability → List AvailabilityException
exceptions_of none = []
exceptions_of (some a) = a.exceptions

abbrev pub day_of : Option StaffAvailability → Date → Option AvailabilityDay
day_of none date = none
day_of (some a) date = find (λ d. d.date == date) a.days

abbrev pub reason_of : Occurrence → Option StaffAvailability → ConflictReason
reason_of o a = if any (hits o) (exceptions_of a) then time_off else outside_availability

abbrev pub judge_state : Occurrence → Option StaffAvailability → List Span → DayState → Outcome
judge_state o a intervals not_entered = missing
judge_state o a intervals available =
    if fits intervals o.start_time o.end_time then skip else conflict (reason_of o a)
judge_state o a intervals unavailable =
    if fits intervals o.start_time o.end_time then skip else conflict (reason_of o a)

abbrev pub judge_day : Occurrence → Option StaffAvailability → Option AvailabilityDay → Outcome
judge_day o a none = conflict (reason_of o a)
judge_day o a (some day) = judge_state o a day.intervals day.state

abbrev pub judge : Date → Occurrence → Option StaffAvailability → Outcome
judge today o a =
    if is_cancelled o.status || ltb o.date today then skip else judge_day o a (day_of a o.date)

abbrev pub conflict_of : Occurrence → Outcome → List Conflict
conflict_of o skip = []
conflict_of o missing = []
conflict_of o (conflict reason) = record { occurrence = o; reason = reason } ∷ []

abbrev pub has_id : List String → String → Bool
has_id ids id = any (λ x. str_eq x id) ids

-- `Set.add`, at the end
abbrev pub missing_of : String → Outcome → List String → List String
missing_of id missing ids = if has_id ids id then ids else ids ++ id ∷ []
missing_of id skip ids = ids
missing_of id (conflict reason) ids = ids

module _ (availability : String → Option StaffAvailability) (today : Date) where
  conflicts_from : List Occurrence → List Conflict
  conflicts_from [] = []
  conflicts_from (o ∷ os) =
      conflict_of o (judge today o (availability o.staff_id)) ++ conflicts_from os

  not_entered_from : List Occurrence → List String → List String
  not_entered_from [] ids = ids
  not_entered_from (o ∷ os) ids =
      not_entered_from os (missing_of o.staff_id (judge today o (availability o.staff_id)) ids)

  unfoldable pub find_conflicts : List Occurrence → List Conflict × List String
  unfolding conflicts_from not_entered_from
  find_conflicts occurrences = (conflicts_from occurrences, not_entered_from occurrences [])
