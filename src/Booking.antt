-- ===== src/Booking.antt =====
-- apps/tracker/lib/domain/schedule/booking.ts: whether candidate classes can be booked.
-- The key that sorts the problems, `date + startTime`, is the pair of its parts; each problem carries
-- those of its candidate, so that the `order` of the source is not kept beside it.
pub mod Window
pub mod Problems
mod Tests
use ap_academy_landing.Prelude.{
  ℕ, String, Bool, true, false, not, ◌&&◌, ◌||◌, Option, none, some, List, [], ◌∷◌, ◌++◌, map, ltb,
  leb, ◌==◌, if◌then◌else◌, any, filter, str_eq, sort_by,
}
use ap_academy_landing.Wallclock.{Date, Time, add_days}
use ap_academy_landing.Recurrence.{Occurrence, Key, key_eq, is_cancelled}
use ap_academy_landing.Conflicts.{
  StaffAvailability, Conflict, ConflictReason, find_conflicts, has_id,
}

abbrev pub horizon_days : ℕ
horizon_days = 182

pub data BookingReason : Type 0 where
  teacher_busy student_busy outside_availability time_off availability_not_entered : BookingReason

pub record BookingProblem : Type 0 where
  pub date : Date
  pub start_time : Time
  pub end_time : Time
  pub reason : BookingReason

-- `effectiveUntil && effectiveUntil < horizon ? effectiveUntil : horizon`
abbrev pub window_end : Option Date → Date → Date
window_end none horizon = horizon
window_end (some until) horizon = if ltb until horizon then until else horizon

unfoldable pub booking_window : Date → Date → Option Date → Option (Date × Date)
booking_window first_date today effective_until =
    let from = if ltb today first_date then first_date else today in
    let to = window_end effective_until (add_days today horizon_days) in
    if ltb to from then none else some (from, to)

abbrev pub problem_of : BookingReason → Occurrence → BookingProblem
problem_of reason c = record {
  date = c.date;
  start_time = c.start_time;
  end_time = c.end_time;
  reason = reason;
}

abbrev pub is_excluded : List Key → Occurrence → Bool
is_excluded keys o = any (λ k. key_eq k o.occurrence_key) keys

-- The classes that count as taken.
abbrev pub is_live : List Key → Occurrence → Bool
is_live keys o = not (is_cancelled o.status) && not (is_excluded keys o)

unfoldable pub clash : Occurrence → Occurrence → Bool
clash c o = o.date == c.date && (ltb c.start_time o.end_time && ltb o.start_time c.end_time)

abbrev pub same_teacher : Occurrence → Occurrence → Bool
same_teacher c o = str_eq o.staff_id c.staff_id && clash c o

abbrev pub same_student : Occurrence → Occurrence → Bool
same_student c o = str_eq o.student_id c.student_id && clash c o

abbrev pub problem_if : Bool → BookingReason → Occurrence → List BookingProblem
problem_if true reason c = problem_of reason c ∷ []
problem_if false reason c = []

-- The first loop over the candidates.
busy_from : List Occurrence → List Occurrence → List BookingProblem
busy_from live [] = []
busy_from live (c ∷ cs) =
    problem_if (any (same_teacher c) live) teacher_busy c
    ++ (problem_if (any (same_student c) live) student_busy c ++ busy_from live cs)

abbrev pub reason_from : ConflictReason → BookingReason
reason_from ConflictReason.time_off = time_off
reason_from ConflictReason.outside_availability = outside_availability

abbrev pub conflict_problem : Conflict → BookingProblem
conflict_problem x = problem_of (reason_from x.reason) x.occurrence

abbrev pub is_unknown : List String → Date → Occurrence → Bool
is_unknown ids today c = has_id ids c.staff_id && (not (is_cancelled c.status) && leb today c.date)

-- The block under `checkAvailability`.
abbrev pub availability_problems :
    (String → Option StaffAvailability) → Date → List Occurrence → List BookingProblem
availability_problems availability today candidates =
    let found = find_conflicts availability today candidates in
    map conflict_problem found.0
    ++ map (problem_of availability_not_entered) (filter (is_unknown found.1 today) candidates)

abbrev pub is_before : BookingProblem → BookingProblem → Bool
is_before a b = ltb a.date b.date || (a.date == b.date && leb a.start_time b.start_time)

unfoldable pub check_booking :
    List Occurrence
    → List Occurrence
    → (String → Option StaffAvailability)
    → Bool
    → Date
    → List Key
    → List BookingProblem
unfolding busy_from
check_booking candidates others availability check_availability today exclude_keys =
    sort_by is_before (
      busy_from (filter (is_live exclude_keys) others) candidates
      ++ (if check_availability then availability_problems availability today candidates else []))
