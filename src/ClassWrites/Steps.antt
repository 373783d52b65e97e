-- ===== src/ClassWrites/Steps.antt =====
-- The steps that the attempts of schedule-handlers.ts share, each of which may answer at once.
use ap_academy_landing.ClassWrites.Rounds.{
  invalid_makeup_for, invalid_staff, invalid_student, legacy_schedule_pending, Failure, Response,
  Attempt, Surroundings, failed, problems, answers, writes, unavailable,
}
use ap_academy_landing.Prelude.{
  ℕ, ◌-◌, String, Bool, true, false, not, ◌&&◌, Option, none, some, List, [], ◌∷◌, if◌then◌else◌,
  length, any, find, take, str_eq,
}
use ap_academy_landing.Wallclock.{Date, Instant}
use ap_academy_landing.Access.{
  SchedulerIdentity, StaffRecord, DenialError, is_active_teaching_staff,
}
use ap_academy_landing.Recurrence.{ClassSeries, Key, ClassPurpose, ChangeKind, is_pattern_date}
use ap_academy_landing.Booking.{BookingProblem}
use ap_academy_landing.Edits.{EditCheck, EditError, accepted, rejected, check_occurrence_editable}
use ap_academy_landing.ClassWrites.{
  SeriesRecord, BookingStamp, LockedWriteArgs, StoreError, World, refused,
}
use ap_academy_landing.ClassWrites.Locked.{locked_write}
use ap_academy_landing.ClassWrites.Reads.{list_series_for_student}
use ap_academy_landing.ClassWrites.Check.{Booking, validate_booking, candidates_of, is_empty_list}

-- What the port to Notion says of a student: the call throws, there is none, or there is one and
-- whether `normaliseScheduleText` leaves a line of its text.
pub data StudentAnswer : Type 0 where
  throws missing : StudentAnswer
  has_text : Bool → StudentAnswer

-- `ScheduleDeps`, with the answers of its ports. `staff` is none where `fetchStaff` throws.
-- `adopts` is whether a student can be adopted, and `reads_series` whether the series that the path
-- names can be read.
pub record ScheduleDeps : Type 0 where
  pub identity : SchedulerIdentity
  pub staff : Option (List StaffRecord)
  pub today : Date
  pub students : Option (String → StudentAnswer)
  pub adopts : Bool
  pub reads_series : Bool

-- The arguments of `deliverOwed`: the students, and `legacy.summary`.
pub record Owes : Type 0 where
  pub students : List String
  pub summary : Bool

-- What a handler answers, with the deliveries that it asks for.
pub data Reply : Type 0 where
  denial : ℕ → DenialError → Reply
  reply : Response → Reply
  saved : ℕ → SeriesRecord → Option Owes → Reply

abbrev pub max_problems : ℕ
max_problems = 10

abbrev pub edit_failure : EditError → Failure
edit_failure EditError.past_occurrence = Failure.past_occurrence
edit_failure EditError.invalid_duration = Failure.invalid_duration
edit_failure EditError.crosses_midnight = Failure.crosses_midnight

-- The response to a check that fails.
abbrev pub rejection : EditCheck → Option Response
rejection accepted = none
rejection (rejected status error) = some (failed status (edit_failure error))

abbrev pub teacher_found : Option StaffRecord → Option Response
teacher_found none = some (failed 422 invalid_staff)
teacher_found (some s) =
    if is_active_teaching_staff s then none else some (failed 422 invalid_staff)

-- `activeTeacher`
abbrev pub active_teacher : Option (List StaffRecord) → String → Option Response
active_teacher none staff_id = some unavailable
active_teacher (some staff) staff_id = teacher_found (find (λ s. str_eq s.id staff_id) staff)

abbrev pub is_makeup : Option ClassPurpose → Bool
is_makeup none = false
is_makeup (some ClassPurpose.makeup) = true
is_makeup (some ClassPurpose.trial) = false
is_makeup (some ClassPurpose.extra) = false

abbrev pub is_id : Option String → String → Bool
is_id none id = false
is_id (some x) id = str_eq x id

abbrev pub is_cancel : ChangeKind → Bool
is_cancel ChangeKind.cancelled = true
is_cancel ChangeKind.moved = false

-- `checkMakeupFor`
abbrev pub check_makeup_for :
    Bool → World → String → Option ClassPurpose → Option String → Option Response
check_makeup_for is_up w student_id purpose none = none
check_makeup_for is_up w student_id purpose (some makeup_for) =
    if not (is_makeup purpose)
    then some (failed 422 invalid_makeup_for)
    else if not is_up
    then some unavailable
    else if any (λ e. is_id e.id makeup_for && is_cancel e.kind)
        (list_series_for_student w student_id).exceptions
    then none
    else some (failed 422 invalid_makeup_for)

abbrev pub adopt : Bool → World → String → Option Response × World
adopt adopts w student_id =
    if adopts
    then (none, record w { adopted = student_id ∷ w.adopted })
    else (some (failed 503 (Failure.from_store StoreError.unavailable)), w)

abbrev pub prepare_known : Bool → World → String → StudentAnswer → Option Response × World
prepare_known adopts w student_id throws = (some unavailable, w)
prepare_known adopts w student_id missing = (some (failed 422 invalid_student), w)
prepare_known adopts w student_id (has_text true) = (some (failed 409 legacy_schedule_pending), w)
prepare_known adopts w student_id (has_text false) = adopt adopts w student_id

-- `prepareStudent`
abbrev pub prepare_with :
    Bool → Bool → World → String → Option (String → StudentAnswer) → Option Response × World
prepare_with is_up adopts w student_id none = (none, w)
prepare_with is_up adopts w student_id (some get) =
    if not is_up
    then (some unavailable, w)
    else if any (λ id. str_eq id student_id) w.adopted
    then (none, w)
    else prepare_known adopts w student_id (get student_id)

abbrev pub prepare_student : ScheduleDeps → Bool → World → String → Option Response × World
prepare_student deps is_up w student_id = prepare_with is_up deps.adopts w student_id deps.students

-- `if (blocked) return blocked`
unfoldable pub unless : Option Response → World → Attempt × World → Attempt × World
unless (some r) w next = (answers r, w)
unless none w next = next

unfoldable pub and_then : Option Response × World → (World → Attempt × World) → Attempt × World
and_then (some r, w) next = (answers r, w)
and_then (none, w) next = next w

abbrev pub problems_response : List BookingProblem → Option Response
problems_response [] = none
problems_response (p ∷ ps) =
    some (problems (take max_problems (p ∷ ps)) (length (p ∷ ps) - max_problems))

module _ (behind : Instant → ℕ) (key_le : Key → Key → Bool) where
  abbrev pub has_candidates : Date → Booking → Option (Date × Date) → Bool
  has_candidates today b none = false
  has_candidates today b (some (from, to)) =
      not (is_empty_list (candidates_of behind key_le today b from to))

  -- `validateBooking`: the storage is read only where there are candidates.
  abbrev pub blocked_by : Date → Bool → World → Booking → Option Response
  blocked_by today is_up w b =
      if has_candidates today b b.window && not is_up
      then some unavailable
      else problems_response (validate_booking behind key_le today w b)

-- `checkOccurrence`
abbrev pub check_occurrence : Date → ClassSeries → Date → Option Response
check_occurrence today s date =
    if not (is_pattern_date s date)
    then some (failed 404 Failure.not_found)
    else rejection (check_occurrence_editable date today)

module _ (new_id version_of : ℕ → String) (created_at : String) (env : Surroundings) where
  -- `deps.store.lockedWrite` at moment `n`; a write whose answer is lost has taken effect.
  abbrev pub write_at : ℕ → World → String → List BookingStamp → LockedWriteArgs → Attempt × World
  write_at n w request stamps args =
      let v = env.others n w in
      if not (env.is_up n)
      then (writes (refused 503 StoreError.unavailable), v)
      else let r = locked_write new_id version_of created_at v request stamps args in
        (writes (if env.loses n then refused 503 StoreError.unavailable else r.0), r.1)
