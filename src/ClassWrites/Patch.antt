-- ===== src/ClassWrites/Patch.antt =====
-- The attempts of an edit, and `handleEditOccurrence` of schedule-handlers.ts.
use ap_academy_landing.Prelude.{
  ℕ, ◌+◌, String, Bool, true, false, not, ◌&&◌, ◌||◌, Option, none, some, List, [], ◌∷◌, ltb,
  if◌then◌else◌, some_or, str_eq,
}
use ap_academy_landing.Wallclock.{Date, Instant}
use ap_academy_landing.Access.{
  Guarded, denied, allowed, require_scheduler, is_active_teaching_staff,
}
use ap_academy_landing.Recurrence.{Key}
use ap_academy_landing.Recurrence.Types.{is_pattern_date}
use ap_academy_landing.Recurrence.Split.{plan_split}
use ap_academy_landing.Edits.{check_class_shape, check_occurrence_editable}
use ap_academy_landing.ClassWrites.{
  BookingStamp, LockedWriteArgs, SeriesRecord, World, WriteOp, Position,
}
use ap_academy_landing.ClassWrites.Store.{keys_of, person_of, staff_only, series_by_id}
use ap_academy_landing.ClassWrites.Locked.{locked_write}
use ap_academy_landing.ClassWrites.Args.{is_weekly_kind, is_given, has_fields}
use ap_academy_landing.ClassWrites.Reads.{staff_rows, student_rows}
use ap_academy_landing.ClassWrites.Check.{validate_booking}
use ap_academy_landing.ClassWrites.Rounds.{
  Attempt, Booked, Failure, Surroundings, answered, bad, book_under_stamps, booked, failed,
  moved_occurrence, one_off_only, stale, unavailable, unchanged, use_scope_future,
}
use ap_academy_landing.ClassWrites.Steps.{
  Reply, ScheduleDeps, and_then, blocked_by, check_occurrence, denial, rejection, reply, saved,
  unless, write_at,
}
use ap_academy_landing.ClassWrites.Create.{admin_only}
use ap_academy_landing.ClassWrites.Cancel.{
  current_position, is_future, owes_one, response_if, seen_series, stale_position,
}
use ap_academy_landing.ClassWrites.Edit.{
  Changes, EditBody, changes_text, edit_args, fields_of, goes_to, is_moved_status, link_response,
  moved_booking, moves_from, needs_future, new_purpose, prepare_new, split_booking, split_changes,
  split_plan, teacher_response,
}

abbrev pub edited_reply : Booked × World → Reply × World
edited_reply (answered r, w) = (reply r, w)
edited_reply (booked t replayed, w) = (saved 200 t (owes_one t false), w)

abbrev pub split_reply : SeriesRecord → Booked × World → Reply × World
split_reply s (answered r, w) = (reply r, w)
split_reply s (booked t true, w) = (saved 200 t none, w)
split_reply s (booked t false, w) = (
  saved 200 t
      (some (record { students = s.class.student_id ∷ t.class.student_id ∷ []; summary = true })),
  w,
)

-- Where the purpose or the link of a class may not be set.
abbrev pub purpose_refused : EditBody → SeriesRecord → Bool
purpose_refused body s =
    (is_given body.changes.purpose || is_given body.changes.makeup_for)
    && (is_weekly_kind s.class.kind || is_future body.scope)

-- Nothing is to be changed.
abbrev pub is_idle : Changes → SeriesRecord → Position → Bool
is_idle c s now = not (moves_from now (goes_to c now)) && not (has_fields (fields_of c s.class))

module _ (behind : Instant → ℕ) (key_le : Key → Key → Bool) where
  module _ (new_id version_of : ℕ → String) (created_at : String) where
    module _ (deps : ScheduleDeps) (env : Surroundings) where
      -- From the test of the new date on.
      abbrev pub edit_checked :
          EditBody
          → SeriesRecord
          → Date
          → ℕ
          → List BookingStamp
          → World
          → Position
          → Attempt × World
      edit_checked body s date n stamps w now =
          let up = env.is_up n in
          let c = body.changes in
          unless
            (response_if (ltb (goes_to c now).0 deps.today) (failed 422 Failure.past_occurrence)) w
            (unless (link_response up w s.class.student_id (new_purpose c s.class) c.makeup_for) w (
              unless (response_if (is_idle c s now) (unchanged s)) w (
                unless (blocked_by behind key_le deps.today up w (moved_booking c s.class date now))
                  w
                  (write_at new_id version_of created_at env (n + 1) w body.request_id stamps
                    (edit_args c s (seen_series s body.expected_updated_at) date now)))))

      unfoldable pub edit_attempt :
          EditBody → SeriesRecord → Date → ℕ → List BookingStamp → World → Attempt × World
      unfolding validate_booking locked_write staff_rows student_rows is_active_teaching_staff
          is_pattern_date check_occurrence_editable check_class_shape
      edit_attempt body s date n stamps w =
          let c = body.changes in
          let now = current_position w s date in
          unless (check_occurrence deps.today s.class date) w (
            unless (response_if (not (env.is_up n)) unavailable) w (
              unless
                (response_if (stale_position body.expected_date body.expected_start_time now)
                  (failed 409 stale))
                w
                (unless
                  (response_if (not (str_eq s.updated_at body.expected_updated_at))
                    (failed 409 stale))
                  w
                  (unless
                    (response_if (needs_future c (not (is_weekly_kind s.class.kind)))
                      (failed 400 use_scope_future))
                    w
                    (unless
                      (rejection (
                        check_class_shape (goes_to c now).1
                          (some_or c.duration_minutes s.class.duration_minutes)))
                      w
                      (unless
                        (teacher_response deps (changes_text c.staff_id s.class.staff_id)
                          c.staff_id)
                        w (edit_checked body s date n stamps w now)))))))

      abbrev pub split_checked :
          EditBody → SeriesRecord → Date → ℕ → List BookingStamp → World → Attempt × World
      split_checked body s date n stamps w =
          let up = env.is_up n in
          let c = body.changes in
          let plan = split_plan w c s.class date in
          unless
            (blocked_by behind key_le deps.today up w
              (split_booking deps.today plan c s.class date))
            w
            (and_then (prepare_new deps up w c.student_id s.class.student_id) (λ v.
              write_at new_id version_of created_at env (n + 1) v body.request_id stamps (
                LockedWriteArgs.split (seen_series s body.expected_updated_at) date
                  (split_changes c))))

      -- `attemptSplit`
      unfoldable pub attempt_split :
          EditBody → SeriesRecord → Date → ℕ → List BookingStamp → World → Attempt × World
      unfolding validate_booking locked_write staff_rows student_rows is_active_teaching_staff
          is_pattern_date check_occurrence_editable check_class_shape plan_split
      attempt_split body s date n stamps w =
          let c = body.changes in
          let now = current_position w s date in
          unless (check_occurrence deps.today s.class date) w (
            unless (response_if (not (env.is_up n)) unavailable) w (
              unless
                (response_if (stale_position body.expected_date body.expected_start_time now)
                  (failed 409 stale))
                w
                (unless (response_if (is_moved_status now.status) (failed 422 moved_occurrence)) w (
                  unless
                    (rejection (
                      check_class_shape (some_or c.start_time s.class.start_time)
                        (some_or c.duration_minutes s.class.duration_minutes)))
                    w
                    (unless (teacher_response deps (is_given c.staff_id) c.staff_id) w
                      (split_checked body s date n stamps w))))))

      abbrev pub edit_series : EditBody → Date → World → SeriesRecord → Reply × World
      edit_series body date w s =
          let c = body.changes in
          if is_future body.scope
          then split_reply s (
              book_under_stamps env (attempt_split body s date) body.request_id
                (keys_of (
                  person_of s.class
                  ∷ record { staff_id = c.staff_id; student_id = c.student_id }
                  ∷ []))
                (WriteOp.split ∷ []) (some s.class.id) w)
          else edited_reply (
              book_under_stamps env (edit_attempt body s date) body.request_id
                (keys_of (person_of s.class ∷ staff_only c.staff_id ∷ []))
                (WriteOp.move ∷ WriteOp.edit_one_off ∷ []) (some s.class.id) w)

      abbrev pub edit_found : EditBody → Date → World → Option SeriesRecord → Reply × World
      edit_found body date w none = (reply (failed 404 Failure.not_found), w)
      edit_found body date w (some s) =
          if purpose_refused body s
          then (reply (failed 400 one_off_only), w)
          else edit_series body date w s

      abbrev pub edit_parsed : Option EditBody → String → Date → World → Reply × World
      edit_parsed none series_id date w = (reply bad, w)
      edit_parsed (some body) series_id date w =
          if not deps.reads_series
          then (reply unavailable, w)
          else edit_found body date w (series_by_id w series_id)

      abbrev pub edit_guarded : Guarded → Option EditBody → String → Date → World → Reply × World
      edit_guarded (denied status error) body series_id date w = (denial status error, w)
      edit_guarded (allowed who) body series_id date w = edit_parsed body series_id date w

      unfoldable pub handle_edit_occurrence :
          Option EditBody → String → Date → World → Reply × World
      unfolding edit_attempt attempt_split book_under_stamps require_scheduler keys_of
      handle_edit_occurrence body series_id date w =
          edit_guarded (require_scheduler deps.identity admin_only) body series_id date w
