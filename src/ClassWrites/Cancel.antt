-- ===== src/ClassWrites/Cancel.antt =====
-- `handleCancelOccurrence` of schedule-handlers.ts.
use ap_academy_landing.Prelude.{
  ℕ, ◌+◌, String, Bool, true, false, not, ◌&&◌, ◌||◌, Option, none, some, List, [], ◌∷◌, ◌==◌,
  if◌then◌else◌, find, str_eq,
}
use ap_academy_landing.Wallclock.{Date, Time, sub_days}
use ap_academy_landing.Access.{Guarded, denied, allowed, require_scheduler}
use ap_academy_landing.Recurrence.Types.{is_pattern_date}
use ap_academy_landing.Edits.{check_occurrence_editable}
use ap_academy_landing.ClassWrites.{
  BookingStamp, LockedWriteArgs, Position, Seen, SeriesRecord, World, WriteOp,
}
use ap_academy_landing.ClassWrites.Store.{keys_of, person_of, series_by_id, position_at, is_at}
use ap_academy_landing.ClassWrites.Locked.{locked_write}
use ap_academy_landing.ClassWrites.Args.{is_weekly_kind}
use ap_academy_landing.ClassWrites.Reads.{list_series, staff_rows}
use ap_academy_landing.ClassWrites.Rounds.{
  Attempt, Booked, Failure, Response, Surroundings, answered, bad, book_under_stamps, booked,
  failed, stale, unavailable,
}
use ap_academy_landing.ClassWrites.Steps.{
  Owes, Reply, ScheduleDeps, check_occurrence, denial, reply, saved, unless, write_at,
}
use ap_academy_landing.ClassWrites.Create.{admin_only}

pub data Scope : Type 0 where
  this future : Scope

-- `CancelBody`
pub record CancelBody : Type 0 where
  pub request_id : String
  pub expected_updated_at : String
  pub scope : Scope
  pub expected_date : Option Date
  pub expected_start_time : Option Time

-- `currentPosition`
abbrev pub current_position : World → SeriesRecord → Date → Position
current_position w s date =
    position_at date s.class.start_time
      (find (is_at s.class.id date) (list_series w date date s.class.staff_id).exceptions)

abbrev pub differs : Option ℕ → ℕ → Bool
differs none now = false
differs (some seen) now = not (seen == now)

-- `stalePosition`
abbrev pub stale_position : Option Date → Option Time → Position → Bool
stale_position expected_date expected_start_time now =
    differs expected_date now.date || differs expected_start_time now.start_time

abbrev pub response_if : Bool → Response → Option Response
response_if true r = some r
response_if false r = none

abbrev pub is_future : Scope → Bool
is_future future = true
is_future this = false

abbrev pub seen_series : SeriesRecord → String → Seen
seen_series s expected = record { series_id = s.class.id; expected_updated_at = expected }

abbrev pub owes_one : SeriesRecord → Bool → Option Owes
owes_one s summary = some (record { students = s.class.student_id ∷ []; summary = summary })

abbrev pub cancelled_reply : Bool → SeriesRecord → Booked × World → Reply × World
cancelled_reply ends s (answered r, w) = (reply r, w)
cancelled_reply false s (booked t replayed, w) = (saved 200 t (owes_one s false), w)
cancelled_reply true s (booked t true, w) = (saved 200 t none, w)
cancelled_reply true s (booked t false, w) = (saved 200 t (owes_one s true), w)

abbrev pub cancel_op : Bool → WriteOp
cancel_op true = WriteOp.end_series
cancel_op false = WriteOp.cancel

abbrev pub cancel_args : Bool → Seen → Date → Position → LockedWriteArgs
cancel_args true seen date now = LockedWriteArgs.end_series seen (sub_days date 1)
cancel_args false seen date now = LockedWriteArgs.cancel seen date now

module _ (new_id version_of : ℕ → String) (created_at : String) where
  module _ (deps : ScheduleDeps) (env : Surroundings) where
    unfoldable pub cancel_attempt :
        CancelBody → SeriesRecord → Date → Bool → ℕ → List BookingStamp → World → Attempt × World
    unfolding locked_write staff_rows is_pattern_date check_occurrence_editable
    cancel_attempt body s date ends n stamps w =
        let now = current_position w s date in
        unless (check_occurrence deps.today s.class date) w (
          unless (response_if (not (env.is_up n)) unavailable) w (
            unless
              (response_if (stale_position body.expected_date body.expected_start_time now)
                (failed 409 stale))
              w
              (unless
                (response_if (not (str_eq s.updated_at body.expected_updated_at))
                  (failed 409 stale))
                w
                (write_at new_id version_of created_at env (n + 1) w body.request_id stamps
                  (cancel_args ends (seen_series s body.expected_updated_at) date now)))))

    abbrev pub cancel_series : CancelBody → Date → World → SeriesRecord → Reply × World
    cancel_series body date w s =
        let ends = is_future body.scope && is_weekly_kind s.class.kind in
        cancelled_reply ends s (
          book_under_stamps env (cancel_attempt body s date ends) body.request_id
            (keys_of (person_of s.class ∷ [])) (cancel_op ends ∷ []) (some s.class.id) w)

    abbrev pub cancel_found : CancelBody → Date → World → Option SeriesRecord → Reply × World
    cancel_found body date w none = (reply (failed 404 Failure.not_found), w)
    cancel_found body date w (some s) = cancel_series body date w s

    abbrev pub cancel_parsed : Option CancelBody → String → Date → World → Reply × World
    cancel_parsed none series_id date w = (reply bad, w)
    cancel_parsed (some body) series_id date w =
        if not deps.reads_series
        then (reply unavailable, w)
        else cancel_found body date w (series_by_id w series_id)

    abbrev pub cancel_guarded : Guarded → Option CancelBody → String → Date → World → Reply × World
    cancel_guarded (denied status error) body series_id date w = (denial status error, w)
    cancel_guarded (allowed who) body series_id date w = cancel_parsed body series_id date w

    unfoldable pub handle_cancel_occurrence :
        Option CancelBody → String → Date → World → Reply × World
    unfolding cancel_attempt book_under_stamps require_scheduler keys_of
    handle_cancel_occurrence body series_id date w =
        cancel_guarded (require_scheduler deps.identity admin_only) body series_id date w
