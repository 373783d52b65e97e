-- ===== src/ClassWrites/Create.antt =====
-- `handleCreateClass` of schedule-handlers.ts. A body is none where it, or the path of the
-- request, is not accepted by the schemas. `behind` and `key_le` are those of Recurrence.
use ap_academy_landing.Prelude.{
  ℕ, ◌+◌, String, Bool, true, false, Option, none, some, List, [], ◌∷◌, if◌then◌else◌,
}
use ap_academy_landing.Wallclock.{Date, Instant}
use ap_academy_landing.Access.{
  Guarded, denied, allowed, Scopes, is_active_teaching_staff, require_scheduler,
}
use ap_academy_landing.Recurrence.{ClassSeries, Key}
use ap_academy_landing.Booking.{booking_window}
use ap_academy_landing.Edits.{check_not_past, check_class_shape}
use ap_academy_landing.ClassWrites.{BookingStamp, WriteOp, LockedWriteArgs, World}
use ap_academy_landing.ClassWrites.Store.{keys_of, person_of}
use ap_academy_landing.ClassWrites.Locked.{locked_write}
use ap_academy_landing.ClassWrites.Reads.{student_rows}
use ap_academy_landing.ClassWrites.Check.{Booking, validate_booking}
use ap_academy_landing.ClassWrites.Rounds.{
  Response, Attempt, Booked, Surroundings, book_under_stamps, answered, booked, bad,
}
use ap_academy_landing.ClassWrites.Steps.{
  ScheduleDeps, Reply, denial, reply, saved, rejection, active_teacher, check_makeup_for,
  prepare_student, unless, and_then, blocked_by, write_at,
}

-- `ClassBody`; the id of the class is not read.
pub record ClassBody : Type 0 where
  pub request_id : String
  pub fields : ClassSeries

abbrev pub admin_only : Scopes
admin_only = record { takes_admin = true; takes_teacher = false }

abbrev pub no_class : String
no_class = "00000000-0000-4000-8000-000000000000"

-- The booking that a new class asks for.
abbrev pub new_booking : Date → ClassSeries → Booking
new_booking today fields = record {
  series = record fields { id = no_class };
  exceptions = [];
  window = booking_window fields.start_date today fields.effective_until;
  check_availability = true;
  is_excluded = λ o. false;
  is_candidate = λ o. true;
}

-- What a handler answers where a response is due at once.
unfoldable pub reply_or : Option Response → World → Reply × World → Reply × World
reply_or (some r) w next = (reply r, w)
reply_or none w next = next

-- `written.replayed ? 200 : 201`
abbrev pub created_reply : Booked × World → Reply × World
created_reply (answered r, w) = (reply r, w)
created_reply (booked s replayed, w) = (
  saved (if replayed then 200 else 201) s
      (some (record { students = s.class.student_id ∷ []; summary = true })),
  w,
)

module _ (behind : Instant → ℕ) (key_le : Key → Key → Bool) where
  module _ (new_id version_of : ℕ → String) (created_at : String) where
    module _ (deps : ScheduleDeps) (env : Surroundings) where
      unfoldable pub create_attempt : ClassBody → ℕ → List BookingStamp → World → Attempt × World
      unfolding validate_booking locked_write student_rows is_active_teaching_staff
      create_attempt body n stamps w =
          let up = env.is_up n in
          let s = body.fields in
          unless (blocked_by behind key_le deps.today up w (new_booking deps.today s)) w (
            unless (check_makeup_for up w s.student_id s.purpose s.makeup_for) w (
              and_then (prepare_student deps up w s.student_id) (λ v.
                write_at new_id version_of created_at env (n + 1) v body.request_id stamps
                  (LockedWriteArgs.create s))))

      abbrev pub create_allowed : ClassBody → World → Reply × World
      create_allowed body w =
          let s = body.fields in
          reply_or (rejection (check_not_past s.start_date deps.today)) w (
            reply_or (rejection (check_class_shape s.start_time s.duration_minutes)) w (
              reply_or (active_teacher deps.staff s.staff_id) w (
                created_reply (
                  book_under_stamps env (create_attempt body) body.request_id
                    (keys_of (person_of s ∷ [])) (WriteOp.create ∷ []) none w))))

      abbrev pub create_parsed : Option ClassBody → World → Reply × World
      create_parsed none w = (reply bad, w)
      create_parsed (some body) w = create_allowed body w

      abbrev pub create_guarded : Guarded → Option ClassBody → World → Reply × World
      create_guarded (denied status error) body w = (denial status error, w)
      create_guarded (allowed who) body w = create_parsed body w

      unfoldable pub handle_create_class : Option ClassBody → World → Reply × World
      unfolding create_attempt book_under_stamps require_scheduler check_not_past check_class_shape
          keys_of
      handle_create_class body w =
          create_guarded (require_scheduler deps.identity admin_only) body w
