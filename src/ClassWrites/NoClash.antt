-- ===== src/ClassWrites/NoClash.antt =====
-- Two saves at the same time: a class that `handleCreateClass` makes has no problem when it is made.
use ap_academy_landing.ClassWrites.Preparing.{prepare_with-Later}
use ap_academy_landing.Edits.{check_class_shape, check_not_past}
use ap_academy_landing.Prelude.{
  ℕ, ◌+◌, String, ◌≡◌, refl, ap, inl, inr, Bool, true, false, not, ◌&&◌, Option, none, some, List,
  [], ◌∷◌, arith, Bool-cases,
}
use ap_academy_landing.Wallclock.{Instant}
use ap_academy_landing.Recurrence.{Key}
use ap_academy_landing.Booking.{BookingProblem}
use ap_academy_landing.Access.{Guarded, denied, allowed, require_scheduler}
use ap_academy_landing.ClassWrites.{LockedWriteArgs, SeriesRecord, World, WriteOp}
use ap_academy_landing.ClassWrites.Store.{keys_of, person_of}
use ap_academy_landing.ClassWrites.Locked.{stamps_now}
use ap_academy_landing.ClassWrites.Check.{validate_booking}
use ap_academy_landing.ClassWrites.Rounds.{
  Attempt, Booked, Response, Surroundings, answered, book_under_stamps, booked,
}
use ap_academy_landing.ClassWrites.Steps.{
  active_teacher, rejection, ScheduleDeps, Owes, Reply, denial, and_then, blocked_by,
  check_makeup_for, has_candidates, prepare_student, problems_response, reply, saved, unless,
  write_at,
}
use ap_academy_landing.ClassWrites.Create.{
  admin_only, ClassBody, create_attempt, create_guarded, created_reply, handle_create_class,
  new_booking, reply_or,
}
use ap_academy_landing.ClassWrites.Views.{Later, Later-trans}
use ap_academy_landing.ClassWrites.Fresh.{AttemptFresh, BookedFresh, book_under_stamps-BookedFresh}
use ap_academy_landing.ClassWrites.Free.{WrittenFree, written_now}

problems_response-empty : (ps : List BookingProblem) → problems_response ps ≡ none → ps ≡ []
problems_response-empty [] e = refl
problems_response-empty (p ∷ ps) e = absurd (cc)

abbrev series_in : SeriesRecord → Reply → SeriesRecord
series_in t (saved status s owes) = s
series_in t (reply r) = t
series_in t (denial status error) = t

abbrev status_in : Reply → ℕ
status_in (saved status s owes) = status
status_in (reply r) = 0
status_in (denial status error) = 0

saved_series : {t s : SeriesRecord} {x y : Option Owes} → saved 201 t x ≡ saved 201 s y → t ≡ s
saved_series {t} e = ap (series_in t) e

module _ (new_id version_of : ℕ → String) (created_at : String) where
  module _ (behind : Instant → ℕ) (key_le : Key → Key → Bool) where
    module _ (deps : ScheduleDeps) (env : Surroundings) (body : ClassBody) where
      abbrev Free : World → Type 0
      Free w = validate_booking behind key_le deps.today w (new_booking deps.today body.fields) ≡ []

      abbrev IsFresh : Attempt × World → Type 0
      IsFresh =
          AttemptFresh (WrittenFree new_id version_of created_at behind key_le deps.today body)

      unblocked :
          (up : Bool) (w : World)
          → blocked_by behind key_le deps.today up w (new_booking deps.today body.fields) ≡ none
          → Free w
      unblocked up w h =
          elim (Bool-cases (
            has_candidates behind key_le deps.today (new_booking deps.today body.fields)
              (new_booking deps.today body.fields).window
            && not up)) [
              | inl e ↦ absurd (cc (rw e at h))
              | inr e ↦
                  problems_response-empty
                    (validate_booking behind key_le deps.today w
                      (new_booking deps.today body.fields))
                    (rw e at h)
            ]

      unless-IsFresh :
          (r : Option Response) (w : World) (a : Attempt × World)
          → (r ≡ none → IsFresh a)
          → IsFresh (unless r w a)
      unfolding unless
      unless-IsFresh none w a h = h refl
      unless-IsFresh (some r) w a h = tt

      and_then-IsFresh :
          (p : Option Response × World) (next : World → Attempt × World)
          → IsFresh (next p.1)
          → IsFresh (and_then p next)
      unfolding and_then
      and_then-IsFresh (none, w) next h = h
      and_then-IsFresh (some r, w) next h = tt

      write_at-IsFresh :
          (n : ℕ) (c u w : World)
          → Later c u
          → Later u w
          → Later w (env.others n w)
          → Free u
          → IsFresh (
              write_at new_id version_of created_at env n w body.request_id
                (stamps_now c (keys_of (person_of body.fields ∷ [])))
                (LockedWriteArgs.create body.fields))
      write_at-IsFresh n c u w h k l free = elim (Bool-cases (env.is_up n)) [
        | inr e ↦ rw e tt
        | inl e ↦ elim (Bool-cases (env.loses n)) [
          | inl f ↦ rw (e, f) tt
          | inr f ↦
              rw (e, f)
                (written_now new_id version_of created_at behind key_le deps.today body c u
                  (env.others n w) h (Later-trans u w (env.others n w) k l) free _ refl)
        ]
      ]

      create_attempt-IsFresh :
          ((n : ℕ) (w : World) → Later w (env.others n w))
          → (n : ℕ) (c w : World) → Later c w
          → IsFresh (
              create_attempt behind key_le new_id version_of created_at deps env body n
                (stamps_now c (keys_of (person_of body.fields ∷ [])))
                w)
      unfolding create_attempt
      create_attempt-IsFresh later n c w h =
          unless-IsFresh
            (blocked_by behind key_le deps.today (env.is_up n) w
              (new_booking deps.today body.fields))
            w (unless linked w (and_then prepared ending))
            (λ free. unless-IsFresh linked w (and_then prepared ending) (λ e.
              and_then-IsFresh prepared ending (
                write_at-IsFresh (n + 1) c w prepared.1 h
                  (prepare_with-Later (env.is_up n) deps.adopts w body.fields.student_id
                    deps.students)
                  (later (n + 1) prepared.1) (unblocked (env.is_up n) w free))))
        where
          linked : Option Response
          linked =
              check_makeup_for (env.is_up n) w body.fields.student_id body.fields.purpose
                body.fields.makeup_for

          prepared : Option Response × World
          prepared = prepare_student deps (env.is_up n) w body.fields.student_id

          ending : World → Attempt × World
          ending v =
              write_at new_id version_of created_at env (n + 1) v body.request_id
                (stamps_now c (keys_of (person_of body.fields ∷ [])))
                (LockedWriteArgs.create body.fields)

      -- What a reply with status 201 says of the store.
      abbrev SavedFree : Reply × World → Type 0
      SavedFree r =
          (s : SeriesRecord) (owes : Option Owes)
          → r.0 ≡ saved 201 s owes
          → WrittenFree new_id version_of created_at behind key_le deps.today body s r.1

      reply_or-SavedFree :
          (x : Option Response) (w : World) (next : Reply × World)
          → SavedFree next
          → SavedFree (reply_or x w next)
      unfolding reply_or
      reply_or-SavedFree none w next h = h
      reply_or-SavedFree (some r) w next h = λ s owes e. absurd (cc)

      created_reply-SavedFree :
          (b : Booked × World)
          → BookedFresh (WrittenFree new_id version_of created_at behind key_le deps.today body) b
          → SavedFree (created_reply b)
      created_reply-SavedFree (answered r, w) h = λ s owes e. absurd (cc)
      created_reply-SavedFree (booked t true, w) h =
          λ s owes e. absurd (omega (arith, ap status_in e))
      created_reply-SavedFree (booked t false, w) h = λ s owes e. rw (← saved_series e) h

      created-SavedFree :
          (w : World)
          → ((n : ℕ) (v : World) → Later v (env.others n v))
          → SavedFree (
              handle_create_class behind key_le new_id version_of created_at deps env (some body) w)
      unfolding handle_create_class
      created-SavedFree w later = by_guard (require_scheduler deps.identity admin_only)
        where
          booking : Booked × World
          booking =
              book_under_stamps env
                (create_attempt behind key_le new_id version_of created_at deps env body)
                body.request_id (keys_of (person_of body.fields ∷ [])) (WriteOp.create ∷ []) none w

          by_guard :
              (g : Guarded)
              → SavedFree (
                  create_guarded behind key_le new_id version_of created_at deps env g
                    (some body)
                    w)
          by_guard (denied status error) = λ s owes e. absurd (cc)
          by_guard (allowed who) =
              reply_or-SavedFree (rejection (check_not_past body.fields.start_date deps.today)) w _
                (reply_or-SavedFree
                  (rejection
                    (check_class_shape body.fields.start_time body.fields.duration_minutes))
                  w _
                  (reply_or-SavedFree (active_teacher deps.staff body.fields.staff_id) w _ (
                    created_reply-SavedFree booking (
                      book_under_stamps-BookedFresh
                        (WrittenFree new_id version_of created_at behind key_le deps.today body) env
                        later
                        (create_attempt behind key_le new_id version_of created_at deps env body)
                        (keys_of (person_of body.fields ∷ [])) (create_attempt-IsFresh later)
                        body.request_id (WriteOp.create ∷ []) none w))))

      -- A class that is created, with status 201, was written into a store in which it had no booking
      -- problem, whatever other clients wrote between the calls of the handler: their writes must
      -- only move the stamp of each teacher and student whose rows they change, and set none back.
      pub handle_create_class-WrittenFree :
          (w : World) (s : SeriesRecord) (owes : Option Owes)
          → ((n : ℕ) (v : World) → Later v (env.others n v))
          → (handle_create_class behind key_le new_id version_of created_at deps env
              (some body)
              w).0
            ≡ saved 201 s owes
          → WrittenFree new_id version_of created_at behind key_le deps.today body s
              (handle_create_class behind key_le new_id version_of created_at deps env
                (some body)
                w).1
      handle_create_class-WrittenFree w s owes later e = created-SavedFree w later s owes e
