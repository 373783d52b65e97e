-- ===== src/ClassWrites/Fresh.antt =====
-- What holds of the writes that `bookUnderStamps` makes, from what holds of one attempt.
use ap_academy_landing.Prelude.{
  ℕ, ◌+◌, String, inl, inr, true, false, not, ◌||◌, Option, none, some, List, Bool-cases,
}
use ap_academy_landing.ClassWrites.{
  SeriesRecord, BookingKey, BookingStamp, WriteOp, WriteReplay, World, written, refused,
}
use ap_academy_landing.ClassWrites.Locked.{stamps_now}
use ap_academy_landing.ClassWrites.Rounds.{
  Attempt, Booked, Surroundings, answers, writes, answered, booked, book_under_stamps, round,
  give_up, after_attempt, after_context, is_booking_changed, replayed, has_op, is_target,
}
use ap_academy_landing.ClassWrites.Views.{Later}

module _ (P : SeriesRecord → World → Type 0) where
  -- The series, if the attempt wrote one, is as required.
  abbrev pub AttemptFresh : Attempt × World → Type 0
  AttemptFresh (answers r, w) = Unit
  AttemptFresh (writes (written s true), w) = P s w
  AttemptFresh (writes (written s false), w) = Unit
  AttemptFresh (writes (refused status error), w) = Unit

  abbrev pub BookedFresh : Booked × World → Type 0
  BookedFresh (answered r, w) = Unit
  BookedFresh (booked s false, w) = P s w
  BookedFresh (booked s true, w) = Unit

  after_attempt-BookedFresh :
      (again : World → Booked × World)
      → ((w : World) → BookedFresh (again w))
      → (a : Attempt × World) → AttemptFresh a
      → BookedFresh (after_attempt again a)
  after_attempt-BookedFresh again h (answers r, w) k = tt
  after_attempt-BookedFresh again h (writes (written s true), w) k = k
  after_attempt-BookedFresh again h (writes (written s false), w) k = tt
  after_attempt-BookedFresh again h (writes (refused status error), w) k =
      elim (Bool-cases (is_booking_changed error)) [ inl e ↦ rw e (h w) | inr e ↦ rw e tt ]

  replayed-BookedFresh :
      (ops : List WriteOp) (target : Option String) (r : WriteReplay) (w : World)
      → BookedFresh (replayed ops target r, w)
  replayed-BookedFresh ops target r w =
      elim (Bool-cases (not (has_op ops r.op) || not (is_target target r.series_id))) [
        | inl e ↦ rw e tt
        | inr e ↦ rw e tt
      ]

  module _ (env : Surroundings) (later : (n : ℕ) (w : World) → Later w (env.others n w))
      (attempt : ℕ → List BookingStamp → World → Attempt × World) (keys : List BookingKey)
      (fresh : (n : ℕ) (c w : World)
        → Later c w
        → AttemptFresh (attempt n (stamps_now c keys) w)) where
    round-BookedFresh :
        (again : World → Booked × World)
        → ((w : World) → BookedFresh (again w))
        → (n : ℕ) (request : String) (ops : List WriteOp) (target : Option String) (w : World)
        → BookedFresh (round env attempt again n request keys ops target w)
    round-BookedFresh again h n request ops target w = elim (Bool-cases (env.is_up n)) [
      | inr e ↦ rw e tt
      | inl e ↦ rw e (by_log (v.log request))
    ]
      where
        v : World
        v = env.others n w

        by_log :
            (r : Option WriteReplay)
            → BookedFresh (after_context env attempt again n ops target v (stamps_now v keys, r))
        by_log (some r) = replayed-BookedFresh ops target r v
        by_log none =
            after_attempt-BookedFresh again h
              (attempt (n + 1) (stamps_now v keys) (env.others (n + 1) v))
              (fresh (n + 1) v (env.others (n + 1) v) (later (n + 1) v))

    pub book_under_stamps-BookedFresh :
        (request : String) (ops : List WriteOp) (target : Option String) (w : World)
        → BookedFresh (book_under_stamps env attempt request keys ops target w)
    unfolding book_under_stamps
    book_under_stamps-BookedFresh request ops target w =
        round-BookedFresh (λ v. round env attempt (give_up env attempt) 3 request keys ops target v)
          (λ v. round-BookedFresh (give_up env attempt) (λ u. tt) 3 request ops target v) 0 request
          ops target w
