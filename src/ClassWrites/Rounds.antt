-- ===== src/ClassWrites/Rounds.antt =====
-- `bookUnderStamps` of schedule-handlers.ts. Each round makes its calls at three moments, between
-- which other clients of the store may write: the context is read, the checks are run, and the
-- write is made.
use ap_academy_landing.Prelude.{
  ℕ, ◌+◌, String, Bool, true, false, not, ◌||◌, Option, none, some, List, ◌==◌, if◌then◌else◌, any,
  str_eq,
}
use ap_academy_landing.ClassWrites.{
  SeriesRecord, BookingKey, BookingStamp, WriteOp, WriteReplay, StoreError, StoreResult, World,
  same_op, written, refused,
}
use ap_academy_landing.ClassWrites.Locked.{read_write_context}
use ap_academy_landing.Booking.{BookingProblem}

pub data Failure : Type 0 where
  invalid_request scheduler_unavailable scheduler_not_configured unauthenticated forbidden : Failure
  invalid_staff invalid_makeup_for invalid_student legacy_schedule_pending moved_occurrence :
      Failure
  past_occurrence invalid_duration crosses_midnight use_scope_future one_off_only : Failure
  stale not_found : Failure
  from_store : StoreError → Failure

-- An answer other than a series: a status and an error, the problems of a booking (at most
-- `MAX_PROBLEMS` of them, and how many more), or the series as it stands.
pub data Response : Type 0 where
  failed : ℕ → Failure → Response
  problems : List BookingProblem → ℕ → Response
  unchanged : SeriesRecord → Response

-- How an attempt ends.
pub data Attempt : Type 0 where
  answers : Response → Attempt
  writes : StoreResult → Attempt

-- `Response | Written`
pub data Booked : Type 0 where
  answered : Response → Booked
  booked : SeriesRecord → Bool → Booked

-- The surroundings of a handler. `others n w` is what other clients make of the store before moment
-- `n`, `is_up n` whether the storage answers then, and `loses n` whether the answer of a write that it
-- carried out then is lost.
pub record Surroundings : Type 0 where
  pub others : ℕ → World → World
  pub is_up : ℕ → Bool
  pub loses : ℕ → Bool

abbrev pub unavailable : Response
unavailable = failed 503 scheduler_unavailable

abbrev pub bad : Response
bad = failed 400 invalid_request

abbrev pub has_op : List WriteOp → WriteOp → Bool
has_op ops op = any (same_op op) ops

abbrev pub is_target : Option String → String → Bool
is_target none id = true
is_target (some target) id = str_eq target id

abbrev pub replayed : List WriteOp → Option String → WriteReplay → Booked
replayed ops target r =
    if not (has_op ops r.op) || not (is_target target r.series_id)
    then answered bad
    else booked r.result true

abbrev pub is_booking_changed : StoreError → Bool
is_booking_changed StoreError.booking_changed = true
is_booking_changed StoreError.not_found = false
is_booking_changed StoreError.stale = false
is_booking_changed StoreError.past_occurrence = false
is_booking_changed StoreError.not_weekly = false
is_booking_changed StoreError.unavailable = false
is_booking_changed StoreError.request_reused = false
is_booking_changed StoreError.forbidden = false
is_booking_changed StoreError.has_outcome = false

abbrev pub is_request_reused : StoreError → Bool
is_request_reused StoreError.request_reused = true
is_request_reused StoreError.booking_changed = false
is_request_reused StoreError.not_found = false
is_request_reused StoreError.stale = false
is_request_reused StoreError.past_occurrence = false
is_request_reused StoreError.not_weekly = false
is_request_reused StoreError.unavailable = false
is_request_reused StoreError.forbidden = false
is_request_reused StoreError.has_outcome = false

abbrev pub refusal : ℕ → StoreError → Response
refusal status error =
    if is_request_reused error
    then bad
    else if status == 503
    then unavailable
    else failed status (from_store error)

-- What is done with the result of an attempt: `again` is the next round.
abbrev pub after_attempt : (World → Booked × World) → Attempt × World → Booked × World
after_attempt again (answers r, w) = (answered r, w)
after_attempt again (writes (written s created), w) = (booked s (not created), w)
after_attempt again (writes (refused status error), w) =
    if is_booking_changed error then again w else (answered (refusal status error), w)

module _ (env : Surroundings) (attempt : ℕ → List BookingStamp → World → Attempt × World) where
  -- From the context on, in a round that starts at moment `n`.
  abbrev pub after_context :
      (World → Booked × World)
      → ℕ
      → List WriteOp
      → Option String
      → World
      → List BookingStamp × Option WriteReplay
      → Booked × World
  after_context again n ops target w (stamps, some r) = (replayed ops target r, w)
  after_context again n ops target w (stamps, none) =
      after_attempt again (attempt (n + 1) stamps (env.others (n + 1) w))

  abbrev pub round :
      (World → Booked × World)
      → ℕ
      → String
      → List BookingKey
      → List WriteOp
      → Option String
      → World
      → Booked × World
  round again n request keys ops target w =
      let v = env.others n w in
      if not (env.is_up n)
      then (answered unavailable, v)
      else after_context again n ops target v (read_write_context v request keys)

  abbrev pub give_up : World → Booked × World
  give_up w = (answered (failed 409 stale), w)

  unfoldable pub book_under_stamps :
      String → List BookingKey → List WriteOp → Option String → World → Booked × World
  book_under_stamps request keys ops target w =
      round (λ v. round give_up 3 request keys ops target v) 0 request keys ops target w
