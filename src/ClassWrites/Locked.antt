-- ===== src/ClassWrites/Locked.antt =====
-- `write` and `readWriteContext` of series-writes.fake.ts. `new_id` and `version_of` give the ids and
-- the versions of rows, as `newId` and `stampOf` do, and `created_at` is `CREATED`.
use ap_academy_landing.ClassWrites.Args.{
  op_of, seen_of, expected_of, write_keys, is_weekly_kind, moved_exception, cancelled_exception,
  has_fields, with_fields,
}
use ap_academy_landing.Prelude.{
  ℕ, ◌+◌, String, Bool, true, false, not, ◌&&◌, Option, none, some, List, [], ◌∷◌, map, ◌==◌,
  if◌then◌else◌, some_or, all, str_eq,
}
use ap_academy_landing.Wallclock.{Date, Time, sub_days}
use ap_academy_landing.Recurrence.{ClassSeries, ClassException}
use ap_academy_landing.Recurrence.Split.{SplitChanges, new_weekday, new_start}
use ap_academy_landing.ClassWrites.{
  SeriesRecord, BookingKey, BookingStamp, WriteOp, WriteReplay, Position, Seen, LockedWriteArgs,
  StoreError, StoreResult, World, same_key, same_op, create, move, cancel, edit_one_off, split,
  end_series, written, refused,
}
use ap_academy_landing.ClassWrites.Store.{
  keys_of, bump, put_series, put_exception, series_by_id, position_of, position_eq,
}

abbrev pub version_at : List BookingStamp → BookingKey → Option ℕ
version_at [] k = none
version_at (x ∷ xs) k = if same_key x.key k then some x.version else version_at xs k

abbrev pub is_version : Option ℕ → ℕ → Bool
is_version none now = false
is_version (some version) now = version == now

-- The stamps that the caller read are unchanged.
abbrev pub unmoved : World → List BookingStamp → List BookingKey → Bool
unmoved w stamps keys = all (λ k. is_version (version_at stamps k) (w.stamps k)) keys

abbrev pub is_expected_version : Option Seen → SeriesRecord → Bool
is_expected_version none s = true
is_expected_version (some seen) s = str_eq s.updated_at seen.expected_updated_at

abbrev pub is_expected_position :
    List ClassException → Option (Date × Position) → ClassSeries → Bool
is_expected_position exceptions none s = true
is_expected_position exceptions (some (date, expected)) s =
    position_eq (position_of exceptions s date) expected

abbrev pub with_exception : World → ClassException → World
with_exception w e = record w { exceptions = put_exception e w.exceptions }

abbrev pub move_if : World → String → Date → Option (Date × Time) → World
move_if w id on none = w
move_if w id on (some (date, time)) = with_exception w (moved_exception id on date time)

abbrev pub replay_result : WriteReplay → LockedWriteArgs → SeriesRecord → StoreResult
replay_result prior (create fields) s =
    if same_op prior.op WriteOp.create
    then written prior.result false
    else refused 400 StoreError.request_reused
replay_result prior args s =
    if same_op prior.op (op_of args) && str_eq prior.series_id s.class.id
    then written prior.result false
    else refused 400 StoreError.request_reused

module _ (new_id version_of : ℕ → String) (created_at : String) where
  -- The row that `create` makes, or the one that the write names.
  abbrev pub target_from : World → LockedWriteArgs → Option Seen → Option SeriesRecord
  target_from w (create fields) seen = some (record {
    class = record fields { id = new_id w.made };
    updated_at = created_at;
    split_from = none;
  })
  target_from w args none = none
  target_from w args (some seen) = series_by_id w seen.series_id

  abbrev pub target : World → LockedWriteArgs → Option SeriesRecord
  target w args = target_from w args (seen_of args)

  -- `update`
  abbrev pub update : World → SeriesRecord → ClassSeries → SeriesRecord × World
  update w s class =
      let next = record s { class = class; updated_at = version_of w.made } in
      (next, record w { series = put_series next w.series; made = w.made + 1 })

  -- The second part of a split series.
  abbrev pub split_part : World → SeriesRecord → Date → SplitChanges → SeriesRecord
  split_part w s from changes = record {
    class = record s.class {
      id = new_id w.made;
      staff_id = some_or changes.staff_id s.class.staff_id;
      student_id = some_or changes.student_id s.class.student_id;
      subject = some_or changes.subject s.class.subject;
      start_time = some_or changes.start_time s.class.start_time;
      duration_minutes = some_or changes.duration_minutes s.class.duration_minutes;
      start_date = new_start from (new_weekday changes from);
    };
    updated_at = created_at;
    split_from = some s.class.id;
  }

  abbrev pub with_series : World → SeriesRecord → World
  with_series w s = record w { series = put_series s w.series; made = w.made + 1 }

  abbrev pub split_series : World → SeriesRecord → Date → SplitChanges → SeriesRecord × World
  split_series w s from changes =
      let part = split_part w s from changes in
      (
        part,
        (update (with_series w part) s
            (record s.class { effective_until = some (sub_days from 1) })).1,
      )

  -- The `switch`; `none` is `not_weekly`.
  abbrev pub perform : World → SeriesRecord → LockedWriteArgs → Option (SeriesRecord × World)
  perform w s (create fields) = some (s, with_series w s)
  perform w s (move seen on date time at) =
      some (s, with_exception w (moved_exception s.class.id on date time))
  perform w s (cancel seen on at) = some (s, with_exception w (cancelled_exception s.class.id on))
  perform w s (edit_one_off seen on to fields at) =
      let v = move_if w s.class.id on to in
      some (if has_fields fields then update v s (with_fields fields s.class) else (s, v))
  perform w s (split seen from changes) =
      if is_weekly_kind s.class.kind then some (split_series w s from changes) else none
  perform w s (end_series seen last) =
      some (update w s (record s.class { effective_until = some last }))

  -- The series that the log names: what a create made, else the target.
  abbrev pub logged_id : LockedWriteArgs → SeriesRecord → SeriesRecord → String
  logged_id (create fields) s result = result.class.id
  logged_id args s result = s.class.id

  abbrev pub log_entry :
      String → WriteReplay → (String → Option WriteReplay) → String → Option WriteReplay
  log_entry request entry log r = if str_eq r request then some entry else log r

  abbrev pub recorded :
      World
      → String
      → LockedWriteArgs
      → SeriesRecord
      → Option (SeriesRecord × World)
      → StoreResult × World
  recorded w request args s none = (refused 422 StoreError.not_weekly, w)
  recorded w request args s (some (result, v)) = (
    written result true,
    record v {
      stamps = bump (write_keys args s.class) v.stamps;
      log =
          log_entry request
            (record { op = op_of args; series_id = logged_id args s result; result = result })
            v.log;
    },
  )

  -- From the test of the stamps on.
  abbrev pub write_checked :
      World → String → List BookingStamp → LockedWriteArgs → SeriesRecord → StoreResult × World
  write_checked w request stamps args s =
      if not (unmoved w stamps (write_keys args s.class))
      then (refused 409 StoreError.booking_changed, w)
      else if not (is_expected_version (seen_of args) s)
      then (refused 409 StoreError.stale, w)
      else if not (is_expected_position w.exceptions (expected_of args) s.class)
      then (refused 409 StoreError.stale, w)
      else recorded w request args s (perform w s args)

  abbrev pub write_unless :
      World
      → String
      → List BookingStamp
      → LockedWriteArgs
      → SeriesRecord
      → Option WriteReplay
      → StoreResult × World
  write_unless w request stamps args s (some prior) = (replay_result prior args s, w)
  write_unless w request stamps args s none = write_checked w request stamps args s

  abbrev pub write_to :
      World
      → String
      → List BookingStamp
      → LockedWriteArgs
      → Option SeriesRecord
      → StoreResult × World
  write_to w request stamps args none = (refused 404 StoreError.not_found, w)
  write_to w request stamps args (some s) = write_unless w request stamps args s (w.log request)

  unfoldable pub locked_write :
      World → String → List BookingStamp → LockedWriteArgs → StoreResult × World
  unfolding put_series put_exception keys_of
  locked_write w request stamps args = write_to w request stamps args (target w args)

abbrev pub stamps_now : World → List BookingKey → List BookingStamp
stamps_now w keys = map (λ k. record { key = k; version = w.stamps k }) keys

-- `readWriteContext`, whose keys have no repeats here
abbrev pub read_write_context :
    World → String → List BookingKey → List BookingStamp × Option WriteReplay
read_write_context w request keys = (stamps_now w keys, w.log request)
