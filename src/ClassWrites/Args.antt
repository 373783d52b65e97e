-- ===== src/ClassWrites/Args.antt =====
-- The arguments of a locked write: what they name, expect and set.
use ap_academy_landing.Prelude.{
  String, Bool, true, false, ◌||◌, Option, none, some, List, [], ◌∷◌, some_or,
}
use ap_academy_landing.Wallclock.{Date, Time}
use ap_academy_landing.Recurrence.{ClassSeries, ClassException, ChangeKind, SeriesKind}
use ap_academy_landing.ClassWrites.{
  BookingKey, WriteOp, Position, Seen, OneOffFields, LockedWriteArgs, create, move, cancel,
  edit_one_off, split, end_series,
}
use ap_academy_landing.ClassWrites.Store.{keys_of, person_of, staff_only}

abbrev pub op_of : LockedWriteArgs → WriteOp
op_of (create s) = WriteOp.create
op_of (move seen on date time at) = WriteOp.move
op_of (cancel seen on at) = WriteOp.cancel
op_of (edit_one_off seen on to fields at) = WriteOp.edit_one_off
op_of (split seen from changes) = WriteOp.split
op_of (end_series seen last) = WriteOp.end_series

abbrev pub seen_of : LockedWriteArgs → Option Seen
seen_of (create s) = none
seen_of (move seen on date time at) = some seen
seen_of (cancel seen on at) = some seen
seen_of (edit_one_off seen on to fields at) = some seen
seen_of (split seen from changes) = some seen
seen_of (end_series seen last) = some seen

-- `expectedPosition`, and the date it is about
abbrev pub expected_of : LockedWriteArgs → Option (Date × Position)
expected_of (create s) = none
expected_of (move seen on date time at) = some (on, at)
expected_of (cancel seen on at) = some (on, at)
expected_of (edit_one_off seen on to fields at) = some (on, at)
expected_of (split seen from changes) = none
expected_of (end_series seen last) = none

-- The keys whose stamps the write checks and moves.
abbrev pub write_keys : LockedWriteArgs → ClassSeries → List BookingKey
write_keys (create fields) s = keys_of (person_of s ∷ [])
write_keys (move seen on date time at) s = keys_of (person_of s ∷ [])
write_keys (cancel seen on at) s = keys_of (person_of s ∷ [])
write_keys (edit_one_off seen on to fields at) s =
    keys_of (person_of s ∷ staff_only fields.staff_id ∷ [])
write_keys (split seen from changes) s =
    keys_of
      (person_of s ∷ record { staff_id = changes.staff_id; student_id = changes.student_id } ∷ [])
write_keys (end_series seen last) s = keys_of (person_of s ∷ [])

abbrev pub is_weekly_kind : SeriesKind → Bool
is_weekly_kind SeriesKind.weekly = true
is_weekly_kind SeriesKind.one_off = false

abbrev pub moved_exception : String → Date → Date → Time → ClassException
moved_exception series_id on date time = record {
  id = none;
  series_id = series_id;
  original_date = on;
  kind = ChangeKind.moved;
  new_date = some date;
  new_start_time = some time;
}

abbrev pub cancelled_exception : String → Date → ClassException
cancelled_exception series_id on = record {
  id = none;
  series_id = series_id;
  original_date = on;
  kind = ChangeKind.cancelled;
  new_date = none;
  new_start_time = none;
}

abbrev pub is_given : {A : Type 0} → Option A → Bool
is_given none = false
is_given (some a) = true

-- `Object.keys(w.fields).length`
abbrev pub has_fields : OneOffFields → Bool
has_fields f =
    is_given f.staff_id
    || (is_given f.subject
        || (is_given f.duration_minutes || (is_given f.purpose || is_given f.makeup_for)))

abbrev pub with_fields : OneOffFields → ClassSeries → ClassSeries
with_fields f s = record s {
  staff_id = some_or f.staff_id s.staff_id;
  subject = some_or f.subject s.subject;
  duration_minutes = some_or f.duration_minutes s.duration_minutes;
  purpose = some_or f.purpose s.purpose;
  makeup_for = some_or f.makeup_for s.makeup_for;
}
