-- ===== src/ClassWrites/Store.antt =====
-- `lockedWrites` of series-writes.fake.ts: the locked write of migration 0018.
use ap_academy_landing.Prelude.{
  ℕ, ◌+◌, String, Bool, ◌&&◌, Option, none, some, List, [], ◌∷◌, ◌++◌, ◌==◌, if◌then◌else◌, any,
  find, str_eq,
}
use ap_academy_landing.Wallclock.{Date, Time}
use ap_academy_landing.Recurrence.{ClassSeries, ClassException, ChangeKind, Status, key_of, key_eq}
use ap_academy_landing.ClassWrites.{
  SeriesRecord, BookingKey, Position, World, same_key, staff, student,
}

pub record Person : Type 0 where
  pub staff_id : Option String
  pub student_id : Option String

abbrev pub add_key : BookingKey → List BookingKey → List BookingKey
add_key k keys = if any (same_key k) keys then keys else keys ++ k ∷ []

abbrev pub add_staff : Option String → List BookingKey → List BookingKey
add_staff none keys = keys
add_staff (some id) keys = add_key (staff id) keys

abbrev pub add_student : Option String → List BookingKey → List BookingKey
add_student none keys = keys
add_student (some id) keys = add_key (student id) keys

keys_from : List BookingKey → List Person → List BookingKey
keys_from keys [] = keys
keys_from keys (p ∷ ps) = keys_from (add_student p.student_id (add_staff p.staff_id keys)) ps

-- `keysOf`
unfoldable pub keys_of : List Person → List BookingKey
unfolding keys_from
keys_of people = keys_from [] people

abbrev pub person_of : ClassSeries → Person
person_of s = record { staff_id = some s.staff_id; student_id = some s.student_id }

abbrev pub staff_only : Option String → Person
staff_only id = record { staff_id = id; student_id = none }

-- `bump`
abbrev pub bump : List BookingKey → (BookingKey → ℕ) → BookingKey → ℕ
bump keys stamps k = if any (same_key k) keys then stamps k + 1 else stamps k

-- `series.set(s.id, s)`
unfoldable pub put_series : SeriesRecord → List SeriesRecord → List SeriesRecord
put_series s [] = s ∷ []
put_series s (x ∷ xs) =
    let rest = put_series s xs in if str_eq x.class.id s.class.id then s ∷ xs else x ∷ rest

abbrev pub is_at : String → Date → ClassException → Bool
is_at series_id date e = key_eq (key_of e.series_id e.original_date) (key_of series_id date)

-- `upsertException`
unfoldable pub put_exception : ClassException → List ClassException → List ClassException
put_exception e [] = e ∷ []
put_exception e (x ∷ xs) =
    let rest = put_exception e xs in
    if is_at e.series_id e.original_date x then e ∷ xs else x ∷ rest

abbrev pub series_by_id : World → String → Option SeriesRecord
series_by_id w id = find (λ s. str_eq s.class.id id) w.series

abbrev pub standing : Date → Time → Position
standing date time = record { status = Status.scheduled; date = date; start_time = time }

abbrev pub moved_position : Date → Time → Option Date → Option Time → Position
moved_position date time (some new_date) (some new_time) = record {
  status = Status.moved;
  date = new_date;
  start_time = new_time;
}
moved_position date time (some new_date) none = standing date time
moved_position date time none new_time = standing date time

abbrev pub position_from : Date → Time → ChangeKind → ClassException → Position
position_from date time ChangeKind.cancelled e = record {
  status = Status.cancelled;
  date = date;
  start_time = time;
}
position_from date time ChangeKind.moved e = moved_position date time e.new_date e.new_start_time

abbrev pub position_at : Date → Time → Option ClassException → Position
position_at date time none = standing date time
position_at date time (some e) = position_from date time e.kind e

-- `positionOf`
abbrev pub position_of : List ClassException → ClassSeries → Date → Position
position_of exceptions s date = position_at date s.start_time (find (is_at s.id date) exceptions)

abbrev pub status_eq : Status → Status → Bool
status_eq a b = status_code a == status_code b
  where
    status_code : Status → ℕ
    status_code Status.scheduled = 0
    status_code Status.cancelled = 1
    status_code Status.moved = 2

abbrev pub position_eq : Position → Position → Bool
position_eq a b = status_eq a.status b.status && (a.date == b.date && a.start_time == b.start_time)
