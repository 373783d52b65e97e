-- ===== src/ClassWrites.antt =====
-- The class writes of apps/tracker/lib/scheduler: the rows of schedule-store.ts, the locked write as
-- app/api/scheduler/series-writes.fake.ts has it, and the handlers of schedule-handlers.ts over them.
-- A `Map` is a function of its key. An occurrence that has an outcome is not frozen here, as in that
-- store.
pub mod Store
pub mod Args
pub mod Locked
pub mod Reads
pub mod Check
pub mod Rounds
pub mod Steps
pub mod Create
pub mod Cancel
pub mod Edit
pub mod Patch
pub mod Refused
pub mod Alone
pub mod Attempts
pub mod Atomic
mod Tests
pub mod Views
pub mod Fresh
pub mod Free
pub mod Preparing
pub mod NoClash
use ap_academy_landing.Prelude.{ℕ, String, Bool, false, Option, List, ◌==◌, str_eq}
use ap_academy_landing.Wallclock.{Date, Time}
use ap_academy_landing.Availability.{AvailabilityWindow, AvailabilityException}
use ap_academy_landing.Recurrence.{ClassSeries, ClassException, ClassPurpose, Status}
use ap_academy_landing.Recurrence.Split.{SplitChanges}

-- A `ClassSeries` with what the store adds to it.
pub record SeriesRecord : Type 0 where
  pub class : ClassSeries
  pub updated_at : String
  pub split_from : Option String

pub record WindowRecord : Type 0 where
  pub id : String
  pub staff_id : String
  pub updated_at : String
  pub window : AvailabilityWindow

pub record AvailabilityExceptionRecord : Type 0 where
  pub id : String
  pub staff_id : String
  pub updated_at : String
  pub exception : AvailabilityException

pub data BookingKey : Type 0 where
  staff student : String → BookingKey

pub record BookingStamp : Type 0 where
  pub key : BookingKey
  pub version : ℕ

pub data WriteOp : Type 0 where
  create move cancel edit_one_off split end_series : WriteOp

pub record WriteReplay : Type 0 where
  pub op : WriteOp
  pub series_id : String
  pub result : SeriesRecord

pub record Position : Type 0 where
  pub status : Status
  pub date : Date
  pub start_time : Time

pub record Seen : Type 0 where
  pub series_id : String
  pub expected_updated_at : String

-- The fields that are given are set; `some none` clears one.
pub record OneOffFields : Type 0 where
  pub staff_id : Option String
  pub subject : Option String
  pub duration_minutes : Option ℕ
  pub purpose : Option (Option ClassPurpose)
  pub makeup_for : Option (Option String)

-- `LockedWriteArgs`; the id of the series that `create` gets is not read.
pub data LockedWriteArgs : Type 0 where
  create : ClassSeries → LockedWriteArgs
  move : Seen → Date → Date → Time → Position → LockedWriteArgs
  cancel : Seen → Date → Position → LockedWriteArgs
  edit_one_off : Seen → Date → Option (Date × Time) → OneOffFields → Position → LockedWriteArgs
  split : Seen → Date → SplitChanges → LockedWriteArgs
  end_series : Seen → Date → LockedWriteArgs

pub data StoreError : Type 0 where
  not_found stale past_occurrence not_weekly unavailable booking_changed : StoreError
  request_reused forbidden has_outcome : StoreError

-- `written value created`, or the status and the error
pub data StoreResult : Type 0 where
  written : SeriesRecord → Bool → StoreResult
  refused : ℕ → StoreError → StoreResult

-- `made` counts the ids and versions that were given out. `adopted` has the students whose text the
-- scheduler owns.
pub record World : Type 0 where
  pub series : List SeriesRecord
  pub exceptions : List ClassException
  pub stamps : BookingKey → ℕ
  pub log : String → Option WriteReplay
  pub windows : List WindowRecord
  pub availability_exceptions : List AvailabilityExceptionRecord
  pub adopted : List String
  pub made : ℕ

-- Keys are compared by their name, `kind:id`.
abbrev pub same_key : BookingKey → BookingKey → Bool
same_key (staff a) (staff b) = str_eq a b
same_key (staff a) (student b) = false
same_key (student a) (staff b) = false
same_key (student a) (student b) = str_eq a b

abbrev pub same_op : WriteOp → WriteOp → Bool
same_op a b = op_code a == op_code b
  where
    op_code : WriteOp → ℕ
    op_code WriteOp.create = 0
    op_code WriteOp.move = 1
    op_code WriteOp.cancel = 2
    op_code WriteOp.edit_one_off = 3
    op_code WriteOp.split = 4
    op_code WriteOp.end_series = 5
