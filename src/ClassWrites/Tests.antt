-- ===== src/ClassWrites/Tests.antt =====
-- A teacher with one class, requests for others, and the theorems of the component at them.
use ap_academy_landing.Prelude.{
  ℕ, String, ◌≡◌, refl, Bool, true, false, Option, none, some, [], ◌∷◌, arith, sort_by, ◌+◌, ◌≤◌,
  if◌then◌else◌, any,
}
use ap_academy_landing.Wallclock.{Instant}
use ap_academy_landing.Access.{SchedulerIdentity, StaffRecord}
use ap_academy_landing.Recurrence.{ClassSeries, Key, SeriesKind}
use ap_academy_landing.ClassWrites.{
  BookingKey, SeriesRecord, World, WindowRecord, staff, student, same_key,
}
use ap_academy_landing.ClassWrites.Store.{bump}
use ap_academy_landing.ClassWrites.Steps.{reply, Owes, ScheduleDeps, saved, unless, and_then}
use ap_academy_landing.ClassWrites.Reads.{student_rows, staff_rows, list_windows, staff_exceptions}
use ap_academy_landing.ClassWrites.Rounds.{failed, stale, Surroundings}
use ap_academy_landing.ClassWrites.Create.{ClassBody, handle_create_class, reply_or}
use ap_academy_landing.Booking.{booking_window, clash}
use ap_academy_landing.Conflicts.{find_conflicts}
use ap_academy_landing.Availability.Spans.{union}
use ap_academy_landing.ClassWrites.Alone.{is_saved}
use ap_academy_landing.ClassWrites.Views.{Later, SameRows}
use ap_academy_landing.ClassWrites.Free.{WrittenFree}
use ap_academy_landing.ClassWrites.NoClash.{handle_create_class-WrittenFree}
use ap_academy_landing.ClassWrites.Refused.{SameClasses}
use ap_academy_landing.ClassWrites.Atomic.{create, handle, handle-SameClasses}

abbrev winter : Instant → ℕ
winter t = 18000000

abbrev any_order : Key → Key → Bool
any_order a b = true

abbrev class_id : ℕ → String
class_id n = "c2"

abbrev version : ℕ → String
version n = "v2"

abbrev ryan : StaffRecord
ryan = record {
  id = "t1";
  name = "Ryan";
  email = none;
  functions = "Teacher" ∷ [];
  status = some "Active";
  subjects = [];
}

-- Monday 2026-10-19
abbrev monday : ℕ
monday = 740273

abbrev class_from : String → String → ℕ → ClassSeries
class_from id pupil start = record {
  id = id;
  staff_id = "t1";
  student_id = pupil;
  subject = "Math";
  kind = SeriesKind.one_off;
  start_date = monday;
  start_time = start;
  duration_minutes = 60;
  effective_until = none;
  purpose = none;
  makeup_for = none;
}

abbrev open_on : ℕ → WindowRecord
open_on weekday = record {
  id = "w1";
  staff_id = "t1";
  updated_at = "v1";
  window = record {
    weekday = weekday;
    start_time = 900;
    end_time = 1260;
    effective_from = 739000;
    effective_until = none;
  };
}

abbrev one_class : World
one_class = record {
  series = record { class = class_from "c1" "p1" 960; updated_at = "v1"; split_from = none } ∷ [];
  exceptions = [];
  stamps = λ k. 0;
  log = λ r. none;
  windows = open_on 1 ∷ open_on 2 ∷ open_on 3 ∷ open_on 4 ∷ open_on 5 ∷ open_on 6 ∷ open_on 7 ∷ [];
  availability_exceptions = [];
  adopted = [];
  made = 0;
}

abbrev owner : ScheduleDeps
owner = record {
  identity = SchedulerIdentity.admin "o1" none;
  staff = some (ryan ∷ []);
  today = monday;
  students = none;
  adopts = true;
  reads_series = true;
}

abbrev nobody_else : Surroundings
nobody_else = record { others = λ n w. w; is_up = λ n. true; loses = λ n. false }

-- Another client that moves the stamp of one teacher at every moment.
abbrev someone_with : String → Surroundings
someone_with id = record {
  others = λ n w. record w { stamps = bump (staff id ∷ []) w.stamps };
  is_up = λ n. true;
  loses = λ n. false;
}

someone_with-Later : (id : String) (n : ℕ) (w : World) → Later w ((someone_with id).others n w)
unfolding staff_rows student_rows list_windows staff_exceptions
someone_with-Later id n w k = (moved (any (same_key k) (staff id ∷ [])), λ e. same k)
  where
    moved : (b : Bool) → w.stamps k ≤ (if b then w.stamps k + 1 else w.stamps k)
    moved true = omega arith
    moved false = omega arith

    same : (key : BookingKey) → SameRows w ((someone_with id).others n w) key
    same (staff a) = (refl, refl, refl)
    same (student a) = refl

abbrev asks : ℕ → ClassBody
asks start = record { request_id = "r1"; fields = class_from "" "p2" start }

abbrev made_class : SeriesRecord
made_class = record { class = class_from "c2" "p2" 1020; updated_at = "v0"; split_from = none }

abbrev owed : Option Owes
owed = some (record { students = "p2" ∷ []; summary = true })

created_reply_now :
    (handle_create_class winter any_order class_id version "v0" owner
      (someone_with "t9")
      (some (asks 1020))
      one_class).0
    ≡ saved 201 made_class owed
unfolding handle_create_class unless and_then reply_or booking_window sort_by staff_rows clash
    find_conflicts list_windows staff_exceptions union
created_reply_now = refl

refused_reply_now :
    is_saved
      (handle winter any_order class_id version "v0" owner nobody_else
        (create (some (asks 990)))
        one_class).0
    ≡ false
unfolding handle_create_class unless and_then reply_or booking_window sort_by staff_rows clash
    find_conflicts list_windows staff_exceptions union
refused_reply_now = refl

-- Where the teacher's own stamp moves between the reads and the write of both rounds, the answer is
-- 409, and no class is made.
stale_reply_now :
    (handle_create_class winter any_order class_id version "v0" owner
      (someone_with "t1")
      (some (asks 1020))
      one_class).0
    ≡ reply (failed 409 stale)
unfolding handle_create_class unless and_then reply_or booking_window sort_by staff_rows clash
    find_conflicts list_windows staff_exceptions union
stale_reply_now = refl

handle_create_class-WrittenFree_example :
    WrittenFree class_id version "v0" winter any_order monday
      (asks 1020)
      made_class
      (handle_create_class winter any_order class_id version "v0" owner
        (someone_with "t9")
        (some (asks 1020))
        one_class).1
handle_create_class-WrittenFree_example =
    handle_create_class-WrittenFree class_id version "v0" winter any_order owner (someone_with "t9")
      (asks 1020) one_class made_class owed (someone_with-Later "t9") created_reply_now

-- The class at 16:30 overlaps the one that is there.
handle-SameClasses_example :
    SameClasses one_class
      (handle winter any_order class_id version "v0" owner nobody_else
        (create (some (asks 990)))
        one_class).1
handle-SameClasses_example =
    handle-SameClasses winter any_order class_id version "v0" owner nobody_else (λ n w. refl)
      (λ n. refl) (create (some (asks 990))) one_class refused_reply_now
