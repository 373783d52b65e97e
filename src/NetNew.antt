-- ===== src/NetNew.antt =====
-- apps/tracker/lib/domain/schedule/net-new.ts: the verified net-new teaching minutes of a week.
-- Timestamps are milliseconds, or `none` where `Date.parse` gives NaN. A map keyed by `normalId` is
-- a list read with `same_id`, or a function of the id. `joined` reasons stay a list.
pub mod Rounds
pub mod Result
pub mod Totals
pub mod Balance
pub mod Opening
mod Tests
use ap_academy_landing.Prelude.{
  ℕ, String, Bool, true, false, not, ◌&&◌, Option, none, some, List, [], ◌∷◌, ◌++◌, ltb, leb, ◌==◌,
  if◌then◌else◌, any, sort_by, find_last, opt_list,
}
use ap_academy_landing.Wallclock.{Date, Instant, sub_days}
use ap_academy_landing.Ids.{same_id}
use ap_academy_landing.Recurrence.{ClassPurpose, SeriesKind}

pub record WeekRange : Type 0 where
  pub from : Date
  pub to : Date

pub record SeriesFact : Type 0 where
  pub id : String
  pub student_id : String
  pub staff_id : String
  pub kind : SeriesKind
  pub purpose : Option ClassPurpose
  pub start_date : Date
  pub effective_until : Option Date
  pub duration_minutes : ℕ
  pub created_at : Option Instant

pub record Adoption : Type 0 where
  pub student_id : String
  pub adopted_at : Option Instant

pub record PaidInvoice : Type 0 where
  pub invoice_id : String
  pub paid_on : Option Date

pub data Stage : Type 0 where
  onboarding active other_stage : Stage

pub record Student : Type 0 where
  pub id : String
  pub stage : Stage

pub record People : Type 0 where
  pub stale : Bool
  pub synced_at : Option Instant
  pub students : List Student

-- `{ ok: true, ... }` or `{ ok: false, reason }`
pub data Read {ℓ} (A : Type ℓ) : Type ℓ where
  ok : A → Read A
  failed : String → Read A

pub data UnverifiedReason : Type 0 where
  not_synced unpaid stage_not_active : UnverifiedReason

pub data ExcludedReason : Type 0 where
  for_purpose : ClassPurpose → ExcludedReason
  one_off adopted not_in_scheduler : ExcludedReason

pub data EventName : Type 0 where
  addition reduction : EventName

pub data EventClass : Type 0 where
  verified unverified unclassified : EventClass

pub record CountedEvent : Type 0 where
  pub series_id : String
  pub student_id : String
  pub staff_id : String
  pub event : EventName
  pub date : Date
  pub minutes : ℕ
  pub event_class : EventClass
  pub reason : Option UnverifiedReason
  pub paid_on : Option Date

pub record ExcludedSeries : Type 0 where
  pub series_id : String
  pub student_id : String
  pub staff_id : String
  pub date : Date
  pub reason : ExcludedReason

pub record NetNewInput : Type 0 where
  pub week : WeekRange
  pub today : Date
  pub series : List SeriesFact
  pub adoptions : List Adoption
  pub people : Read People
  pub payments : Read (String → List PaidInvoice)

abbrev pub prior_week : WeekRange → WeekRange
prior_week w = record { from = sub_days w.from 7; to = sub_days w.to 7 }

abbrev pub in_week : Date → WeekRange → Bool
in_week date w = leb w.from date && leb date w.to

abbrev pub same_instant : Option Instant → Option Instant → Bool
same_instant (some x) (some y) = x == y
same_instant (some x) none = false
same_instant none b = false

-- The dates that are known, and the last of them in order.
abbrev pub known_dates : List PaidInvoice → List Date
known_dates [] = []
known_dates (i ∷ is) = opt_list i.paid_on ++ known_dates is

abbrev pub last_of : List Date → Option Date
last_of [] = none
last_of (d ∷ []) = some d
last_of (d ∷ e ∷ ds) = last_of (e ∷ ds)

abbrev pub latest : List PaidInvoice → Option Date
latest invoices = last_of (sort_by leb (known_dates invoices))

abbrev pub is_verifying : Stage → Bool
is_verifying onboarding = true
is_verifying active = true
is_verifying other_stage = false

-- The series whose id was not seen before.
unfoldable pub distinct_from : List String → List SeriesFact → List SeriesFact
distinct_from seen [] = []
distinct_from seen (s ∷ series) =
    let skipped = distinct_from seen series in
    let kept = s ∷ distinct_from (s.id ∷ seen) series in
    if any (λ id. same_id id s.id) seen then skipped else kept

abbrev pub adoption_of : List Adoption → String → Option Adoption
adoption_of adoptions id = find_last (λ a. same_id a.student_id id) adoptions

abbrev pub student_of : List Student → String → Option Student
student_of students id = find_last (λ p. same_id p.id id) students

abbrev pub stage_of : Option Student → Option Stage
stage_of none = none
stage_of (some p) = some p.stage

abbrev pub stage_in : Read People → String → Option Stage
stage_in (failed reason) id = none
stage_in (ok people) id = stage_of (student_of people.students id)

abbrev pub invoices_of : Read (String → List PaidInvoice) → String → List PaidInvoice
invoices_of (failed reason) id = []
invoices_of (ok paid) id = paid id

abbrev pub is_read {ℓ} : {A : Type ℓ} → Read A → Bool
is_read (ok a) = true
is_read (failed reason) = false

abbrev pub ended_before : Option Date → Date → Bool
ended_before none date = false
ended_before (some until) date = ltb until date

abbrev pub is_paid : List PaidInvoice → Bool
is_paid [] = false
is_paid (i ∷ is) = true

abbrev pub reason_for : Option Stage → Bool → Bool → Option UnverifiedReason
reason_for none paid ended = some not_synced
reason_for (some stage) false ended = some unpaid
reason_for (some stage) true ended =
    if not (is_verifying stage) && not ended then some stage_not_active else none

-- The reason of `classOf`; none means verified.
abbrev pub unverified_reason : NetNewInput → SeriesFact → Option UnverifiedReason
unverified_reason input s =
    reason_for (stage_in input.people s.student_id)
      (is_paid (invoices_of input.payments s.student_id))
      (ended_before s.effective_until input.today)

abbrev pub is_classified : NetNewInput → Bool
is_classified input = is_read input.people && is_read input.payments

abbrev pub class_from : Bool → Option UnverifiedReason → EventClass
class_from false reason = unclassified
class_from true none = verified
class_from true (some reason) = unverified

abbrev pub class_of : NetNewInput → SeriesFact → EventClass
class_of input s = class_from (is_classified input) (unverified_reason input s)
