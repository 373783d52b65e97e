-- ===== src/Billing/Month.antt =====
-- `buildBillingInput` of apps/tracker/lib/domain/billing/month-input.ts. The reference of a class is
-- the pair of its parts; `behind` is the zone's clock, `key_le` and `str_le` are collations.
use ap_academy_landing.Prelude.{
  ℕ, String, Bool, true, false, not, ◌&&◌, ◌||◌, Option, none, some, List, map, ltb, leb, ◌==◌,
  if◌then◌else◌, any, filter, find, str_eq, sort_by, find_last, is_some,
}
use ap_academy_landing.Wallclock.{Date, Time, Instant}
use ap_academy_landing.Calendar.{month_range}
use ap_academy_landing.Recurrence.{
  ClassSeries, ClassException, ClassPurpose, ChangeKind, SeriesKind, Status, Occurrence, Key,
  key_of, key_eq, is_cancelled,
}
use ap_academy_landing.Recurrence.Expand.{expand_occurrences}
use ap_academy_landing.Billing.Charge.{
  ChargeStateName, ChargeInput, OutcomeName, not_recorded, MakeupState, unlinked, linked, made,
  is_delivered, is_makeup, charge_state,
}

pub record OutcomeInput : Type 0 where
  pub series_id : String
  pub original_date : Date
  pub outcome : OutcomeName
  pub pending : Bool

pub data SyncState : Type 0 where
  pending synced failed : SyncState

pub record SyncInput : Type 0 where
  pub state : SyncState
  pub stale : Bool

pub data SchedulerState : Type 0 where
  scheduled moved cancelled one_off : SchedulerState

pub record BillingOccurrence : Type 0 where
  pub occurrence_ref : Key
  pub series_id : String
  pub original_date : Date
  pub date : Date
  pub start_time : Time
  pub duration_minutes : ℕ
  pub subject : String
  pub teacher_id : String
  pub scheduler_state : SchedulerState
  pub purpose : Option ClassPurpose
  pub moved_from : Option Date
  pub makeup_for : Option Date
  pub unlinked_makeup : Bool
  pub outcome : OutcomeName
  pub charge : ChargeStateName
  pub unconfirmed : Bool

pub record StudentInput : Type 0 where
  pub student_id : String
  pub sync : SyncInput

pub record StudentEntries : Type 0 where
  pub student_id : String
  pub sync : SyncInput
  pub occurrences : List BillingOccurrence

abbrev pub scheduler_state : Status → SeriesKind → SchedulerState
scheduler_state Status.cancelled k = cancelled
scheduler_state Status.moved k = moved
scheduler_state Status.scheduled SeriesKind.one_off = one_off
scheduler_state Status.scheduled SeriesKind.weekly = scheduled

abbrev pub is_cancellation : ChangeKind → Bool
is_cancellation ChangeKind.cancelled = true
is_cancellation ChangeKind.moved = false

abbrev pub is_one_off : SeriesKind → Bool
is_one_off SeriesKind.one_off = true
is_one_off SeriesKind.weekly = false

abbrev pub id_is : Option String → String → Bool
id_is none id = false
id_is (some x) id = str_eq x id

-- `outcomeOf.get(key(seriesId, originalDate))`
abbrev pub outcome_at : List OutcomeInput → String → Date → Option OutcomeInput
outcome_at outcomes id date =
    find_last (λ x. key_eq (key_of x.series_id x.original_date) (key_of id date)) outcomes

-- `cancelledById.get(id)`
abbrev pub cancelled_by_id : List ClassException → String → Option ClassException
cancelled_by_id exceptions id = find_last (λ e. is_cancellation e.kind && id_is e.id id) exceptions

-- `makeupOf.get(exceptionId)`
abbrev pub makeup_of : List ClassSeries → String → Option ClassSeries
makeup_of series id =
    find_last (λ s. is_one_off s.kind && (is_makeup s.purpose && id_is s.makeup_for id)) series

abbrev pub outcome_name : Option OutcomeInput → OutcomeName
outcome_name none = not_recorded
outcome_name (some x) = x.outcome

abbrev pub is_pending : Option OutcomeInput → Bool
is_pending none = false
is_pending (some x) = is_delivered x.outcome && x.pending

-- The cancelled class that a makeup series names. A series is always found: the occurrence comes from
-- its expansion.
abbrev pub link_from : List ClassException → Option String → Option ClassException
link_from exceptions none = none
link_from exceptions (some id) = cancelled_by_id exceptions id

abbrev pub link_of : List ClassException → Bool → Option ClassSeries → Option ClassException
link_of exceptions false s = none
link_of exceptions true none = none
link_of exceptions true (some s) = link_from exceptions s.makeup_for

abbrev pub made_state : List OutcomeInput → Option ClassSeries → MakeupState
made_state outcomes none = unlinked
made_state outcomes (some m) =
    if is_delivered (outcome_name (outcome_at outcomes m.id m.start_date)) then made else linked

abbrev pub made_by : List ClassSeries → List OutcomeInput → Option String → MakeupState
made_by series outcomes none = unlinked
made_by series outcomes (some id) = made_state outcomes (makeup_of series id)

abbrev pub made_for : List ClassSeries → List OutcomeInput → Option ClassException → MakeupState
made_for series outcomes none = unlinked
made_for series outcomes (some e) = made_by series outcomes e.id

abbrev pub original_of : Option ClassException → Option Date
original_of none = none
original_of (some e) = some e.original_date

abbrev pub moved_from_of : Status → Date → Option Date
moved_from_of Status.moved date = some date
moved_from_of Status.scheduled date = none
moved_from_of Status.cancelled date = none

-- What `chargeState` is given for an occurrence.
abbrev pub charge_input :
    List ClassSeries → List ClassException → List OutcomeInput → Instant → Occurrence → ChargeInput
charge_input series exceptions outcomes now o =
    let own = outcome_at outcomes o.series_id o.original_date in
    let exception =
      find (λ e. key_eq (key_of e.series_id e.original_date) (key_of o.series_id o.original_date))
        exceptions in
    record {
      status = o.status;
      kind = o.kind;
      purpose = o.purpose;
      past = leb o.ends_at now;
      outcome = outcome_name own;
      outcome_pending = is_pending own;
      makeup = if is_cancelled o.status then made_for series outcomes exception else unlinked;
    }

unfoldable pub to_entry :
    List ClassSeries
    → List ClassException
    → List OutcomeInput
    → Instant
    → Occurrence
    → BillingOccurrence
unfolding charge_state
to_entry series exceptions outcomes now o =
    let own = outcome_at outcomes o.series_id o.original_date in
    let link =
      link_of exceptions (is_makeup o.purpose) (find (λ s. str_eq s.id o.series_id) series) in
    let charge = charge_state (charge_input series exceptions outcomes now o) in
    record {
      occurrence_ref = key_of o.series_id o.original_date;
      series_id = o.series_id;
      original_date = o.original_date;
      date = o.date;
      start_time = o.start_time;
      duration_minutes = o.duration_minutes;
      subject = o.subject;
      teacher_id = o.staff_id;
      scheduler_state = scheduler_state o.status o.kind;
      purpose = o.purpose;
      moved_from = moved_from_of o.status o.original_date;
      makeup_for = original_of link;
      unlinked_makeup = is_makeup o.purpose && not (is_some link);
      outcome = outcome_name own;
      charge = charge.state;
      unconfirmed = charge.unconfirmed;
    }

abbrev pub series_of : List ClassSeries → String → List ClassSeries
series_of series student_id = filter (λ s. str_eq s.student_id student_id) series

-- `exceptions.filter((e) => ids.has(e.seriesId))`
abbrev pub exceptions_of : List ClassSeries → List ClassException → List ClassException
exceptions_of own exceptions = filter (λ e. any (λ s. str_eq s.id e.series_id) own) exceptions

module _ (behind : Instant → ℕ) (key_le : Key → Key → Bool) (str_le : String → String → Bool) where
  abbrev pub entry_le : BillingOccurrence → BillingOccurrence → Bool
  entry_le a b =
      ltb a.date b.date
      || (a.date == b.date
          && (ltb a.start_time b.start_time
              || (a.start_time == b.start_time && key_le a.occurrence_ref b.occurrence_ref)))

  unfoldable pub student_entries :
      List ClassSeries
      → List ClassException
      → List OutcomeInput
      → Instant
      → ℕ
      → String
      → List BillingOccurrence
  unfolding to_entry expand_occurrences month_range
  student_entries series exceptions outcomes now month student_id =
      let own = series_of series student_id in
      let range = month_range month in
      sort_by entry_le (
        map (to_entry series exceptions outcomes now)
          (expand_occurrences behind key_le own (exceptions_of own exceptions) range.0 range.1))

  -- The students of the input; the month, the versions and `asOf` are passed through.
  unfoldable pub build_billing_input :
      List StudentInput
      → List ClassSeries
      → List ClassException
      → List OutcomeInput
      → Instant
      → ℕ
      → List StudentEntries
  unfolding student_entries
  build_billing_input students series exceptions outcomes now month =
      map
        (λ st. record {
          student_id = st.student_id;
          sync = st.sync;
          occurrences = student_entries series exceptions outcomes now month st.student_id;
        })
        (sort_by (λ a b. str_le a.student_id b.student_id) students)
