-- ===== src/MonthView.antt =====
-- `classState` and `buildMonth` of apps/tracker/lib/domain/schedule/month.ts: a month of a child's
-- classes in weeks from Sunday to Saturday. The clock and the collation are those of Recurrence; a
-- month is a number, as in Calendar.
pub mod Grid
mod Tests
use ap_academy_landing.Prelude.{
  ℕ, zero, suc, ◌+◌, ◌-◌, String, Bool, true, false, ◌&&◌, ◌||◌, Option, none, some, List, [], ◌∷◌,
  ◌++◌, map, ltb, leb, ◌==◌, if◌then◌else◌, length, filter, str_eq, sort_by, find_last,
}
use ap_academy_landing.Wallclock.{Date, Time, Instant, add_days, iso_weekday}
use ap_academy_landing.Calendar.{month_range, sunday_week_of, shift_month}
use ap_academy_landing.Recurrence.{
  ClassSeries, ClassException, ClassPurpose, ChangeKind, SeriesKind, Status, Occurrence, Key,
  in_range,
}
use ap_academy_landing.Recurrence.Expand.{expand_occurrences}

pub data ClassState : Type 0 where
  scheduled moved cancelled plain_class : ClassState
  for_purpose : ClassPurpose → ClassState

pub record CalendarClass : Type 0 where
  pub class_key : Key
  pub date : Date
  pub start_time : Time
  pub end_time : Time
  pub subject : String
  pub staff_id : String
  pub state : ClassState
  pub original : Option (Date × Time)
  pub past : Bool
  pub makeup_for : Option Date

pub record Day : Type 0 where
  pub date : Date
  pub in_month : Bool
  pub is_today : Bool
  pub classes : List CalendarClass

pub record MonthSummary : Type 0 where
  pub total : ℕ
  pub past : ℕ
  pub upcoming : ℕ

pub record MonthView : Type 0 where
  pub month : ℕ
  pub prev : ℕ
  pub next : ℕ
  pub today : Date
  pub weeks : List (List Day)
  pub summary : MonthSummary
  pub this_week : List CalendarClass

abbrev pub one_off_state : Option ClassPurpose → ClassState
one_off_state none = plain_class
one_off_state (some p) = for_purpose p

unfoldable pub class_state : Status → SeriesKind → Option ClassPurpose → ClassState
class_state Status.cancelled k p = cancelled
class_state Status.moved k p = moved
class_state Status.scheduled SeriesKind.weekly p = scheduled
class_state Status.scheduled SeriesKind.one_off p = one_off_state p

-- `startOf.get(id) ?? fallback`
abbrev pub start_from : Option ClassSeries → Time → Time
start_from none fallback = fallback
start_from (some s) fallback = s.start_time

abbrev pub series_at : List ClassSeries → String → Option ClassSeries
series_at series id = find_last (λ s. str_eq s.id id) series

abbrev pub cancels : ChangeKind → Bool
cancels ChangeKind.cancelled = true
cancels ChangeKind.moved = false

abbrev pub id_equals : Option String → String → Bool
id_equals none id = false
id_equals (some x) id = str_eq x id

abbrev pub date_of : Option ClassException → Option Date
date_of none = none
date_of (some e) = some e.original_date

-- `cancelledOn.get(id)`
abbrev pub cancelled_on : List ClassException → String → Option Date
cancelled_on exceptions id =
    date_of (find_last (λ e. cancels e.kind && id_equals e.id id) exceptions)

abbrev pub linked_date : List ClassException → Option String → Option Date
linked_date exceptions none = none
linked_date exceptions (some id) = cancelled_on exceptions id

abbrev pub link_at : List ClassException → Option ClassSeries → Option Date
link_at exceptions none = none
link_at exceptions (some s) = linked_date exceptions s.makeup_for

abbrev pub makeup_date : List ClassSeries → List ClassException → ClassState → String → Option Date
makeup_date series exceptions (for_purpose ClassPurpose.makeup) id =
    link_at exceptions (series_at series id)
makeup_date series exceptions (for_purpose ClassPurpose.trial) id = none
makeup_date series exceptions (for_purpose ClassPurpose.extra) id = none
makeup_date series exceptions scheduled id = none
makeup_date series exceptions moved id = none
makeup_date series exceptions cancelled id = none
makeup_date series exceptions plain_class id = none

abbrev pub original_at : List ClassSeries → ClassState → Occurrence → Option (Date × Time)
original_at series moved o =
    some (o.original_date, start_from (series_at series o.series_id) o.start_time)
original_at series scheduled o = none
original_at series cancelled o = none
original_at series plain_class o = none
original_at series (for_purpose p) o = none

unfoldable pub to_class :
    List ClassSeries → List ClassException → Instant → Occurrence → CalendarClass
unfolding class_state
to_class series exceptions now o =
    let state = class_state o.status o.kind o.purpose in
    record {
      class_key = o.occurrence_key;
      date = o.date;
      start_time = o.start_time;
      end_time = o.end_time;
      subject = o.subject;
      staff_id = o.staff_id;
      state = state;
      original = original_at series state o;
      past = leb o.ends_at now;
      makeup_for = makeup_date series exceptions state o.series_id;
    }

abbrev pub is_live : ClassState → Bool
is_live cancelled = false
is_live scheduled = true
is_live moved = true
is_live plain_class = true
is_live (for_purpose p) = true

-- `weeks[weeks.length - 1].push(day)`; the first day is a Sunday, so that a week is there.
abbrev pub push_day : List (List Day) → Day → List (List Day)
push_day [] x = []
push_day (w ∷ []) x = (w ++ x ∷ []) ∷ []
push_day (w ∷ v ∷ ws) x = w ∷ push_day (v ∷ ws) x

abbrev pub day_of : List CalendarClass → Date → Date → Date → Date → Day
day_of classes from to today d =
    let inside = in_range from to d in
    record {
      date = d;
      in_month = inside;
      is_today = d == today;
      classes = if inside then filter (λ c. c.date == d) classes else [];
    }

-- The loop over the dates, on the rounds that are left.
unfoldable pub weeks_from : (Date → Day) → ℕ → Date → List (List Day) → List (List Day)
weeks_from cell zero d weeks = weeks
weeks_from cell (suc n) d weeks =
    weeks_from cell n (add_days d 1)
      (push_day (if iso_weekday d == 7 then weeks ++ [] ∷ [] else weeks) (cell d))

-- `sundayWeekOf(range.from).from` up to `sundayWeekOf(range.to).to`
unfoldable pub month_weeks : (Date → Day) → Date → Date → List (List Day)
unfolding weeks_from sunday_week_of
month_weeks cell from to =
    let first = (sunday_week_of from).0 in
    weeks_from cell ((sunday_week_of to).1 + 1 - first) first []

module _ (behind : Instant → ℕ) (key_le : Key → Key → Bool) where
  abbrev pub by_time : CalendarClass → CalendarClass → Bool
  by_time a b =
      ltb a.date b.date
      || (a.date == b.date
          && (ltb a.start_time b.start_time
              || (a.start_time == b.start_time && key_le a.class_key b.class_key)))

  unfoldable pub classes_in :
      List ClassSeries → List ClassException → Instant → Date → Date → List CalendarClass
  unfolding expand_occurrences to_class
  classes_in series exceptions now from to = sort_by by_time (
      map (to_class series exceptions now)
        (expand_occurrences behind key_le series exceptions from to))

  -- `shiftMonth(month, -1)` is a month before; months start at year 100.
  unfoldable pub build_month :
      List ClassSeries → List ClassException → ℕ → Date → Instant → MonthView
  unfolding classes_in month_weeks month_range sunday_week_of
  build_month series exceptions month today now =
      let range = month_range month in
      let classes = classes_in series exceptions now range.0 range.1 in
      let live = filter (λ c. is_live c.state) classes in
      let past = length (filter (λ c. c.past) live) in
      let week = sunday_week_of today in
      record {
        month = month;
        prev = month - 1;
        next = shift_month month 1;
        today = today;
        weeks = month_weeks (day_of classes range.0 range.1 today) range.0 range.1;
        summary = record { total = length live; past = past; upcoming = length live - past };
        this_week = classes_in series exceptions now week.0 week.1;
      }
