-- ===== src/Recurrence/Split.antt =====
-- `planSplit` of recurrence.ts: "this class and future".
use ap_academy_landing.Prelude.{
  inr, ap, inl, Bool-cases, filter, map, All, ℕ, ◌+◌, ◌-◌, ◌≤◌, String, ◌≡◌, Bool, true, false,
  ◌||◌, Option, none, some, List, [], ◌∷◌, arith, ltb, leb, if◌then◌else◌, some_or, refl, ◌&&◌,
}
use ap_academy_landing.Wallclock.{Date, Time, add_days, sub_days, iso_weekday, iso_week_start}
use ap_academy_landing.Recurrence.Types.{
  ClassSeries, ClassException, weekly, is_pattern_date, pattern_on,
}

-- The fields that are given replace those of the series.
pub record SplitChanges : Type 0 where
  pub staff_id : Option String
  pub student_id : Option String
  pub subject : Option String
  pub start_time : Option Time
  pub duration_minutes : Option ℕ
  pub weekday : Option ℕ

pub record SplitPlan : Type 0 where
  pub old_series : ClassSeries
  pub new_series : ClassSeries
  pub exceptions : List ClassException

abbrev pub new_weekday : SplitChanges → Date → ℕ
new_weekday changes from_date = some_or changes.weekday (iso_weekday from_date)

-- `addDays(isoWeekStart(date), weekday - 1)`
abbrev pub on_weekday : ℕ → Date → Date
on_weekday weekday date = add_days (iso_week_start date) (weekday - 1)

unfoldable pub new_start : Date → ℕ → Date
new_start from_date weekday =
    if ltb (on_weekday weekday from_date) from_date
    then add_days (on_weekday weekday from_date) 7
    else on_weekday weekday from_date

-- The loop over the exceptions.
unfoldable pub carry : String → Date → ℕ → Date → List ClassException → List ClassException
carry new_id from_date weekday start [] = []
carry new_id from_date weekday start (e ∷ es) =
    let rest = carry new_id from_date weekday start es in
    let mapped = on_weekday weekday e.original_date in
    if ltb e.original_date from_date
    then rest
    else if leb start mapped
    then record e { series_id = new_id; original_date = mapped } ∷ rest
    else rest

unfoldable pub plan_split :
    ClassSeries → List ClassException → Date → SplitChanges → String → SplitPlan
unfolding new_start carry
plan_split s exceptions from_date changes new_id =
    let weekday = new_weekday changes from_date in
    let start = new_start from_date weekday in
    record {
      old_series = record s { effective_until = some (sub_days from_date 1) };
      new_series = record s {
        id = new_id;
        staff_id = some_or changes.staff_id s.staff_id;
        student_id = some_or changes.student_id s.student_id;
        subject = some_or changes.subject s.subject;
        start_time = some_or changes.start_time s.start_time;
        duration_minutes = some_or changes.duration_minutes s.duration_minutes;
        kind = weekly;
        start_date = start;
      };
      exceptions = carry new_id from_date weekday start exceptions;
    }

-- From `from_date` on, and less than a week later, on the new weekday.
pub new_start_bounds :
    (d w : ℕ)
    → 7 ≤ d
    → 1 ≤ w
    → w ≤ 7
    → (d ≤ new_start d w) × (new_start d w ≤ d + 6) × (iso_weekday (new_start d w) ≡ w)
unfolding new_start
new_start_bounds d w h lo hi = ground arith

-- The new series starts on the first date from `fromDate` on that has the new weekday, for a
-- weekday from 1 to 7.
pub start-plan_split :
    (s : ClassSeries) (es : List ClassException) (d : Date) (changes : SplitChanges) (id : String)
    → 7 ≤ d
    → 1 ≤ new_weekday changes d
    → new_weekday changes d ≤ 7
    → let start = (plan_split s es d changes id).new_series.start_date in
      (d ≤ start) × (start ≤ d + 6) × (iso_weekday start ≡ new_weekday changes d)
unfolding plan_split
start-plan_split s es d changes id h lo hi = new_start_bounds d (new_weekday changes d) h lo hi

-- The test of a weekly rule, with its parts.
abbrev weekly_on : Option Date → Date → Date → Bool
weekly_on until start date = if ltb date start then false else pattern_on weekly until start date

old_before :
    (start d date : Date)
    → 1 ≤ d
    → (weekly_on (some (sub_days d 1)) start date && leb d date) ≡ false
old_before start d date h = ground arith

new_after :
    (until : Option Date) (start d date : Date)
    → d ≤ start
    → (weekly_on until start date && ltb date d) ≡ false
new_after until start d date h = ground arith

new_start_same : (d : Date) → 7 ≤ d → new_start d (iso_weekday d) ≡ d
unfolding new_start
new_start_same d h = ground arith

same_dates :
    (until : Option Date) (start d date : Date)
    → 1 ≤ d
    → weekly_on until start d ≡ true
    → weekly_on until start date
      ≡ (weekly_on (some (sub_days d 1)) start date || weekly_on until d date)
same_dates none start d date h p = ground arith
same_dates (some u) start d date h p = ground arith

-- For a weekly series, a date of the second week or later and a new weekday from 1 to 7: no date from
-- `fromDate` on is on the pattern of the old series, and none before it on that of the new one. This
-- is about the pattern, before classes are moved.
pub plan_split_apart :
    (s : ClassSeries) (es : List ClassException) (d : Date) (changes : SplitChanges) (id : String)
    (date : Date)
    → s.kind ≡ weekly
    → 7 ≤ d
    → 1 ≤ new_weekday changes d
    → new_weekday changes d ≤ 7
    → let plan = plan_split s es d changes id in
      ((is_pattern_date plan.old_series date && leb d date) ≡ false)
      × ((is_pattern_date plan.new_series date && ltb date d) ≡ false)
unfolding plan_split is_pattern_date
plan_split_apart s es d changes id date k h lo hi = rw k (
  old_before s.start_date d date (omega arith),
  new_after s.effective_until (new_start d (new_weekday changes d)) d date
      (new_start_bounds d (new_weekday changes d) h lo hi).0,
)

-- Splitting a weekly series at one of its own dates, with the weekday kept, moves no class: a date
-- is on the pattern of the series exactly if it is on that of one of the two parts.
pub plan_split_same_dates :
    (s : ClassSeries) (es : List ClassException) (d : Date) (changes : SplitChanges) (id : String)
    (date : Date)
    → s.kind ≡ weekly
    → 7 ≤ d
    → is_pattern_date s d ≡ true
    → changes.weekday ≡ none
    → let plan = plan_split s es d changes id in
      is_pattern_date s date
      ≡ (is_pattern_date plan.old_series date || is_pattern_date plan.new_series date)
unfolding plan_split is_pattern_date
plan_split_same_dates s es d changes id date k h p w =
    rw (k, w, new_start_same d h)
      (same_dates s.effective_until s.start_date d date (omega arith) (rw k at p))

-- Weekday `iso_weekday d` of the week of a date that has that weekday.
on_weekday_self : (w e : ℕ) → 7 ≤ e → iso_weekday e ≡ w → on_weekday w e ≡ e
on_weekday_self w e h q = omega arith

abbrev pub with_series : String → ClassException → ClassException
with_series id e = record e { series_id = id }

-- On the weekday of `w`, and not in the first week of the calendar.
abbrev pub OnWeekday : ℕ → ClassException → Type 0
OnWeekday w e = (7 ≤ e.original_date) × (iso_weekday e.original_date ≡ w)

not_before : (d x : ℕ) → leb d x ≡ true → ltb x d ≡ false
not_before d x h = ground arith

before : (d x : ℕ) → leb d x ≡ false → ltb x d ≡ true
before d x h = ground arith

carry_same :
    (id : String) (d w : ℕ) (es : List ClassException)
    → All (OnWeekday w) es
    → carry id d w d es ≡ map (with_series id) (filter (λ e. leb d e.original_date) es)
unfolding carry
carry_same id d w [] a = refl
carry_same id d w (e ∷ es) a = elim (Bool-cases (leb d e.original_date)) [
  | inl q ↦
      rw (on_weekday_self w e.original_date a.0.0 a.0.1, q, not_before d e.original_date q)
        (ap (◌∷◌ (with_series id e)) (carry_same id d w es a.1))
  | inr q ↦
      rw (on_weekday_self w e.original_date a.0.0 a.0.1, q, before d e.original_date q)
        (carry_same id d w es a.1)
]

-- With the weekday kept, from a date of the second week or later, and where every exception is of an
-- original date on the weekday of `fromDate` that is not in the first week either: the exceptions from
-- `fromDate` on go to the new series with their dates unchanged, and no other exception does.
pub exceptions-plan_split :
    (s : ClassSeries) (es : List ClassException) (d : Date) (changes : SplitChanges) (id : String)
    → 7 ≤ d
    → changes.weekday ≡ none
    → All (OnWeekday (iso_weekday d)) es
    → (plan_split s es d changes id).exceptions
      ≡ map (with_series id) (filter (λ e. leb d e.original_date) es)
unfolding plan_split
exceptions-plan_split s es d changes id h w a =
    rw (w, new_start_same d h) (carry_same id d (iso_weekday d) es a)
