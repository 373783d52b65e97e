-- ===== src/Billing/Tests.antt =====
-- A concrete class, and the theorem on its charge.
use ap_academy_landing.Prelude.{
  true, false, none, ℕ, ◌≡◌, not, ◌&&◌, ◌||◌, [], ◌∷◌, if◌then◌else◌, any, All, str_eq, is_some,
}
use ap_academy_landing.Recurrence.{SeriesKind, Status, ClassSeries, key_eq, is_cancelled}
use ap_academy_landing.Calendar.{month_range}
use ap_academy_landing.Recurrence.Shown.{shown}
use ap_academy_landing.Billing.Month.{student_entries, series_of, exceptions_of}
use ap_academy_landing.Billing.Entries.{any-student_entries, student_entries-Consistent, Consistent}
use ap_academy_landing.Billing.Charge.{
  charge_state-table, is_no_show, is_forfeit, is_made, is_credit_owed, is_made_up, is_delivered,
  is_makeup, took_place, charge_state, is_chargeable, ChargeInput, not_recorded, unlinked,
}

-- A class of the past with no outcome recorded
abbrev past_class : ChargeInput
past_class = record {
  status = Status.scheduled;
  kind = SeriesKind.weekly;
  purpose = none;
  past = true;
  outcome = not_recorded;
  outcome_pending = false;
  makeup = unlinked;
}

charge_state-table_example :
    (is_chargeable (charge_state past_class).state ≡ (
      took_place past_class
      && (not (is_makeup past_class.purpose)
          && (is_delivered past_class.outcome || past_class.past))))
    × (is_made_up (charge_state past_class).state ≡ (
        took_place past_class && (is_makeup past_class.purpose && is_delivered past_class.outcome)))
    × (is_credit_owed (charge_state past_class).state
        ≡ (is_cancelled past_class.status && not (is_made past_class.makeup)))
    × (is_forfeit (charge_state past_class).state
        ≡ (not (is_cancelled past_class.status) && is_no_show past_class.outcome))
    × ((charge_state past_class).unconfirmed ≡ (
        took_place past_class
        && (if is_delivered past_class.outcome
            then past_class.outcome_pending
            else past_class.past)))
charge_state-table_example = charge_state-table past_class

-- Mondays at 16:00 from 2026-11-09 (day 740294) on
abbrev weekly_math : ClassSeries
weekly_math = record {
  id = "s1";
  staff_id = "t1";
  student_id = "p1";
  subject = "Math";
  kind = SeriesKind.weekly;
  start_date = 740294;
  start_time = 960;
  duration_minutes = 60;
  effective_until = none;
  purpose = none;
  makeup_for = none;
}

-- Toronto in winter
abbrev five_hours : ℕ → ℕ
five_hours t = 18000000

any-student_entries_example :
    any
      (λ e. key_eq e.occurrence_ref ("s1", 740301))
      (student_entries five_hours (λ a b. true) (λ a b. true) (weekly_math ∷ []) [] [] 0 24322 "p1")
    ≡ any
        (λ s.
          str_eq s.id "s1"
          && is_some (
              shown five_hours s
                (exceptions_of (series_of (weekly_math ∷ []) "p1") [])
                (month_range 24322).0
                (month_range 24322).1
                740301))
        (series_of (weekly_math ∷ []) "p1")
any-student_entries_example =
    any-student_entries five_hours (λ a b. true) (λ a b. true) (weekly_math ∷ []) [] [] 0 24322 "p1"
      "s1" 740301

student_entries-Consistent_example :
    All Consistent
      (student_entries five_hours (λ a b. true) (λ a b. true) (weekly_math ∷ []) [] [] 0 24322 "p1")
student_entries-Consistent_example =
    student_entries-Consistent five_hours (λ a b. true) (λ a b. true) (weekly_math ∷ []) [] [] 0
      24322 "p1"
