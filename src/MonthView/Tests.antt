-- ===== src/MonthView/Tests.antt =====
-- A concrete month, and the theorem of the component at it.
use ap_academy_landing.Prelude.{ℕ, ◌+◌, ◌≡◌, true, ◌&&◌, none, [], ◌∷◌, arith, ◌==◌, any, sum_by}
use ap_academy_landing.Recurrence.{ClassSeries, SeriesKind, in_range}
use ap_academy_landing.Calendar.{month_range}
use ap_academy_landing.MonthView.{build_month, classes_in}
use ap_academy_landing.MonthView.Grid.{counts_of, all_days, any-build_month}

-- Mondays at 16:00 from 2026-11-09 (day 740294) on
abbrev weekly_math : ClassSeries
weekly_math = record {
  id = "s1";
  staff_id = "t1";
  student_id = "p1";
  subject = "Math";
  kind = SeriesKind.weekly;
  start_date = 740294;
  start_time = 960;
  duration_minutes = 60;
  effective_until = none;
  purpose = none;
  makeup_for = none;
}

-- Toronto in winter
abbrev five_hours : ℕ → ℕ
five_hours t = 18000000

any-build_month_example :
    let view = build_month five_hours (λ a b. true) (weekly_math ∷ []) [] 24322 740300 0 in
    let range = month_range 24322 in
    (any (λ x. x.date == 740301 && any (λ c. c.start_time == 960) x.classes) (all_days view.weeks)
      ≡ (in_range range.0 range.1 740301
          && any
              (λ c. c.date == 740301 && c.start_time == 960)
              (classes_in five_hours (λ a b. true) (weekly_math ∷ []) [] 0 range.0 range.1)))
    × (view.summary.total
        ≡ sum_by
            (λ c. counts_of c.state)
            (classes_in five_hours (λ a b. true) (weekly_math ∷ []) [] 0 range.0 range.1))
    × (view.summary.total ≡ view.summary.past + view.summary.upcoming)
any-build_month_example =
    any-build_month five_hours (λ a b. true) (weekly_math ∷ []) [] 24322 740300 0
      (λ c. c.start_time == 960) 740301 (omega arith)
