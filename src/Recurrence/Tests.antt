-- ===== src/Recurrence/Tests.antt =====
-- Concrete series, and the theorems of the component at them.
use ap_academy_landing.Prelude.{
  ℕ, ◌≡◌, refl, true, ◌&&◌, ◌||◌, none, some, [], ◌∷◌, map, arith, leb, ◌==◌, any, filter, find,
  All, str_eq, false, ltb, is_some,
}
use ap_academy_landing.Recurrence.Types.{
  ClassSeries, ClassException, ChangeKind, weekly, is_pattern_date, in_range, key_eq,
}
use ap_academy_landing.Recurrence.Pattern.{pattern_dates, has_date, has_date-pattern_dates}
use ap_academy_landing.Recurrence.Expand.{expand_series, expand_occurrences}
use ap_academy_landing.Recurrence.Shown.{shown, find-expand_series}
use ap_academy_landing.Recurrence.Listed.{
  ListedBy, expand_occurrences-ListedBy, any-expand_occurrences,
}
use ap_academy_landing.Recurrence.Distinct.{Distinct, Distinct-expand_series}
use ap_academy_landing.Recurrence.Split.{
  SplitChanges, plan_split, plan_split_apart, plan_split_same_dates, exceptions-plan_split,
  with_series,
}

-- Mondays at 16:00 from 2026-11-09 (day 740294) on
abbrev mondays : ClassSeries
mondays = record {
  id = "s1";
  staff_id = "t1";
  student_id = "p1";
  subject = "Math";
  kind = weekly;
  start_date = 740294;
  start_time = 960;
  duration_minutes = 60;
  effective_until = none;
  purpose = none;
  makeup_for = none;
}

-- The class of 2026-11-16 moved to the Wednesday, at 17:00
abbrev to_wednesday : ClassException
to_wednesday = record {
  id = none;
  series_id = "s1";
  original_date = 740301;
  kind = ChangeKind.moved;
  new_date = some 740303;
  new_start_time = some 1020;
}

-- Toronto in winter
abbrev five_hours : ℕ → ℕ
five_hours t = 18000000

abbrev no_changes : SplitChanges
no_changes = record {
  staff_id = none;
  student_id = none;
  subject = none;
  start_time = some 900;
  duration_minutes = none;
  weekday = none;
}

dates_of_november : pattern_dates mondays 740286 740315 ≡ 740294 ∷ 740301 ∷ 740308 ∷ 740315 ∷ []
unfolding pattern_dates
dates_of_november = refl

has_date-pattern_dates_example :
    has_date (pattern_dates mondays 740286 740315) 740301
    ≡ (is_pattern_date mondays 740301 && in_range 740286 740315 740301)
has_date-pattern_dates_example = has_date-pattern_dates mondays 740286 740315 740301

find-expand_series_example :
    find
      (λ o. o.original_date == 740301)
      (expand_series five_hours mondays (to_wednesday ∷ []) 740302 740308)
    ≡ shown five_hours mondays (to_wednesday ∷ []) 740302 740308 740301
find-expand_series_example =
    find-expand_series five_hours mondays (to_wednesday ∷ []) 740302 740308 740301

expand_occurrences-ListedBy_example :
    All
      (ListedBy (mondays ∷ []) 740302 740308)
      (expand_occurrences five_hours (λ a b. true) (mondays ∷ []) (to_wednesday ∷ []) 740302 740308)
expand_occurrences-ListedBy_example =
    expand_occurrences-ListedBy five_hours (λ a b. true) (mondays ∷ []) (to_wednesday ∷ []) 740302
      740308

any-expand_occurrences_example :
    any
      (λ o. key_eq o.occurrence_key ("s1", 740301))
      (expand_occurrences five_hours (λ a b. true) (mondays ∷ []) (to_wednesday ∷ []) 740302 740308)
    ≡ any
        (λ s.
          str_eq s.id "s1" && is_some (shown five_hours s (to_wednesday ∷ []) 740302 740308 740301))
        (mondays ∷ [])
any-expand_occurrences_example =
    any-expand_occurrences five_hours (λ a b. true) "s1" 740301 (mondays ∷ []) (to_wednesday ∷ [])
      740302 740308

Distinct-expand_series_example : Distinct (
    map (λ o. o.original_date) (expand_series five_hours mondays (to_wednesday ∷ []) 740294 740308))
Distinct-expand_series_example =
    Distinct-expand_series five_hours mondays (to_wednesday ∷ []) 740294 740308

plan_split_apart_example :
    let plan = plan_split mondays [] 740301 no_changes "s2" in
    ((is_pattern_date plan.old_series 740308 && leb 740301 740308) ≡ false)
    × ((is_pattern_date plan.new_series 740308 && ltb 740308 740301) ≡ false)
plan_split_apart_example =
    plan_split_apart mondays [] 740301 no_changes "s2" 740308 refl (omega arith) (omega arith)
      (omega arith)

plan_split_same_dates_example :
    let plan = plan_split mondays [] 740301 no_changes "s2" in
    is_pattern_date mondays 740308
    ≡ (is_pattern_date plan.old_series 740308 || is_pattern_date plan.new_series 740308)
unfolding is_pattern_date
plan_split_same_dates_example =
    plan_split_same_dates mondays [] 740301 no_changes "s2" 740308 refl (omega arith) refl refl

exceptions-plan_split_example :
    (plan_split mondays (to_wednesday ∷ []) 740301 no_changes "s2").exceptions
    ≡ map (with_series "s2") (filter (λ e. leb 740301 e.original_date) (to_wednesday ∷ []))
exceptions-plan_split_example =
    exceptions-plan_split mondays (to_wednesday ∷ []) 740301 no_changes "s2" (omega arith) refl
      (omega arith)
