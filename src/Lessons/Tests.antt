-- ===== src/Lessons/Tests.antt =====
-- Concrete lessons, and the theorems of the component at them.
use ap_academy_landing.Prelude.{◌≡◌, not, ◌&&◌, none, some, [], ◌∷◌, ◌==◌, any, str_eq}
use ap_academy_landing.Recurrence.{Occurrence, Status, SeriesKind, key_of, key_eq}
use ap_academy_landing.Lessons.{OutcomeKey, LessonRow, delivered, reconcile}
use ap_academy_landing.Lessons.Reconcile.{
  is_delivered_last, is_lesson_of, unlinked-reconcile, doubles-reconcile,
}

-- A class on 2026-11-09
abbrev one_class : Occurrence
one_class = record {
  occurrence_key = ("s1", 740294);
  series_id = "s1";
  original_date = 740294;
  date = 740294;
  start_time = 960;
  end_time = 1020;
  duration_minutes = 60;
  starts_at = 0;
  ends_at = 0;
  staff_id = "t-1";
  student_id = "p1";
  subject = "Math";
  status = Status.scheduled;
  kind = SeriesKind.weekly;
  purpose = none;
}

abbrev one_lesson : LessonRow
one_lesson = record {
  id = "l1";
  date = some 740294;
  staff_ids = "T1" ∷ [];
  student_ids = "p1" ∷ [];
}

abbrev one_outcome : OutcomeKey
one_outcome = record { series_id = "s1"; original_date = 740294; outcome = delivered }

unlinked-reconcile_example :
    any
      (λ u. u.occurrence.start_time == 960)
      (reconcile (one_class ∷ []) (one_outcome ∷ []) (one_lesson ∷ [])).0
    ≡ any
        (λ o.
          not (
            any
              (λ x.
                key_eq (key_of x.series_id x.original_date) (key_of o.series_id o.original_date))
              (one_outcome ∷ []))
          && o.start_time == 960)
        (one_class ∷ [])
unlinked-reconcile_example =
    unlinked-reconcile (λ o same. o.start_time == 960) (one_class ∷ []) (one_outcome ∷ [])
      (one_lesson ∷ [])

doubles-reconcile_example :
    any
      (λ d. str_eq d.lesson.id "l1")
      (reconcile (one_class ∷ []) (one_outcome ∷ []) (one_lesson ∷ [])).1
    ≡ any
        (λ o.
          is_delivered_last o (one_outcome ∷ [])
          && any (λ l. is_lesson_of o l && str_eq l.id "l1") (one_lesson ∷ []))
        (one_class ∷ [])
doubles-reconcile_example =
    doubles-reconcile (λ o l. str_eq l.id "l1") (one_class ∷ []) (one_outcome ∷ [])
      (one_lesson ∷ [])
