-- ===== src/Work/Tests.antt =====
-- Concrete work, and the theorem of the component at it.
use ap_academy_landing.Prelude.{ℕ, false, none, some, [], ◌∷◌, All, SortedFrom}
use ap_academy_landing.Work.{Assessment, dated_work, day_of_item}
use ap_academy_landing.Work.Upcoming.{Listed, dated_work-Listed}

abbrev due_on : ℕ → Assessment
due_on d = record {
  due_date = some d;
  held_on = none;
  student_done_at = none;
  score_earned = none;
  excused = false;
}

dated_work-Listed_example :
    All (Listed 740290) (dated_work (due_on 740300 ∷ due_on 740295 ∷ []) 740290 5)
    × SortedFrom day_of_item 0 (dated_work (due_on 740300 ∷ due_on 740295 ∷ []) 740290 5)
dated_work-Listed_example = dated_work-Listed (due_on 740300 ∷ due_on 740295 ∷ []) 740290 5
