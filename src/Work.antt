-- ===== src/Work.antt =====
-- apps/tracker/lib/domain/assessment-date.ts, assessment-state.ts and priorities.ts: the state of an
-- assessment and the work that comes up. A score is a natural number; `score_earned` is `none` for
-- null, and the state `"excused"` is `is_excused`.
pub mod Upcoming
mod Tests
use ap_academy_landing.Prelude.{
  ℕ, Bool, false, not, ◌&&◌, Option, none, some, List, map, ltb, leb, if◌then◌else◌, take, sort_by,
  is_some, le_by, filter_map,
}
use ap_academy_landing.Wallclock.{Date, Instant}

pub record Assessment : Type 0 where
  pub due_date : Option Date
  pub held_on : Option Date
  pub student_done_at : Option Instant
  pub score_earned : Option ℕ
  pub excused : Bool

pub data AssessmentState : Type 0 where
  upcoming done awaiting_result graded is_excused : AssessmentState

abbrev pub held_or : Option Date → Option Date → Option Date
held_or none due = due
held_or (some d) due = some d

-- `a.heldOn ?? a.dueDate`
abbrev pub assessment_date : Assessment → Option Date
assessment_date a = held_or a.held_on a.due_date

abbrev pub is_before_day : Option Date → Date → Bool
is_before_day none today = false
is_before_day (some d) today = ltb d today

unfoldable pub assessment_state : Assessment → Date → AssessmentState
assessment_state a today =
    if a.excused
    then is_excused
    else if is_some a.score_earned
    then graded
    else if is_before_day (assessment_date a) today
    then awaiting_result
    else if is_some a.student_done_at
    then done
    else upcoming

-- An item with its date, if it is open, dated, and not before today.
abbrev pub dated : Date → Assessment → Option Date → Option (Assessment × Date)
dated today a none = none
dated today a (some d) =
    if not a.excused && (not (is_some a.score_earned) && leb today d) then some (a, d) else none

abbrev pub day_of_item : Assessment × Date → ℕ
day_of_item x = x.1

abbrev pub open_items : List Assessment → Date → List (Assessment × Date)
open_items items today = filter_map (λ a. dated today a (assessment_date a)) items

-- The items with their dates, before the last `map`.
unfoldable pub dated_work : List Assessment → Date → ℕ → List (Assessment × Date)
unfolding sort_by
dated_work items today limit = take limit (sort_by (le_by day_of_item) (open_items items today))

unfoldable pub upcoming_work : List Assessment → Date → ℕ → List Assessment
unfolding dated_work
upcoming_work items today limit = map (λ x. x.0) (dated_work items today limit)
