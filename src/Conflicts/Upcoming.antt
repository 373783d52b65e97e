-- ===== src/Conflicts/Upcoming.antt =====
-- `findConflicts` over availability as `computeAvailability` gives it, against the rows.
use ap_academy_landing.Prelude.{
  ℕ, ◌+◌, ◌-◌, ◌≤◌, ◌<◌, ◌≡◌, ap, ◌∙◌, Bool, true, false, not, ◌&&◌, Option, some, List, arith, ltb,
  leb, length, All,
}
use mathlib.Core.Path.{fun_ext}
use ap_academy_landing.Wallclock.{Date}
use ap_academy_landing.Availability.Spans.{Span}
use ap_academy_landing.Availability.Days.{
  is_blank, state-entered, ProperWindow, ProperException, Apart-compute_day,
  find-compute_availability,
}
use ap_academy_landing.Availability.Cover.{open_at, covers-compute_day}
use ap_academy_landing.Availability.{
  AvailabilityWindow, AvailabilityException, DayState, available, unavailable, not_entered,
  compute_day, compute_availability,
}
use ap_academy_landing.Recurrence.{Occurrence, is_cancelled}
use ap_academy_landing.Conflicts.{
  StaffAvailability, Outcome, skip, missing, conflict, judge, judge_day, judge_state, fits,
}
use ap_academy_landing.Conflicts.Reasons.{all_from, fits-all_from}

abbrev pub is_conflict : Outcome → Bool
is_conflict (conflict reason) = true
is_conflict skip = false
is_conflict missing = false

judge_state-fits :
    (o : Occurrence) (a : Option StaffAvailability) (intervals : List Span) (s : DayState)
    → is_blank s ≡ false
    → is_conflict (judge_state o a intervals s) ≡ not (fits intervals o.start_time o.end_time)
judge_state-fits o a intervals not_entered h = cc
judge_state-fits o a intervals available h = ground arith
judge_state-fits o a intervals unavailable h = ground arith

-- The availability of a teacher, from the rows.
abbrev pub from_rows :
    List AvailabilityWindow → List AvailabilityException → Date → Date → StaffAvailability
from_rows ws es from to = record { days = compute_availability ws es from to; exceptions = es }

judge_day-open_at :
    (ws : List AvailabilityWindow) (es : List AvailabilityException) (from to : Date)
    (o : Occurrence)
    → All ProperWindow ws
    → All ProperException es
    → 1 ≤ length ws + length es
    → o.start_time < o.end_time
    → is_conflict (judge_day o (some (from_rows ws es from to)) (some (compute_day ws es o.date)))
      ≡ not (all_from (o.end_time - o.start_time) o.start_time (open_at ws es o.date))
judge_day-open_at ws es from to o pw pe n lt =
    judge_state-fits o (some (from_rows ws es from to)) (compute_day ws es o.date).intervals
      (compute_day ws es o.date).state (state-entered ws es o.date n)
    ∙ ap not (
        fits-all_from 0 1440 (compute_day ws es o.date).intervals o.start_time o.end_time lt
          (Apart-compute_day ws es o.date pw pe))
    ∙ ap (λ (p : ℕ → Bool). not (all_from (o.end_time - o.start_time) o.start_time p))
        (fun_ext (covers-compute_day ws es o.date))

-- Where the rows are in order and there are some, a live class from today on, in the range of the
-- availability, conflicts exactly if some minute of it is not open by the rows.
pub judge-open_at :
    (ws : List AvailabilityWindow) (es : List AvailabilityException) (from to today : Date)
    (o : Occurrence)
    → All ProperWindow ws
    → All ProperException es
    → 1 ≤ length ws + length es
    → o.start_time < o.end_time
    → is_cancelled o.status ≡ false
    → today ≤ o.date
    → from ≤ o.date
    → o.date ≤ to
    → is_conflict (judge today o (some (from_rows ws es from to)))
      ≡ not (all_from (o.end_time - o.start_time) o.start_time (open_at ws es o.date))
judge-open_at ws es from to today o pw pe n lt live up lo hi =
    rw
      (
        live,
        not_past today o.date up,
        find-compute_availability ws es from to o.date,
        in_it from to o.date lo hi,
      )
      (judge_day-open_at ws es from to o pw pe n lt)
  where
    not_past : (a b : ℕ) → a ≤ b → ltb b a ≡ false
    not_past a b h = ground arith

    in_it : (a b d : ℕ) → a ≤ d → d ≤ b → (leb a d && leb d b) ≡ true
    in_it a b d h k = ground arith
