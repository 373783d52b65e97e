-- ===== src/Edits.antt =====
-- apps/tracker/lib/domain/schedule/edits.ts: what an edit of a class must meet. Durations are
-- natural numbers, so the test that a duration is an integer has no counterpart.
mod Tests
use ap_academy_landing.Prelude.{
  ℕ, ◌+◌, ◌%◌, ◌≤◌, ◌≡◌, ◌↔◌, Bool, true, false, not, ◌||◌, arith, ltb, ◌==◌, if◌then◌else◌,
}
use ap_academy_landing.Wallclock.{Date, Time}

pub data EditError : Type 0 where
  past_occurrence invalid_duration crosses_midnight : EditError

-- `{ ok: true }`, or the HTTP status and the error
pub data EditCheck : Type 0 where
  accepted : EditCheck
  rejected : ℕ → EditError → EditCheck

unfoldable pub check_occurrence_editable : Date → Date → EditCheck
check_occurrence_editable original_date today =
    if ltb original_date today then rejected 422 past_occurrence else accepted

unfoldable pub check_class_shape : Time → ℕ → EditCheck
check_class_shape start_time duration =
    if ltb duration 15 || (ltb 480 duration || not (duration % 5 == 0))
    then rejected 400 invalid_duration
    else if ltb 1440 (start_time + duration)
    then rejected 400 crosses_midnight
    else accepted

unfoldable pub check_not_past : Date → Date → EditCheck
check_not_past start_date today =
    if ltb start_date today then rejected 422 past_occurrence else accepted

abbrev pub is_accepted : EditCheck → Bool
is_accepted accepted = true
is_accepted (rejected status error) = false

-- A shape is accepted exactly for a duration of 15 to 480 minutes in steps of 5 that ends by 24:00.
pub accepted-check_class_shape :
    (start duration : ℕ)
    → (check_class_shape start duration ≡ accepted)
      ↔ ((15 ≤ duration) × (duration ≤ 480) × (duration % 5 ≡ 0) × (start + duration ≤ 1440))
unfolding check_class_shape
accepted-check_class_shape start duration = (λ h. ground arith, λ h. ground arith)
