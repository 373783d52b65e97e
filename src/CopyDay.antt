-- ===== src/CopyDay.antt =====
-- apps/tracker/lib/domain/schedule/copy-day.ts: copying the hours of one weekday onto others.
-- The key `startTime-endTime` is the pair of its parts.
pub mod Plan
mod Tests
use ap_academy_landing.Prelude.{
  ℕ, String, Bool, true, ◌&&◌, ◌||◌, Option, none, some, List, [], ◌∷◌, map, ltb, leb, ◌==◌,
  if◌then◌else◌, any, filter, flat_map,
}
use ap_academy_landing.Wallclock.{Date}
use ap_academy_landing.Availability.{AvailabilityWindow, window_span}
use ap_academy_landing.Availability.Spans.{Span}

pub record CopyWindow : Type 0 where
  pub id : String
  pub window : AvailabilityWindow

pub record CopyPlan : Type 0 where
  pub deletes : List String
  pub creates : List AvailabilityWindow

-- `!w.effectiveUntil || w.effectiveUntil >= today`
abbrev pub active_until : Option Date → Date → Bool
active_until none today = true
active_until (some until) today = leb today until

abbrev pub is_active : Date → CopyWindow → Bool
is_active today w = active_until w.window.effective_until today

abbrev pub on_day : ℕ → Date → List CopyWindow → List CopyWindow
on_day weekday today windows =
    filter (λ w. w.window.weekday == weekday && is_active today w) windows

abbrev pub span_eq : Span → Span → Bool
span_eq a b = a.0 == b.0 && a.1 == b.1

abbrev pub has_span : List Span → Span → Bool
has_span seen s = any (λ x. span_eq x s) seen

abbrev pub times_of : CopyWindow → Span
times_of w = window_span w.window

-- The window to create on the target day.
abbrev pub copy_of : ℕ → Date → CopyWindow → AvailabilityWindow
copy_of target today s = record {
  weekday = target;
  start_time = s.window.start_time;
  end_time = s.window.end_time;
  effective_from = if ltb today s.window.effective_from then s.window.effective_from else today;
  effective_until = s.window.effective_until;
}

-- The loop over the source windows, with the set `seen`.
unfoldable pub creates_from : ℕ → Date → List Span → List CopyWindow → List AvailabilityWindow
creates_from target today seen [] = []
creates_from target today seen (s ∷ source) =
    let copied = copy_of target today s ∷ creates_from target today (times_of s ∷ seen) source in
    let skipped = creates_from target today seen source in
    if has_span seen (times_of s) then skipped else copied

-- `[...new Set(days)].filter((d) => d !== sourceWeekday)`
unfoldable pub targets_from : ℕ → List ℕ → List ℕ → List ℕ
targets_from source done [] = []
targets_from source done (d ∷ days) =
    let later = targets_from source (d ∷ done) days in
    if d == source || any (λ x. x == d) done then later else d ∷ later

unfoldable pub plan_copy : List CopyWindow → ℕ → List ℕ → Bool → Date → CopyPlan
unfolding creates_from targets_from
plan_copy windows source_weekday target_weekdays replace today =
    let source = on_day source_weekday today windows in
    let targets = targets_from source_weekday [] target_weekdays in
    record {
      deletes =
          if replace then flat_map (λ t. map (λ w. w.id) (on_day t today windows)) targets else [];
      creates =
          flat_map
            (λ t.
              creates_from t today (if replace then [] else map times_of (on_day t today windows))
                source)
            targets;
    }
