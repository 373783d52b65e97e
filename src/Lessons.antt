-- ===== src/Lessons.antt =====
-- apps/tracker/lib/domain/schedule/lesson-link.ts: which lesson a delivered class is logged as.
-- The reference `sched:<seriesId>:<date>` is the pair of its parts; `claimed_at` is in milliseconds,
-- or `none` for null. The handlers and Notion, which do the I/O, are not modelled.
pub mod Reconcile
mod Tests
use ap_academy_landing.Prelude.{
  ℕ, ◌+◌, String, Bool, true, false, not, ◌&&◌, Option, none, some, List, [], ◌∷◌, map, ltb, leb,
  ◌==◌, if◌then◌else◌, any, filter, find_last, flat_map,
}
use ap_academy_landing.Wallclock.{Date, Instant}
use ap_academy_landing.Ids.{same_id}
use ap_academy_landing.Recurrence.{Occurrence, key_of, key_eq, is_cancelled}

pub record LessonRow : Type 0 where
  pub id : String
  pub date : Option Date
  pub staff_ids : List String
  pub student_ids : List String

pub data OutcomeKind : Type 0 where
  delivered no_show : OutcomeKind

pub record LocalOutcome : Type 0 where
  pub outcome : OutcomeKind
  pub notion_lesson_id : Option String
  pub claimed_at : Option Instant

pub data LogStep : Type 0 where
  claim resume replay busy conflict : LogStep

abbrev pub claim_ms : ℕ
claim_ms = 60000

unfoldable pub is_linkable : Occurrence → Date → Bool
is_linkable o today = not (is_cancelled o.status) && leb o.date today

-- `now - claimedAt < CLAIM_MS`; a claim from the future is held too.
abbrev pub is_held : Option Instant → Instant → Bool
is_held none now = false
is_held (some at) now = ltb now (at + claim_ms)

abbrev pub step_of : OutcomeKind → Option String → Bool → LogStep
step_of no_show lesson held = conflict
step_of delivered (some lesson) held = replay
step_of delivered none held = if held then busy else resume

unfoldable pub plan_log : Option LocalOutcome → Instant → LogStep
plan_log none now = claim
plan_log (some l) now = step_of l.outcome l.notion_lesson_id (is_held l.claimed_at now)

pub record OutcomeKey : Type 0 where
  pub series_id : String
  pub original_date : Date
  pub outcome : OutcomeKind

pub record Unlinked : Type 0 where
  pub occurrence : Occurrence
  pub candidates : List LessonRow

pub record DoubleLesson : Type 0 where
  pub occurrence : Occurrence
  pub lesson : LessonRow

abbrev pub is_on : Option Date → Date → Bool
is_on none date = false
is_on (some d) date = d == date

unfoldable pub matches : Occurrence → LessonRow → Bool
matches o l =
    is_on l.date o.date
    && (any (λ id. same_id id o.staff_id) l.staff_ids
        && any (λ id. same_id id o.student_id) l.student_ids)

-- `outcomeOf.get(...)`
abbrev pub state_in : List OutcomeKey → Occurrence → Option OutcomeKey
state_in outcomes o =
    find_last
      (λ x. key_eq (key_of x.series_id x.original_date) (key_of o.series_id o.original_date))
      outcomes

abbrev pub unlinked_for : Occurrence → List LessonRow → Option OutcomeKey → List Unlinked
unlinked_for o same none = record { occurrence = o; candidates = same } ∷ []
unlinked_for o same (some x) = []

abbrev pub was_delivered : OutcomeKind → Bool
was_delivered delivered = true
was_delivered no_show = false

abbrev pub is_delivered_key : Option OutcomeKey → Bool
is_delivered_key none = false
is_delivered_key (some x) = was_delivered x.outcome

abbrev pub double_of : Occurrence → LessonRow → DoubleLesson
double_of o l = record { occurrence = o; lesson = l }

abbrev pub doubles_for : Occurrence → List LessonRow → Option OutcomeKey → List DoubleLesson
doubles_for o same x = if is_delivered_key x then map (double_of o) same else []

-- The loop over the occurrences.
unfoldable pub reconcile :
    List Occurrence → List OutcomeKey → List LessonRow → List Unlinked × List DoubleLesson
unfolding matches
reconcile occurrences outcomes lessons = (
  flat_map (λ o. unlinked_for o (filter (matches o) lessons) (state_in outcomes o)) occurrences,
  flat_map (λ o. doubles_for o (filter (matches o) lessons) (state_in outcomes o)) occurrences,
)
