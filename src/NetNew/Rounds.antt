-- ===== src/NetNew/Rounds.antt =====
-- The loop of `netNewHours` of net-new.ts over the series.
use ap_academy_landing.Prelude.{
  ℕ, String, Bool, true, false, not, ◌&&◌, ◌||◌, Option, none, some, List, [], ◌∷◌, ◌++◌, ltb, leb,
  if◌then◌else◌, sum_by, flat_map,
}
use ap_academy_landing.Wallclock.{Date, add_days}
use ap_academy_landing.Recurrence.{ClassPurpose, SeriesKind}
use ap_academy_landing.NetNew.{
  invoices_of, latest, unverified_reason, unclassified, unverified, reduction, is_classified,
  verified, same_instant, not_in_scheduler, in_week, for_purpose, ended_before, distinct_from,
  class_of, adoption_of, adopted, addition, WeekRange, SeriesFact, NetNewInput, Adoption,
  CountedEvent, ExcludedSeries, EventName, EventClass, ExcludedReason,
}

-- What one round of the loop adds.
pub record Round : Type 0 where
  pub counted : List CountedEvent
  pub excluded : List ExcludedSeries
  pub missing : List String
  pub opening : ℕ

abbrev pub reduction_date : SeriesKind → Option Date → Option Date
reduction_date SeriesKind.one_off until = none
reduction_date SeriesKind.weekly none = none
reduction_date SeriesKind.weekly (some until) = some (add_days until 1)

abbrev pub reduces_in : Option Date → WeekRange → Bool
reduces_in none w = false
reduces_in (some d) w = in_week d w

abbrev pub adds_in : SeriesFact → WeekRange → Bool
adds_in s w = in_week s.start_date w

abbrev pub is_weekly : SeriesKind → Bool
is_weekly SeriesKind.weekly = true
is_weekly SeriesKind.one_off = false

-- `until === null || until >= date`
abbrev pub runs_to : Option Date → Date → Bool
runs_to until date = not (ended_before until date)

abbrev pub excluded_at : SeriesFact → Date → ExcludedReason → ExcludedSeries
excluded_at s date reason = record {
  series_id = s.id;
  student_id = s.student_id;
  staff_id = s.staff_id;
  date = date;
  reason = reason;
}

abbrev pub event_of : NetNewInput → SeriesFact → EventName → Date → CountedEvent
event_of input s event date = record {
  series_id = s.id;
  student_id = s.student_id;
  staff_id = s.staff_id;
  event = event;
  date = date;
  minutes = s.duration_minutes;
  event_class = class_of input s;
  reason = if is_classified input then unverified_reason input s else none;
  paid_on = latest (invoices_of input.payments s.student_id);
}

abbrev pub nothing : Round
nothing = record { counted = []; excluded = []; missing = []; opening = 0 }

-- The date of a series of a student who is not in the scheduler.
abbrev pub date_shown : Bool → Option Date → SeriesFact → WeekRange → Date
date_shown true d s w = s.start_date
date_shown false none s w = w.from
date_shown false (some d) s w = if in_week d w then d else w.from

-- A student with no adoption.
abbrev pub round_missing : WeekRange → SeriesFact → Round
round_missing w s =
    let d = reduction_date s.kind s.effective_until in
    let runs = is_weekly s.kind && (leb s.start_date w.to && runs_to s.effective_until w.from) in
    if adds_in s w || (reduces_in d w || runs)
    then record {
      counted = [];
      excluded = excluded_at s (date_shown (adds_in s w) d s w) not_in_scheduler ∷ [];
      missing = s.student_id ∷ [];
      opening = 0;
    }
    else nothing

abbrev pub purpose_reason : Option ClassPurpose → ExcludedReason
purpose_reason none = ExcludedReason.one_off
purpose_reason (some p) = for_purpose p

abbrev pub round_one_off : WeekRange → SeriesFact → Round
round_one_off w s =
    if adds_in s w
    then record {
      counted = [];
      excluded = excluded_at s s.start_date (purpose_reason s.purpose) ∷ [];
      missing = [];
      opening = 0;
    }
    else nothing

abbrev pub is_verified : EventClass → Bool
is_verified verified = true
is_verified unverified = false
is_verified unclassified = false

abbrev pub runs_on_monday : WeekRange → SeriesFact → Bool
runs_on_monday w s = ltb s.start_date w.from && runs_to s.effective_until w.from

abbrev pub reductions : NetNewInput → SeriesFact → Option Date → List CountedEvent
reductions input s none = []
reductions input s (some d) = if in_week d input.week then event_of input s reduction d ∷ [] else []

abbrev pub additions : NetNewInput → SeriesFact → Bool → List CountedEvent
additions input s is_adopted =
    if adds_in s input.week && not is_adopted
    then event_of input s addition s.start_date ∷ []
    else []

abbrev pub opens : NetNewInput → SeriesFact → Bool → Bool
opens input s is_adopted =
    is_verified (class_of input s)
    && (runs_on_monday input.week s || (is_adopted && adds_in s input.week))

abbrev pub round_weekly : NetNewInput → SeriesFact → Bool → Round
round_weekly input s is_adopted = record {
  counted =
      additions input s is_adopted ++ reductions input s (reduction_date s.kind s.effective_until);
  excluded =
      if adds_in s input.week && is_adopted then excluded_at s s.start_date adopted ∷ [] else [];
  missing = [];
  opening = if opens input s is_adopted then s.duration_minutes else 0;
}

abbrev pub round_adopted : NetNewInput → SeriesFact → Adoption → Round
round_adopted input s a =
    if is_weekly s.kind
    then round_weekly input s (same_instant s.created_at a.adopted_at)
    else round_one_off input.week s

abbrev pub round_from : NetNewInput → SeriesFact → Option Adoption → Round
round_from input s none = round_missing input.week s
round_from input s (some a) = round_adopted input s a

-- One round of the loop over the series.
unfoldable pub round : NetNewInput → SeriesFact → Round
round input s = round_from input s (adoption_of input.adoptions s.student_id)

abbrev pub kept : NetNewInput → List SeriesFact
kept input = distinct_from [] input.series

unfoldable pub counted_events : NetNewInput → List CountedEvent
unfolding round distinct_from
counted_events input = flat_map (λ s. (round input s).counted) (kept input)

unfoldable pub excluded_series : NetNewInput → List ExcludedSeries
unfolding round distinct_from
excluded_series input = flat_map (λ s. (round input s).excluded) (kept input)

unfoldable pub opening_minutes : NetNewInput → ℕ
unfolding round distinct_from
opening_minutes input = sum_by (λ s. (round input s).opening) (kept input)
