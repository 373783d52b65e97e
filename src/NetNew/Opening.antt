-- ===== src/NetNew/Opening.antt =====
-- The opening minutes of `netNewHours`, from one week to the next.
use ap_academy_landing.NetNew.Rounds.{
  kept, Round, additions, adds_in, counted_events, is_weekly, opening_minutes, reduces_in,
  reduction_date, reductions, round_from, round_missing, round_one_off, round_weekly, round,
  runs_to,
}
use ap_academy_landing.Ids.{same_id}
use ap_academy_landing.Prelude.{
  List, ℕ, ◌+◌, ◌≡◌, refl, inl, inr, Bool, true, ◌&&◌, ◌||◌, Option, none, some, arith, leb,
  Bool-cases, ap, [], ◌∷◌, String, any, sum_by, All,
}
use ap_academy_landing.NetNew.Totals.{minutes_where-flat_map, minutes_where, minutes_where-append}
use ap_academy_landing.NetNew.{
  distinct_from, same_instant, adoption_of, Adoption, NetNewInput, WeekRange, SeriesFact, in_week,
}
use ap_academy_landing.NetNew.Balance.{
  InOrder, balanced, first_loss, first_loss-additions, first_loss-reductions, gain, gain-additions,
  gain-reductions, imported, imported_from, in_next_week, is_first_loss, is_gain, is_kept_class,
  is_later_loss, later_loss, later_loss-additions, later_loss-reductions, reduction_date-weekly,
  week_after,
}

abbrev SeriesBalanced : NetNewInput → SeriesFact → Round → Round → ℕ → Type 0
SeriesBalanced input s now next more =
    next.opening
      + minutes_where (is_later_loss input.week.from) now.counted
      + minutes_where (is_first_loss (week_after input.week).from) next.counted
    ≡ now.opening + minutes_where is_gain now.counted + more

weekly-SeriesBalanced :
    (input : NetNewInput) (s : SeriesFact) (ad : Bool)
    → input.week.to ≡ input.week.from + 6
    → InOrder s
    → is_weekly s.kind ≡ true
    → SeriesBalanced input s (round_weekly input s ad) (round_weekly (in_next_week input) s ad) (
        gain
          (is_kept_class (in_next_week input) s
            && (ad && in_week s.start_date (week_after input.week)))
          s.duration_minutes)
weekly-SeriesBalanced input s ad h k e =
    let d = reduction_date s.kind s.effective_until in
    let next = in_next_week input in
    omega (
      arith,
      balanced (is_kept_class input s) ad s.duration_minutes s.start_date s.effective_until
          input.week h k,
      ap (later_loss (is_kept_class input s) s.duration_minutes input.week)
          (reduction_date-weekly s.kind s.effective_until e),
      ap (first_loss (is_kept_class input s) s.duration_minutes (week_after input.week))
          (reduction_date-weekly s.kind s.effective_until e),
      minutes_where-append is_gain (additions input s ad) (reductions input s d),
      minutes_where-append (is_later_loss input.week.from) (additions input s ad)
          (reductions input s d),
      minutes_where-append (is_first_loss next.week.from) (additions next s ad)
          (reductions next s d),
      gain-additions input s ad,
      gain-reductions input s d,
      later_loss-additions input s ad input.week.from,
      later_loss-reductions input s d,
      first_loss-additions next s ad next.week.from,
      first_loss-reductions next s d,
    )

one_off-SeriesBalanced :
    (input : NetNewInput) (s : SeriesFact)
    → SeriesBalanced input s
        (round_one_off input.week s)
        (round_one_off (week_after input.week) s)
        0
one_off-SeriesBalanced input s = elim (Bool-cases (adds_in s input.week)) [
  | inl e ↦ rw e (later_empty s)
  | inr e ↦ rw e (later_empty s)
]
  where
    later_empty :
        (s : SeriesFact)
        → (round_one_off (week_after input.week) s).opening
            + 0
            + minutes_where
                (is_first_loss (week_after input.week).from)
                (round_one_off (week_after input.week) s).counted
          ≡ 0
    later_empty s = elim (Bool-cases (adds_in s (week_after input.week))) [
      | inl e ↦ rw e refl
      | inr e ↦ rw e refl
    ]

missing_idle :
    (w : WeekRange) (s : SeriesFact)
    → ((round_missing w s).counted ≡ []) × ((round_missing w s).opening ≡ 0)
missing_idle w s =
    elim (Bool-cases (
      adds_in s w
      || (reduces_in (reduction_date s.kind s.effective_until) w
          || is_weekly s.kind && (leb s.start_date w.to && runs_to s.effective_until w.from)))) [
            | inl e ↦ rw e (refl, refl)
            | inr e ↦ rw e (refl, refl)
          ]

idle-SeriesBalanced :
    (input : NetNewInput) (s : SeriesFact) (now next : Round)
    → (now.counted ≡ []) × (now.opening ≡ 0)
    → (next.counted ≡ []) × (next.opening ≡ 0)
    → SeriesBalanced input s now next 0
idle-SeriesBalanced input s now next a b = rw (a.0, a.1, b.0, b.1) refl

from-SeriesBalanced :
    (input : NetNewInput) (s : SeriesFact) (a : Option Adoption)
    → input.week.to ≡ input.week.from + 6
    → InOrder s
    → SeriesBalanced input s
        (round_from input s a)
        (round_from (in_next_week input) s a)
        (imported_from (in_next_week input) s a)
from-SeriesBalanced input s none h k =
    idle-SeriesBalanced input s (round_missing input.week s)
      (round_missing (week_after input.week) s) (missing_idle input.week s)
      (missing_idle (week_after input.week) s)
from-SeriesBalanced input s (some a) h k = elim (Bool-cases (is_weekly s.kind)) [
  | inl e ↦ rw e (weekly-SeriesBalanced input s (same_instant s.created_at a.adopted_at) h k e)
  | inr e ↦ rw e (one_off-SeriesBalanced input s)
]

sums_balanced :
    (input : NetNewInput) (xs : List SeriesFact)
    → input.week.to ≡ input.week.from + 6
    → All InOrder xs
    → sum_by (λ s. (round (in_next_week input) s).opening) xs
        + sum_by (λ s. minutes_where (is_later_loss input.week.from) (round input s).counted) xs
        + sum_by
            (λ s.
              minutes_where
                (is_first_loss (week_after input.week).from)
                (round (in_next_week input) s).counted)
            xs
      ≡ sum_by (λ s. (round input s).opening) xs
        + sum_by (λ s. minutes_where is_gain (round input s).counted) xs
        + sum_by (imported (in_next_week input)) xs
unfolding round
sums_balanced input [] h a = refl
sums_balanced input (s ∷ xs) h a = omega (
  arith,
  from-SeriesBalanced input s (adoption_of input.adoptions s.student_id) h a.0,
  sums_balanced input xs h a.1,
)

distinct_from-InOrder :
    (seen : List String) (xs : List SeriesFact)
    → All InOrder xs
    → All InOrder (distinct_from seen xs)
unfolding distinct_from
distinct_from-InOrder seen [] a = tt
distinct_from-InOrder seen (s ∷ xs) a = elim (Bool-cases (any (λ id. same_id id s.id) seen)) [
  | inl e ↦ rw (e, distinct_from) (distinct_from-InOrder seen xs a.1)
  | inr e ↦ rw (e, distinct_from) (a.0, distinct_from-InOrder (s.id ∷ seen) xs a.1)
]

-- For a week of seven days and series that do not end before they start, the opening minutes of the
-- next week are those of this week and its verified additions, less what ends: the verified
-- reductions of this week after its first day, and those on the first day of the next. Beside them
-- the next week opens with the verified series that were imported in it with their student.
pub opening_minutes-in_next_week :
    (input : NetNewInput)
    → input.week.to ≡ input.week.from + 6
    → All InOrder input.series
    → let next = in_next_week input in
      opening_minutes next
        + minutes_where (is_later_loss input.week.from) (counted_events input)
        + minutes_where (is_first_loss next.week.from) (counted_events next)
      ≡ opening_minutes input
        + minutes_where is_gain (counted_events input)
        + sum_by (imported next) (kept input)
unfolding opening_minutes counted_events
opening_minutes-in_next_week input h a =
    rw
      (
        minutes_where-flat_map (is_later_loss input.week.from) (λ s. (round input s).counted)
            (kept input),
        minutes_where-flat_map (is_first_loss (week_after input.week).from)
            (λ s. (round (in_next_week input) s).counted) (kept input),
        minutes_where-flat_map is_gain (λ s. (round input s).counted) (kept input),
      )
      (sums_balanced input (kept input) h (distinct_from-InOrder [] input.series a))
