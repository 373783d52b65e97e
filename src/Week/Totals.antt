-- ===== src/Week/Totals.antt =====
-- What the totals of week.ts count.
use mathlib.Core.Path.{fun_ext}
use ap_academy_landing.Recurrence.{Occurrence, is_cancelled}
use ap_academy_landing.Wallclock.{Date}
use ap_academy_landing.Prelude.{
  count_below, count_below-or, count_below-none, count_below-split, count_below-false, sum_by-sub,
  ℕ, suc, ◌+◌, ◌-◌, max, ◌≡◌, List, [], ◌∷◌, arith, sum_by, zero, min, sym, ap, ◌∙◌, Bool, false,
  not, ◌&&◌, ◌||◌, Option, some, map, ◌==◌, or_and, any, all, filter, All, All-filter, any-filter,
  any-map,
}
use ap_academy_landing.Availability.Spans.{covers-union, in_span, covers, Span}
use ap_academy_landing.Availability.Minutes.{
  Apart-union, Proper, sum_by-length_of, in_span-covers, Apart,
}
use ap_academy_landing.Availability.{AvailabilityDay, length_of}
use ap_academy_landing.Week.{
  is_not_entered, class_span, live_of, inside_days, week_totals, booked, overlap, inside_spans,
}

count_below-overlap :
    (n : ℕ) (s i : Span)
    → count_below n (λ t. in_span t s && in_span t i) ≡ min n (min s.1 i.1) - min n (max s.0 i.0)
unfolding count_below
count_below-overlap zero s i = omega arith
count_below-overlap (suc n) s i = ground (arith, count_below-overlap n s i)

Apart-and :
    (k n : ℕ) (p : Bool) (i : Span) (rest : List Span) (t : ℕ)
    → Apart k n (i ∷ rest)
    → ((p && in_span t i) && (p && covers rest t)) ≡ false
Apart-and k n p i rest t a = ground (arith, in_span-covers k n i rest t a)

and_or : (p a b : Bool) → (p && (a || b)) ≡ ((p && a) || (p && b))
and_or p a b = ground arith

and_false : (p : Bool) → (p && false) ≡ false
and_false p = ground arith

-- The minutes that one span shares with intervals that are apart.
sum_by-overlap :
    (k n : ℕ) (s : Span) (intervals : List Span)
    → Apart k n intervals
    → sum_by (overlap s) intervals ≡ count_below n (λ t. in_span t s && covers intervals t)
unfolding overlap
sum_by-overlap k n s [] a = sym (count_below-false n _ (λ t. and_false (in_span t s)))
sum_by-overlap k n s (i ∷ rest) a = omega (
  arith,
  sum_by-overlap (suc i.1) n s rest a.3,
  count_below-overlap n s i,
  ap (count_below n) (fun_ext (λ t. and_or (in_span t s) (in_span t i) (covers rest t))),
  count_below-or n (λ t. in_span t s && in_span t i) (λ t. in_span t s && covers rest t)
      (λ t. Apart-and k n (in_span t s) i rest t a),
)

Apart-and_left :
    (k n : ℕ) (s : Span) (rest : List Span) (q : Bool) (t : ℕ)
    → Apart k n (s ∷ rest)
    → ((in_span t s && q) && (covers rest t && q)) ≡ false
Apart-and_left k n s rest q t a = ground (arith, in_span-covers k n s rest t a)

inside_spans-count :
    (j k n : ℕ) (spans intervals : List Span)
    → Apart j n spans
    → Apart k n intervals
    → inside_spans spans intervals ≡ count_below n (λ t. covers spans t && covers intervals t)
unfolding inside_spans
inside_spans-count j k n [] intervals a b = sym (count_below-none n)
inside_spans-count j k n (s ∷ rest) intervals a b = omega (
  arith,
  inside_spans-count (suc s.1) k n rest intervals a.3 b,
  sum_by-overlap k n s intervals b,
  ap (count_below n) (fun_ext (λ t. or_and (in_span t s) (covers rest t) (covers intervals t))),
  count_below-or n (λ t. in_span t s && covers intervals t)
      (λ t. covers rest t && covers intervals t)
      (λ t. Apart-and_left j n s rest (covers intervals t) t a),
)

-- A class of the date is on at the minute, by the classes that are not cancelled.
abbrev pub busy_at : List Occurrence → Date → ℕ → Bool
busy_at occurrences date t =
    any (λ o. not (is_cancelled o.status) && (o.date == date && in_span t (class_span o)))
      occurrences

covers-booked :
    (occurrences : List Occurrence) (date : Date) (t : ℕ)
    → covers (booked (live_of occurrences) date) t ≡ busy_at occurrences date t
unfolding booked
covers-booked occurrences date t =
    covers-union (map class_span (filter (λ o. o.date == date) (live_of occurrences))) t
    ∙ any-map (in_span t) class_span (filter (λ o. o.date == date) (live_of occurrences))
    ∙ any-filter (λ o. in_span t (class_span o)) (λ o. o.date == date) (live_of occurrences)
    ∙ any-filter (λ o. o.date == date && in_span t (class_span o))
        (λ o. not (is_cancelled o.status)) occurrences

-- A class that ends after it starts, and by 24:00.
abbrev pub ProperClass : Occurrence → Type 0
ProperClass o = Proper 1440 (class_span o)

All-class_span : (xs : List Occurrence) → All ProperClass xs → All (Proper 1440) (map class_span xs)
All-class_span [] a = tt
All-class_span (o ∷ xs) a = (a.0, All-class_span xs a.1)

Apart-booked :
    (occurrences : List Occurrence) (date : Date)
    → All ProperClass occurrences
    → Apart 0 1440 (booked (live_of occurrences) date)
unfolding booked
Apart-booked occurrences date a = Apart-union 1440 _ (
    All-class_span _ (
      All-filter ProperClass (λ o. o.date == date) (live_of occurrences)
        (All-filter ProperClass (λ o. not (is_cancelled o.status)) occurrences a)))

-- Intervals that are apart and whose lengths make up the available minutes, as computed by
-- `Availability` (Apart-compute_day).
abbrev pub ProperDay : AvailabilityDay → Type 0
ProperDay day =
    Apart 0 1440 day.intervals × (day.available_minutes ≡ sum_by length_of day.intervals)

-- The minutes of a day that are open and free of classes.
abbrev pub free_minutes : List Occurrence → AvailabilityDay → ℕ
free_minutes occurrences day =
    count_below 1440 (λ t. covers day.intervals t && not (busy_at occurrences day.date t))

day_split :
    (occurrences : List Occurrence) (day : AvailabilityDay)
    → All ProperClass occurrences
    → ProperDay day
    → day.available_minutes
      ≡ inside_spans (booked (live_of occurrences) day.date) day.intervals
        + free_minutes occurrences day
day_split occurrences day a p = omega (
  arith,
  p.1,
  sum_by-length_of 0 1440 day.intervals p.0,
  inside_spans-count 0 0 1440 (booked (live_of occurrences) day.date) day.intervals
      (Apart-booked occurrences day.date a) p.0,
  ap (λ (c : ℕ → Bool). count_below 1440 (λ t. c t && covers day.intervals t))
      (fun_ext (covers-booked occurrences day.date)),
  count_below-split 1440 (covers day.intervals) (busy_at occurrences day.date),
)

All-day_split :
    (occurrences : List Occurrence) (days : List AvailabilityDay)
    → All ProperClass occurrences
    → All ProperDay days
    → All
        (λ day.
          day.available_minutes
          ≡ inside_spans (booked (live_of occurrences) day.date) day.intervals
            + free_minutes occurrences day)
        days
All-day_split occurrences [] a p = tt
All-day_split occurrences (day ∷ days) a p =
    (day_split occurrences day a p.0, All-day_split occurrences days a p.1)

-- Where some day has availability entered, and the classes and the intervals are in order: the
-- remaining minutes are the open minutes with no class on, each counted once however the classes
-- overlap, so that the `Math.max` never cuts.
pub remaining_minutes-count :
    (occurrences : List Occurrence) (days : List AvailabilityDay)
    → All ProperClass occurrences
    → All ProperDay days
    → all (λ d. is_not_entered d.state) days ≡ false
    → (week_totals occurrences days).remaining_minutes
      ≡ some (sum_by (free_minutes occurrences) days)
unfolding week_totals inside_days
remaining_minutes-count occurrences days a p e = rw e (
    ap {B = Option ℕ} some (
      sum_by-sub (λ d. d.available_minutes)
        (λ day. inside_spans (booked (live_of occurrences) day.date) day.intervals)
        (free_minutes occurrences) days (All-day_split occurrences days a p)))
