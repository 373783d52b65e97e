-- ===== src/NetNew/Balance.antt =====
-- What one series adds to the opening minutes and to the events of two weeks in a row.
use ap_academy_landing.NetNew.Rounds.{
  additions, adds_in, is_verified, is_weekly, reduction_date, reductions,
}
use ap_academy_landing.Prelude.{
  ℕ, ◌+◌, ◌≤◌, ◌<◌, ◌≡◌, refl, inl, inr, Bool, true, false, not, ◌&&◌, ◌||◌, Option, none, some,
  arith, ltb, leb, ◌==◌, if◌then◌else◌, ltb→lt, leb→le, Bool-cases, ◌∙◌, [], ◌∷◌,
}
use ap_academy_landing.Wallclock.{Date, add_days}
use ap_academy_landing.Recurrence.{SeriesKind}
use ap_academy_landing.NetNew.Totals.{minutes_where}
use ap_academy_landing.NetNew.{
  same_instant, class_of, adoption_of, Adoption, NetNewInput, WeekRange, SeriesFact, CountedEvent,
  in_week, ended_before,
}
use ap_academy_landing.NetNew.Result.{is_addition}

abbrev pub gain : Bool → ℕ → ℕ
gain b m = if b then m else 0

-- A verified addition; a verified reduction after the first day of a week, or on that day.
abbrev pub is_gain : CountedEvent → Bool
is_gain c = is_verified c.event_class && is_addition c.event

abbrev pub is_later_loss : Date → CountedEvent → Bool
is_later_loss from c =
    is_verified c.event_class && (not (is_addition c.event) && not (c.date == from))

abbrev pub is_first_loss : Date → CountedEvent → Bool
is_first_loss from c = is_verified c.event_class && (not (is_addition c.event) && c.date == from)

-- A series ends, if it does, on or after the day it starts.
abbrev pub EndsAfter : Date → Option Date → Type 0
EndsAfter start none = Unit {0}
EndsAfter start (some until) = start ≤ until

abbrev pub InOrder : SeriesFact → Type 0
InOrder s = EndsAfter s.start_date s.effective_until

abbrev pub later_loss : Bool → ℕ → WeekRange → Option Date → ℕ
later_loss v m w none = 0
later_loss v m w (some d) = gain (in_week d w && (v && not (d == w.from))) m

abbrev pub first_loss : Bool → ℕ → WeekRange → Option Date → ℕ
first_loss v m w none = 0
first_loss v m w (some d) = gain (in_week d w && (v && d == w.from)) m

abbrev pub week_after : WeekRange → WeekRange
week_after w = record { from = add_days w.from 7; to = add_days w.to 7 }

abbrev opened : Bool → Bool → Date → Option Date → WeekRange → Bool
opened v ad start until w =
    v && ((ltb start w.from && not (ended_before until w.from)) || (ad && in_week start w))

-- The balance of one series.
abbrev Balanced : Bool → Bool → ℕ → Date → Option Date → WeekRange → Type 0
Balanced v ad m start until w =
    gain (opened v ad start until (week_after w)) m
      + later_loss v m w (reduction_date SeriesKind.weekly until)
      + first_loss v m (week_after w) (reduction_date SeriesKind.weekly until)
    ≡ gain (opened v ad start until w) m
      + gain (v && (in_week start w && not ad)) m
      + gain (v && (ad && in_week start (week_after w))) m

Balanced-before :
    (ad : Bool) (m start until : ℕ) (w : WeekRange)
    → w.to ≡ w.from + 6
    → start < w.from
    → Balanced true ad m start (some until) w
Balanced-before ad m start until w h k = ground arith

Balanced-in :
    (ad : Bool) (m start until : ℕ) (w : WeekRange)
    → w.to ≡ w.from + 6
    → start ≤ until
    → w.from ≤ start
    → start ≤ w.to
    → Balanced true ad m start (some until) w
Balanced-in true m start until w h k a b = ground arith
Balanced-in false m start until w h k a b = ground arith

Balanced-after :
    (ad : Bool) (m start until : ℕ) (w : WeekRange)
    → w.to ≡ w.from + 6
    → start ≤ until
    → w.to < start
    → Balanced true ad m start (some until) w
Balanced-after true m start until w h k a = ground arith
Balanced-after false m start until w h k a = ground arith

pub balanced :
    (v ad : Bool) (m start : ℕ) (until : Option Date) (w : WeekRange)
    → w.to ≡ w.from + 6
    → EndsAfter start until
    → Balanced v ad m start until w
balanced false ad m start none w h k = refl
balanced true true m start none w h k = ground arith
balanced true false m start none w h k = ground arith
balanced false ad m start (some until) w h k = ground arith
balanced true ad m start (some until) w h k = elim (Bool-cases (ltb start w.from)) [
  | inl e ↦ Balanced-before ad m start until w h (ltb→lt _ _ e)
  | inr e ↦ elim (Bool-cases (leb start w.to)) [
    | inl f ↦ Balanced-in ad m start until w h k (ground arith) (leb→le _ _ f)
    | inr f ↦ Balanced-after ad m start until w h k (ground arith)
  ]
]

minutes_where-one :
    (p : CountedEvent → Bool) (b : Bool) (c : CountedEvent)
    → minutes_where p (if b then c ∷ [] else []) ≡ gain (b && p c) c.minutes
minutes_where-one p true c = ground arith
minutes_where-one p false c = refl

abbrev pub is_kept_class : NetNewInput → SeriesFact → Bool
is_kept_class input s = is_verified (class_of input s)

never : (b v : Bool) (m : ℕ) → gain (b && (v && false)) m ≡ 0
never b v m = ground arith

swap : (b v : Bool) (m : ℕ) → gain (b && (v && true)) m ≡ gain (v && b) m
swap b v m = ground arith

pub gain-additions :
    (input : NetNewInput) (s : SeriesFact) (ad : Bool)
    → minutes_where is_gain (additions input s ad)
      ≡ gain (is_kept_class input s && (adds_in s input.week && not ad)) s.duration_minutes
gain-additions input s ad =
    minutes_where-one is_gain (adds_in s input.week && not ad) _
    ∙ swap (adds_in s input.week && not ad) (is_kept_class input s) s.duration_minutes

pub later_loss-additions :
    (input : NetNewInput) (s : SeriesFact) (ad : Bool) (d : Date)
    → minutes_where (is_later_loss d) (additions input s ad) ≡ 0
later_loss-additions input s ad d =
    minutes_where-one (is_later_loss d) (adds_in s input.week && not ad) _ ∙ never _ _ _

pub first_loss-additions :
    (input : NetNewInput) (s : SeriesFact) (ad : Bool) (d : Date)
    → minutes_where (is_first_loss d) (additions input s ad) ≡ 0
first_loss-additions input s ad d =
    minutes_where-one (is_first_loss d) (adds_in s input.week && not ad) _ ∙ never _ _ _

pub gain-reductions :
    (input : NetNewInput) (s : SeriesFact) (d : Option Date)
    → minutes_where is_gain (reductions input s d) ≡ 0
gain-reductions input s none = refl
gain-reductions input s (some d) = minutes_where-one is_gain (in_week d input.week) _ ∙ never _ _ _

pub later_loss-reductions :
    (input : NetNewInput) (s : SeriesFact) (d : Option Date)
    → minutes_where (is_later_loss input.week.from) (reductions input s d)
      ≡ later_loss (is_kept_class input s) s.duration_minutes input.week d
later_loss-reductions input s none = refl
later_loss-reductions input s (some d) =
    minutes_where-one (is_later_loss input.week.from) (in_week d input.week) _

pub first_loss-reductions :
    (input : NetNewInput) (s : SeriesFact) (d : Option Date)
    → minutes_where (is_first_loss input.week.from) (reductions input s d)
      ≡ first_loss (is_kept_class input s) s.duration_minutes input.week d
first_loss-reductions input s none = refl
first_loss-reductions input s (some d) =
    minutes_where-one (is_first_loss input.week.from) (in_week d input.week) _

-- The input of the next week.
abbrev pub in_next_week : NetNewInput → NetNewInput
in_next_week input = record input { week = week_after input.week }

-- The minutes of a verified series that starts in the week and came with the adoption of its student.
abbrev pub imported_from : NetNewInput → SeriesFact → Option Adoption → ℕ
imported_from input s none = 0
imported_from input s (some a) =
    if is_weekly s.kind
    then gain
        (is_kept_class input s
          && (same_instant s.created_at a.adopted_at && in_week s.start_date input.week))
        s.duration_minutes
    else 0

abbrev pub imported : NetNewInput → SeriesFact → ℕ
imported input s = imported_from input s (adoption_of input.adoptions s.student_id)

pub reduction_date-weekly :
    (k : SeriesKind) (until : Option Date)
    → is_weekly k ≡ true
    → reduction_date k until ≡ reduction_date SeriesKind.weekly until
reduction_date-weekly SeriesKind.weekly until h = refl
reduction_date-weekly SeriesKind.one_off until h = cc
