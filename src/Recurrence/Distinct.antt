-- ===== src/Recurrence/Distinct.antt =====
-- No occurrence of a series is listed twice.
use ap_academy_landing.Prelude.{
  ℕ, zero, suc, ◌+◌, ◌<◌, ◌≡◌, refl, inl, inr, Bool, true, false, ◌&&◌, ◌||◌, Option, none, some,
  List, [], ◌∷◌, ◌++◌, map, arith, leb, ◌==◌, if◌then◌else◌, Bool-cases, filter_map, opt_list,
}
use ap_academy_landing.Wallclock.{Date, Instant}
use ap_academy_landing.Recurrence.Types.{
  ClassSeries, ClassException, SeriesKind, one_off, weekly, Occurrence,
}
use ap_academy_landing.Recurrence.Pattern.{
  has_date, dates_until, dates_of, pattern_dates, last_date, first_from,
}
use ap_academy_landing.Recurrence.Expand.{
  exception_at, add_date, add_moved, originals, expand_series, moves_in,
}
use ap_academy_landing.Recurrence.Shown.{OriginIs, occurrence_of-OriginIs}

abbrev pub Distinct : List Date → Type 0
Distinct [] = Unit
Distinct (d ∷ dates) = (has_date dates d ≡ false) × Distinct dates

has_date-before :
    (n : ℕ) (start last t : Date) → t < start → has_date (dates_until n start last) t ≡ false
unfolding dates_until
has_date-before zero start last t h = refl
has_date-before (suc n) start last t h = ground (arith, has_date-before n (start + 7) last t)

Distinct-dates_until : (n : ℕ) (start last : Date) → Distinct (dates_until n start last)
unfolding dates_until
Distinct-dates_until zero start last = tt
Distinct-dates_until (suc n) start last = elim (Bool-cases (leb start last)) [
  | inl e ↦
      rw (e, dates_until)
        (
          has_date-before n (start + 7) last start (omega arith),
          Distinct-dates_until n (start + 7) last,
        )
  | inr e ↦ rw (e, dates_until) tt
]

Distinct-one : (b : Bool) (d : Date) → Distinct (if b then d ∷ [] else [])
Distinct-one true d = (refl, tt)
Distinct-one false d = tt

Distinct-dates_of :
    (k : SeriesKind) (until : Option Date) (start from to : Date)
    → Distinct (dates_of k until start from to)
Distinct-dates_of one_off until start from to = Distinct-one (leb from start && leb start to) start
Distinct-dates_of weekly until start from to =
    Distinct-dates_until _ (first_from start from) (last_date weekly until to)

has_date-concat :
    (dates : List Date) (x d : Date) → has_date (dates ++ x ∷ []) d ≡ (has_date dates d || x == d)
has_date-concat [] x d = ground arith
has_date-concat (y ∷ dates) x d = ground (arith, has_date-concat dates x d)

Distinct-concat :
    (dates : List Date) (x : Date)
    → Distinct dates
    → has_date dates x ≡ false
    → Distinct (dates ++ x ∷ [])
Distinct-concat [] x a h = (refl, tt)
Distinct-concat (d ∷ dates) x a h =
    (ground (arith, has_date-concat dates x d), Distinct-concat dates x a.1 (ground arith))

Distinct-add_date : (dates : List Date) (x : Date) → Distinct dates → Distinct (add_date dates x)
unfolding add_date
Distinct-add_date dates x a = elim (Bool-cases (has_date dates x)) [
  | inl e ↦ rw e a
  | inr e ↦ rw e (Distinct-concat dates x a e)
]

Distinct-add_moved :
    (s : ClassSeries) (from to : Date) (es : List ClassException) (dates : List Date)
    → Distinct dates
    → Distinct (add_moved s from to es dates)
unfolding add_moved
Distinct-add_moved s from to [] dates a = a
Distinct-add_moved s from to (e ∷ es) dates a = elim (Bool-cases (moves_in s from to e)) [
  | inl m ↦ rw m (
      Distinct-add_moved s from to es (add_date dates e.original_date)
        (Distinct-add_date dates e.original_date a))
  | inr m ↦ rw m (Distinct-add_moved s from to es dates a)
]

pub Distinct-originals :
    (s : ClassSeries) (es : List ClassException) (from to : Date)
    → Distinct (originals s es from to)
unfolding originals pattern_dates
Distinct-originals s es from to =
    Distinct-add_moved s from to es _
      (Distinct-dates_of s.kind s.effective_until s.start_date from to)

origin : Occurrence → Date
origin o = o.original_date

has_date-opt_list :
    (o : Option Occurrence) (rest : List Occurrence) (x d : Date)
    → OriginIs x o
    → (x == d) ≡ false
    → has_date (map origin rest) d ≡ false
    → has_date (map origin (opt_list o ++ rest)) d ≡ false
unfolding origin
has_date-opt_list none rest x d i e m = m
has_date-opt_list (some o) rest x d i e m = ground arith

-- A date that is not mapped does not come out.
has_date-filter_map :
    (f : Date → Option Occurrence) (dates : List Date) (d : Date)
    → ((x : Date) → OriginIs x (f x))
    → has_date dates d ≡ false
    → has_date (map origin (filter_map f dates)) d ≡ false
has_date-filter_map f [] d h m = refl
has_date-filter_map f (x ∷ dates) d h m =
    has_date-opt_list (f x) (filter_map f dates) x d (h x) (ground arith)
      (has_date-filter_map f dates d h (ground arith))

Distinct-opt_list :
    (o : Option Occurrence) (rest : List Occurrence) (x : Date)
    → OriginIs x o
    → has_date (map origin rest) x ≡ false
    → Distinct (map origin rest)
    → Distinct (map origin (opt_list o ++ rest))
unfolding origin
Distinct-opt_list none rest x i m a = a
Distinct-opt_list (some o) rest x i m a = (rw i m, a)

Distinct-filter_map :
    (f : Date → Option Occurrence) (dates : List Date)
    → ((x : Date) → OriginIs x (f x))
    → Distinct dates
    → Distinct (map origin (filter_map f dates))
Distinct-filter_map f [] h a = tt
Distinct-filter_map f (x ∷ dates) h a =
    Distinct-opt_list (f x) (filter_map f dates) x (h x) (has_date-filter_map f dates x h a.0)
      (Distinct-filter_map f dates h a.1)

-- The expansion of a series has no two occurrences of one original date, and so no two of one key.
pub Distinct-expand_series :
    (behind : Instant → ℕ) (s : ClassSeries) (es : List ClassException) (from to : Date)
    → Distinct (map (λ o. o.original_date) (expand_series behind s es from to))
unfolding expand_series origin
Distinct-expand_series behind s es from to =
    Distinct-filter_map _ (originals s es from to)
      (λ x. occurrence_of-OriginIs behind s from to x (exception_at s.id x es))
      (Distinct-originals s es from to)
