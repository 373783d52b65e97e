-- ===== src/Recurrence/Shown.antt =====
-- What `expandOccurrences` lists, against the exceptions and the pattern read date by date.
use ap_academy_landing.Prelude.{
  ℕ, String, ◌≡◌, refl, sym, ap, ◌∙◌, inl, inr, Bool, true, false, ◌&&◌, ◌||◌, Option, none, some,
  List, [], ◌∷◌, ◌++◌, arith, ◌==◌, if◌then◌else◌, ==_iff, Bool-cases, any, find, any-append,
  filter_map, opt_list, any-find_last, find_last-holds, any-imp, any-none,
}
use ap_academy_landing.Wallclock.{Date, Time, Instant}
use ap_academy_landing.Recurrence.Types.{
  ClassSeries, ClassException, ChangeKind, Status, Occurrence, key_of, key_eq, in_range,
  is_pattern_date,
}
use ap_academy_landing.Recurrence.Pattern.{pattern_dates, has_date, has_date-pattern_dates}
use ap_academy_landing.Recurrence.Expand.{
  exception_at, lands_in, is_moved, moves_in, add_date, add_moved, originals, build, moved_to,
  changed, occurrence_of, expand_series,
}

abbrev pub moves_at : ClassSeries → Date → Date → Date → ClassException → Bool
moves_at s from to d e = moves_in s from to e && e.original_date == d

has_date-eq :
    (dates : List Date) (x d : Date) → (x == d) ≡ true → has_date dates x ≡ has_date dates d
has_date-eq dates x d e = ap (has_date dates) ((==_iff x d).0 e)

pub has_date-add_date :
    (dates : List Date) (x d : Date) → has_date (add_date dates x) d ≡ (has_date dates d || x == d)
unfolding add_date
has_date-add_date dates x d = elim (Bool-cases (has_date dates x)) [
  | inl e ↦ rw e (ground (arith, has_date-eq dates x d))
  | inr e ↦ rw e (any-append (λ y. y == d) dates (x ∷ []) ∙ ground arith)
]

has_date-add_moved :
    (s : ClassSeries) (from to : Date) (es : List ClassException) (dates : List Date) (d : Date)
    → has_date (add_moved s from to es dates) d
      ≡ (has_date dates d || any (moves_at s from to d) es)
unfolding add_moved
has_date-add_moved s from to [] dates d = ground arith
has_date-add_moved s from to (e ∷ es) dates d = elim (Bool-cases (moves_in s from to e)) [
  | inl m ↦ rw m (
      has_date-add_moved s from to es (add_date dates e.original_date) d
      ∙ ground (arith, has_date-add_date dates e.original_date d))
  | inr m ↦ rw m (has_date-add_moved s from to es dates d)
]

pub has_date-originals :
    (s : ClassSeries) (es : List ClassException) (from to d : Date)
    → has_date (originals s es from to) d
      ≡ ((is_pattern_date s d && in_range from to d) || any (moves_at s from to d) es)
unfolding originals
has_date-originals s es from to d =
    has_date-add_moved s from to es (pattern_dates s from to) d
    ∙ ap (λ b. b || any (moves_at s from to d) es) (has_date-pattern_dates s from to d)

abbrev has_key : String → Date → ClassException → Bool
has_key id d e = key_eq (key_of e.series_id e.original_date) (key_of id d)

moves_at-has_key :
    (s : ClassSeries) (from to d : Date) (e : ClassException)
    → moves_at s from to d e ≡ true
    → has_key s.id d e ≡ true
moves_at-has_key s from to d e h = ground arith

moves_at-pattern :
    (s : ClassSeries) (from to d : Date) (e : ClassException)
    → is_pattern_date s d ≡ false
    → moves_at s from to d e ≡ false
moves_at-pattern s from to d e h = elim (Bool-cases (e.original_date == d)) [
  | inl q ↦ rw ((==_iff e.original_date d).0 q, h) (ground arith)
  | inr q ↦ rw q (ground arith)
]

-- A date with no exception of its own has no move either.
pub none-moves_at :
    (s : ClassSeries) (es : List ClassException) (from to d : Date)
    → exception_at s.id d es ≡ none
    → any (moves_at s from to d) es ≡ false
unfolding exception_at
none-moves_at s es from to d e = ground (
  arith,
  any-find_last (has_key s.id d) es,
  any-imp (moves_at s from to d) (has_key s.id d) es (moves_at-has_key s from to d),
)

pub pattern-moves_at :
    (s : ClassSeries) (es : List ClassException) (from to d : Date)
    → is_pattern_date s d ≡ false
    → any (moves_at s from to d) es ≡ false
pattern-moves_at s es from to d e =
    any-none (moves_at s from to d) es λ x. moves_at-pattern s from to d x e

moves_at-intro :
    (s : ClassSeries) (from to d : Date) (e : ClassException)
    → is_pattern_date s d ≡ true
    → (has_key s.id d e && (is_moved e.kind && lands_in from to e.new_date)) ≡ true
    → moves_at s from to d e ≡ true
moves_at-intro s from to d e p = elim (Bool-cases (e.original_date == d)) [
  | inl q ↦ rw ((==_iff e.original_date d).0 q, p) (ground arith)
  | inr q ↦ rw q (ground arith)
]

some-moves_at :
    (s : ClassSeries) (es : List ClassException) (from to d : Date) (e : ClassException)
    → exception_at s.id d es ≡ some e
    → (is_moved e.kind && lands_in from to e.new_date) ≡ true
    → is_pattern_date s d ≡ true
    → any (moves_at s from to d) es ≡ true
unfolding exception_at
some-moves_at s es from to d e found h p =
    any-imp _ (moves_at s from to d) es (λ x. moves_at-intro s from to d x p)
      (find_last-holds (has_key s.id d) (λ x. is_moved x.kind && lands_in from to x.new_date) es e
        found h).1

-- Every result for a date carries that date.
abbrev pub OriginIs : Date → Option Occurrence → Type 0
OriginIs d none = Unit
OriginIs d (some o) = o.original_date ≡ d

find-cons :
    (o : Option Occurrence) (rest : List Occurrence) (x d : Date) (later : Bool)
    (found : Option Occurrence)
    → OriginIs x o
    → ((x == d) ≡ true → found ≡ o)
    → find (λ o. o.original_date == d) rest ≡ (if later then found else none)
    → find (λ o. o.original_date == d) (opt_list o ++ rest)
      ≡ (if x == d || later then found else none)
find-cons none rest x d later found i h e = ground arith
find-cons (some o) rest x d later found i h e = ground arith

find-filter_map :
    (f : Date → Option Occurrence) (dates : List Date) (d : Date)
    → ((x : Date) → OriginIs x (f x))
    → find (λ o. o.original_date == d) (filter_map f dates)
      ≡ (if has_date dates d then f d else none)
find-filter_map f [] d h = refl
find-filter_map f (x ∷ dates) d h =
    find-cons (f x) (filter_map f dates) x d (has_date dates d) (f d) (h x)
      (λ e. ap f (sym ((==_iff x d).0 e))) (find-filter_map f dates d h)

OriginIs-if :
    (d : Date) (b : Bool) (o : Option Occurrence)
    → OriginIs d o
    → OriginIs d (if b then o else none)
OriginIs-if d true o h = h
OriginIs-if d false o h = tt

if_and {ℓ} :
    {A : Type ℓ} (p r : Bool) (x : Option A)
    → (if (p && r) || false then x else none) ≡ (if p then (if r then x else none) else none)
if_and true true x = refl
if_and true false x = refl
if_and false r x = refl

module _ (behind : Instant → ℕ) where
  -- What a calendar shows of one date of a series: nothing off its pattern; with no exception the
  -- class itself, if the date is in the range; with one, what the last exception makes of it.
  abbrev pub visible : ClassSeries → Date → Date → Date → Option ClassException → Option Occurrence
  visible s from to d none =
      if in_range from to d then some (build behind s d d s.start_time Status.scheduled) else none
  visible s from to d (some e) = changed behind s from to d e.kind e

  abbrev pub shown : ClassSeries → List ClassException → Date → Date → Date → Option Occurrence
  shown s exceptions from to d =
      if is_pattern_date s d then visible s from to d (exception_at s.id d exceptions) else none

  moved_to-OriginIs :
      (s : ClassSeries) (from to d : Date) (date : Option Date) (time : Option Time)
      → OriginIs d (moved_to behind s from to d date time)
  unfolding build
  moved_to-OriginIs s from to d (some date) (some time) =
      OriginIs-if d (in_range from to date) _ refl
  moved_to-OriginIs s from to d (some date) none = tt
  moved_to-OriginIs s from to d none time = tt

  changed-OriginIs :
      (s : ClassSeries) (from to d : Date) (k : ChangeKind) (e : ClassException)
      → OriginIs d (changed behind s from to d k e)
  unfolding build
  changed-OriginIs s from to d ChangeKind.cancelled e = OriginIs-if d (in_range from to d) _ refl
  changed-OriginIs s from to d ChangeKind.moved e =
      moved_to-OriginIs s from to d e.new_date e.new_start_time

  pub occurrence_of-OriginIs :
      (s : ClassSeries) (from to d : Date) (e : Option ClassException)
      → OriginIs d (occurrence_of behind s from to d e)
  unfolding build
  occurrence_of-OriginIs s from to d none = refl
  occurrence_of-OriginIs s from to d (some e) = changed-OriginIs s from to d e.kind e

  moved_out :
      (s : ClassSeries) (from to d : Date) (date : Option Date) (time : Option Time)
      → lands_in from to date ≡ false
      → moved_to behind s from to d date time ≡ none
  moved_out s from to d (some date) (some time) h = rw h
  moved_out s from to d (some date) none h = refl
  moved_out s from to d none time h = refl

  -- The two tests agree wherever the result is not `none`.
  changed-visible :
      (s : ClassSeries) (from to d : Date) (k : ChangeKind) (e : ClassException) (p m : Bool)
      → (p ≡ false → m ≡ false)
      → ((is_moved k && lands_in from to e.new_date) ≡ true → p ≡ true → m ≡ true)
      → (if (p && in_range from to d) || m then changed behind s from to d k e else none)
        ≡ (if p then changed behind s from to d k e else none)
  changed-visible s from to d ChangeKind.cancelled e p m f g = ground arith
  changed-visible s from to d ChangeKind.moved e p m f g =
      ground (arith, moved_out s from to d e.new_date e.new_start_time)

  visible_lem :
      (s : ClassSeries) (exceptions : List ClassException) (from to d : Date)
      (e : Option ClassException)
      → exception_at s.id d exceptions ≡ e
      → (if has_date (originals s exceptions from to) d
          then occurrence_of behind s from to d e
          else none)
        ≡ (if is_pattern_date s d then visible s from to d e else none)
  visible_lem s exceptions from to d none found =
      rw (has_date-originals s exceptions from to d, none-moves_at s exceptions from to d found)
        (if_and (is_pattern_date s d) (in_range from to d) _)
  visible_lem s exceptions from to d (some e) found =
      rw (has_date-originals s exceptions from to d) (
        changed-visible s from to d e.kind e (is_pattern_date s d)
          (any (moves_at s from to d) exceptions) (pattern-moves_at s exceptions from to d)
          (some-moves_at s exceptions from to d e found))

  -- For every date, the occurrence of that original date in the expansion of a series is the one
  -- that its pattern and its last exception for the date call for, and there is none otherwise:
  -- moves into the range are found although their original date is outside it.
  pub find-expand_series :
      (s : ClassSeries) (exceptions : List ClassException) (from to d : Date)
      → find (λ o. o.original_date == d) (expand_series behind s exceptions from to)
        ≡ shown s exceptions from to d
  unfolding expand_series
  find-expand_series s exceptions from to d =
      find-filter_map _ (originals s exceptions from to) d
        (λ x. occurrence_of-OriginIs s from to x (exception_at s.id x exceptions))
      ∙ visible_lem s exceptions from to d (exception_at s.id d exceptions) refl
