-- ===== src/Recurrence/Listed.antt =====
-- Every entry of an expansion, and which keys there are, over all series together.
use ap_academy_landing.Prelude.{
  ℕ, String, ◌≡◌, refl, ap, ap₂, ◌∙◌, ◌⊎◌, inl, inr, Bool, true, false, ◌&&◌, ◌||◌, Option, none,
  some, List, [], ◌∷◌, arith, ◌==◌, if◌then◌else◌, any, find, All, All-append, str_eq, filter_map,
  flat_map, opt_list, is_some, any-sort_by, any-flat_map, All-sort_by,
}
use ap_academy_landing.Wallclock.{Date, Time, Instant}
use ap_academy_landing.Recurrence.Types.{
  ClassSeries, ClassException, ChangeKind, Occurrence, Key, key_of, key_eq, in_range,
  is_pattern_date,
}
use ap_academy_landing.Recurrence.Pattern.{has_date}
use ap_academy_landing.Recurrence.Expand.{
  exception_at, originals, build, moved_to, changed, occurrence_of, expand_series,
  expand_occurrences, starts_before,
}
use ap_academy_landing.Recurrence.Shown.{
  has_date-originals, none-moves_at, pattern-moves_at, shown, find-expand_series,
}

-- An entry of series `s`: its date is in the range, its original date is on the pattern, and its
-- key is made of the two.
abbrev pub Listed : ClassSeries → Date → Date → Occurrence → Type 0
Listed s from to o =
    (in_range from to o.date ≡ true)
    × (is_pattern_date s o.original_date ≡ true)
    × (o.series_id ≡ s.id)
    × (o.occurrence_key ≡ key_of s.id o.original_date)

abbrev ListedIf : ClassSeries → Date → Date → Option Occurrence → Type 0
ListedIf s from to none = Unit
ListedIf s from to (some o) = Listed s from to o

ListedIf-if :
    (s : ClassSeries) (from to : Date) (b : Bool) (o : Occurrence)
    → (b ≡ true → Listed s from to o)
    → ListedIf s from to (if b then some o else none)
ListedIf-if s from to true o h = h refl
ListedIf-if s from to false o h = tt

or_true : (b : Bool) → (b || true) ≡ true
or_true true = refl
or_true false = refl

All-opt_list :
    (s : ClassSeries) (from to : Date) (o : Option Occurrence)
    → ListedIf s from to o
    → All (Listed s from to) (opt_list o)
All-opt_list s from to none h = tt
All-opt_list s from to (some o) h = (h, tt)

All-filter_map :
    (f : Date → Option Occurrence) (s : ClassSeries) (from to : Date) (dates : List Date)
    → ((d : Date) → has_date dates d ≡ true → ListedIf s from to (f d))
    → All (Listed s from to) (filter_map f dates)
All-filter_map f s from to [] h = tt
All-filter_map f s from to (d ∷ dates) h =
    All-append (Listed s from to) (opt_list (f d)) (filter_map f dates)
      (All-opt_list s from to (f d) (h d (ground arith)))
      (All-filter_map f s from to dates (λ x m. h x (rw m (or_true (d == x)))))

-- Some series of the list accounts for the entry.
abbrev pub ListedBy : List ClassSeries → Date → Date → Occurrence → Type 0
ListedBy [] from to o = ⊥
ListedBy (s ∷ series) from to o = Listed s from to o ⊎ ListedBy series from to o

All-imp :
    {P Q : Occurrence → Type 0} (xs : List Occurrence)
    → ((o : Occurrence) → P o → Q o)
    → All P xs
    → All Q xs
All-imp [] h a = tt
All-imp (x ∷ xs) h a = (h x a.0, All-imp xs h a.1)

find-key :
    (s : ClassSeries) (from to : Date) (id : String) (d : Date) (xs : List Occurrence)
    → All (Listed s from to) xs
    → any (λ o. key_eq o.occurrence_key (id, d)) xs
      ≡ (str_eq s.id id && is_some (find (λ o. o.original_date == d) xs))
find-key s from to id d [] a = ground arith
find-key s from to id d (o ∷ xs) a = rw (a.0.3) (ground (arith, find-key s from to id d xs a.1))

module _ (behind : Instant → ℕ) where
  moved_to-ListedIf :
      (s : ClassSeries) (from to d : Date) (date : Option Date) (time : Option Time)
      → is_pattern_date s d ≡ true
      → ListedIf s from to (moved_to behind s from to d date time)
  unfolding build
  moved_to-ListedIf s from to d (some date) (some time) p =
      ListedIf-if s from to (in_range from to date) _ (λ r. (r, p, refl, refl))
  moved_to-ListedIf s from to d (some date) none p = tt
  moved_to-ListedIf s from to d none time p = tt

  changed-ListedIf :
      (s : ClassSeries) (from to d : Date) (k : ChangeKind) (e : ClassException)
      → is_pattern_date s d ≡ true
      → ListedIf s from to (changed behind s from to d k e)
  unfolding build
  changed-ListedIf s from to d ChangeKind.cancelled e p =
      ListedIf-if s from to (in_range from to d) _ (λ r. (r, p, refl, refl))
  changed-ListedIf s from to d ChangeKind.moved e p =
      moved_to-ListedIf s from to d e.new_date e.new_start_time p

  -- An original date is on the pattern, and in the range if it has no exception.
  original_facts :
      (s : ClassSeries) (es : List ClassException) (from to d : Date)
      → has_date (originals s es from to) d ≡ true
      → (is_pattern_date s d ≡ true) × (exception_at s.id d es ≡ none → in_range from to d ≡ true)
  original_facts s es from to d h = (
    ground (arith, has_date-originals s es from to d, pattern-moves_at s es from to d),
    λ e. ground (arith, has_date-originals s es from to d, none-moves_at s es from to d e),
  )

  occurrence_of-ListedIf :
      (s : ClassSeries) (es : List ClassException) (from to d : Date) (e : Option ClassException)
      → exception_at s.id d es ≡ e
      → has_date (originals s es from to) d ≡ true
      → ListedIf s from to (occurrence_of behind s from to d e)
  unfolding build
  occurrence_of-ListedIf s es from to d none found h =
      let facts = original_facts s es from to d h in (facts.1 found, facts.0, refl, refl)
  occurrence_of-ListedIf s es from to d (some e) found h =
      changed-ListedIf s from to d e.kind e (original_facts s es from to d h).0

  expand_series-Listed :
      (s : ClassSeries) (es : List ClassException) (from to : Date)
      → All (Listed s from to) (expand_series behind s es from to)
  unfolding expand_series
  expand_series-Listed s es from to =
      All-filter_map _ s from to (originals s es from to)
        (λ d h. occurrence_of-ListedIf s es from to d (exception_at s.id d es) refl h)

  flat_map-ListedBy :
      (series : List ClassSeries) (es : List ClassException) (from to : Date)
      → All (ListedBy series from to) (flat_map (λ s. expand_series behind s es from to) series)
  flat_map-ListedBy [] es from to = tt
  flat_map-ListedBy (s ∷ series) es from to =
      All-append (ListedBy (s ∷ series) from to) (expand_series behind s es from to) _
        (All-imp _ (λ o h. inl h) (expand_series-Listed s es from to))
        (All-imp _ (λ o h. inr h) (flat_map-ListedBy series es from to))

  module _ (key_le : Key → Key → Bool) where
    -- Every occurrence listed for a range is dated in the range and belongs to one of the series,
    -- with its original date on that series' pattern and its key made of the two.
    pub expand_occurrences-ListedBy :
        (series : List ClassSeries) (es : List ClassException) (from to : Date)
        → All (ListedBy series from to) (expand_occurrences behind key_le series es from to)
    unfolding expand_occurrences
    expand_occurrences-ListedBy series es from to =
        All-sort_by (starts_before behind key_le) (ListedBy series from to) _
          (flat_map-ListedBy series es from to)

    any-series :
        (id : String) (d : Date) (es : List ClassException) (from to : Date)
        (series : List ClassSeries)
        → any
            (λ s. any (λ o. key_eq o.occurrence_key (id, d)) (expand_series behind s es from to))
            series
          ≡ any (λ s. str_eq s.id id && is_some (shown behind s es from to d)) series
    any-series id d es from to [] = refl
    any-series id d es from to (s ∷ series) =
        ap₂ (λ a b. a || b)
          (find-key s from to id d _ (expand_series-Listed s es from to)
            ∙ ap (λ o. str_eq s.id id && is_some o) (find-expand_series behind s es from to d))
          (any-series id d es from to series)

    -- A key is listed exactly if a series of that id shows that date: the expansion of a list of
    -- series, sorted, drops nothing and adds nothing.
    pub any-expand_occurrences :
        (id : String) (d : Date) (series : List ClassSeries) (es : List ClassException)
        (from to : Date)
        → any
            (λ o. key_eq o.occurrence_key (id, d))
            (expand_occurrences behind key_le series es from to)
          ≡ any (λ s. str_eq s.id id && is_some (shown behind s es from to d)) series
    unfolding expand_occurrences
    any-expand_occurrences id d series es from to =
        any-sort_by (starts_before behind key_le) (λ o. key_eq o.occurrence_key (id, d)) _
        ∙ any-flat_map (λ o. key_eq o.occurrence_key (id, d))
            (λ s. expand_series behind s es from to) series
        ∙ any-series id d es from to series
