-- ===== src/Recurrence/Expand.antt =====
-- `expandOccurrences` of recurrence.ts.
use ap_academy_landing.Prelude.{
  ℕ, ◌+◌, ◌*◌, String, Bool, true, false, ◌&&◌, ◌||◌, Option, none, some, List, [], ◌∷◌, ◌++◌, ltb,
  ◌==◌, if◌then◌else◌, str_eq, sort_by, find_last, filter_map, flat_map,
}
use ap_academy_landing.Wallclock.{Date, Time, Instant, minute_ms}
use ap_academy_landing.Wallclock.Zone.{local_to_utc}
use ap_academy_landing.Recurrence.Types.{
  ClassSeries, ClassException, ChangeKind, Status, Occurrence, Key, key_of, key_eq, in_range,
  is_pattern_date,
}
use ap_academy_landing.Recurrence.Pattern.{pattern_dates, has_date}

-- `byKey.get(keyOf(series_id, original))`
unfoldable pub exception_at : String → Date → List ClassException → Option ClassException
exception_at series_id original exceptions =
    find_last (λ e. key_eq (key_of e.series_id e.original_date) (key_of series_id original))
      exceptions

abbrev pub lands_in : Date → Date → Option Date → Bool
lands_in from to none = false
lands_in from to (some date) = in_range from to date

abbrev pub is_moved : ChangeKind → Bool
is_moved ChangeKind.moved = true
is_moved ChangeKind.cancelled = false

-- A move of this series into the range, from a date of its pattern.
abbrev pub moves_in : ClassSeries → Date → Date → ClassException → Bool
moves_in s from to e =
    str_eq e.series_id s.id
    && (is_moved e.kind && (lands_in from to e.new_date && is_pattern_date s e.original_date))

-- `Set.add`
unfoldable pub add_date : List Date → Date → List Date
add_date dates d = if has_date dates d then dates else dates ++ d ∷ []

unfoldable pub add_moved : ClassSeries → Date → Date → List ClassException → List Date → List Date
unfolding add_date
add_moved s from to [] dates = dates
add_moved s from to (e ∷ es) dates =
    add_moved s from to es (if moves_in s from to e then add_date dates e.original_date else dates)

unfoldable pub originals : ClassSeries → List ClassException → Date → Date → List Date
unfolding add_moved pattern_dates
originals s exceptions from to = add_moved s from to exceptions (pattern_dates s from to)

module _ (behind : Instant → ℕ) where
  unfoldable pub build : ClassSeries → Date → Date → Time → Status → Occurrence
  unfolding local_to_utc
  build s original date time status =
      let starts = local_to_utc behind date time in
      record {
        occurrence_key = key_of s.id original;
        series_id = s.id;
        original_date = original;
        date = date;
        start_time = time;
        end_time = time + s.duration_minutes;
        duration_minutes = s.duration_minutes;
        starts_at = starts;
        ends_at = starts + s.duration_minutes * minute_ms;
        staff_id = s.staff_id;
        student_id = s.student_id;
        subject = s.subject;
        status = status;
        kind = s.kind;
        purpose = s.purpose;
      }

  -- A move counts only with both its new date and its new time.
  abbrev pub moved_to :
      ClassSeries → Date → Date → Date → Option Date → Option Time → Option Occurrence
  moved_to s from to original (some date) (some time) =
      if in_range from to date then some (build s original date time Status.moved) else none
  moved_to s from to original (some date) none = none
  moved_to s from to original none time = none

  abbrev pub changed :
      ClassSeries → Date → Date → Date → ChangeKind → ClassException → Option Occurrence
  changed s from to original ChangeKind.cancelled e =
      if in_range from to original
      then some (build s original original s.start_time Status.cancelled)
      else none
  changed s from to original ChangeKind.moved e =
      moved_to s from to original e.new_date e.new_start_time

  -- One round of the loop over the originals.
  abbrev pub occurrence_of :
      ClassSeries → Date → Date → Date → Option ClassException → Option Occurrence
  occurrence_of s from to original none =
      some (build s original original s.start_time Status.scheduled)
  occurrence_of s from to original (some e) = changed s from to original e.kind e

  -- One round of the loop over the series.
  unfoldable pub expand_series : ClassSeries → List ClassException → Date → Date → List Occurrence
  unfolding originals exception_at build
  expand_series s exceptions from to =
      filter_map (λ d. occurrence_of s from to d (exception_at s.id d exceptions))
        (originals s exceptions from to)

  module _ (key_le : Key → Key → Bool) where
    abbrev pub starts_before : Occurrence → Occurrence → Bool
    starts_before a b =
        ltb a.starts_at b.starts_at
        || (a.starts_at == b.starts_at && key_le a.occurrence_key b.occurrence_key)

    unfoldable pub expand_occurrences :
        List ClassSeries → List ClassException → Date → Date → List Occurrence
    unfolding expand_series
    expand_occurrences series exceptions from to =
        sort_by starts_before (flat_map (λ s. expand_series s exceptions from to) series)
