-- ===== src/Availability/Days.antt =====
-- `computeAvailability` as a whole: the minutes and the state of each day, and which days there are.
use mathlib.Core.Path.{fun_ext}
use ap_academy_landing.Prelude.{
  ◌||◌, true, false, ℕ, zero, suc, ◌+◌, ◌-◌, ◌<◌, ◌≡◌, refl, sym, ◌∙◌, ap, ◌&&◌, List, [], ◌∷◌,
  Option, none, some, arith, ◌==◌, if◌then◌else◌, filter, find, map, leb, All, All-append,
  All-filter, count_below, count_below-none, ◌≤◌, Bool, length,
}
use ap_academy_landing.Wallclock.{Date, add_days}
use ap_academy_landing.Availability.Spans.{in_span, covers, Span, union}
use ap_academy_landing.Availability.Cover.{open_at, covers-open_spans}
use ap_academy_landing.Availability.Minutes.{
  Apart, Proper, Apart-union, Apart-subtract, sum_by-length_of,
}
use ap_academy_landing.Availability.{
  not_entered, unavailable, available, state_of, DayState, AvailabilityWindow,
  AvailabilityException, ExceptionKind, time_off, extra, is_effective, window_span, times, extra_of,
  extra_spans, whole_day, cut_of, cut_all, entered_spans, open_spans, compute_day, entered_day,
  days_from, compute_availability,
}

-- The times of a row, where both are given, are in order and end by 24:00.
abbrev pub ProperTimes : Option Span → Type 0
ProperTimes none = Unit
ProperTimes (some s) = Proper 1440 s

abbrev pub ProperWindow : AvailabilityWindow → Type 0
ProperWindow w = Proper 1440 (window_span w)

abbrev pub ProperException : AvailabilityException → Type 0
ProperException e = ProperTimes (times e.start_time e.end_time)

All-window_span :
    (ws : List AvailabilityWindow) → All ProperWindow ws → All (Proper 1440) (map window_span ws)
All-window_span [] a = tt
All-window_span (w ∷ ws) a = (a.0, All-window_span ws a.1)

All-extra_of :
    (k : ExceptionKind) (s : Option Span) → ProperTimes s → All (Proper 1440) (extra_of k s)
All-extra_of extra (some s) p = (p, tt)
All-extra_of extra none p = tt
All-extra_of time_off s p = tt

All-extra_spans :
    (es : List AvailabilityException) → All ProperException es → All (Proper 1440) (extra_spans es)
All-extra_spans [] a = tt
All-extra_spans (e ∷ es) a =
    All-append (Proper 1440) (extra_of e.kind (times e.start_time e.end_time)) (extra_spans es)
      (All-extra_of e.kind (times e.start_time e.end_time) a.0) (All-extra_spans es a.1)

whole_day-lt : (s : Option Span) → ProperTimes s → (whole_day s).0 < (whole_day s).1
whole_day-lt none p = omega arith
whole_day-lt (some s) p = p.0

Apart-cut_of :
    (k : ExceptionKind) (s : Option Span) (spans : List Span)
    → ProperTimes s
    → Apart 0 1440 spans
    → Apart 0 1440 (cut_of k s spans)
Apart-cut_of time_off s spans p a = Apart-subtract 0 1440 (whole_day s) spans (whole_day-lt s p) a
Apart-cut_of extra s spans p a = a

Apart-cut_all :
    (es : List AvailabilityException) (spans : List Span)
    → All ProperException es
    → Apart 0 1440 spans
    → Apart 0 1440 (cut_all es spans)
unfolding cut_all
Apart-cut_all [] spans p a = a
Apart-cut_all (e ∷ es) spans p a =
    Apart-cut_all es _ p.1 (Apart-cut_of e.kind (times e.start_time e.end_time) spans p.0 a)

module _ (ws : List AvailabilityWindow) (es : List AvailabilityException) (date : Date)
    (pw : All ProperWindow ws) (pe : All ProperException es) where
  entered_spans-Proper : All (Proper 1440) (entered_spans ws es date)
  unfolding entered_spans
  entered_spans-Proper =
      All-append (Proper 1440) (map window_span (filter (is_effective date) ws))
        (extra_spans (filter (λ e. e.on_date == date) es))
        (All-window_span _ (All-filter ProperWindow (is_effective date) ws pw))
        (All-extra_spans _ (All-filter ProperException (λ e. e.on_date == date) es pe))

  pub Apart-open_spans : Apart 0 1440 (open_spans ws es date)
  unfolding open_spans
  Apart-open_spans =
      Apart-cut_all (filter (λ e. e.on_date == date) es) (union (entered_spans ws es date))
        (All-filter ProperException (λ e. e.on_date == date) es pe)
        (Apart-union 1440 (entered_spans ws es date) entered_spans-Proper)

  entered_minutes :
      (entered_day ws es date).available_minutes ≡ count_below 1440 (open_at ws es date)
  unfolding entered_day
  entered_minutes =
      sum_by-length_of 0 1440 (open_spans ws es date) Apart-open_spans
      ∙ ap (count_below 1440) (fun_ext (covers-open_spans ws es date))

-- Where the times of the rows are in order and end by 24:00, the available minutes of a day are
-- the number of its minutes that are open by the rows: overlapping windows count once.
pub available_minutes-count :
    (ws : List AvailabilityWindow) (es : List AvailabilityException) (date : Date)
    → All ProperWindow ws
    → All ProperException es
    → (compute_day ws es date).available_minutes ≡ count_below 1440 (open_at ws es date)
unfolding compute_day
available_minutes-count [] [] date pw pe = sym (count_below-none 1440)
available_minutes-count [] (e ∷ es) date pw pe = entered_minutes [] (e ∷ es) date pw pe
available_minutes-count (w ∷ ws) es date pw pe = entered_minutes (w ∷ ws) es date pw pe

pub Apart-compute_day :
    (ws : List AvailabilityWindow) (es : List AvailabilityException) (date : Date)
    → All ProperWindow ws
    → All ProperException es
    → Apart 0 1440 (compute_day ws es date).intervals
unfolding compute_day entered_day
Apart-compute_day [] [] date pw pe = tt
Apart-compute_day [] (e ∷ es) date pw pe = Apart-open_spans [] (e ∷ es) date pw pe
Apart-compute_day (w ∷ ws) es date pw pe = Apart-open_spans (w ∷ ws) es date pw pe

pub date-compute_day :
    (ws : List AvailabilityWindow) (es : List AvailabilityException) (date : Date)
    → (compute_day ws es date).date ≡ date
unfolding compute_day
date-compute_day [] [] date = refl
date-compute_day [] (e ∷ es) date = refl
date-compute_day (w ∷ ws) es date = refl

find-days_from :
    (ws : List AvailabilityWindow) (es : List AvailabilityException) (n : ℕ) (from date : Date)
    → find (λ day. day.date == date) (days_from ws es n from)
      ≡ (if leb from date && leb (suc date) (from + n) then some (compute_day ws es date) else none)
unfolding days_from
find-days_from ws es zero from date = ground arith
find-days_from ws es (suc n) from date =
    ground (arith, date-compute_day ws es from, find-days_from ws es n (add_days from 1) date)

-- The day found for a date is the one computed from the rows, for every date of the range and for
-- no other date.
pub find-compute_availability :
    (ws : List AvailabilityWindow) (es : List AvailabilityException) (from to date : Date)
    → find (λ day. day.date == date) (compute_availability ws es from to)
      ≡ (if leb from date && leb date to then some (compute_day ws es date) else none)
unfolding compute_availability
find-compute_availability ws es from to date =
    ground (arith, find-days_from ws es (to + 1 - from) from date)

-- What the state of a day says of its minutes and of the rows.
abbrev pub StateMeans :
    List AvailabilityWindow → List AvailabilityException → Date → DayState → Type 0
StateMeans ws es date available = (t : ℕ) × (open_at ws es date t ≡ true)
StateMeans ws es date unavailable = (t : ℕ) → open_at ws es date t ≡ false
StateMeans ws es date not_entered = (ws ≡ []) × (es ≡ [])

StateMeans-entered :
    (ws : List AvailabilityWindow) (es : List AvailabilityException) (date : Date)
    (spans : List Span)
    → ((t : ℕ) → covers spans t ≡ open_at ws es date t)
    → Apart 0 1440 spans
    → StateMeans ws es date (state_of spans)
StateMeans-entered ws es date [] h a = λ t. sym (h t)
StateMeans-entered ws es date (s ∷ spans) h a =
    (s.0, sym (h s.0) ∙ ap (λ b. b || covers spans s.0) (in_span-start s a.1))
  where
    in_span-start : (s : Span) → s.0 < s.1 → in_span s.0 s ≡ true
    in_span-start s h = ground arith

-- Where the times of the rows are in order and end by 24:00: a day is `available` only with an open
-- minute, `unavailable` only with none, and `not_entered` only with no row at all.
pub state-StateMeans :
    (ws : List AvailabilityWindow) (es : List AvailabilityException) (date : Date)
    → All ProperWindow ws
    → All ProperException es
    → StateMeans ws es date (compute_day ws es date).state
unfolding compute_day entered_day
state-StateMeans [] [] date pw pe = (refl, refl)
state-StateMeans [] (e ∷ es) date pw pe =
    StateMeans-entered [] (e ∷ es) date _ (covers-open_spans [] (e ∷ es) date)
      (Apart-open_spans [] (e ∷ es) date pw pe)
state-StateMeans (w ∷ ws) es date pw pe =
    StateMeans-entered (w ∷ ws) es date _ (covers-open_spans (w ∷ ws) es date)
      (Apart-open_spans (w ∷ ws) es date pw pe)

abbrev pub is_blank : DayState → Bool
is_blank not_entered = true
is_blank available = false
is_blank unavailable = false

state_of-entered : (spans : List Span) → is_blank (state_of spans) ≡ false
state_of-entered [] = refl
state_of-entered (s ∷ spans) = refl

-- With some row, no day is `not_entered`.
pub state-entered :
    (ws : List AvailabilityWindow) (es : List AvailabilityException) (date : Date)
    → 1 ≤ length ws + length es
    → is_blank (compute_day ws es date).state ≡ false
unfolding compute_day entered_day
state-entered [] [] date h = absurd (omega arith)
state-entered [] (e ∷ es) date h = state_of-entered (open_spans [] (e ∷ es) date)
state-entered (w ∷ ws) es date h = state_of-entered (open_spans (w ∷ ws) es date)
