-- ===== src/Availability/Cover.antt =====
-- The minutes of a day's intervals against the rows, read one by one.
use ap_academy_landing.Prelude.{
  ℕ, ◌≡◌, refl, ◌∙◌, ap, ap₂, Bool, false, not, ◌&&◌, ◌||◌, List, [], ◌∷◌, Option, none, some,
  arith, ◌==◌, any, any-append, any-filter, any-map, filter, map,
}
use ap_academy_landing.Wallclock.{Date}
use ap_academy_landing.Availability.Spans.{
  Span, in_span, covers, union, covers-union, covers-subtract,
}
use ap_academy_landing.Availability.{
  AvailabilityWindow, AvailabilityException, ExceptionKind, time_off, extra, is_effective,
  window_span, times, extra_of, extra_spans, whole_day, cut_of, cut_all, entered_spans, open_spans,
  compute_day,
}

-- The specification: what a row says of one minute.
abbrev pub adds_at : ℕ → ExceptionKind → Option Span → Bool
adds_at t extra (some s) = in_span t s
adds_at t extra none = false
adds_at t time_off s = false

abbrev pub cuts_at : ℕ → ExceptionKind → Option Span → Bool
cuts_at t time_off s = in_span t (whole_day s)
cuts_at t extra s = false

abbrev pub adds : ℕ → AvailabilityException → Bool
adds t e = adds_at t e.kind (times e.start_time e.end_time)

abbrev pub cuts : ℕ → AvailabilityException → Bool
cuts t e = cuts_at t e.kind (times e.start_time e.end_time)

-- Open at a minute: in a window of the day or in extra hours, and in no time off.
abbrev pub open_at : List AvailabilityWindow → List AvailabilityException → Date → ℕ → Bool
open_at windows exceptions date t =
    (any (λ w. is_effective date w && in_span t (window_span w)) windows
      || any (λ e. e.on_date == date && adds t e) exceptions)
    && not (any (λ e. e.on_date == date && cuts t e) exceptions)

covers-extra_of :
    (k : ExceptionKind) (s : Option Span) (t : ℕ) → covers (extra_of k s) t ≡ adds_at t k s
covers-extra_of extra (some s) t = ground arith
covers-extra_of extra none t = refl
covers-extra_of time_off s t = refl

covers-extra_spans :
    (es : List AvailabilityException) (t : ℕ) → covers (extra_spans es) t ≡ any (adds t) es
covers-extra_spans [] t = refl
covers-extra_spans (e ∷ es) t =
    any-append (in_span t) (extra_of e.kind (times e.start_time e.end_time)) (extra_spans es)
    ∙ ap₂ (λ a b. a || b) (covers-extra_of e.kind (times e.start_time e.end_time) t)
        (covers-extra_spans es t)

covers-cut_of :
    (k : ExceptionKind) (s : Option Span) (spans : List Span) (t : ℕ)
    → covers (cut_of k s spans) t ≡ (covers spans t && not (cuts_at t k s))
covers-cut_of time_off s spans t = covers-subtract spans (whole_day s) t
covers-cut_of extra s spans t = ground arith

and_not_or : (a b c : Bool) → ((a && not b) && not c) ≡ (a && not (b || c))
and_not_or a b c = ground arith

covers-cut_all :
    (es : List AvailabilityException) (spans : List Span) (t : ℕ)
    → covers (cut_all es spans) t ≡ (covers spans t && not (any (cuts t) es))
unfolding cut_all
covers-cut_all [] spans t = ground arith
covers-cut_all (e ∷ es) spans t =
    covers-cut_all es _ t
    ∙ ap (λ b. b && not (any (cuts t) es))
        (covers-cut_of e.kind (times e.start_time e.end_time) spans t)
    ∙ and_not_or (covers spans t) (cuts t e) (any (cuts t) es)

covers-entered_spans :
    (ws : List AvailabilityWindow) (es : List AvailabilityException) (date : Date) (t : ℕ)
    → covers (entered_spans ws es date) t ≡ (
        any (λ w. is_effective date w && in_span t (window_span w)) ws
        || any (λ e. e.on_date == date && adds t e) es)
unfolding entered_spans
covers-entered_spans ws es date t =
    any-append (in_span t) (map window_span (filter (is_effective date) ws))
      (extra_spans (filter (λ e. e.on_date == date) es))
    ∙ ap₂ (λ a b. a || b)
        (any-map (in_span t) window_span (filter (is_effective date) ws)
          ∙ any-filter (λ w. in_span t (window_span w)) (is_effective date) ws)
        (covers-extra_spans (filter (λ e. e.on_date == date) es) t
          ∙ any-filter (adds t) (λ e. e.on_date == date) es)

pub covers-open_spans :
    (ws : List AvailabilityWindow) (es : List AvailabilityException) (date : Date) (t : ℕ)
    → covers (open_spans ws es date) t ≡ open_at ws es date t
unfolding open_spans
covers-open_spans ws es date t =
    covers-cut_all (filter (λ e. e.on_date == date) es) (union (entered_spans ws es date)) t
    ∙ ap₂ (λ a b. a && not b)
        (covers-union (entered_spans ws es date) t ∙ covers-entered_spans ws es date t)
        (any-filter (cuts t) (λ e. e.on_date == date) es)

-- For any rows, a minute of the day lies in one of the computed intervals exactly if a window of
-- that weekday that is in force, or extra hours of that date, contain it and no time off of that
-- date does.
pub covers-compute_day :
    (ws : List AvailabilityWindow) (es : List AvailabilityException) (date : Date) (t : ℕ)
    → covers (compute_day ws es date).intervals t ≡ open_at ws es date t
unfolding compute_day
covers-compute_day [] [] date t = refl
covers-compute_day [] (e ∷ es) date t = covers-open_spans [] (e ∷ es) date t
covers-compute_day (w ∷ ws) es date t = covers-open_spans (w ∷ ws) es date t
