-- ===== src/CopyDay/Plan.antt =====
-- What the plan of `planCopy` creates.
use ap_academy_landing.Prelude.{
  ℕ, ◌≤◌, ◌≡◌, refl, ap, ap₂, ◌∙◌, inl, inr, Bool, true, not, ◌&&◌, ◌||◌, List, [], ◌∷◌, map, arith,
  ◌==◌, if◌then◌else◌, ==_iff, Bool-cases, any, All, false, any-flat_map,
}
use ap_academy_landing.Wallclock.{Date}
use ap_academy_landing.Availability.{AvailabilityWindow, window_span}
use ap_academy_landing.Availability.Spans.{Span}
use ap_academy_landing.CopyDay.{
  CopyWindow, on_day, span_eq, has_span, times_of, creates_from, targets_from, plan_copy,
}

span_eq-eq : (a b : Span) → span_eq a b ≡ true → (a.0 ≡ b.0) × (a.1 ≡ b.1)
span_eq-eq a b h = ground arith

abbrev pub has_window : ℕ → Span → List AvailabilityWindow → Bool
has_window weekday s ws = any (λ w. w.weekday == weekday && span_eq (window_span w) s) ws

has_span-eq :
    (seen : List Span) (a b : Span) → span_eq a b ≡ true → has_span seen a ≡ has_span seen b
has_span-eq [] a b h = refl
has_span-eq (x ∷ seen) a b h = ground (arith, has_span-eq seen a b)

has_window-creates_from :
    (t target : ℕ) (today : Date) (s : Span) (seen : List Span) (source : List CopyWindow)
    → has_window t s (creates_from target today seen source)
      ≡ (target == t && (has_span (map times_of source) s && not (has_span seen s)))
unfolding creates_from
has_window-creates_from t target today s seen [] = ground arith
has_window-creates_from t target today s seen (w ∷ source) = ground (
  arith,
  has_span-eq seen (times_of w) s,
  has_window-creates_from t target today s seen source,
  has_window-creates_from t target today s (times_of w ∷ seen) source,
)

and_true : (b : Bool) → (b && true) ≡ b
and_true true = refl
and_true false = refl

has_day-eq :
    (done : List ℕ) (d t : ℕ) → (d == t) ≡ true → any (λ x. x == d) done ≡ any (λ x. x == t) done
has_day-eq done d t e = ap (λ (k : ℕ). any (λ x. x == k) done) ((==_iff d t).0 e)

has_day-targets_from :
    (source t : ℕ) (done days : List ℕ)
    → any (λ x. x == t) (targets_from source done days)
      ≡ (any (λ x. x == t) days && (not (t == source) && not (any (λ x. x == t) done)))
unfolding targets_from
has_day-targets_from source t done [] = refl
has_day-targets_from source t done (d ∷ days) =
    ground (arith, has_day-eq done d t, has_day-targets_from source t (d ∷ done) days)

any-at :
    (t : ℕ) (g : ℕ → Bool) (ts : List ℕ)
    → any (λ x. x == t && g x) ts ≡ (any (λ x. x == t) ts && g t)
any-at t g [] = refl
any-at t g (x ∷ ts) = elim (Bool-cases (x == t)) [
  | inl e ↦ ground (arith, ap g ((==_iff x t).0 e), any-at t g ts)
  | inr e ↦ rw e (any-at t g ts)
]

-- The hours that a day has before the copy: none that count, where they are replaced.
abbrev pub kept : List CopyWindow → Bool → Date → ℕ → List Span
kept windows replace today t = if replace then [] else map times_of (on_day t today windows)

any-targets :
    (t : ℕ) (s : Span) (today : Date) (windows source : List CopyWindow) (replace : Bool)
    (ts : List ℕ)
    → any (λ x. has_window t s (creates_from x today (kept windows replace today x) source)) ts
      ≡ any
          (λ x.
            x == t
            && (has_span (map times_of source) s
                && not (has_span (kept windows replace today x) s)))
          ts
any-targets t s today windows source replace [] = refl
any-targets t s today windows source replace (x ∷ ts) =
    ap₂ (λ a b. a || b) (has_window-creates_from t x today s (kept windows replace today x) source)
      (any-targets t s today windows source replace ts)

-- The plan creates a window with given hours on a weekday exactly if that weekday is a target other
-- than the source, an active window of the source has the hours, and, unless the target's hours are
-- replaced, no active window of the target has them already.
pub has_window-plan_copy :
    (windows : List CopyWindow) (source : ℕ) (targets : List ℕ) (replace : Bool) (today : Date)
    (t : ℕ) (s : Span)
    → has_window t s (plan_copy windows source targets replace today).creates ≡ (
        (any (λ x. x == t) targets && not (t == source))
        && (has_span (map times_of (on_day source today windows)) s
            && not (has_span (kept windows replace today t) s)))
unfolding plan_copy
has_window-plan_copy windows source targets replace today t s =
    any-flat_map (λ w. w.weekday == t && span_eq (window_span w) s)
      (λ x. creates_from x today (kept windows replace today x) (on_day source today windows))
      (targets_from source [] targets)
    ∙ any-targets t s today windows (on_day source today windows) replace
        (targets_from source [] targets)
    ∙ any-at t
        (λ x.
          has_span (map times_of (on_day source today windows)) s
          && not (has_span (kept windows replace today x) s))
        (targets_from source [] targets)
    ∙ ap
        (λ b.
          b
          && (has_span (map times_of (on_day source today windows)) s
              && not (has_span (kept windows replace today t) s)))
        (has_day-targets_from source t [] targets
          ∙ ap (λ b. any (λ x. x == t) targets && b) (and_true (not (t == source))))

-- Every created window starts today or later.
starts-creates_from :
    (target : ℕ) (today : Date) (seen : List Span) (source : List CopyWindow)
    → All (λ w. today ≤ w.effective_from) (creates_from target today seen source)
unfolding creates_from
starts-creates_from target today seen [] = tt
starts-creates_from target today seen (w ∷ source) =
    elim (Bool-cases (has_span seen (times_of w))) [
      | inl e ↦ rw (e, creates_from) (starts-creates_from target today seen source)
      | inr e ↦
          rw (e, creates_from)
            (ground arith, starts-creates_from target today (times_of w ∷ seen) source)
    ]
