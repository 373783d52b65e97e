-- ===== src/NetNew/Totals.antt =====
-- The figures of `netNewHours` against each other, and from one week to the next.
use ap_academy_landing.NetNew.Rounds.{
  kept, additions, adds_in, counted_events, event_of, is_weekly, opening_minutes, reduces_in,
  reduction_date, reductions, round_from, round_missing, round_one_off, round_weekly, round,
  runs_to,
}
use ap_academy_landing.Prelude.{
  ℕ, ◌+◌, ◌≡◌, refl, inl, inr, Bool, true, false, not, ◌&&◌, ◌||◌, Option, none, some, List, [],
  ◌∷◌, ◌++◌, arith, leb, if◌then◌else◌, Bool-cases, filter, sum_by, All, All-append, flat_map,
}
use ap_academy_landing.Wallclock.{Date}
use ap_academy_landing.NetNew.{
  same_instant, reduction, in_week, class_from, unverified_reason, adoption_of, addition,
  UnverifiedReason, unclassified, unverified, verified, EventName, EventClass, SeriesFact,
  NetNewInput, CountedEvent, Adoption, class_of, is_classified,
}
use ap_academy_landing.NetNew.Result.{
  event_eq, class_is, class_eq, sum_events, figures_of, net_new_hours,
}

-- The minutes of the events that pass a test.
abbrev pub minutes_where : (CountedEvent → Bool) → List CountedEvent → ℕ
minutes_where p events = sum_by (λ c. c.minutes) (filter p events)

pub minutes_where-append :
    (p : CountedEvent → Bool) (xs ys : List CountedEvent)
    → minutes_where p (xs ++ ys) ≡ minutes_where p xs + minutes_where p ys
minutes_where-append p [] ys = omega arith
minutes_where-append p (x ∷ xs) ys = ground (arith, minutes_where-append p xs ys)

pub minutes_where-flat_map :
    (p : CountedEvent → Bool) (f : SeriesFact → List CountedEvent) (xs : List SeriesFact)
    → minutes_where p (flat_map f xs) ≡ sum_by (λ s. minutes_where p (f s)) xs
minutes_where-flat_map p f [] = refl
minutes_where-flat_map p f (x ∷ xs) =
    omega (arith, minutes_where-append p (f x) (flat_map f xs), minutes_where-flat_map p f xs)

abbrev pub is_known : EventClass → Bool
is_known verified = true
is_known unverified = true
is_known unclassified = false

-- Every event of the list is verified or unverified.
abbrev pub AllKnown : List CountedEvent → Type 0
AllKnown events = All (λ c. is_known c.event_class ≡ true) events

add_part :
    (k : EventClass) (b : Bool) (m t v u : ℕ)
    → is_known k ≡ true
    → t ≡ v + u
    → (if b then m else 0) + t
      ≡ (if class_eq k verified && b then m else 0)
        + v
        + ((if class_eq k unverified && b then m else 0) + u)
add_part verified b m t v u h e = ground arith
add_part unverified b m t v u h e = ground arith
add_part unclassified b m t v u h e = cc

sum_events-cons :
    (w : Option EventClass) (event : EventName) (c : CountedEvent) (events : List CountedEvent)
    → sum_events (c ∷ events) w event
      ≡ (if class_is w c.event_class && event_eq c.event event then c.minutes else 0)
        + sum_events events w event
sum_events-cons w event c events = ground arith

sum_events-parts :
    (event : EventName) (events : List CountedEvent)
    → AllKnown events
    → sum_events events none event
      ≡ sum_events events (some verified) event + sum_events events (some unverified) event
sum_events-parts event [] a = refl
sum_events-parts event (c ∷ events) a =
    rw
      (
        sum_events-cons none event c events,
        sum_events-cons (some verified) event c events,
        sum_events-cons (some unverified) event c events,
      )
      (add_part c.event_class (event_eq c.event event) c.minutes _ _ _ a.0
        (sum_events-parts event events a.1))

class_from-known : (r : Option UnverifiedReason) → is_known (class_from true r) ≡ true
class_from-known none = refl
class_from-known (some r) = refl

AllKnown-if :
    (b : Bool) (c : CountedEvent)
    → is_known c.event_class ≡ true
    → AllKnown (if b then c ∷ [] else [])
AllKnown-if true c h = (h, tt)
AllKnown-if false c h = tt

module _ (input : NetNewInput) (known : is_classified input ≡ true) where
  class_of-known : (s : SeriesFact) → is_known (class_of input s) ≡ true
  class_of-known s = rw known (class_from-known (unverified_reason input s))

  reductions-AllKnown : (s : SeriesFact) (d : Option Date) → AllKnown (reductions input s d)
  reductions-AllKnown s none = tt
  reductions-AllKnown s (some d) =
      AllKnown-if (in_week d input.week) (event_of input s reduction d) (class_of-known s)

  weekly-AllKnown : (s : SeriesFact) (b : Bool) → AllKnown (round_weekly input s b).counted
  weekly-AllKnown s b =
      All-append (λ c. is_known c.event_class ≡ true) (additions input s b) _
        (AllKnown-if (adds_in s input.week && not b) (event_of input s addition s.start_date)
          (class_of-known s))
        (reductions-AllKnown s (reduction_date s.kind s.effective_until))

  one_off-AllKnown : (s : SeriesFact) → AllKnown (round_one_off input.week s).counted
  one_off-AllKnown s = elim (Bool-cases (adds_in s input.week)) [
    | inl e ↦ rw e tt
    | inr e ↦ rw e tt
  ]

  missing-AllKnown : (s : SeriesFact) → AllKnown (round_missing input.week s).counted
  missing-AllKnown s =
      elim (Bool-cases (
        adds_in s input.week
        || (reduces_in (reduction_date s.kind s.effective_until) input.week
            || is_weekly s.kind
              && (leb s.start_date input.week.to && runs_to s.effective_until input.week.from)))) [
                | inl e ↦ rw e tt
                | inr e ↦ rw e tt
              ]

  round_from-AllKnown :
      (s : SeriesFact) (a : Option Adoption) → AllKnown (round_from input s a).counted
  round_from-AllKnown s none = missing-AllKnown s
  round_from-AllKnown s (some a) = elim (Bool-cases (is_weekly s.kind)) [
    | inl e ↦ rw e (weekly-AllKnown s (same_instant s.created_at a.adopted_at))
    | inr e ↦ rw e (one_off-AllKnown s)
  ]

  rounds-AllKnown :
      (series : List SeriesFact) → AllKnown (flat_map (λ s. (round input s).counted) series)
  unfolding round
  rounds-AllKnown [] = tt
  rounds-AllKnown (s ∷ series) =
      All-append (λ c. is_known c.event_class ≡ true) (round input s).counted _
        (round_from-AllKnown s (adoption_of input.adoptions s.student_id)) (rounds-AllKnown series)

  -- Where the people and the payments were read, the gross minutes are those of the verified and the
  -- unverified events together, for additions and for reductions.
  pub gross-net_new_hours :
      let r = net_new_hours input in
      let f = figures_of r.counted (opening_minutes input) in
      (r.figures ≡ some f)
      × (r.gross_additions ≡ f.additions_verified + f.additions_unverified)
      × (r.gross_reductions ≡ f.reductions_verified + f.reductions_unverified)
  unfolding net_new_hours counted_events
  gross-net_new_hours = (
    rw known refl,
    sum_events-parts addition (counted_events input) (rounds-AllKnown (kept input)),
    sum_events-parts reduction (counted_events input) (rounds-AllKnown (kept input)),
  )
