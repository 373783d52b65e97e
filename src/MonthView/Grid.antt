-- ===== src/MonthView/Grid.antt =====
-- Where the classes of a month stand in the weeks of `buildMonth`.
use ap_academy_landing.Recurrence.{ClassException, ClassSeries, Key, in_range}
use ap_academy_landing.Wallclock.{Instant, Date, add_days, iso_weekday}
use ap_academy_landing.Prelude.{
  ℕ, zero, suc, ◌+◌, ◌-◌, ◌≤◌, ◌≡◌, refl, sym, ap, ◌∙◌, inl, inr, Bool, true, false, ◌&&◌, ◌||◌,
  List, [], ◌∷◌, ◌++◌, arith, ltb, leb, ◌==◌, if◌then◌else◌, ==_iff, Bool-cases, any, any-filter,
  ◌/◌, ◌%◌, length, filter, sum_by,
}
use ap_academy_landing.Calendar.{is_leap, month_start, month_range, sunday_week_of}
use ap_academy_landing.Calendar.Lengths.{month_days_pos, month_range-suc, sunday_week_of_lem}
use ap_academy_landing.MonthView.{
  ClassState, is_live, classes_in, build_month, CalendarClass, Day, push_day, day_of, weeks_from,
  month_weeks,
}

abbrev pub all_days : List (List Day) → List Day
all_days [] = []
all_days (w ∷ ws) = w ++ all_days ws

abbrev cells : (Date → Day) → ℕ → Date → List Day
cells cell zero d = []
cells cell (suc n) d = cell d ∷ cells cell n (add_days d 1)

append_assoc : (xs ys zs : List Day) → ((xs ++ ys) ++ zs) ≡ (xs ++ (ys ++ zs))
append_assoc [] ys zs = refl
append_assoc (x ∷ xs) ys zs = ap (λ r. x ∷ r) (append_assoc xs ys zs)

append_nil : (xs : List Day) → (xs ++ []) ≡ xs
append_nil [] = refl
append_nil (x ∷ xs) = ap (λ r. x ∷ r) (append_nil xs)

all_days-push_day :
    (w : List Day) (ws : List (List Day)) (x : Day)
    → all_days (push_day (w ∷ ws) x) ≡ (all_days (w ∷ ws) ++ x ∷ [])
all_days-push_day w [] x = append_nil (w ++ x ∷ []) ∙ ap (λ r. r ++ x ∷ []) (sym (append_nil w))
all_days-push_day w (v ∷ ws) x =
    ap (λ r. w ++ r) (all_days-push_day v ws x) ∙ sym (append_assoc w (all_days (v ∷ ws)) (x ∷ []))

abbrev is_filled : List (List Day) → Bool
is_filled [] = false
is_filled (w ∷ ws) = true

all_days-new_week : (ws : List (List Day)) → all_days (ws ++ [] ∷ []) ≡ all_days ws
all_days-new_week [] = refl
all_days-new_week (w ∷ ws) = ap (λ r. w ++ r) (all_days-new_week ws)

push_day-is_filled :
    (w : List Day) (ws : List (List Day)) (x : Day) → is_filled (push_day (w ∷ ws) x) ≡ true
push_day-is_filled w [] x = refl
push_day-is_filled w (v ∷ ws) x = refl

-- The weeks after one more day.
abbrev with_day : List (List Day) → Bool → Day → List (List Day)
with_day ws sunday x = push_day (if sunday then ws ++ [] ∷ [] else ws) x

all_days-with_day :
    (ws : List (List Day)) (sunday : Bool) (x : Day)
    → (sunday || is_filled ws) ≡ true
    → (all_days (with_day ws sunday x) ≡ (all_days ws ++ x ∷ []))
      × (is_filled (with_day ws sunday x) ≡ true)
all_days-with_day [] true x h = (refl, refl)
all_days-with_day [] false x h = cc
all_days-with_day (w ∷ ws) true x h = (
  all_days-push_day w (ws ++ [] ∷ []) x ∙ ap (λ r. r ++ x ∷ []) (all_days-new_week (w ∷ ws)),
  push_day-is_filled w (ws ++ [] ∷ []) x,
)
all_days-with_day (w ∷ ws) false x h = (all_days-push_day w ws x, push_day-is_filled w ws x)

all_days-weeks_from :
    (cell : Date → Day) (n : ℕ) (d : Date) (ws : List (List Day))
    → (iso_weekday d == 7 || is_filled ws) ≡ true
    → all_days (weeks_from cell n d ws) ≡ (all_days ws ++ cells cell n d)
unfolding weeks_from
all_days-weeks_from cell zero d ws h = sym (append_nil (all_days ws))
all_days-weeks_from cell (suc n) d ws h =
    let step = all_days-with_day ws (iso_weekday d == 7) (cell d) h in
    all_days-weeks_from cell n (add_days d 1) (with_day ws (iso_weekday d == 7) (cell d))
      (ground (arith, step.1))
    ∙ ap (λ r. r ++ cells cell n (add_days d 1)) step.0
    ∙ append_assoc (all_days ws) (cell d ∷ []) (cells cell n (add_days d 1))

module _ (classes : List CalendarClass) (from to today : Date) where
  any-cells :
      (q : CalendarClass → Bool) (d : Date) (n : ℕ) (first : Date)
      → any (λ x. x.date == d && any q x.classes) (cells (day_of classes from to today) n first)
        ≡ ((leb first d && ltb d (first + n)) && any q (day_of classes from to today d).classes)
  any-cells q d zero first = ground arith
  any-cells q d (suc n) first = elim (Bool-cases (first == d)) [
    | inl e ↦ rw ((==_iff first d).0 e) (ground (arith, any-cells q d n (add_days d 1)))
    | inr e ↦ rw e (any-cells q d n (add_days first 1) ∙ ground arith)
  ]

  any-inside :
      (q : CalendarClass → Bool) (d : Date)
      → any q (day_of classes from to today d).classes
        ≡ (in_range from to d && any (λ c. c.date == d && q c) classes)
  any-inside q d = elim (Bool-cases (in_range from to d)) [
    | inl e ↦ rw e (any-filter q (λ c. c.date == d) classes)
    | inr e ↦ rw e refl
  ]

  -- Over the weeks of a range: the cell of a date has a class that passes a test exactly if the date
  -- is in the range and such a class falls on it. The days before and after the range have none.
  pub any-month_weeks :
      (q : CalendarClass → Bool) (d : Date)
      → 7 ≤ from
      → from ≤ to
      → any
          (λ x. x.date == d && any q x.classes)
          (all_days (month_weeks (day_of classes from to today) from to))
        ≡ (in_range from to d && any (λ c. c.date == d && q c) classes)
  unfolding month_weeks
  any-month_weeks q d lo h =
      let a = sunday_week_of_lem from lo in
      let b = sunday_week_of_lem to (omega arith) in
      ap (any (λ x. x.date == d && any q x.classes)) (
        all_days-weeks_from (day_of classes from to today)
          ((sunday_week_of to).1 + 1 - (sunday_week_of from).0) (sunday_week_of from).0 []
          (ground (arith, a.0)))
      ∙ any-cells q d ((sunday_week_of to).1 + 1 - (sunday_week_of from).0) (sunday_week_of from).0
      ∙ ap
          (λ r.
            (leb (sunday_week_of from).0 d
              && ltb d
                  ((sunday_week_of from).0 + ((sunday_week_of to).1 + 1 - (sunday_week_of from).0)))
            && r)
          (any-inside q d)
      ∙ ground (arith, a.1, b.2)

-- How often a class counts: once, unless it is cancelled.
abbrev pub counts_of : ClassState → ℕ
counts_of ClassState.cancelled = 0
counts_of ClassState.scheduled = 1
counts_of ClassState.moved = 1
counts_of ClassState.plain_class = 1
counts_of (ClassState.for_purpose p) = 1

live_length :
    (x : CalendarClass) (xs : List CalendarClass) (s : ClassState)
    → length (if is_live s then x ∷ xs else xs) ≡ counts_of s + length xs
live_length x xs ClassState.cancelled = omega arith
live_length x xs ClassState.scheduled = omega arith
live_length x xs ClassState.moved = omega arith
live_length x xs ClassState.plain_class = omega arith
live_length x xs (ClassState.for_purpose p) = omega arith

length-live :
    (xs : List CalendarClass)
    → length (filter (λ c. is_live c.state) xs) ≡ sum_by (λ c. counts_of c.state) xs
length-live [] = refl
length-live (x ∷ xs) =
    live_length x (filter (λ c. is_live c.state) xs) x.state
    ∙ ap (λ n. counts_of x.state + n) (length-live xs)

length-filter_le :
    (p : CalendarClass → Bool) (xs : List CalendarClass) → length (filter p xs) ≤ length xs
length-filter_le p [] = omega arith
length-filter_le p (x ∷ xs) = ground (arith, length-filter_le p xs)

month_range_le :
    (month : ℕ)
    → 12 ≤ month
    → (7 ≤ (month_range month).0) × ((month_range month).0 ≤ (month_range month).1)
unfolding month_range month_start
month_range_le month h = (
  omega arith,
  omega (arith, month_range-suc month, month_days_pos (is_leap (month / 12)) (month % 12)),
)

module _ (behind : Instant → ℕ) (key_le : Key → Key → Bool) where
  -- In the month view, the cell of a date shows a class that passes a test exactly if the date is in
  -- the month and such a class is on it. The total of the summary counts each class of the month that
  -- is not cancelled once, and is its past and its upcoming classes together. Months start at year 1.
  pub any-build_month :
      (series : List ClassSeries) (exceptions : List ClassException) (month : ℕ) (today : Date)
      (now : Instant) (q : CalendarClass → Bool) (d : Date)
      → 12 ≤ month
      → let view = build_month behind key_le series exceptions month today now in
        let range = month_range month in
        (any (λ x. x.date == d && any q x.classes) (all_days view.weeks) ≡ (
          in_range range.0 range.1 d
          && any
              (λ c. c.date == d && q c)
              (classes_in behind key_le series exceptions now range.0 range.1)))
        × (view.summary.total
            ≡ sum_by
                (λ c. counts_of c.state)
                (classes_in behind key_le series exceptions now range.0 range.1))
        × (view.summary.total ≡ view.summary.past + view.summary.upcoming)
  unfolding build_month
  any-build_month series exceptions month today now q d h = (
    any-month_weeks
        (classes_in behind key_le series exceptions now (month_range month).0 (month_range month).1)
        (month_range month).0 (month_range month).1 today q d (month_range_le month h).0
        (month_range_le month h).1,
    length-live (
        classes_in behind key_le series exceptions now (month_range month).0 (month_range month).1),
    omega (
      arith,
      length-filter_le (λ c. c.past)
          (filter (λ c. is_live c.state)
            (classes_in behind key_le series exceptions now (month_range month).0
              (month_range month).1)),
    ),
  )
