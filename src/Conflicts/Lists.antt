-- ===== src/Conflicts/Lists.antt =====
-- The two lists that `findConflicts` returns, against the judgement of each class.
use ap_academy_landing.Prelude.{
  String, ◌≡◌, refl, ap, ap₂, ◌∙◌, inl, inr, Bool, true, false, ◌&&◌, ◌||◌, Option, List, [], ◌∷◌,
  ◌++◌, arith, Bool-cases, or_assoc, any, any-append, str_eq, eq_iff, none, some, ltb, leb,
  if◌then◌else◌,
}
use ap_academy_landing.Wallclock.{Date}
use ap_academy_landing.Recurrence.{Occurrence, Status, is_cancelled}
use ap_academy_landing.Availability.Spans.{Span}
use ap_academy_landing.Availability.{AvailabilityDay, DayState, available, not_entered, unavailable}
use ap_academy_landing.Conflicts.{
  judge_state, judge_day, day_of, fits, StaffAvailability, Outcome, skip, missing, conflict, judge,
  missing_of, not_entered_from, find_conflicts, has_id,
}

abbrev pub is_missing : Outcome → Bool
is_missing missing = true
is_missing skip = false
is_missing (conflict reason) = false

has_id-concat :
    (ids : List String) (x id : String) → has_id (ids ++ x ∷ []) id ≡ (has_id ids id || str_eq x id)
has_id-concat ids x id = any-append (λ y. str_eq y id) ids (x ∷ []) ∙ ground arith

has_id-eq : (ids : List String) (x id : String) → str_eq x id ≡ true → has_id ids x ≡ has_id ids id
has_id-eq ids x id e = ap (has_id ids) ((eq_iff x id).0 e)

has_id-missing_of :
    (x id : String) (r : Outcome) (ids : List String)
    → has_id (missing_of x r ids) id ≡ (has_id ids id || (is_missing r && str_eq x id))
has_id-missing_of x id skip ids = ground arith
has_id-missing_of x id (conflict reason) ids = ground arith
has_id-missing_of x id missing ids = elim (Bool-cases (has_id ids x)) [
  | inl e ↦ rw e (ground (arith, has_id-eq ids x id))
  | inr e ↦ rw e (has_id-concat ids x id)
]

abbrev pub NoRepeat : List String → Type 0
NoRepeat [] = Unit
NoRepeat (id ∷ ids) = (has_id ids id ≡ false) × NoRepeat ids

-- The state says that nothing is entered for the day.
abbrev pub is_blank_state : DayState → Bool
is_blank_state not_entered = true
is_blank_state available = false
is_blank_state unavailable = false

abbrev pub is_blank : Option AvailabilityDay → Bool
is_blank none = false
is_blank (some day) = is_blank_state day.state

abbrev pub is_taught : Status → Bool
is_taught Status.scheduled = true
is_taught Status.moved = true
is_taught Status.cancelled = false

-- A live class from today on, on a day of its teacher with nothing entered.
abbrev pub lacks_entry : Date → Occurrence → Option StaffAvailability → Bool
lacks_entry today o a = is_taught o.status && (leb today o.date && is_blank (day_of a o.date))

NoRepeat-concat :
    (ids : List String) (x : String)
    → NoRepeat ids
    → has_id ids x ≡ false
    → NoRepeat (ids ++ x ∷ [])
NoRepeat-concat [] x a h = (refl, tt)
NoRepeat-concat (y ∷ ids) x a h = (
  rw (has_id-concat ids x y) (ground (arith, eq_iff x y, eq_iff y x)),
  NoRepeat-concat ids x a.1 (ground arith),
)

NoRepeat-missing_of :
    (x : String) (r : Outcome) (ids : List String) → NoRepeat ids → NoRepeat (missing_of x r ids)
NoRepeat-missing_of x skip ids a = a
NoRepeat-missing_of x (conflict reason) ids a = a
NoRepeat-missing_of x missing ids a = elim (Bool-cases (has_id ids x)) [
  | inl e ↦ rw e a
  | inr e ↦ rw e (NoRepeat-concat ids x a e)
]

is_missing-judge_state :
    (o : Occurrence) (a : Option StaffAvailability) (xs : List Span) (s : DayState)
    → is_missing (judge_state o a xs s) ≡ is_blank_state s
is_missing-judge_state o a xs not_entered = refl
is_missing-judge_state o a xs available = elim (Bool-cases (fits xs o.start_time o.end_time)) [
  | inl e ↦ rw e refl
  | inr e ↦ rw e refl
]
is_missing-judge_state o a xs unavailable = elim (Bool-cases (fits xs o.start_time o.end_time)) [
  | inl e ↦ rw e refl
  | inr e ↦ rw e refl
]

is_missing-judge_day :
    (o : Occurrence) (a : Option StaffAvailability) (day : Option AvailabilityDay)
    → is_missing (judge_day o a day) ≡ is_blank day
is_missing-judge_day o a none = refl
is_missing-judge_day o a (some day) = is_missing-judge_state o a day.intervals day.state

is_missing-judge :
    (today : Date) (o : Occurrence) (a : Option StaffAvailability)
    → is_missing (judge today o a) ≡ lacks_entry today o a
is_missing-judge today o a = by_status o.status
  where
    by_status :
        (s : Status)
        → is_missing
            (if is_cancelled s || ltb o.date today then skip else judge_day o a (day_of a o.date))
          ≡ (is_taught s && (leb today o.date && is_blank (day_of a o.date)))
    by_status Status.cancelled = refl
    by_status Status.scheduled = ground (arith, is_missing-judge_day o a (day_of a o.date))
    by_status Status.moved = ground (arith, is_missing-judge_day o a (day_of a o.date))

module _ (availability : String → Option StaffAvailability) (today : Date) where
  has_id-not_entered_from :
      (id : String) (os : List Occurrence) (ids : List String)
      → has_id (not_entered_from availability today os ids) id ≡ (
          has_id ids id
          || any
              (λ o. is_missing (judge today o (availability o.staff_id)) && str_eq o.staff_id id)
              os)
  unfolding not_entered_from
  has_id-not_entered_from id [] ids = ground arith
  has_id-not_entered_from id (o ∷ os) ids =
      has_id-not_entered_from id os _
      ∙ ap
          (λ b.
            b
            || any
                (λ o. is_missing (judge today o (availability o.staff_id)) && str_eq o.staff_id id)
                os)
          (has_id-missing_of o.staff_id id (judge today o (availability o.staff_id)) ids)
      ∙ or_assoc (has_id ids id)
          (is_missing (judge today o (availability o.staff_id)) && str_eq o.staff_id id) _

  NoRepeat-not_entered_from :
      (os : List Occurrence) (ids : List String)
      → NoRepeat ids
      → NoRepeat (not_entered_from availability today os ids)
  unfolding not_entered_from
  NoRepeat-not_entered_from [] ids a = a
  NoRepeat-not_entered_from (o ∷ os) ids a =
      NoRepeat-not_entered_from os _
        (NoRepeat-missing_of o.staff_id (judge today o (availability o.staff_id)) ids a)

  any-lacks_entry :
      (id : String) (os : List Occurrence)
      → any (λ o. is_missing (judge today o (availability o.staff_id)) && str_eq o.staff_id id) os
        ≡ any (λ o. lacks_entry today o (availability o.staff_id) && str_eq o.staff_id id) os
  any-lacks_entry id [] = refl
  any-lacks_entry id (o ∷ os) =
      ap₂ (λ a b. (a && str_eq o.staff_id id) || b)
        (is_missing-judge today o (availability o.staff_id)) (any-lacks_entry id os)

  -- The second list names a teacher exactly if one of their classes is not cancelled, is dated today
  -- or later, and falls on a day of the teacher's availability whose state is that nothing is
  -- entered; and it names nobody twice.
  pub not_entered-find_conflicts :
      (id : String) (os : List Occurrence)
      → (has_id (find_conflicts availability today os).1 id
          ≡ any (λ o. lacks_entry today o (availability o.staff_id) && str_eq o.staff_id id) os)
        × NoRepeat (find_conflicts availability today os).1
  unfolding find_conflicts
  not_entered-find_conflicts id os =
      (has_id-not_entered_from id os [] ∙ any-lacks_entry id os, NoRepeat-not_entered_from os [] tt)
