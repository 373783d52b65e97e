-- ===== src/Lessons/Reconcile.antt =====
-- Which classes and lessons `reconcile` lists, and what `planLog` decides.
use ap_academy_landing.Prelude.{
  ◌≡◌, refl, ap, ap₂, ◌∙◌, Bool, true, false, not, ◌&&◌, ◌||◌, Option, none, some, List, [], ◌∷◌,
  map, arith, if◌then◌else◌, any, filter, any-filter, any-map, any-flat_map, is_some, any-find_last,
  ◌==◌, str_eq,
}
use ap_academy_landing.Recurrence.{Occurrence, key_of, key_eq}
use ap_academy_landing.Lessons.{
  was_delivered, no_show, is_on, delivered, same_id, OutcomeKind, Date, double_of, DoubleLesson,
  LessonRow, OutcomeKey, matches, state_in, unlinked_for, doubles_for, is_delivered_key, reconcile,
}

any-unlinked_for :
    (q : Occurrence → List LessonRow → Bool) (o : Occurrence) (same : List LessonRow)
    (x : Option OutcomeKey)
    → any (λ u. q u.occurrence u.candidates) (unlinked_for o same x) ≡ (not (is_some x) && q o same)
any-unlinked_for q o same none = ground arith
any-unlinked_for q o same (some x) = refl

any-doubles_for :
    (q : Occurrence → LessonRow → Bool) (o : Occurrence) (lessons : List LessonRow) (b : Bool)
    → any
        (λ (d : DoubleLesson). q d.occurrence d.lesson)
        (if b then map (double_of o) (filter (matches o) lessons) else [])
      ≡ (b && any (λ l. matches o l && q o l) lessons)
any-doubles_for q o lessons false = refl
any-doubles_for q o lessons true =
    any-map (λ (d : DoubleLesson). q d.occurrence d.lesson) (double_of o)
      (filter (matches o) lessons)
    ∙ any-filter (q o) (matches o) lessons

-- A class is listed as unlinked exactly if no outcome is recorded for it, and with the lessons of its
-- date, teacher and student: for every test, one of the list passes it exactly if such a class does.
pub unlinked-reconcile :
    (q : Occurrence → List LessonRow → Bool) (os : List Occurrence) (outcomes : List OutcomeKey)
    (lessons : List LessonRow)
    → any (λ u. q u.occurrence u.candidates) (reconcile os outcomes lessons).0
      ≡ any
          (λ o.
            not (
              any
                (λ x.
                  key_eq (key_of x.series_id x.original_date) (key_of o.series_id o.original_date))
                outcomes)
            && q o (filter (matches o) lessons))
          os
unfolding reconcile
unlinked-reconcile q os outcomes lessons =
    any-flat_map (λ u. q u.occurrence u.candidates)
      (λ o. unlinked_for o (filter (matches o) lessons) (state_in outcomes o)) os
    ∙ per_class os
  where
    per_class :
        (os : List Occurrence)
        → any
            (λ o.
              any
                (λ u. q u.occurrence u.candidates)
                (unlinked_for o (filter (matches o) lessons) (state_in outcomes o)))
            os
          ≡ any
              (λ o.
                not (
                  any
                    (λ x.
                      key_eq
                        (key_of x.series_id x.original_date)
                        (key_of o.series_id o.original_date))
                    outcomes)
                && q o (filter (matches o) lessons))
              os
    per_class [] = refl
    per_class (o ∷ os) =
        ap₂ (λ a b. a || b)
          (any-unlinked_for q o (filter (matches o) lessons) (state_in outcomes o)
            ∙ ap (λ b. not b && q o (filter (matches o) lessons))
                (any-find_last
                  (λ x.
                    key_eq (key_of x.series_id x.original_date)
                      (key_of o.series_id o.original_date))
                  outcomes))
          (per_class os)

-- The outcome is stored for the class.
abbrev pub is_stored_for : Occurrence → OutcomeKey → Bool
is_stored_for o x = str_eq x.series_id o.series_id && x.original_date == o.original_date

abbrev pub is_delivery : OutcomeKind → Bool
is_delivery delivered = true
is_delivery no_show = false

-- The outcome that is stored last for the class is a delivery.
unfoldable pub is_delivered_last : Occurrence → List OutcomeKey → Bool
is_delivered_last o [] = false
is_delivered_last o (x ∷ xs) =
    let later = is_delivered_last o xs in
    if any (is_stored_for o) xs then later else is_stored_for o x && is_delivery x.outcome

abbrev pub is_dated : Option Date → Date → Bool
is_dated (some d) date = d == date
is_dated none date = false

-- The lesson has the date, the teacher and the student of the class.
abbrev pub is_lesson_of : Occurrence → LessonRow → Bool
is_lesson_of o l =
    (any (λ x. same_id x o.student_id) l.student_ids && any (λ x. same_id x o.staff_id) l.staff_ids)
    && is_dated l.date o.date

is_on-is_dated : (d : Option Date) (date : Date) → is_on d date ≡ is_dated d date
is_on-is_dated none date = refl
is_on-is_dated (some d) date = refl

matches-is_lesson_of : (o : Occurrence) (l : LessonRow) → matches o l ≡ is_lesson_of o l
unfolding matches
matches-is_lesson_of o l = rw (is_on-is_dated l.date o.date) (ground arith)

was_delivered-is_delivery : (k : OutcomeKind) → was_delivered k ≡ is_delivery k
was_delivered-is_delivery delivered = refl
was_delivered-is_delivery no_show = refl

delivered_or :
    (f : Option OutcomeKey) (a later b : Bool) (x : OutcomeKey)
    → is_some f ≡ a
    → is_delivered_key f ≡ later
    → is_delivered_key (if is_some f then f else if b then some x else none)
      ≡ (if a then later else b && is_delivery x.outcome)
delivered_or (some y) a later b x h k = rw (← h) k
delivered_or none a later true x h k = rw (← h) (was_delivered-is_delivery x.outcome)
delivered_or none a later false x h k = rw (← h) refl

state_in-delivered :
    (o : Occurrence) (xs : List OutcomeKey)
    → is_delivered_key (state_in xs o) ≡ is_delivered_last o xs
unfolding is_delivered_last
state_in-delivered o [] = refl
state_in-delivered o (x ∷ xs) =
    delivered_or (state_in xs o) _ _ (is_stored_for o x) x (any-find_last (is_stored_for o) xs)
      (state_in-delivered o xs)

-- A lesson is listed as a double exactly for a class whose outcome, the one stored last for its series
-- and original date, is a delivery, and where the lesson has the date, the teacher and the student of
-- the class: for every test, one of the list passes it exactly if such a pair does.
pub doubles-reconcile :
    (q : Occurrence → LessonRow → Bool) (os : List Occurrence) (outcomes : List OutcomeKey)
    (lessons : List LessonRow)
    → any (λ (d : DoubleLesson). q d.occurrence d.lesson) (reconcile os outcomes lessons).1
      ≡ any (λ o. is_delivered_last o outcomes && any (λ l. is_lesson_of o l && q o l) lessons) os
unfolding reconcile
doubles-reconcile q os outcomes lessons =
    any-flat_map (λ (d : DoubleLesson). q d.occurrence d.lesson)
      (λ o. doubles_for o (filter (matches o) lessons) (state_in outcomes o)) os
    ∙ ap (λ p. any p os) (λ i o. per_class o i)
  where
    per_class :
        (o : Occurrence)
        → any
            (λ (d : DoubleLesson). q d.occurrence d.lesson)
            (doubles_for o (filter (matches o) lessons) (state_in outcomes o))
          ≡ (is_delivered_last o outcomes && any (λ l. is_lesson_of o l && q o l) lessons)
    per_class o =
        any-doubles_for q o lessons (is_delivered_key (state_in outcomes o))
        ∙ ap₂ (λ a b. a && b) (state_in-delivered o outcomes)
            (ap (λ p. any p lessons) (λ i l. matches-is_lesson_of o l i && q o l))
