-- ===== src/Booking/Problems.antt =====
-- Which problems `checkBooking` reports.
use ap_academy_landing.Prelude.{
  ◌<◌, String, ◌≡◌, refl, ap, ap₂, ◌∙◌, Bool, true, false, not, ◌&&◌, ◌||◌, Option, List, [], ◌∷◌,
  arith, ltb, ◌==◌, if◌then◌else◌, any, all, filter, any-append, any-filter, any-sort_by,
}
use ap_academy_landing.Wallclock.{Date}
use ap_academy_landing.Week.{overlap, class_span}
use ap_academy_landing.Recurrence.{Occurrence, Key}
use ap_academy_landing.Conflicts.{StaffAvailability}
use ap_academy_landing.Booking.{
  BookingProblem, BookingReason, teacher_busy, student_busy, problem_of, problem_if, busy_from,
  clash, same_teacher, same_student, is_live, availability_problems, check_booking, is_before,
}

-- Two classes that end after they start clash exactly if they share a minute of one date.
pub clash-overlap :
    (c o : Occurrence)
    → c.start_time < c.end_time
    → o.start_time < o.end_time
    → clash c o ≡ (o.date == c.date && ltb 0 (overlap (class_span c) (class_span o)))
unfolding clash overlap
clash-overlap c o h k = ground arith

-- The problems of one candidate against the classes that are taken.
abbrev pub busy_passes : (BookingProblem → Bool) → List Key → List Occurrence → Occurrence → Bool
busy_passes q keys others c =
    (any (λ o. is_live keys o && same_teacher c o) others && q (problem_of teacher_busy c))
    || (any (λ o. is_live keys o && same_student c o) others && q (problem_of student_busy c))

any-problem_if :
    (q : BookingProblem → Bool) (b : Bool) (r : BookingReason) (c : Occurrence)
    → any q (problem_if b r c) ≡ (b && q (problem_of r c))
any-problem_if q true r c = ground arith
any-problem_if q false r c = refl

regroup : (a b c : Bool) → (a || (b || c)) ≡ ((a || b) || c)
regroup true b c = refl
regroup false b c = refl

any-busy_from :
    (q : BookingProblem → Bool) (keys : List Key) (others cs : List Occurrence)
    → any q (busy_from (filter (is_live keys) others) cs) ≡ any (busy_passes q keys others) cs
unfolding busy_from
any-busy_from q keys others [] = refl
any-busy_from q keys others (c ∷ cs) =
    any-append q (problem_if (any (same_teacher c) (filter (is_live keys) others)) teacher_busy c) _
    ∙ ap₂ (λ a b. a || b)
        (any-problem_if q (any (same_teacher c) (filter (is_live keys) others)) teacher_busy c
          ∙ ap (λ b. b && q (problem_of teacher_busy c))
              (any-filter (same_teacher c) (is_live keys) others))
        (any-append q
            (problem_if (any (same_student c) (filter (is_live keys) others)) student_busy c) _
          ∙ ap₂ (λ a b. a || b)
              (any-problem_if q (any (same_student c) (filter (is_live keys) others)) student_busy c
                ∙ ap (λ b. b && q (problem_of student_busy c))
                    (any-filter (same_student c) (is_live keys) others))
              (any-busy_from q keys others cs))
    ∙ regroup
        (any (λ o. is_live keys o && same_teacher c o) others && q (problem_of teacher_busy c))
        (any (λ o. is_live keys o && same_student c o) others && q (problem_of student_busy c))
        (any (busy_passes q keys others) cs)

any-if :
    (q : BookingProblem → Bool) (check : Bool) (xs : List BookingProblem)
    → any q (if check then xs else []) ≡ (check && any q xs)
any-if q true xs = refl
any-if q false xs = refl

-- The problems are exactly these: for each candidate a `teacher_busy` if a live class of its teacher
-- clashes with it and a `student_busy` if one of its student does, and those of the availability,
-- if it is to be checked. Every test of a problem is passed by one of the result exactly if it is by
-- one of these: sorting them drops none.
pub any-check_booking :
    (q : BookingProblem → Bool) (cs others : List Occurrence)
    (availability : String → Option StaffAvailability) (check : Bool) (today : Date)
    (keys : List Key)
    → any q (check_booking cs others availability check today keys) ≡ (
        any (busy_passes q keys others) cs
        || (check && any q (availability_problems availability today cs)))
unfolding check_booking
any-check_booking q cs others availability check today keys =
    any-sort_by is_before q _
    ∙ any-append q (busy_from (filter (is_live keys) others) cs)
        (if check then availability_problems availability today cs else [])
    ∙ ap₂ (λ a b. a || b) (any-busy_from q keys others cs)
        (any-if q check (availability_problems availability today cs))

-- No candidate shares its teacher or its student with a live class that clashes with it.
abbrev pub is_free : List Key → List Occurrence → Occurrence → Bool
is_free keys others c = not (
    any (λ o. is_live keys o && same_teacher c o) others
    || any (λ o. is_live keys o && same_student c o) others)

none_busy :
    (keys : List Key) (others cs : List Occurrence)
    → any (busy_passes (λ p. true) keys others) cs ≡ false
    → all (is_free keys others) cs ≡ true
none_busy keys others [] h = refl
none_busy keys others (c ∷ cs) h = ground (arith, none_busy keys others cs)

-- An answer with no problem means that every candidate is free, whether or not the availability was
-- checked.
pub check_booking_free :
    (cs others : List Occurrence) (availability : String → Option StaffAvailability) (check : Bool)
    (today : Date) (keys : List Key)
    → check_booking cs others availability check today keys ≡ []
    → all (is_free keys others) cs ≡ true
check_booking_free cs others availability check today keys e = none_busy keys others cs (
    ground (
      arith,
      any-check_booking (λ p. true) cs others availability check today keys,
      ap (any (λ p. true)) e,
    ))
