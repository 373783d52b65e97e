-- ===== src/Work/Upcoming.antt =====
-- What `upcomingWork` lists, and in which order.
use ap_academy_landing.Prelude.{
  ℕ, zero, suc, ◌≤◌, ◌≡◌, refl, inl, inr, Bool, true, false, not, ◌&&◌, Option, none, some, List,
  [], ◌∷◌, arith, leb, Bool-cases, take, All, All-append, is_some, le_by, opt_list, SortedFrom,
  sort_by-SortedFrom, All-sort_by,
}
use ap_academy_landing.Wallclock.{Date}
use ap_academy_landing.Work.{
  Assessment, AssessmentState, upcoming, done, awaiting_result, graded, is_excused, assessment_date,
  assessment_state, dated, day_of_item, open_items, dated_work,
}

-- Neither graded nor excused nor past: what an item of the list has to be.
abbrev pub is_ahead : AssessmentState → Bool
is_ahead upcoming = true
is_ahead done = true
is_ahead awaiting_result = false
is_ahead graded = false
is_ahead is_excused = false

abbrev pub Listed : Date → Assessment × Date → Type 0
Listed today x =
    (assessment_date x.0 ≡ some x.1)
    × (today ≤ x.1)
    × (is_ahead (assessment_state x.0 today) ≡ true)

dated-Listed :
    (today : Date) (a : Assessment) (d : Option Date)
    → assessment_date a ≡ d
    → All (Listed today) (opt_list (dated today a d))
unfolding assessment_state
dated-Listed today a none e = tt
dated-Listed today a (some d) e =
    elim (Bool-cases (not a.excused && (not (is_some a.score_earned) && leb today d))) [
      | inl f ↦ rw f ((e, ground arith, rw e (ground arith)), tt)
      | inr f ↦ rw f tt
    ]

open_items-Listed :
    (items : List Assessment) (today : Date) → All (Listed today) (open_items items today)
open_items-Listed [] today = tt
open_items-Listed (a ∷ items) today =
    All-append (Listed today) (opt_list (dated today a (assessment_date a)))
      (open_items items today) (dated-Listed today a (assessment_date a) refl)
      (open_items-Listed items today)

All-take :
    (n : ℕ) (P : Assessment × Date → Type 0) (xs : List (Assessment × Date))
    → All P xs
    → All P (take n xs)
All-take zero P xs a = tt
All-take (suc n) P [] a = tt
All-take (suc n) P (x ∷ xs) a = (a.0, All-take n P xs a.1)

SortedFrom-take :
    (n k : ℕ) (xs : List (Assessment × Date))
    → SortedFrom day_of_item k xs
    → SortedFrom day_of_item k (take n xs)
SortedFrom-take zero k xs a = tt
SortedFrom-take (suc n) k [] a = tt
SortedFrom-take (suc n) k (x ∷ xs) a = (a.0, SortedFrom-take n (day_of_item x) xs a.1)

-- Everything listed has the date it is listed with, on or after today, and is not graded, excused or
-- awaiting its result; and the list is in the order of these dates.
pub dated_work-Listed :
    (items : List Assessment) (today : Date) (limit : ℕ)
    → All (Listed today) (dated_work items today limit)
      × SortedFrom day_of_item 0 (dated_work items today limit)
unfolding dated_work
dated_work-Listed items today limit = (
  All-take limit (Listed today) _
      (All-sort_by (le_by day_of_item) (Listed today) _ (open_items-Listed items today)),
  SortedFrom-take limit 0 _ (sort_by-SortedFrom day_of_item (open_items items today)),
)
