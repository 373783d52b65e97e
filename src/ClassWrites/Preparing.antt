-- ===== src/ClassWrites/Preparing.antt =====
-- Preparing a student, and changing nothing, leave the rows of a booking as they are.
use ap_academy_landing.ClassWrites.Reads.{staff_exceptions, list_windows, student_rows, staff_rows}
use ap_academy_landing.Prelude.{
  String, refl, inl, inr, Bool, true, false, Option, none, some, ◌∷◌, arith, Bool-cases, any,
  str_eq,
}
use ap_academy_landing.ClassWrites.{BookingKey, World, staff, student}
use ap_academy_landing.ClassWrites.Steps.{
  StudentAnswer, prepare_with, prepare_known, throws, missing, has_text,
}
use ap_academy_landing.ClassWrites.Views.{Later, SameRows}

SameRows-refl : (w : World) (k : BookingKey) → SameRows w w k
SameRows-refl w (staff id) = (refl, refl, refl)
SameRows-refl w (student id) = refl

abbrev adopting : World → String → World
adopting w id = record w { adopted = id ∷ w.adopted }

adopting-Later : (w : World) (id : String) → Later w (adopting w id)
unfolding staff_rows student_rows list_windows staff_exceptions
adopting-Later w id k = (omega arith, λ e. same k)
  where
    same : (key : BookingKey) → SameRows w (adopting w id) key
    same (staff a) = (refl, refl, refl)
    same (student a) = refl

Later-refl : (w : World) → Later w w
Later-refl w k = (omega arith, λ e. SameRows-refl w k)

-- Preparing a student changes no row of a booking.
pub prepare_known-Later :
    (adopts : Bool) (w : World) (id : String) (a : StudentAnswer)
    → Later w (prepare_known adopts w id a).1
prepare_known-Later adopts w id throws = Later-refl w
prepare_known-Later adopts w id missing = Later-refl w
prepare_known-Later adopts w id (has_text true) = Later-refl w
prepare_known-Later true w id (has_text false) = adopting-Later w id
prepare_known-Later false w id (has_text false) = Later-refl w

pub prepare_with-Later :
    (is_up adopts : Bool) (w : World) (id : String) (students : Option (String → StudentAnswer))
    → Later w (prepare_with is_up adopts w id students).1
prepare_with-Later is_up adopts w id none = Later-refl w
prepare_with-Later false adopts w id (some get) = Later-refl w
prepare_with-Later true adopts w id (some get) =
    elim (Bool-cases (any (λ x. str_eq x id) w.adopted)) [
      | inl e ↦ rw e (Later-refl w)
      | inr e ↦ rw e (prepare_known-Later adopts w id (get id))
    ]
