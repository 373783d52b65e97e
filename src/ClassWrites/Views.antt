-- ===== src/ClassWrites/Views.antt =====
-- What a booking stamp stands for: the rows that the check of a booking reads of one teacher or of
-- one student.
use ap_academy_landing.Prelude.{ℕ, ◌≤◌, ◌≡◌, ap, ◌∙◌, Bool, arith}
use ap_academy_landing.Wallclock.{Date, Instant}
use ap_academy_landing.Recurrence.{Key}
use ap_academy_landing.ClassWrites.{BookingKey, World, staff, student}
use ap_academy_landing.ClassWrites.Reads.{staff_rows, student_rows, list_windows, staff_exceptions}
use ap_academy_landing.ClassWrites.Check.{problems_of, Booking, validate_booking}

-- The rows of the teacher or the student are the same in both stores.
abbrev pub SameRows : World → World → BookingKey → Type 0
SameRows v w (staff id) =
    (staff_rows v id ≡ staff_rows w id)
    × (list_windows v id ≡ list_windows w id)
    × (staff_exceptions v id ≡ staff_exceptions w id)
SameRows v w (student id) = student_rows v id ≡ student_rows w id

-- What the trigger on the tables sees to: no stamp goes back, and the rows of a teacher or a student
-- change only with the stamp.
abbrev pub Later : World → World → Type 0
Later v w =
    (k : BookingKey) → (v.stamps k ≤ w.stamps k) × (v.stamps k ≡ w.stamps k → SameRows v w k)

SameRows-trans : (u v w : World) (k : BookingKey) → SameRows u v k → SameRows v w k → SameRows u w k
SameRows-trans u v w (staff id) h k = (h.0 ∙ k.0, h.1 ∙ k.1, h.2 ∙ k.2)
SameRows-trans u v w (student id) h k = h ∙ k

pub Later-trans : (u v w : World) → Later u v → Later v w → Later u w
Later-trans u v w h k key = (
  omega (arith, (h key).0, (k key).0),
  λ e.
      SameRows-trans u v w key ((h key).1 (omega (arith, e, (h key).0, (k key).0)))
        ((k key).1 (omega (arith, e, (h key).0, (k key).0))),
)

-- Between two moments at which the stamp is the same, it did not change.
pub Later-between :
    (u v w : World) (key : BookingKey)
    → Later u v
    → Later v w
    → u.stamps key ≡ w.stamps key
    → SameRows v w key
Later-between u v w key h k e = (k key).1 (omega (arith, e, (h key).0, (k key).0))

-- The check of a booking reads the rows of its teacher and its student, and no others.
pub validate_booking-SameRows :
    (behind : Instant → ℕ) (key_le : Key → Key → Bool) (today : Date) (v w : World) (b : Booking)
    → SameRows v w (staff b.series.staff_id)
    → SameRows v w (student b.series.student_id)
    → validate_booking behind key_le today v b ≡ validate_booking behind key_le today w b
unfolding validate_booking
validate_booking-SameRows behind key_le today v w b h k =
    ap (λ r. problems_of behind key_le today r b b.window)
      (λ i. record {
        of_staff = h.0 i;
        of_student = k i;
        windows = h.1 i;
        availability_exceptions = h.2 i;
      })
