-- ===== src/ClassWrites/Free.antt =====
-- A class is created only where it can be booked.
use ap_academy_landing.ClassWrites.Rounds.{writes}
use ap_academy_landing.ClassWrites.Fresh.{AttemptFresh}
use ap_academy_landing.Wallclock.{Date, Instant}
use ap_academy_landing.ClassWrites.Views.{Later-between, validate_booking-SameRows, Later}
use ap_academy_landing.ClassWrites.Check.{validate_booking}
use ap_academy_landing.ClassWrites.Create.{new_booking, ClassBody}
use ap_academy_landing.Prelude.{
  ℕ, String, ◌≡◌, refl, inl, inr, true, List, [], ◌∷◌, arith, Bool-cases, eq_iff, sym, ap, ◌∙◌,
  Bool, false, Option, none, some,
}
use ap_academy_landing.Recurrence.{Key, ClassSeries}
use ap_academy_landing.ClassWrites.{
  refused, StoreResult, WriteOp, same_op, WriteReplay, SeriesRecord, BookingStamp, LockedWriteArgs,
  World, written, staff, student,
}
use ap_academy_landing.ClassWrites.Store.{keys_of, person_of}
use ap_academy_landing.ClassWrites.Locked.{
  write_unless, locked_write, stamps_now, unmoved, write_checked,
}
use ap_academy_landing.ClassWrites.Args.{write_keys}

-- The stamps that the caller read of a teacher and a student are those of the store.
abbrev pub StampsOf : World → World → ClassSeries → Type 0
StampsOf v w s =
    (v.stamps (staff s.staff_id) ≡ w.stamps (staff s.staff_id))
    × (v.stamps (student s.student_id) ≡ w.stamps (student s.student_id))

unmoved-StampsOf :
    (v w : World) (s : ClassSeries)
    → unmoved w (stamps_now v (keys_of (person_of s ∷ []))) (keys_of (person_of s ∷ [])) ≡ true
    → StampsOf v w s
unfolding keys_of
unmoved-StampsOf v w s h =
    ground (arith, (eq_iff s.staff_id s.staff_id).1 refl, (eq_iff s.student_id s.student_id).1 refl)

module _ (new_id version_of : ℕ → String) (created_at : String) where
  -- A create that wrote found the stamps unmoved.
  write_checked-unmoved :
      (w : World) (request : String) (stamps : List BookingStamp) (f : ClassSeries)
      (t s : SeriesRecord)
      → (write_checked new_id version_of created_at w request stamps (LockedWriteArgs.create f) t).0
        ≡ written s true
      → unmoved w stamps (write_keys (LockedWriteArgs.create f) t.class) ≡ true
  write_checked-unmoved w request stamps f t s h =
      elim (Bool-cases (unmoved w stamps (write_keys (LockedWriteArgs.create f) t.class))) [
        | inl e ↦ e
        | inr e ↦ absurd (cc (rw e at h))
      ]

  locked_write-StampsOf :
      (v w : World) (request : String) (f : ClassSeries) (s : SeriesRecord)
      → (locked_write new_id version_of created_at w request
          (stamps_now v (keys_of (person_of f ∷ [])))
          (LockedWriteArgs.create f)).0
        ≡ written s true
      → StampsOf v w f
  unfolding locked_write
  locked_write-StampsOf v w request f s h = by_log (w.log request) h
    where
      row : SeriesRecord
      row = record {
        class = record f { id = new_id w.made };
        updated_at = created_at;
        split_from = none;
      }

      stamps : List BookingStamp
      stamps = stamps_now v (keys_of (person_of f ∷ []))

      by_log :
          (r : Option WriteReplay)
          → (write_unless new_id version_of created_at w request stamps
              (LockedWriteArgs.create f)
              row
              r).0
            ≡ written s true
          → StampsOf v w f
      by_log none k = unmoved-StampsOf v w f (write_checked-unmoved w request stamps f row s k)
      by_log (some prior) k = elim (Bool-cases (same_op prior.op WriteOp.create)) [
        | inl e ↦ absurd (cc (rw e at k))
        | inr e ↦ absurd (cc (rw e at k))
      ]

  module _ (behind : Instant → ℕ) (key_le : Key → Key → Bool) (today : Date)
      (body : ClassBody) where
    -- The class was written into a store in which it has no problem.
    abbrev pub WrittenFree : SeriesRecord → World → Type 0
    WrittenFree s w =
        (v : World) × (stamps : List BookingStamp) × (validate_booking behind key_le today v
            (new_booking today body.fields)
          ≡ [])
        × (locked_write new_id version_of created_at v body.request_id stamps
              (LockedWriteArgs.create body.fields)
            ≡ (written s true, w))

    pub written_now :
        (c u v : World)
        → Later c u
        → Later u v
        → validate_booking behind key_le today u (new_booking today body.fields) ≡ []
        → (r : StoreResult × World)
        → locked_write new_id version_of created_at v body.request_id
            (stamps_now c (keys_of (person_of body.fields ∷ [])))
            (LockedWriteArgs.create body.fields)
          ≡ r
        → AttemptFresh WrittenFree (writes r.0, r.1)
    written_now c u v h k free (refused status error, w) e = tt
    written_now c u v h k free (written s false, w) e = tt
    written_now c u v h k free (written s true, w) e =
        let q = locked_write-StampsOf c v body.request_id body.fields s (ap (λ x. x.0) e) in
        (
          v,
          stamps_now c (keys_of (person_of body.fields ∷ [])),
          sym (
                validate_booking-SameRows behind key_le today u v (new_booking today body.fields)
                  (Later-between c u v (staff body.fields.staff_id) h k q.0)
                  (Later-between c u v (student body.fields.student_id) h k q.1))
              ∙ free,
          e,
        )
