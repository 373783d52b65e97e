-- ===== src/ClassWrites/Alone.antt =====
-- A request whose answer reports no class changes none, where no other client writes meanwhile.
use ap_academy_landing.Prelude.{
  ℕ, ◌+◌, String, ◌≡◌, refl, sym, ap, inl, inr, Bool, true, false, not, ◌||◌, Option, none, some,
  List, Bool-cases, any, str_eq,
}
use ap_academy_landing.ClassWrites.{
  BookingKey, BookingStamp, LockedWriteArgs, World, WriteOp, WriteReplay, refused, written,
}
use ap_academy_landing.ClassWrites.Locked.{stamps_now}
use ap_academy_landing.ClassWrites.Rounds.{
  Attempt, Booked, Response, Surroundings, after_attempt, after_context, answered, answers,
  book_under_stamps, booked, give_up, is_booking_changed, round, writes, replayed, has_op,
  is_target,
}
use ap_academy_landing.ClassWrites.Steps.{
  Reply, StudentAnswer, and_then, denial, has_text, missing, prepare_known, prepare_with, reply,
  saved, throws, unless, write_at,
}
use ap_academy_landing.ClassWrites.Refused.{
  SameClasses, SameClasses-refl, SameClasses-trans, WroteOrSame, locked_write-WroteOrSame,
}

abbrev pub AttemptSame : World → Attempt × World → Type 0
AttemptSame w (answers r, v) = SameClasses w v
AttemptSame w (writes r, v) = WroteOrSame w (r, v)

abbrev pub BookedSame : World → Booked × World → Type 0
BookedSame w (answered r, v) = SameClasses w v
BookedSame w (booked s true, v) = SameClasses w v
BookedSame w (booked s false, v) = Unit

abbrev pub is_saved : Reply → Bool
is_saved (saved status s owes) = true
is_saved (reply r) = false
is_saved (denial status error) = false

-- Unless the reply reports a class, the classes are the same.
abbrev pub ReplySame : World → Reply × World → Type 0
ReplySame w r = is_saved r.0 ≡ false → SameClasses w r.1

BookedSame-trans :
    (u v : World) (b : Booked × World) → SameClasses u v → BookedSame v b → BookedSame u b
BookedSame-trans u v (answered r, w) h k = SameClasses-trans u v w h k
BookedSame-trans u v (booked s true, w) h k = SameClasses-trans u v w h k
BookedSame-trans u v (booked s false, w) h k = tt

after_attempt-BookedSame :
    (w : World) (again : World → Booked × World)
    → ((v : World) → BookedSame v (again v))
    → (a : Attempt × World) → AttemptSame w a
    → BookedSame w (after_attempt again a)
after_attempt-BookedSame w again h (answers r, v) k = k
after_attempt-BookedSame w again h (writes (written s true), v) k = tt
after_attempt-BookedSame w again h (writes (written s false), v) k = k
after_attempt-BookedSame w again h (writes (refused status error), v) k =
    elim (Bool-cases (is_booking_changed error)) [
      | inl e ↦ rw e (BookedSame-trans w v (again v) k (h v))
      | inr e ↦ rw e k
    ]

replayed-BookedSame :
    (ops : List WriteOp) (target : Option String) (r : WriteReplay) (w : World)
    → BookedSame w (replayed ops target r, w)
replayed-BookedSame ops target r w =
    elim (Bool-cases (not (has_op ops r.op) || not (is_target target r.series_id))) [
      | inl e ↦ rw e (SameClasses-refl w)
      | inr e ↦ rw e (SameClasses-refl w)
    ]

module _ (env : Surroundings) (alone : (n : ℕ) (w : World) → env.others n w ≡ w) where
  alone-SameClasses : (n : ℕ) (w : World) → SameClasses w (env.others n w)
  alone-SameClasses n w = (
    ap (λ v. v.series) (sym (alone n w)),
    ap (λ v. v.exceptions) (sym (alone n w)),
    ap (λ v. v.stamps) (sym (alone n w)),
    ap (λ v. v.log) (sym (alone n w)),
  )

  module _ (attempt : ℕ → List BookingStamp → World → Attempt × World)
      (same : (n : ℕ) (stamps : List BookingStamp) (w : World)
        → AttemptSame w (attempt n stamps w)) where
    round-BookedSame :
        (again : World → Booked × World)
        → ((v : World) → BookedSame v (again v))
        → (n : ℕ) (request : String) (keys : List BookingKey) (ops : List WriteOp)
          (target : Option String) (w : World)
        → BookedSame w (round env attempt again n request keys ops target w)
    round-BookedSame again h n request keys ops target w =
        BookedSame-trans w v (round env attempt again n request keys ops target w)
          (alone-SameClasses n w)
          (elim (Bool-cases (env.is_up n)) [
            | inr e ↦ rw e (SameClasses-refl v)
            | inl e ↦ rw e (by_log (v.log request))
          ])
      where
        v : World
        v = env.others n w

        by_log :
            (r : Option WriteReplay)
            → BookedSame v (after_context env attempt again n ops target v (stamps_now v keys, r))
        by_log (some r) = replayed-BookedSame ops target r v
        by_log none =
            let u = env.others (n + 1) v in
            let a = attempt (n + 1) (stamps_now v keys) u in
            BookedSame-trans v u (after_attempt again a) (alone-SameClasses (n + 1) v)
              (after_attempt-BookedSame u again h a (same (n + 1) (stamps_now v keys) u))

    pub book_under_stamps-BookedSame :
        (request : String) (keys : List BookingKey) (ops : List WriteOp) (target : Option String)
        (w : World)
        → BookedSame w (book_under_stamps env attempt request keys ops target w)
    unfolding book_under_stamps
    book_under_stamps-BookedSame request keys ops target w =
        round-BookedSame (λ v. round env attempt (give_up env attempt) 3 request keys ops target v)
          (λ v.
            round-BookedSame (give_up env attempt) (λ u. SameClasses-refl u) 3 request keys ops
              target v)
          0 request keys ops target w

  module _ (keeps : (n : ℕ) → env.loses n ≡ false) (new_id version_of : ℕ → String)
      (created_at : String) where
    pub write_at-AttemptSame :
        (n : ℕ) (w : World) (request : String) (stamps : List BookingStamp) (args : LockedWriteArgs)
        → AttemptSame w (write_at new_id version_of created_at env n w request stamps args)
    write_at-AttemptSame n w request stamps args = rw (alone n w) (elim (Bool-cases (env.is_up n)) [
      | inr e ↦ rw e (SameClasses-refl w)
      | inl e ↦
          rw (e, keeps n)
            (locked_write-WroteOrSame new_id version_of created_at w request stamps args)
    ])

pub unless-AttemptSame :
    (r : Option Response) (w : World) (a : Attempt × World)
    → AttemptSame w a
    → AttemptSame w (unless r w a)
unfolding unless
unless-AttemptSame none w a h = h
unless-AttemptSame (some r) w a h = SameClasses-refl w

AttemptSame-trans :
    (u v : World) (a : Attempt × World) → SameClasses u v → AttemptSame v a → AttemptSame u a
AttemptSame-trans u v (answers r, w) h k = SameClasses-trans u v w h k
AttemptSame-trans u v (writes (written s true), w) h k = tt
AttemptSame-trans u v (writes (written s false), w) h k = SameClasses-trans u v w h k
AttemptSame-trans u v (writes (refused status error), w) h k = SameClasses-trans u v w h k

pub and_then-AttemptSame :
    (w : World) (p : Option Response × World) (next : World → Attempt × World)
    → SameClasses w p.1
    → ((v : World) → AttemptSame v (next v))
    → AttemptSame w (and_then p next)
unfolding and_then
and_then-AttemptSame w (some r, v) next h k = h
and_then-AttemptSame w (none, v) next h k = AttemptSame-trans w v (next v) h (k v)

prepare_known-SameClasses :
    (adopts : Bool) (w : World) (id : String) (a : StudentAnswer)
    → SameClasses w (prepare_known adopts w id a).1
prepare_known-SameClasses adopts w id throws = SameClasses-refl w
prepare_known-SameClasses adopts w id missing = SameClasses-refl w
prepare_known-SameClasses adopts w id (has_text true) = SameClasses-refl w
prepare_known-SameClasses true w id (has_text false) = (refl, refl, refl, refl)
prepare_known-SameClasses false w id (has_text false) = SameClasses-refl w

pub prepare_with-SameClasses :
    (is_up adopts : Bool) (w : World) (id : String) (students : Option (String → StudentAnswer))
    → SameClasses w (prepare_with is_up adopts w id students).1
prepare_with-SameClasses is_up adopts w id none = SameClasses-refl w
prepare_with-SameClasses false adopts w id (some get) = SameClasses-refl w
prepare_with-SameClasses true adopts w id (some get) =
    elim (Bool-cases (any (λ x. str_eq x id) w.adopted)) [
      | inl e ↦ rw e (SameClasses-refl w)
      | inr e ↦ rw e (prepare_known-SameClasses adopts w id (get id))
    ]
