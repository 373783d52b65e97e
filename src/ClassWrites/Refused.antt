-- ===== src/ClassWrites/Refused.antt =====
-- A write that is refused changes no class.
use ap_academy_landing.Prelude.{
  ℕ, String, ◌≡◌, refl, ◌∙◌, Bool, true, false, not, Option, none, some, List, if◌then◌else◌,
}
use ap_academy_landing.ClassWrites.{
  BookingStamp, LockedWriteArgs, SeriesRecord, StoreResult, World, WriteReplay, refused, written,
}
use ap_academy_landing.ClassWrites.Locked.{
  is_expected_position, is_expected_version, locked_write, perform, recorded, target, unmoved,
  write_to, write_unless, replay_result,
}
use ap_academy_landing.ClassWrites.Args.{expected_of, seen_of, write_keys}

-- The classes, their stamps and the log of the requests are the same.
abbrev pub SameClasses : World → World → Type 0
SameClasses v w =
    (v.series ≡ w.series) × (v.exceptions ≡ w.exceptions) × (v.stamps ≡ w.stamps) × (v.log ≡ w.log)

pub SameClasses-refl : (w : World) → SameClasses w w
SameClasses-refl w = (refl, refl, refl, refl)

pub SameClasses-trans : (u v w : World) → SameClasses u v → SameClasses v w → SameClasses u w
SameClasses-trans u v w h k = (h.0 ∙ k.0, h.1 ∙ k.1, h.2 ∙ k.2, h.3 ∙ k.3)

-- A result that is no new write leaves the classes as they were in `w`.
abbrev pub WroteOrSame : World → StoreResult × World → Type 0
WroteOrSame w (written s true, v) = Unit
WroteOrSame w (written s false, v) = SameClasses w v
WroteOrSame w (refused status error, v) = SameClasses w v

WroteOrSame-if :
    (w : World) (b : Bool) (x y : StoreResult × World)
    → WroteOrSame w x
    → WroteOrSame w y
    → WroteOrSame w (if b then x else y)
WroteOrSame-if w true x y h k = h
WroteOrSame-if w false x y h k = k

WroteOrSame-here : (w : World) (r : StoreResult) → WroteOrSame w (r, w)
WroteOrSame-here w (written s true) = tt
WroteOrSame-here w (written s false) = SameClasses-refl w
WroteOrSame-here w (refused status error) = SameClasses-refl w

module _ (new_id version_of : ℕ → String) (created_at : String) where
  recorded-WroteOrSame :
      (w : World) (request : String) (args : LockedWriteArgs) (s : SeriesRecord)
      (p : Option (SeriesRecord × World))
      → WroteOrSame w (recorded new_id version_of created_at w request args s p)
  recorded-WroteOrSame w request args s none = SameClasses-refl w
  recorded-WroteOrSame w request args s (some (result, v)) = tt

  write_unless-WroteOrSame :
      (w : World) (request : String) (stamps : List BookingStamp) (args : LockedWriteArgs)
      (s : SeriesRecord) (prior : Option WriteReplay)
      → WroteOrSame w (write_unless new_id version_of created_at w request stamps args s prior)
  write_unless-WroteOrSame w request stamps args s (some prior) =
      WroteOrSame-here w (replay_result prior args s)
  write_unless-WroteOrSame w request stamps args s none =
      WroteOrSame-if w (not (unmoved w stamps (write_keys args s.class))) _ _ (SameClasses-refl w) (
        WroteOrSame-if w (not (is_expected_version (seen_of args) s)) _ _ (SameClasses-refl w) (
          WroteOrSame-if w (not (is_expected_position w.exceptions (expected_of args) s.class)) _ _
            (SameClasses-refl w)
            (recorded-WroteOrSame w request args s
              (perform new_id version_of created_at w s args))))

  write_to-WroteOrSame :
      (w : World) (request : String) (stamps : List BookingStamp) (args : LockedWriteArgs)
      (s : Option SeriesRecord)
      → WroteOrSame w (write_to new_id version_of created_at w request stamps args s)
  write_to-WroteOrSame w request stamps args none = SameClasses-refl w
  write_to-WroteOrSame w request stamps args (some s) =
      write_unless-WroteOrSame w request stamps args s (w.log request)

  pub locked_write-WroteOrSame :
      (w : World) (request : String) (stamps : List BookingStamp) (args : LockedWriteArgs)
      → WroteOrSame w (locked_write new_id version_of created_at w request stamps args)
  unfolding locked_write
  locked_write-WroteOrSame w request stamps args =
      write_to-WroteOrSame w request stamps args (target new_id version_of created_at w args)
