-- ===== src/Ids.antt =====
-- `normalId` of apps/tracker/lib/domain/billing.ts, as the codes of the characters that are left.
-- Notion ids are ASCII, where `toLowerCase` changes the letters A to Z alone.
use Prim.Native.Char.{code}
use ap_academy_landing.Prelude.{
  ℕ, ◌+◌, String, ◌≡◌, refl, Bool, true, false, ◌&&◌, List, [], ◌∷◌, arith, leb, ◌==◌,
  if◌then◌else◌,
}

abbrev pub lower : ℕ → ℕ
lower c = if leb b'A' c && leb c b'Z' then c + 32 else c

unfoldable pub normal_id : String → List ℕ
normal_id String.[] = []
normal_id (String.◌∷◌ c s) = if code c == b'-' then normal_id s else lower (code c) ∷ normal_id s

abbrev pub codes_eq : List ℕ → List ℕ → Bool
codes_eq [] [] = true
codes_eq [] (y ∷ ys) = false
codes_eq (x ∷ xs) [] = false
codes_eq (x ∷ xs) (y ∷ ys) = x == y && codes_eq xs ys

pub codes_eq→eq : (xs ys : List ℕ) → codes_eq xs ys ≡ true → xs ≡ ys
codes_eq→eq [] [] h = refl
codes_eq→eq [] (y ∷ ys) h = cc
codes_eq→eq (x ∷ xs) [] h = cc
codes_eq→eq (x ∷ xs) (y ∷ ys) h = ground (arith, codes_eq→eq xs ys)

pub codes_eq_refl : (xs : List ℕ) → codes_eq xs xs ≡ true
codes_eq_refl [] = refl
codes_eq_refl (x ∷ xs) = ground (arith, codes_eq_refl xs)

-- `normalId(a) === normalId(b)`
unfoldable pub same_id : String → String → Bool
unfolding normal_id
same_id a b = codes_eq (normal_id a) (normal_id b)
