-- ===== src/Prelude/Sorting.antt =====
-- `Array.prototype.sort` with a comparator: a stable sort, as insertion.
use Prim.Native.Nat.{ℕ, ◌≤◌}
use mathlib.Core.Logic.{inl, inr}
use mathlib.Core.Path.{◌≡◌, refl}
use mathlib.Core.Bool.{Bool, ◌||◌}
use mathlib.Core.List.{List, [], ◌∷◌}
use native.Mathlib.Omega.{arith}
use ap_academy_landing.Prelude.Logic.{if◌then◌else◌, Bool-cases, leb, leb→le}
use ap_academy_landing.Prelude.Lists.{any, All}

module _ {ℓ} {A : Type ℓ} (le : A → A → Bool) where
  unfoldable pub insert_by : A → List A → List A
  insert_by x [] = x ∷ []
  insert_by x (y ∷ ys) = if le x y then x ∷ y ∷ ys else y ∷ insert_by x ys

  unfoldable pub sort_by : List A → List A
  unfolding insert_by
  sort_by [] = []
  sort_by (x ∷ xs) = insert_by x (sort_by xs)

  any-insert_by : (p : A → Bool) (x : A) (xs : List A) → any p (insert_by x xs) ≡ (p x || any p xs)
  unfolding insert_by
  any-insert_by p x [] = refl
  any-insert_by p x (y ∷ ys) = ground (arith, any-insert_by p x ys)

  pub any-sort_by : (p : A → Bool) (xs : List A) → any p (sort_by xs) ≡ any p xs
  unfolding sort_by
  any-sort_by p [] = refl
  any-sort_by p (x ∷ xs) = ground (arith, any-insert_by p x (sort_by xs), any-sort_by p xs)

-- Sorted by a number, from a bound on.
abbrev pub SortedFrom {ℓ} : {A : Type ℓ} → (A → ℕ) → ℕ → List A → Type 0
SortedFrom f k [] = Unit {0}
SortedFrom f k (x ∷ xs) = (k ≤ f x) × SortedFrom f (f x) xs

module _ {ℓ} {A : Type ℓ} (f : A → ℕ) where
  abbrev pub le_by : A → A → Bool
  le_by a b = leb (f a) (f b)

  insert_by-SortedFrom :
      (k : ℕ) (x : A) (ys : List A)
      → k ≤ f x
      → SortedFrom f k ys
      → SortedFrom f k (insert_by le_by x ys)
  unfolding insert_by
  insert_by-SortedFrom k x [] h s = (h, tt)
  insert_by-SortedFrom k x (y ∷ ys) h s = elim (Bool-cases (leb (f x) (f y))) [
    | inl e ↦ rw e (h, (leb→le _ _ e, s.1))
    | inr e ↦ rw e (s.0, insert_by-SortedFrom (f y) x ys (ground arith) s.1)
  ]

  pub sort_by-SortedFrom : (xs : List A) → SortedFrom f 0 (sort_by le_by xs)
  unfolding sort_by
  sort_by-SortedFrom [] = tt
  sort_by-SortedFrom (x ∷ xs) =
      insert_by-SortedFrom 0 x (sort_by le_by xs) (omega arith) (sort_by-SortedFrom xs)

pub SortedFrom-le {ℓ} :
    {A : Type ℓ} (f : A → ℕ) (j k : ℕ) (xs : List A) → j ≤ k → SortedFrom f k xs → SortedFrom f j xs
SortedFrom-le f j k [] h s = tt
SortedFrom-le f j k (x ∷ xs) h s = (omega arith, s.1)

module _ {ℓ κ} {A : Type ℓ} (le : A → A → Bool) (P : A → Type κ) where
  All-insert_by : (x : A) (ys : List A) → P x → All P ys → All P (insert_by le x ys)
  unfolding insert_by
  All-insert_by x [] h a = (h, tt)
  All-insert_by x (y ∷ ys) h a = elim (Bool-cases (le x y)) [
    | inl e ↦ rw e (h, a)
    | inr e ↦ rw e (a.0, All-insert_by x ys h a.1)
  ]

  pub All-sort_by : (xs : List A) → All P xs → All P (sort_by le xs)
  unfolding sort_by
  All-sort_by [] a = tt
  All-sort_by (x ∷ xs) a = All-insert_by x (sort_by le xs) a.0 (All-sort_by xs a.1)
