-- ===== src/Prelude/Lists.antt =====
-- Lists with Boolean tests: `some`, `every`, `filter`, `find`, and sums, over the native numbers.
use Prim.Native.Nat.{ℕ, zero, suc, ◌+◌, ◌-◌}
use mathlib.Core.Path.{◌≡◌, refl, ap, ◌∙◌}
use mathlib.Core.Bool.{Bool, true, false, not, ◌&&◌, ◌||◌}
use mathlib.Core.Logic.{inl, inr}
use mathlib.Core.Option.{Option, none, some}
use mathlib.Core.List.{List, [], ◌∷◌, ◌++◌, map}
use native.Mathlib.Omega.{arith}
use ap_academy_landing.Prelude.Logic.{if◌then◌else◌, Bool-cases}

module _ {ℓ} {A : Type ℓ} where
  abbrev pub length : List A → ℕ
  length [] = 0
  length (x ∷ xs) = suc (length xs)

  -- `xs.some(p)`
  abbrev pub any : (A → Bool) → List A → Bool
  any p [] = false
  any p (x ∷ xs) = p x || any p xs

  -- `xs.every(p)`
  abbrev pub all : (A → Bool) → List A → Bool
  all p [] = true
  all p (x ∷ xs) = p x && all p xs

  -- `xs.filter(p)`
  abbrev pub filter : (A → Bool) → List A → List A
  filter p [] = []
  filter p (x ∷ xs) = if p x then x ∷ filter p xs else filter p xs

  -- `xs.find(p)`
  abbrev pub find : (A → Bool) → List A → Option A
  find p [] = none
  find p (x ∷ xs) = if p x then some x else find p xs

  -- `xs.reduce((n, x) => n + f(x), 0)`
  abbrev pub sum_by : (A → ℕ) → List A → ℕ
  sum_by f [] = 0
  sum_by f (x ∷ xs) = f x + sum_by f xs

  abbrev pub take : ℕ → List A → List A
  take zero xs = []
  take (suc n) [] = []
  take (suc n) (x ∷ xs) = x ∷ take n xs

module _ {ℓ κ} {A : Type ℓ} where
  -- The predicate holds of every member.
  abbrev pub All : (A → Type κ) → List A → Type κ
  All P [] = Unit
  All P (x ∷ xs) = P x × All P xs

  pub All-append : (P : A → Type κ) (xs ys : List A) → All P xs → All P ys → All P (xs ++ ys)
  All-append P [] ys h k = k
  All-append P (x ∷ xs) ys h k = (h.0, All-append P xs ys h.1 k)

  pub All-filter : (P : A → Type κ) (p : A → Bool) (xs : List A) → All P xs → All P (filter p xs)
  All-filter P p [] h = tt
  All-filter P p (x ∷ xs) h = elim (Bool-cases (p x)) [
    | inl e ↦ rw e (h.0, All-filter P p xs h.1)
    | inr e ↦ rw e (All-filter P p xs h.1)
  ]

module _ {ℓ} {A : Type ℓ} where
  pub any-append : (p : A → Bool) (xs ys : List A) → any p (xs ++ ys) ≡ (any p xs || any p ys)
  any-append p [] ys = refl
  any-append p (x ∷ xs) ys = ground (arith, any-append p xs ys)

  pub any-filter : (p q : A → Bool) (xs : List A) → any p (filter q xs) ≡ any (λ x. q x && p x) xs
  any-filter p q [] = refl
  any-filter p q (x ∷ xs) = ground (arith, any-filter p q xs)

  pub sum_by-append : (f : A → ℕ) (xs ys : List A) → sum_by f (xs ++ ys) ≡ sum_by f xs + sum_by f ys
  sum_by-append f [] ys = omega arith
  sum_by-append f (x ∷ xs) ys = omega (arith, sum_by-append f xs ys)

pub any-map {ℓ κ} :
    {A : Type ℓ} {B : Type κ} (p : B → Bool) (f : A → B) (xs : List A)
    → any p (map f xs) ≡ any (λ x. p (f x)) xs
any-map p f [] = refl
any-map p f (x ∷ xs) = ap (λ b. p (f x) || b) (any-map p f xs)

abbrev pub bit : Bool → ℕ
bit true = 1
bit false = 0

-- How many numbers below `n` pass the test.
unfoldable pub count_below : ℕ → (ℕ → Bool) → ℕ
count_below zero p = 0
count_below (suc n) p = bit (p n) + count_below n p

pub count_below-or :
    (n : ℕ) (p q : ℕ → Bool)
    → ((t : ℕ) → (p t && q t) ≡ false)
    → count_below n (λ t. p t || q t) ≡ count_below n p + count_below n q
unfolding count_below
count_below-or zero p q h = refl
count_below-or (suc n) p q h = ground (arith, h n, count_below-or n p q h)

pub count_below-none : (n : ℕ) → count_below n (λ t. false) ≡ 0
unfolding count_below
count_below-none zero = refl
count_below-none (suc n) = omega (arith, count_below-none n)

abbrev pub opt_list {κ} : {B : Type κ} → Option B → List B
opt_list none = []
opt_list (some y) = y ∷ []

module _ {ℓ κ} {A : Type ℓ} {B : Type κ} where
  -- `xs.flatMap(f)`
  abbrev pub flat_map : (A → List B) → List A → List B
  flat_map f [] = []
  flat_map f (x ∷ xs) = f x ++ flat_map f xs

  -- The results that are there, in order.
  abbrev pub filter_map : (A → Option B) → List A → List B
  filter_map f [] = []
  filter_map f (x ∷ xs) = opt_list (f x) ++ filter_map f xs

  pub any-flat_map :
      (p : B → Bool) (f : A → List B) (xs : List A)
      → any p (flat_map f xs) ≡ any (λ x. any p (f x)) xs
  any-flat_map p f [] = refl
  any-flat_map p f (x ∷ xs) =
      any-append p (f x) (flat_map f xs) ∙ ap (λ b. any p (f x) || b) (any-flat_map p f xs)

module _ {ℓ} {A : Type ℓ} where
  abbrev pub is_some : Option A → Bool
  is_some none = false
  is_some (some a) = true

  -- `new Map(xs.map((x) => [key(x), x])).get(k)`: the last entry of a key wins.
  abbrev pub find_last : (A → Bool) → List A → Option A
  find_last p [] = none
  find_last p (x ∷ xs) =
      let later = find_last p xs in if is_some later then later else if p x then some x else none

  pub any-find_last : (p : A → Bool) (xs : List A) → is_some (find_last p xs) ≡ any p xs
  any-find_last p [] = refl
  any-find_last p (x ∷ xs) = ground (arith, any-find_last p xs)

  -- What is found passes the test and is in the list.
  pub find_last-holds :
      (p q : A → Bool) (xs : List A) (a : A)
      → find_last p xs ≡ some a
      → q a ≡ true
      → (p a ≡ true) × (any (λ x. p x && q x) xs ≡ true)
  find_last-holds p q [] a e h = cc
  find_last-holds p q (x ∷ xs) a e h = ground (arith, find_last-holds p q xs a)

  pub any-imp :
      (p q : A → Bool) (xs : List A)
      → ((x : A) → p x ≡ true → q x ≡ true)
      → any p xs ≡ true
      → any q xs ≡ true
  any-imp p q [] h a = a
  any-imp p q (x ∷ xs) h a = ground (arith, h x, any-imp p q xs h)

  pub any-none : (p : A → Bool) (xs : List A) → ((x : A) → p x ≡ false) → any p xs ≡ false
  any-none p [] h = refl
  any-none p (x ∷ xs) h = ground (arith, h x, any-none p xs h)

pub count_below-split :
    (n : ℕ) (p q : ℕ → Bool)
    → count_below n p ≡ count_below n (λ t. q t && p t) + count_below n (λ t. p t && not (q t))
unfolding count_below
count_below-split zero p q = refl
count_below-split (suc n) p q = ground (arith, count_below-split n p q)

pub count_below-false : (n : ℕ) (p : ℕ → Bool) → ((t : ℕ) → p t ≡ false) → count_below n p ≡ 0
unfolding count_below
count_below-false zero p h = refl
count_below-false (suc n) p h = ground (arith, h n, count_below-false n p h)

module _ {ℓ} {A : Type ℓ} where
  pub sum_by-add :
      (f g h : A → ℕ) (xs : List A)
      → All (λ x. f x ≡ g x + h x) xs
      → sum_by f xs ≡ sum_by g xs + sum_by h xs
  sum_by-add f g h [] a = refl
  sum_by-add f g h (x ∷ xs) a = omega (arith, a.0, sum_by-add f g h xs a.1)

  -- Where no item's part exceeds it, taking away the sum of the parts is summing what is left.
  pub sum_by-sub :
      (f g h : A → ℕ) (xs : List A)
      → All (λ x. f x ≡ g x + h x) xs
      → sum_by f xs - sum_by g xs ≡ sum_by h xs
  sum_by-sub f g h xs a = omega (arith, sum_by-add f g h xs a)
