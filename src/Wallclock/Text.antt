-- ===== src/Wallclock/Text.antt =====
-- The texts `HH:MM` of wallclock.ts, as character codes: `minutesOf` reads one, `timeOf` writes
-- one. Hours stay below 100: the latest time written is the end of a class of at most 480 minutes.
use ap_academy_landing.Prelude.{
  ℕ, ◌+◌, ◌-◌, ◌*◌, ◌/◌, ◌%◌, ◌<◌, ◌≡◌, Bool, true, false, ◌&&◌, ◌||◌, List, [], ◌∷◌, ◌++◌, Option,
  none, some, arith, ltb, leb, ◌==◌, if◌then◌else◌,
}

-- `String(n).padStart(2, "0")` below 100
pad2 : ℕ → List ℕ
pad2 n = (b'0' + n / 10) ∷ (b'0' + n % 10) ∷ []

pub time_of : ℕ → List ℕ
unfolding pad2
time_of m = pad2 (m / 60) ++ b':' ∷ pad2 (m % 60)

-- `Number` of a text of digits; `none` is NaN
number_from : ℕ → List ℕ → Option ℕ
number_from acc [] = some acc
number_from acc (c ∷ cs) =
    let rest = number_from (acc * 10 + (c - b'0')) cs in
    if leb b'0' c && leb c b'9' then rest else none

-- The hour's digits up to the colon, then the minute's.
split_colon : List ℕ → List ℕ → Option (List ℕ × List ℕ)
split_colon acc [] = none
split_colon acc (c ∷ cs) =
    let rest = split_colon (acc ++ c ∷ []) cs in if c == b':' then some (acc, cs) else rest

-- A part of `split(":")` ends at the next colon.
until_colon : List ℕ → List ℕ
until_colon [] = []
until_colon (c ∷ cs) = let rest = until_colon cs in if c == b':' then [] else c ∷ rest

infixl 5 ◌>>=◌
abbrev ◌>>=◌ {ℓ κ} : {A : Type ℓ} {B : Type κ} → Option A → (A → Option B) → Option B
none >>= k = none
some a >>= k = k a

pub minutes_of : List ℕ → Option ℕ
unfolding number_from split_colon until_colon
minutes_of text = do
  parts ← split_colon [] text
  h ← number_from 0 parts.0
  m ← number_from 0 (until_colon parts.1)
  some (h * 60 + m)

-- `a < b` on strings: the first difference decides
abbrev pub text_lt : List ℕ → List ℕ → Bool
text_lt a [] = false
text_lt [] (y ∷ ys) = true
text_lt (x ∷ xs) (y ∷ ys) = ltb x y || (x == y && text_lt xs ys)

-- Reading back what `timeOf` writes gives the minutes again, for every time below 100:00.
pub minutes_of-time_of : (m : ℕ) → m < 6000 → minutes_of (time_of m) ≡ some m
unfolding minutes_of time_of
minutes_of-time_of m h = ground arith

-- Comparing the texts as strings compares the times, below 100:00.
pub text_lt-time_of : (a b : ℕ) → a < 6000 → b < 6000 → text_lt (time_of a) (time_of b) ≡ ltb a b
unfolding time_of
text_lt-time_of a b h k = ground arith
