-- ===== src/Availability/Minutes.antt =====
-- The available minutes of a day: the intervals are kept apart, so that no minute counts twice.
use ap_academy_landing.Prelude.{
  ℕ, zero, suc, ◌-◌, ◌≤◌, ◌<◌, min, max, ◌≡◌, refl, sym, false, ◌&&◌, ◌||◌, List, [], ◌∷◌, ◌++◌,
  arith, if◌then◌else◌, ltb, leb, ltb→lt, inl, inr, Bool-cases, sum_by, All, SortedFrom, sort_by,
  le_by, sort_by-SortedFrom, SortedFrom-le, All-sort_by, count_below, count_below-or,
  count_below-none,
}
use ap_academy_landing.Availability.Spans.{
  Span, start_of, in_span, covers, merge_from, merge, union, subtract, subtract_one,
}
use ap_academy_landing.Availability.{length_of}

-- The spans are not empty, lie in [k, n), come in order, and have gaps between them.
abbrev pub Apart : ℕ → ℕ → List Span → Type 0
Apart k n [] = Unit
Apart k n (s ∷ rest) = (k ≤ s.0) × (s.0 < s.1) × (s.1 ≤ n) × Apart (suc s.1) n rest

-- A span that is not empty and ends by minute `n`.
abbrev pub Proper : ℕ → Span → Type 0
Proper n s = (s.0 < s.1) × (s.1 ≤ n)

Apart-le : (j k n : ℕ) (spans : List Span) → j ≤ k → Apart k n spans → Apart j n spans
Apart-le j k n [] h a = tt
Apart-le j k n (s ∷ rest) h a = (omega arith, a.1, a.2, a.3)

Apart-merge_from :
    (k n : ℕ) (last : Span) (spans : List Span)
    → k ≤ last.0
    → Proper n last
    → SortedFrom start_of last.0 spans
    → All (Proper n) spans
    → Apart k n (merge_from last spans)
unfolding merge_from
Apart-merge_from k n last [] h p s a = (h, p.0, p.1, tt)
Apart-merge_from k n last (s ∷ rest) h p so a = elim (Bool-cases (leb s.0 last.1)) [
  | inl e ↦
      rw (e, merge_from)
        (Apart-merge_from k n (last.0, max last.1 s.1) rest h (omega arith, omega arith)
          (SortedFrom-le start_of _ _ rest so.0 so.1) a.1)
  | inr e ↦
      rw (e, merge_from)
        (h, p.0, p.1, Apart-merge_from (suc last.1) n s rest (ground arith) a.0 so.1 a.1)
]

Apart-merge :
    (n k : ℕ) (spans : List Span)
    → SortedFrom start_of k spans
    → All (Proper n) spans
    → Apart 0 n (merge spans)
unfolding merge
Apart-merge n k [] s a = tt
Apart-merge n k (x ∷ rest) s a = Apart-merge_from 0 n x rest (omega arith) a.0 s.1 a.1

-- Merging leaves spans that are apart, whatever the order and the overlaps of the given ones.
pub Apart-union : (n : ℕ) (spans : List Span) → All (Proper n) spans → Apart 0 n (union spans)
unfolding union
Apart-union n spans a =
    Apart-merge n 0 (sort_by (le_by start_of) spans) (sort_by-SortedFrom start_of spans)
      (All-sort_by (le_by start_of) (Proper n) spans a)

not_cut : (cut s : Span) → (leb cut.1 s.0 || leb s.1 cut.0) ≡ false → (s.0 < cut.1) × (cut.0 < s.1)
not_cut cut s e = ground arith

-- Both parts, in front of the rest.
Apart-parts :
    (k n : ℕ) (cut s : Span) (rest : List Span)
    → cut.0 < cut.1
    → (s.0 < cut.1) × (cut.0 < s.1)
    → Apart k n (s ∷ [])
    → Apart (suc s.1) n rest
    → Apart k n (
        ((if ltb s.0 cut.0 then (s.0, cut.0) ∷ [] else [])
          ++ (if ltb cut.1 s.1 then (cut.1, s.1) ∷ [] else []))
        ++ rest)
Apart-parts k n cut s rest c m a r = elim (Bool-cases (ltb s.0 cut.0)) [
  | inl e ↦ elim (Bool-cases (ltb cut.1 s.1)) [
    | inl f ↦ rw (e, f) (a.0, ltb→lt _ _ e, omega arith, (omega arith, ltb→lt _ _ f, a.2, r))
    | inr f ↦ rw (e, f) (a.0, ltb→lt _ _ e, omega arith, Apart-le _ _ n rest (omega arith) r)
  ]
  | inr e ↦ elim (Bool-cases (ltb cut.1 s.1)) [
    | inl f ↦ rw (e, f) (omega arith, ltb→lt _ _ f, a.2, r)
    | inr f ↦ rw (e, f) (Apart-le _ _ n rest (omega arith) r)
  ]
]

Apart-subtract_one :
    (k n : ℕ) (cut s : Span) (rest : List Span)
    → cut.0 < cut.1
    → Apart k n (s ∷ [])
    → Apart (suc s.1) n rest
    → Apart k n (subtract_one cut s ++ rest)
Apart-subtract_one k n cut s rest c a r = elim (Bool-cases (leb cut.1 s.0 || leb s.1 cut.0)) [
  | inl e ↦ rw e (a.0, a.1, a.2, r)
  | inr e ↦ rw e (Apart-parts k n cut s rest c (not_cut cut s e) a r)
]

-- Cutting keeps them apart.
pub Apart-subtract :
    (k n : ℕ) (cut : Span) (spans : List Span)
    → cut.0 < cut.1
    → Apart k n spans
    → Apart k n (subtract spans cut)
unfolding subtract
Apart-subtract k n cut [] c a = tt
Apart-subtract k n cut (s ∷ rest) c a =
    Apart-subtract_one k n cut s (subtract rest cut) c (a.0, a.1, a.2, tt)
      (Apart-subtract (suc s.1) n cut rest c a.3)

pub covers-below :
    (k n : ℕ) (spans : List Span) (t : ℕ) → Apart k n spans → t < k → covers spans t ≡ false
covers-below k n [] t a h = refl
covers-below k n (s ∷ rest) t a h = ground (arith, covers-below (suc s.1) n rest t a.3)

count_below-in_span : (n : ℕ) (s : Span) → count_below n (λ t. in_span t s) ≡ min n s.1 - min n s.0
unfolding count_below
count_below-in_span zero s = omega arith
count_below-in_span (suc n) s = ground (arith, count_below-in_span n s)

pub in_span-covers :
    (k n : ℕ) (s : Span) (rest : List Span) (t : ℕ)
    → Apart k n (s ∷ rest)
    → (in_span t s && covers rest t) ≡ false
in_span-covers k n s rest t a = ground (arith, covers-below (suc s.1) n rest t a.3)

-- Where spans are apart, adding up their lengths counts the minutes that they cover.
pub sum_by-length_of :
    (k n : ℕ) (spans : List Span)
    → Apart k n spans
    → sum_by length_of spans ≡ count_below n (covers spans)
sum_by-length_of k n [] a = sym (count_below-none n)
sum_by-length_of k n (s ∷ rest) a = omega (
  arith,
  sum_by-length_of (suc s.1) n rest a.3,
  count_below-in_span n s,
  count_below-or n (λ t. in_span t s) (covers rest) (λ t. in_span-covers k n s rest t a),
)
