-- ===== src/Availability/Spans.antt =====
-- `union` and `subtract` of availability.ts (and the `union` of week.ts, which is the same code)
-- over spans of minutes, with the minutes that they cover.
use ap_academy_landing.Prelude.{
  ℕ, ◌≤◌, max, ◌≡◌, refl, ◌∙◌, ap, ap₂, or_assoc, or_and, leb→le, SortedFrom-le, Bool, true, false,
  not, ◌&&◌, ◌||◌, List, [], ◌∷◌, ◌++◌, arith, leb, ltb, if◌then◌else◌, any, any-append, Bool-cases,
  inl, inr, sort_by, any-sort_by, le_by, SortedFrom, sort_by-SortedFrom,
}

-- From the first minute up to, and not including, the second.
abbrev pub Span : Type 0
Span = ℕ × ℕ

abbrev pub start_of : Span → ℕ
start_of s = s.0

-- The loop of `union`, with the last span of `out`.
unfoldable pub merge_from : Span → List Span → List Span
merge_from last [] = last ∷ []
merge_from last (s ∷ rest) = elim (leb s.0 last.1) [
  | true ↦ merge_from (last.0, max last.1 s.1) rest
  | false ↦ last ∷ merge_from s rest
]

unfoldable pub merge : List Span → List Span
unfolding merge_from
merge [] = []
merge (s ∷ rest) = merge_from s rest

unfoldable pub union : List Span → List Span
unfolding merge sort_by
union spans = merge (sort_by (le_by start_of) spans)

-- What is left of one span.
abbrev pub subtract_one : Span → Span → List Span
subtract_one cut s =
    if leb cut.1 s.0 || leb s.1 cut.0
    then s ∷ []
    else ((if ltb s.0 cut.0 then (s.0, cut.0) ∷ [] else [])
        ++ (if ltb cut.1 s.1 then (cut.1, s.1) ∷ [] else []))

unfoldable pub subtract : List Span → Span → List Span
subtract [] cut = []
subtract (s ∷ rest) cut = subtract_one cut s ++ subtract rest cut

-- The minutes of a span, and of a list of them.
abbrev pub in_span : ℕ → Span → Bool
in_span t s = leb s.0 t && ltb t s.1

abbrev pub covers : List Span → ℕ → Bool
covers spans t = any (in_span t) spans

in_span-join :
    (t : ℕ) (a b : Span)
    → a.0 ≤ b.0
    → b.0 ≤ a.1
    → in_span t (a.0, max a.1 b.1) ≡ (in_span t a || in_span t b)
in_span-join t a b h k = ground arith

covers-merge_from :
    (last : Span) (spans : List Span) (t : ℕ)
    → SortedFrom start_of last.0 spans
    → covers (merge_from last spans) t ≡ (in_span t last || covers spans t)
unfolding merge_from
covers-merge_from last [] t h = refl
covers-merge_from last (s ∷ rest) t h = elim (Bool-cases (leb s.0 last.1)) [
  | inl e ↦
      rw (e, merge_from)
        (covers-merge_from (last.0, max last.1 s.1) rest t (SortedFrom-le start_of _ _ rest h.0 h.1)
          ∙ ap (λ b. b || covers rest t) (in_span-join t last s h.0 (leb→le _ _ e))
          ∙ or_assoc (in_span t last) (in_span t s) (covers rest t))
  | inr e ↦ rw (e, merge_from) (ap (λ b. in_span t last || b) (covers-merge_from s rest t h.1))
]

covers-merge :
    (k : ℕ) (spans : List Span) (t : ℕ)
    → SortedFrom start_of k spans
    → covers (merge spans) t ≡ covers spans t
unfolding merge
covers-merge k [] t h = refl
covers-merge k (s ∷ rest) t h = covers-merge_from s rest t h.1

-- Merging loses no minute and adds none.
pub covers-union : (spans : List Span) (t : ℕ) → covers (union spans) t ≡ covers spans t
unfolding union
covers-union spans t =
    covers-merge 0 (sort_by (le_by start_of) spans) t (sort_by-SortedFrom start_of spans)
    ∙ any-sort_by (le_by start_of) (in_span t) spans

covers-subtract_one :
    (cut s : Span) (t : ℕ) → covers (subtract_one cut s) t ≡ (in_span t s && not (in_span t cut))
covers-subtract_one cut s t = ground arith

-- Subtracting takes away the minutes of the cut, and no other.
pub covers-subtract :
    (spans : List Span) (cut : Span) (t : ℕ)
    → covers (subtract spans cut) t ≡ (covers spans t && not (in_span t cut))
unfolding subtract
covers-subtract [] cut t = refl
covers-subtract (s ∷ rest) cut t =
    any-append (in_span t) (subtract_one cut s) (subtract rest cut)
    ∙ ap₂ (λ a b. a || b) (covers-subtract_one cut s t) (covers-subtract rest cut t)
    ∙ or_and (in_span t s) (covers rest t) (not (in_span t cut))
