-- ===== src/Conflicts/Reasons.antt =====
-- Which classes `findConflicts` reports, against the minutes that the rows leave open.
use ap_academy_landing.Prelude.{
  ℕ, zero, suc, ◌+◌, ◌-◌, ◌≤◌, ◌<◌, ◌≡◌, refl, sym, ap₂, inl, inr, Bool, true, false, ◌&&◌, List,
  [], ◌∷◌, arith, ltb, leb, ◌==◌, ltb→lt, leb→le, ==_iff, Bool-cases,
}
use ap_academy_landing.Availability.Spans.{Span, covers}
use ap_academy_landing.Availability.Minutes.{Apart, covers-below}
use ap_academy_landing.Conflicts.{fits}

-- The test holds of the `n` minutes from `s` on.
unfoldable pub all_from : ℕ → ℕ → (ℕ → Bool) → Bool
all_from zero s p = true
all_from (suc n) s p = p s && all_from n (suc s) p

all_from-true :
    (n s : ℕ) (p : ℕ → Bool) → ((t : ℕ) → s ≤ t → t < s + n → p t ≡ true) → all_from n s p ≡ true
unfolding all_from
all_from-true zero s p h = refl
all_from-true (suc n) s p h =
    rw (h s (omega arith) (omega arith))
      (all_from-true n (suc s) p (λ t a b. h t (omega arith) (omega arith)))

all_from-false :
    (n s t : ℕ) (p : ℕ → Bool) → s ≤ t → t < s + n → p t ≡ false → all_from n s p ≡ false
unfolding all_from
all_from-false zero s t p a b h = absurd (omega arith)
all_from-false (suc n) s t p a b h = elim (Bool-cases (s == t)) [
  | inl e ↦ rw ((==_iff s t).0 e, h) refl
  | inr e ↦ ground (arith, all_from-false n (suc s) t p (ground arith) (omega arith) h)
]

all_from_congr :
    (n s : ℕ) (p q : ℕ → Bool) → ((t : ℕ) → s ≤ t → p t ≡ q t) → all_from n s p ≡ all_from n s q
unfolding all_from
all_from_congr zero s p q h = refl
all_from_congr (suc n) s p q h =
    ap₂ (λ a b. a && b) (h s (omega arith))
      (all_from_congr n (suc s) p q (λ t a. h t (omega arith)))

fits-before :
    (k n : ℕ) (spans : List Span) (s e : ℕ) → Apart k n spans → s < k → fits spans s e ≡ false
fits-before k n [] s e a h = refl
fits-before k n (i ∷ rest) s e a h = ground (arith, fits-before (suc i.1) n rest s e a.3)

in_first :
    (i : Span) (s e t : ℕ) (rest : List Span)
    → i.0 ≤ s
    → s < e
    → e ≤ i.1
    → s ≤ t
    → t < s + (e - s)
    → covers (i ∷ rest) t ≡ true
in_first i s e t rest lo lt hi a b = ground arith

fits_inside :
    (k n : ℕ) (i : Span) (rest : List Span) (s e : ℕ)
    → s < e
    → i.0 ≤ s
    → e ≤ i.1
    → fits (i ∷ rest) s e ≡ all_from (e - s) s (covers (i ∷ rest))
fits_inside k n i rest s e lt lo hi =
    rw (all_from-true (e - s) s (covers (i ∷ rest)) (λ t a b. in_first i s e t rest lo lt hi a b))
      (ground arith)

fits_beyond :
    (k n : ℕ) (i : Span) (rest : List Span) (s e : ℕ)
    → s < e
    → Apart k n (i ∷ rest)
    → s < i.1
    → i.1 < e
    → fits (i ∷ rest) s e ≡ all_from (e - s) s (covers (i ∷ rest))
fits_beyond k n i rest s e lt a in_it out =
    rw
      (all_from-false (e - s) s i.1 (covers (i ∷ rest)) (omega arith) (omega arith)
        (ground (arith, covers-below (suc i.1) n rest i.1 a.3)))
      (ground (arith, fits-before (suc i.1) n rest s e a.3))

fits_before_first :
    (k n : ℕ) (i : Span) (rest : List Span) (s e : ℕ)
    → s < e
    → Apart k n (i ∷ rest)
    → s < i.0
    → fits (i ∷ rest) s e ≡ all_from (e - s) s (covers (i ∷ rest))
fits_before_first k n i rest s e lt a out =
    rw
      (all_from-false (e - s) s s (covers (i ∷ rest)) (omega arith) (omega arith)
        (covers-below i.0 n (i ∷ rest) s (omega arith, a.1, a.2, a.3) out))
      (fits-before i.0 n (i ∷ rest) s e (omega arith, a.1, a.2, a.3) out)

after_first :
    (i : Span) (rest : List Span) (s t : ℕ) → i.1 ≤ s → s ≤ t → covers (i ∷ rest) t ≡ covers rest t
after_first i rest s t h a = ground arith

fits_after_first :
    (i : Span) (rest : List Span) (s e : ℕ)
    → s < e
    → i.1 ≤ s
    → fits rest s e ≡ all_from (e - s) s (covers rest)
    → fits (i ∷ rest) s e ≡ all_from (e - s) s (covers (i ∷ rest))
fits_after_first i rest s e lt h ih =
    rw
      (
        all_from_congr (e - s) s (covers (i ∷ rest)) (covers rest)
            (λ t a. after_first i rest s t h a),
        ← ih,
      )
      (ground arith)

-- Where intervals are apart, a class fits into one of them exactly if all its minutes are covered.
pub fits-all_from :
    (k n : ℕ) (spans : List Span) (s e : ℕ)
    → s < e
    → Apart k n spans
    → fits spans s e ≡ all_from (e - s) s (covers spans)
fits-all_from k n [] s e lt a = sym (all_from-false (e - s) s s _ (omega arith) (omega arith) refl)
fits-all_from k n (i ∷ rest) s e lt a = elim (Bool-cases (ltb s i.0)) [
  | inl p ↦ fits_before_first k n i rest s e lt a (ltb→lt _ _ p)
  | inr p ↦ elim (Bool-cases (leb i.1 s)) [
    | inl q ↦
        fits_after_first i rest s e lt (leb→le _ _ q) (fits-all_from (suc i.1) n rest s e lt a.3)
    | inr q ↦ elim (Bool-cases (leb e i.1)) [
      | inl r ↦ fits_inside k n i rest s e lt (ground arith) (leb→le _ _ r)
      | inr r ↦ fits_beyond k n i rest s e lt a (ground arith) (ground arith)
    ]
  ]
]
