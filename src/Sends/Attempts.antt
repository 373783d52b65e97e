-- ===== src/Sends/Attempts.antt =====
-- How often the reply of a draft went out, under one attempt to send it.
use ap_academy_landing.Sends.{
  unauthorised, unchecked_gmail, unusable_address, gmail_failed, SendRow, World,
}
use ap_academy_landing.Sends.Rows.{row_of, is_sending}
use ap_academy_landing.Prelude.{
  ◌≤◌, String, ◌≡◌, refl, sym, inl, inr, true, Option, none, some, List, [], ◌∷◌, arith, Bool-cases,
  Option-cases, any, str_eq, eq_iff, Bool, false, ◌||◌, if◌then◌else◌, is_some, not,
}
use ap_academy_landing.Sends.Attempt.{
  look_from, goes_on, ended, look_row, look, Look, Answers, accept, send_now, deliver, Delivery,
  accepted, refused, lost, unless_found,
}
use ap_academy_landing.Sends.Counting.{
  row_from-CountedAt, CountedAt, Counted, IsCounted, fail_with-IsCounted, finish_with-IsCounted,
}

-- What Gmail documents of a search by Message-ID: it finds what was accepted, and nothing else.
abbrev pub Finds : (List String → String → Option String) → Type 0
Finds search =
    (box : List String) (id : String) → is_some (search box id) ≡ any (λ x. str_eq x id) box

pub accept-IsCounted :
    (w : World) (id : String) (x : SendRow)
    → w.send ≡ some x
    → w.box ≡ []
    → str_eq x.id id ≡ true
    → 1 ≤ x.attempts
    → IsCounted (accept w id)
accept-IsCounted w id x q empty same started =
    rw (q, empty) (sym ((eq_iff x.id id).0 same), refl, started)

pub send_now-IsCounted :
    (g : Answers) (w : World) (id : String)
    → IsCounted w
    → IsCounted (accept w id)
    → IsCounted (send_now g w id).1
send_now-IsCounted g w id h a = elim (Bool-cases g.builds) [
  | inr b ↦ rw b (fail_with-IsCounted g w id unusable_address h)
  | inl b ↦ elim (Bool-cases g.authorises) [
    | inr c ↦ rw (b, c) (fail_with-IsCounted g w id unauthorised h)
    | inl c ↦ rw (b, c) (by_delivery g.delivery)
  ]
]
  where
    by_delivery : (d : Delivery) → IsCounted (deliver g w id d).1
    by_delivery (accepted gmail_id) = finish_with-IsCounted g (accept w id) id gmail_id refl a
    by_delivery refused = fail_with-IsCounted g w id gmail_failed h
    by_delivery lost = fail_with-IsCounted g (accept w id) id gmail_failed a

abbrev pub is_empty : List String → Bool
is_empty [] = true
is_empty (b ∷ box) = false

pub is_empty-eq : (box : List String) → is_empty box ≡ true → box ≡ []
is_empty-eq [] h = refl
is_empty-eq (b ∷ box) h = cc

-- An attempt ends with the count kept, or it goes on where nothing went out.
abbrev pub LookCounted : World → Look → Type 0
LookCounted w (ended r v) = IsCounted v
LookCounted w goes_on = is_empty w.box ≡ true

LookCounted-if :
    (w : World) (b : Bool) (x y : Look)
    → LookCounted w x
    → LookCounted w y
    → LookCounted w (if b then x else y)
LookCounted-if w true x y h k = h
LookCounted-if w false x y h k = k

module _ (search : List String → String → Option String) (finds : Finds search) where
  unless_found-Counted :
      (g : Answers) (w : World) (id : String) (x : SendRow) (box : List String)
      → w.box ≡ box
      → str_eq x.id id ≡ true
      → Counted (some x) box
      → IsCounted w
      → LookCounted w (unless_found g w id (search w.box id))
  unless_found-Counted g w id x [] e same k h = elim (Option-cases (search w.box id)) [
    | inl n ↦ rw (n, e) refl
    | inr (gid, n) ↦ absurd (ground (arith, finds w.box id, e, n))
  ]
  unless_found-Counted g w id x (b ∷ box) e same k h = elim (Option-cases (search w.box id)) [
    | inl n ↦ absurd (ground (arith, finds w.box id, e, n, k.0, same))
    | inr (gid, n) ↦ rw n (finish_with-IsCounted g w id gid (rw e refl) h)
  ]

  look_row-Counted :
      (g : Answers) (w : World) (id : String) (first : Bool) (x : SendRow)
      → (first || is_empty w.box) ≡ true
      → str_eq x.id id ≡ true
      → Counted (some x) w.box
      → IsCounted w
      → LookCounted w (look_row search g first w id x)
  look_row-Counted g w id false x f same k h = LookCounted-if w (not (is_sending x.state)) _ _ h f
  look_row-Counted g w id true x f same k h = LookCounted-if w (not (is_sending x.state)) _ _ h (
      LookCounted-if w (not g.searches) _ _ (fail_with-IsCounted g w id unchecked_gmail h)
        (unless_found-Counted g w id x w.box refl same k h))

  -- A look that searches, and one before which nothing went out.
  pub look-Counted :
      (g : Answers) (first : Bool) (w : World) (id : String)
      → (first || is_empty w.box) ≡ true
      → IsCounted w
      → LookCounted w (look search g first w id)
  unfolding look
  look-Counted g first w id f h =
      LookCounted-if w (not g.reads) _ _ h
        (by_row (row_of w id) (row_from-CountedAt id w.send w.box h))
    where
      by_row :
          (s : Option SendRow)
          → CountedAt id s w.box
          → LookCounted w (look_from search g first w id s)
      by_row none k = h
      by_row (some x) k = look_row-Counted g w id first x f k.0 k.1 h
