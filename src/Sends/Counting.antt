-- ===== src/Sends/Counting.antt =====
-- How often the reply of a draft went out, under the operations on its send.
use ap_academy_landing.Prelude.{
  ◌≤◌, String, ◌≡◌, refl, sym, ◌∙◌, inl, inr, Bool, true, false, Option, none, some, List, [], ◌∷◌,
  arith, leb, Bool-cases, str_eq,
}
use ap_academy_landing.Sends.{max_attempts, SendState, SendRow, SendError, World, sending}
use ap_academy_landing.Sends.Rows.{
  waiting_row, failed_row, finish_from, fail_attempt_from, row_from, row_of, is_sent, is_sending,
  fail_attempt_row, finish_row, fail_send_attempt, finish_send,
}
use ap_academy_landing.Sends.Attempt.{
  unanswered, dropped, answered, finished_write, failed_write, Write, finish_with, fail_with,
  Answers,
}

-- Without a send nothing went out; what went out carries the id of the send, once, and its attempt
-- was counted; and nothing is marked sent that did not go out.
abbrev pub Counted : Option SendRow → List String → Type 0
Counted none box = box ≡ []
Counted (some x) [] = is_sent x.state ≡ false
Counted (some x) (b ∷ box) = (b ≡ x.id) × (box ≡ []) × (1 ≤ x.attempts)

abbrev pub IsCounted : World → Type 0
IsCounted w = Counted w.send w.box

-- The same of the row that was found for an id, if one was.
abbrev pub CountedAt : String → Option SendRow → List String → Type 0
CountedAt id none box = Unit
CountedAt id (some x) box = (str_eq x.id id ≡ true) × Counted (some x) box

pub row_from-CountedAt :
    (id : String) (s : Option SendRow) (box : List String)
    → Counted s box
    → CountedAt id (row_from s id) box
row_from-CountedAt id none box h = tt
row_from-CountedAt id (some x) box h = elim (Bool-cases (str_eq x.id id)) [
  | inl f ↦ rw f (f, h)
  | inr f ↦ rw f tt
]

-- What counts of a row: nothing else of it matters.
abbrev pub Same : SendRow → SendRow → Type 0
Same x y = (y.id ≡ x.id) × (is_sent y.state ≡ is_sent x.state) × (x.attempts ≤ y.attempts)

pub Counted-Same :
    (x y : SendRow) (box : List String) → Same x y → Counted (some x) box → Counted (some y) box
Counted-Same x y [] s h = s.1 ∙ h
Counted-Same x y (b ∷ box) s h = (h.0 ∙ sym s.0, h.1, omega arith)

pub sending_unsent : (s : SendState) → is_sending s ≡ true → is_sent s ≡ false
sending_unsent sending h = refl
sending_unsent SendState.sent h = cc
sending_unsent SendState.failed h = cc

fail_attempt_row-IsCounted :
    (w : World) (x : SendRow) (e : SendError)
    → IsCounted w
    → Counted (some x) w.box
    → IsCounted (fail_attempt_row w x e).1
fail_attempt_row-IsCounted w x e h k = elim (Bool-cases (is_sending x.state)) [
  | inr f ↦ rw f h
  | inl f ↦ elim (Bool-cases (leb max_attempts x.attempts)) [
    | inl g ↦
        rw (f, g)
          (Counted-Same x (failed_row x e) w.box (refl, sym (sending_unsent x.state f), omega arith)
            k)
    | inr g ↦ rw (f, g) (Counted-Same x (waiting_row x e) w.box (refl, refl, omega arith) k)
  ]
]

fail_attempt_from-IsCounted :
    (id : String) (w : World) (o : Option SendRow) (e : SendError)
    → IsCounted w
    → CountedAt id o w.box
    → IsCounted (fail_attempt_from w o e).1
fail_attempt_from-IsCounted id w none e h k = h
fail_attempt_from-IsCounted id w (some x) e h k = fail_attempt_row-IsCounted w x e h k.1

fail_send_attempt-IsCounted :
    (w : World) (id : String) (e : SendError) → IsCounted w → IsCounted (fail_send_attempt w id e).1
unfolding fail_send_attempt
fail_send_attempt-IsCounted w id e h =
    fail_attempt_from-IsCounted id w (row_of w id) e h (row_from-CountedAt id w.send w.box h)

pub fail_with-IsCounted :
    (g : Answers) (w : World) (id : String) (e : SendError)
    → IsCounted w
    → IsCounted (fail_with g w id e).1
fail_with-IsCounted g w id e h = by_write g.failing
  where
    by_write : (r : Write) → IsCounted (failed_write r (fail_send_attempt w id e) w e).1
    by_write answered = fail_send_attempt-IsCounted w id e h
    by_write dropped = h
    by_write unanswered = fail_send_attempt-IsCounted w id e h

-- Something went out already.
abbrev pub went_out : List String → Bool
went_out [] = false
went_out (b ∷ box) = true

finish_row-IsCounted :
    (w : World) (x : SendRow) (gmail_id : String) (box : List String)
    → went_out box ≡ true
    → Counted (some x) box
    → Counted w.send box
    → Counted (finish_row w x gmail_id).send box
finish_row-IsCounted w x gmail_id [] o k h = cc
finish_row-IsCounted w x gmail_id (b ∷ box) o k h = elim (Bool-cases (is_sent x.state)) [
  | inl f ↦ rw f h
  | inr f ↦ rw f k
]

finish_from-IsCounted :
    (id : String) (w : World) (o : Option SendRow) (gmail_id : String)
    → went_out w.box ≡ true
    → IsCounted w
    → CountedAt id o w.box
    → Counted (finish_from w o gmail_id).send w.box
finish_from-IsCounted id w none gmail_id out h k = h
finish_from-IsCounted id w (some x) gmail_id out h k =
    finish_row-IsCounted w x gmail_id w.box out k.1 h

finish_box :
    (w : World) (o : Option SendRow) (gmail_id : String) → (finish_from w o gmail_id).box ≡ w.box
finish_box w none gmail_id = refl
finish_box w (some x) gmail_id = elim (Bool-cases (is_sent x.state)) [
  | inl f ↦ rw f refl
  | inr f ↦ rw f refl
]

finish_send-IsCounted :
    (w : World) (id gmail_id : String)
    → went_out w.box ≡ true
    → IsCounted w
    → IsCounted (finish_send w id gmail_id)
unfolding finish_send
finish_send-IsCounted w id gmail_id out h =
    rw (finish_box w (row_of w id) gmail_id) (
      finish_from-IsCounted id w (row_of w id) gmail_id out h
        (row_from-CountedAt id w.send w.box h))

pub finish_with-IsCounted :
    (g : Answers) (w : World) (id gmail_id : String)
    → went_out w.box ≡ true
    → IsCounted w
    → IsCounted (finish_with g w id gmail_id).1
finish_with-IsCounted g w id gmail_id out h = by_write g.finishing
  where
    by_write : (r : Write) → IsCounted (finished_write r (finish_send w id gmail_id) w).1
    by_write answered = finish_send-IsCounted w id gmail_id out h
    by_write dropped = h
    by_write unanswered = finish_send-IsCounted w id gmail_id out h
