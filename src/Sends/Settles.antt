-- ===== src/Sends/Settles.antt =====
-- `runSends` and `listStuckSends` over one send, run after run, and what an attempt makes of its row.
use ap_academy_landing.Prelude.{
  ℕ, zero, suc, ◌≤◌, String, ◌≡◌, refl, inl, inr, Bool, true, false, not, ◌&&◌, Option, none, some,
  List, leb, ltb, if◌then◌else◌, Bool-cases, str_eq,
}
use ap_academy_landing.Wallclock.{Instant}
use ap_academy_landing.Sends.{max_attempts, SendRow, SendError, World, unchecked_gmail}
use ap_academy_landing.Sends.Rows.{
  ClaimResult, claim_send, row_from, row_of, is_sending, is_sent, fail_attempt_row,
  fail_attempt_from, fail_send_attempt, finish_from, finish_send,
}
use ap_academy_landing.Sends.Attempt.{
  Answers, Look, ended, goes_on, look, look_from, unless_found, send_now, Write, answered, dropped,
  unanswered, failed_write, finished_write, fail_with, finish_with, Delivery, deliver, accept,
}
use ap_academy_landing.Sends.Lifecycle.{is_claimed}

-- The lease has passed, as `listStuckSends` has it.
abbrev pub lapsed : Option Instant → Instant → Bool
lapsed none now = true
lapsed (some until) now = ltb until now

-- Whether `listStuckSends` lists the send.
abbrev pub is_stuck : Option SendRow → Instant → Bool
is_stuck none now = false
is_stuck (some x) now = is_sending x.state && lapsed x.lease_until now

-- The send is sent, failed or withdrawn.
abbrev pub is_settled : Option SendRow → Bool
is_settled none = true
is_settled (some x) = not (is_sending x.state)

abbrev pub after_looking : Answers → World → String → Look → World
after_looking g w id (ended r v) = v
after_looking g w id goes_on = (send_now g w id).1

module _ (search : List String → String → Option String) where
  abbrev pub attempt_claimed : Answers → String → ClaimResult × World → World
  attempt_claimed g id c =
      if is_claimed c.0 then after_looking g c.1 id (look search g true c.1 id) else c.1

  -- `runSends` over the one send.
  unfoldable pub run_sends : Answers → World → String → World
  unfolding claim_send look finish_send fail_send_attempt
  run_sends g w id = if is_stuck w.send w.now then attempt_claimed g id (claim_send w id) else w

  -- So many runs, each at its time, in a store that is not paused then.
  unfoldable pub runs_in : ℕ → (ℕ → Answers) → (ℕ → Instant) → World → String → World
  unfolding run_sends
  runs_in zero answers clocks w id = w
  runs_in (suc n) answers clocks w id =
      runs_in n (λ i. answers (suc i)) (λ i. clocks (suc i))
        (run_sends (answers 0) (record w { paused = false; now = clocks 0 }) id) id

-- The send, if it is still sending, was tried so often, and its lease has passed at `next`.
abbrev pub Tried : String → ℕ → ℕ → Instant → Option SendRow → Type 0
Tried id k top next none = Unit
Tried id k top next (some x) =
    (str_eq x.id id ≡ true)
    × (is_sending x.state ≡ true
        → (k ≤ x.attempts) × (x.attempts ≤ top) × (lapsed x.lease_until next ≡ true))

pub Tried-if :
    {A : Type 0} (id : String) (k top : ℕ) (next : Instant) (b : Bool) (c d : A × World)
    → (b ≡ true → Tried id k top next c.1.send)
    → (b ≡ false → Tried id k top next d.1.send)
    → Tried id k top next (if b then c else d).1.send
Tried-if id k top next true c d h l = h refl
Tried-if id k top next false c d h l = l refl

fail_attempt_row-Tried :
    (id : String) (k top : ℕ) (next : Instant) (w : World) (x : SendRow) (e : SendError)
    → Tried id k top next w.send
    → Tried id k top next (some x)
    → Tried id k top next (fail_attempt_row w x e).1.send
fail_attempt_row-Tried id k top next w x e h t =
    Tried-if id k top next (not (is_sending x.state)) _ _ (λ s. h)
      (λ s.
        Tried-if id k top next (leb max_attempts x.attempts) _ _ (λ f. (t.0, λ g. absurd (cc)))
          (λ f. (t.0, λ g. ((t.1 g).0, (t.1 g).1, refl))))

pub row_from-Tried :
    (id : String) (k top : ℕ) (next : Instant) (s : Option SendRow)
    → Tried id k top next s
    → Tried id k top next (row_from s id)
row_from-Tried id k top next none h = tt
row_from-Tried id k top next (some x) h = elim (Bool-cases (str_eq x.id id)) [
  | inl e ↦ rw e h
  | inr e ↦ rw e tt
]

fail_send_attempt-Tried :
    (id : String) (k top : ℕ) (next : Instant) (w : World) (e : SendError)
    → Tried id k top next w.send
    → Tried id k top next (fail_send_attempt w id e).1.send
unfolding fail_send_attempt
fail_send_attempt-Tried id k top next w e h =
    by_row (row_of w id) (row_from-Tried id k top next w.send h)
  where
    by_row :
        (o : Option SendRow)
        → Tried id k top next o
        → Tried id k top next (fail_attempt_from w o e).1.send
    by_row none t = h
    by_row (some x) t = fail_attempt_row-Tried id k top next w x e h t

finish_send-Tried :
    (id : String) (k top : ℕ) (next : Instant) (w : World) (gmail_id : String)
    → Tried id k top next w.send
    → Tried id k top next (finish_send w id gmail_id).send
unfolding finish_send
finish_send-Tried id k top next w gmail_id h =
    by_row (row_of w id) (row_from-Tried id k top next w.send h)
  where
    by_row :
        (o : Option SendRow)
        → Tried id k top next o
        → Tried id k top next (finish_from w o gmail_id).send
    by_row none t = h
    by_row (some x) t = elim (Bool-cases (is_sent x.state)) [
      | inl f ↦ rw f h
      | inr f ↦ rw f (t.0, λ g. absurd (cc))
    ]

module _ (g : Answers) (id : String) (k top : ℕ) (next : Instant) where
  fail_with-Tried :
      (w : World) (e : SendError)
      → Tried id k top next w.send
      → Tried id k top next (fail_with g w id e).1.send
  fail_with-Tried w e h = by_write g.failing
    where
      by_write :
          (r : Write) → Tried id k top next (failed_write r (fail_send_attempt w id e) w e).1.send
      by_write answered = fail_send_attempt-Tried id k top next w e h
      by_write dropped = h
      by_write unanswered = fail_send_attempt-Tried id k top next w e h

  finish_with-Tried :
      (w : World) (gmail_id : String)
      → Tried id k top next w.send
      → Tried id k top next (finish_with g w id gmail_id).1.send
  finish_with-Tried w gmail_id h = by_write g.finishing
    where
      by_write :
          (r : Write) → Tried id k top next (finished_write r (finish_send w id gmail_id) w).1.send
      by_write answered = finish_send-Tried id k top next w gmail_id h
      by_write dropped = h
      by_write unanswered = finish_send-Tried id k top next w gmail_id h

  send_now-Tried :
      (w : World) → Tried id k top next w.send → Tried id k top next (send_now g w id).1.send
  send_now-Tried w h =
      Tried-if id k top next (not g.builds) _ _ (λ e. fail_with-Tried w _ h)
        (λ e.
          Tried-if id k top next (not g.authorises) _ _ (λ f. fail_with-Tried w _ h)
            (λ f. by_delivery g.delivery))
    where
      by_delivery : (d : Delivery) → Tried id k top next (deliver g w id d).1.send
      by_delivery (Delivery.accepted gmail_id) = finish_with-Tried (accept w id) gmail_id h
      by_delivery Delivery.refused = fail_with-Tried w _ h
      by_delivery Delivery.lost = fail_with-Tried (accept w id) _ h

  after_looking-if :
      (w : World) (b : Bool) (x y : Look)
      → Tried id k top next (after_looking g w id x).send
      → Tried id k top next (after_looking g w id y).send
      → Tried id k top next (after_looking g w id (if b then x else y)).send
  after_looking-if w true x y h l = h
  after_looking-if w false x y h l = l

  module _ (search : List String → String → Option String) where
    pub after_looking-Tried :
        (w : World)
        → Tried id k top next w.send
        → Tried id k top next (after_looking g w id (look search g true w id)).send
    unfolding look
    after_looking-Tried w h = after_looking-if w (not g.reads) _ _ h (by_row (row_of w id))
      where
        by_found :
            (f : Option String)
            → Tried id k top next (after_looking g w id (unless_found g w id f)).send
        by_found none = send_now-Tried w h
        by_found (some gmail_id) = finish_with-Tried w gmail_id h

        by_row :
            (s : Option SendRow)
            → Tried id k top next (after_looking g w id (look_from search g true w id s)).send
        by_row none = h
        by_row (some x) = after_looking-if w (not (is_sending x.state)) _ _ h (
            after_looking-if w (not g.searches) _ _ (fail_with-Tried w unchecked_gmail h)
              (by_found (search w.box id)))
