-- ===== src/Sends/Settled.antt =====
-- The claims and the runs of Settles, counted.
use ap_academy_landing.Prelude.{
  ℕ, zero, suc, ◌+◌, ◌<◌, String, ◌≡◌, refl, inl, inr, true, false, not, ◌&&◌, Option, none, some,
  List, arith, leb, ◌==◌, ◌||◌, Bool-cases,
}
use ap_academy_landing.Wallclock.{Instant}
use ap_academy_landing.Sends.{lease_ms, max_attempts, SendRow, World}
use ap_academy_landing.Sends.Rows.{
  ClaimResult, claim_row, claim_from, claim_send, row_from, is_sending, is_leased, is_auto,
  is_enabled,
}
use ap_academy_landing.Sends.Attempt.{Answers}
use ap_academy_landing.Sends.Lifecycle.{is_claimed}
use ap_academy_landing.Sends.Starts.{str_eq_refl}
use ap_academy_landing.Sends.Settles.{
  Tried, Tried-if, after_looking-Tried, attempt_claimed, is_settled, is_stuck, lapsed, run_sends,
  runs_in,
}

lapsed-unleased :
    (lease : Option Instant) (now : Instant) → lapsed lease now ≡ true → is_leased lease now ≡ false
lapsed-unleased none now h = refl
lapsed-unleased (some until) now h = ground (arith, h)

claim_row-Tried :
    (id : String) (k top : ℕ) (next : Instant) (w : World) (x : SendRow)
    → w.paused ≡ false
    → w.now + lease_ms < next
    → is_sending x.state ≡ true
    → lapsed x.lease_until w.now ≡ true
    → Tried id k top w.now (some x)
    → Tried id (suc k) max_attempts next (claim_row w x).1.send
claim_row-Tried id k top next w x p n s l t =
    Tried-if id (suc k) max_attempts next (not (is_sending x.state)) _ _ (λ e. absurd (cc))
      (λ e.
        Tried-if id (suc k) max_attempts next w.paused _ _ (λ f. absurd (cc))
          (λ f.
            Tried-if id (suc k) max_attempts next
              ((is_auto x.mode && x.attempts == 0)
                && (not w.sending_enabled || not (is_enabled w.type_switch)))
              _ _ (λ a. tt)
              (λ a.
                Tried-if id (suc k) max_attempts next (is_leased x.lease_until w.now) _ _
                  (λ b. let u = lapsed-unleased x.lease_until w.now l in absurd (cc))
                  (λ b.
                    Tried-if id (suc k) max_attempts next (leb max_attempts x.attempts) _ _
                      (λ c. (t.0, λ d. absurd (cc)))
                      (λ c. (
                        t.0,
                        λ d. (omega (arith, (t.1 s).0), ground (arith, c), ground (arith, n)),
                      ))))))

claim_send-Tried :
    (id : String) (k top : ℕ) (next : Instant) (w : World)
    → w.paused ≡ false
    → w.now + lease_ms < next
    → is_stuck w.send w.now ≡ true
    → Tried id k top w.now w.send
    → Tried id (suc k) max_attempts next (claim_send w id).1.send
unfolding claim_send
claim_send-Tried id k top next w p n s t = by_row w.send s t
  where
    by_row :
        (o : Option SendRow)
        → is_stuck o w.now ≡ true
        → Tried id k top w.now o
        → Tried id (suc k) max_attempts next (claim_from w (row_from o id)).1.send
    by_row none q h = absurd (cc)
    by_row (some x) q h =
        rw (h.0) (claim_row-Tried id k top next w x p n (ground (arith, q)) (ground (arith, q)) h)

counted :
    (id : String) (k m top : ℕ) (next : Instant) (s : Option SendRow)
    → k ≡ m
    → Tried id k top next s
    → Tried id m top next s
counted id k m top next s e t = rw (← e) t

-- A send that no run lists has settled already.
unlisted :
    (id : String) (k top : ℕ) (next now : Instant) (s : Option SendRow)
    → is_stuck s now ≡ false
    → Tried id k top now s
    → Tried id (suc k) max_attempts next s
unlisted id k top next now none q h = tt
unlisted id k top next now (some x) q h =
    (h.0, λ e. let l = (h.1 e).2 in absurd (ground (arith, q, e, l)))

module _ (search : List String → String → Option String) where
  attempt_claimed-Tried :
      (g : Answers) (id : String) (k top : ℕ) (next : Instant) (c : ClaimResult × World)
      → Tried id k top next c.1.send
      → Tried id k top next (attempt_claimed search g id c).send
  attempt_claimed-Tried g id k top next c h = elim (Bool-cases (is_claimed c.0)) [
    | inl e ↦ rw e (after_looking-Tried g id k top next search c.1 h)
    | inr e ↦ rw e h
  ]

  run_sends-Tried :
      (g : Answers) (id : String) (k top : ℕ) (next : Instant) (w : World)
      → w.paused ≡ false
      → w.now + lease_ms < next
      → Tried id k top w.now w.send
      → Tried id (suc k) max_attempts next (run_sends search g w id).send
  unfolding run_sends
  run_sends-Tried g id k top next w p n t = elim (Bool-cases (is_stuck w.send w.now)) [
    | inl e ↦ rw e (
        attempt_claimed-Tried g id (suc k) max_attempts next (claim_send w id)
          (claim_send-Tried id k top next w p n e t))
    | inr e ↦ rw e (unlisted id k top next w.now w.send e t)
  ]

  runs_in-Tried :
      (n : ℕ) (answers : ℕ → Answers) (clocks : ℕ → Instant) (w : World) (id : String) (k top : ℕ)
      → ((i : ℕ) → clocks i + lease_ms < clocks (suc i))
      → Tried id k top (clocks 0) w.send
      → Tried id
          (k + suc n)
          max_attempts
          (clocks (suc n))
          (runs_in search (suc n) answers clocks w id).send
  unfolding runs_in
  runs_in-Tried zero answers clocks w id k top apart t =
      counted id (suc k) (k + 1) max_attempts (clocks 1) _ (omega arith) (
        run_sends-Tried (answers 0) id k top (clocks 1)
          (record w { paused = false; now = clocks 0 }) refl (apart 0) t)
  runs_in-Tried (suc n) answers clocks w id k top apart t =
      counted id (suc k + suc n) (k + suc (suc n)) max_attempts (clocks (suc (suc n))) _
        (omega arith)
        (runs_in-Tried n (λ i. answers (suc i)) (λ i. clocks (suc i))
          (run_sends search (answers 0) (record w { paused = false; now = clocks 0 }) id) id (suc k)
          max_attempts (λ i. apart (suc i))
          (run_sends-Tried (answers 0) id k top (clocks 1)
            (record w { paused = false; now = clocks 0 }) refl (apart 0) t))

  settled_by :
      (id : String) (next : Instant) (s : Option SendRow)
      → Tried id (suc max_attempts) max_attempts next s
      → is_settled s ≡ true
  settled_by id next none h = refl
  settled_by id next (some x) h = elim (Bool-cases (is_sending x.state)) [
    | inl e ↦ absurd (omega (arith, (h.1 e).0, (h.1 e).1))
    | inr e ↦ rw e refl
  ]

  -- A send whose lease has passed is sent, failed or withdrawn after one run more than the attempts it
  -- is given, where the runs come more than a lease apart to a store that is not paused, list the
  -- stuck sends and have their claims answered, and nothing else happens to the send: whatever Gmail
  -- answers in the attempts, and whichever of their reads and writes the database drops or leaves
  -- unanswered.
  pub is_settled-runs_in :
      (answers : ℕ → Answers) (clocks : ℕ → Instant) (w : World) (x : SendRow)
      → w.send ≡ some x
      → lapsed x.lease_until (clocks 0) ≡ true
      → ((i : ℕ) → clocks i + lease_ms < clocks (suc i))
      → is_settled (runs_in search (suc max_attempts) answers clocks w x.id).send ≡ true
  is_settled-runs_in answers clocks w x q l apart = settled_by x.id (clocks 4) _ (
      runs_in-Tried max_attempts answers clocks w x.id 0 x.attempts apart
        (rw q (str_eq_refl x.id, λ e. (omega arith, omega arith, l))))
