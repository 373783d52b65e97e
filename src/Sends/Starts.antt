-- ===== src/Sends/Starts.antt =====
-- The steps of Lifecycle that begin an attempt, over the attempts under way.
use ap_academy_landing.Prelude.{
  ℕ, ◌+◌, String, ◌≡◌, refl, inl, inr, Bool, true, false, not, ◌&&◌, ◌||◌, Option, none, some, List,
  [], ◌∷◌, arith, Bool-cases, str_eq, is_some, eq_iff,
}
use ap_academy_landing.Wallclock.{Instant}
use ap_academy_landing.Sends.{lease_ms, SendRow, World}
use ap_academy_landing.Sends.Rows.{
  ClaimResult, row_from, claim_send, auto_approve, SkipReason, approve_unless, skip_reason,
}
use ap_academy_landing.Sends.Lifecycle.{
  Flight, is_claimed, started, stands, attempt_if_claimed, after_approval, run_send, auto_send,
  approve, retry, retry_from, restarted, is_failed, may_approve, approved_by_owner,
}
use ap_academy_landing.Sends.Counting.{Counted, IsCounted}
use ap_academy_landing.Sends.Attempts.{is_empty}
use ap_academy_landing.Sends.Claims.{
  Attempted, Alone, IsSafe, Claims, claim_send-Claims, TurnedAway, claim_send-TurnedAway,
}

pub str_eq_refl : (id : String) → str_eq id id ≡ true
str_eq_refl id = (eq_iff id id).1 refl

-- An attempt may begin where none is under way.
started-IsSafe :
    (w : World) (id : String) (first : Bool)
    → IsCounted w
    → Attempted id (w.now + lease_ms) w.send
    → (first || is_empty w.box) ≡ true
    → IsSafe (started w id first [])
started-IsSafe w id true h k e = (h, (k, omega arith, refl))
started-IsSafe w id false h k e = (h, (k, omega arith, e))

attempt_if_claimed-IsSafe :
    (w : World) (id : String) (first : Bool) (c : ClaimResult × World)
    → (first || is_empty w.box) ≡ true
    → Claims id w c
    → IsSafe (attempt_if_claimed id first [] c)
attempt_if_claimed-IsSafe w id first c f h = elim (Bool-cases (is_claimed c.0)) [
  | inl e ↦ rw e (started-IsSafe c.1 id first h.0 (h.1 e) (rw (h.2) f))
  | inr e ↦ rw e (h.0, tt)
]

-- A claim that is turned away begins nothing.
TurnedAway-IsSafe :
    (w : World) (id : String) (first : Bool) (fs : List Flight) (c : ClaimResult × World)
    → TurnedAway w c
    → IsSafe (stands w fs)
    → IsSafe (attempt_if_claimed id first fs c)
TurnedAway-IsSafe w id first fs c t h = rw (t.0, t.1) h

pub run_send-IsSafe :
    (w : World) (fs : List Flight) (id : String)
    → IsSafe (stands w fs)
    → IsSafe (run_send (stands w fs) id)
unfolding run_send
run_send-IsSafe w [] id h =
    attempt_if_claimed-IsSafe w id true (claim_send w id) refl (claim_send-Claims w id h.0)
run_send-IsSafe w (f ∷ []) id h =
    TurnedAway-IsSafe w id true (f ∷ []) (claim_send w id) (claim_send-TurnedAway w id f h.1) h
run_send-IsSafe w (f ∷ g ∷ fs) id h = absurd (h.1)

Attempted-some :
    (id : String) (until : Instant) (s : Option SendRow) → Attempted id until s → is_some s ≡ true
Attempted-some id until none h = absurd h
Attempted-some id until (some x) h = refl

-- Where a draft has no send, no attempt is under way and nothing went out.
no_send :
    (w : World) (fs : List Flight)
    → is_some w.send ≡ false
    → IsSafe (stands w fs)
    → (fs ≡ []) × (w.box ≡ [])
no_send w [] e h = (refl, by_send w.send e h.0)
  where
    by_send : (s : Option SendRow) → is_some s ≡ false → Counted s w.box → w.box ≡ []
    by_send none e k = k
    by_send (some x) e k = absurd (cc)
no_send w (f ∷ []) e h = let k = Attempted-some f.id f.until w.send h.1.0 in absurd (cc)
no_send w (f ∷ g ∷ fs) e h = absurd (h.1)

pub auto_send-IsSafe :
    (w : World) (fs : List Flight) (id : String) (after : Option Instant) (in_time : Bool)
    → IsSafe (stands w fs)
    → IsSafe (auto_send (stands w fs) id after in_time)
unfolding auto_send auto_approve
auto_send-IsSafe w fs id after in_time h =
    by_reason (skip_reason w) refl (not (is_some after) && in_time)
  where
    approved : World
    approved = (approve_unless none w id after).1

    unsent : skip_reason w ≡ none → is_some w.send ≡ false
    unsent e = ground (arith, e)

    by_reason :
        (r : Option SkipReason)
        → skip_reason w ≡ r
        → (at_once : Bool) → IsSafe (after_approval fs id at_once (approve_unless r w id after))
    by_reason (some reason) e at_once = h
    by_reason none e true =
        let q = no_send w fs (unsent e) h in
        rw (q.0) (
          attempt_if_claimed-IsSafe approved id false (claim_send approved id) (rw (q.1) refl)
            (claim_send-Claims approved id (rw (q.1) refl)))
    by_reason none e false = let q = no_send w fs (unsent e) h in rw (q.0, q.1) (refl, tt)

pub approve-IsSafe :
    (w : World) (fs : List Flight) (id : String) (version : ℕ)
    → IsSafe (stands w fs)
    → IsSafe (approve (stands w fs) id version)
unfolding approve
approve-IsSafe w fs id version h = elim (Bool-cases (may_approve w version)) [
  | inr e ↦ rw e h
  | inl e ↦
      let q = no_send w fs (ground (arith, e)) h in
      rw (e, q.0)
        (started-IsSafe (approved_by_owner w id) id false (rw (q.1) refl)
          (str_eq_refl id, refl, omega arith, refl) (rw (q.1) refl))
]

abbrev any_failed : Option SendRow → Bool
any_failed none = false
any_failed (some x) = is_failed x.state

pub retry-IsSafe :
    (w : World) (fs : List Flight) (id : String)
    → IsSafe (stands w fs)
    → IsSafe (retry (stands w fs) id)
unfolding retry
retry-IsSafe w fs id h = by_row w.send h.0 (failed_alone fs h.1)
  where
    restart :
        (x : SendRow) (box : List String)
        → is_failed x.state ≡ true
        → Counted (some x) box
        → Counted (restarted w x).send box
    restart x [] f k = refl
    restart x (b ∷ box) f k = (k.0, k.1, omega arith)

    not_failed :
        (id : String) (until : Instant) (s : Option SendRow)
        → Attempted id until s
        → any_failed s ≡ false
    not_failed id until none k = absurd k
    not_failed id until (some x) k = ground (arith, k.1)

    failed_alone : (fs : List Flight) → Alone w fs → any_failed w.send ≡ true → fs ≡ []
    failed_alone [] k e = refl
    failed_alone (f ∷ []) k e = let q = not_failed f.id f.until w.send k.0 in absurd (cc)
    failed_alone (f ∷ g ∷ fs) k e = absurd k

    by_row :
        (s : Option SendRow)
        → Counted s w.box
        → (any_failed s ≡ true → fs ≡ [])
        → IsSafe (retry_from (stands w fs) id (row_from s id))
    by_row none k alone = h
    by_row (some x) k alone = elim (Bool-cases (str_eq x.id id)) [
      | inr e ↦ rw e h
      | inl e ↦ elim (Bool-cases (is_failed x.state && not w.paused)) [
        | inr f ↦ rw (e, f) h
        | inl f ↦
            rw (e, f, alone (ground arith))
              (started-IsSafe (restarted w x) id true (restart x w.box (ground arith) k)
                (e, refl, omega arith, refl) refl)
      ]
    ]
