-- ===== src/Sends/Claims.antt =====
-- `claimSend` and the attempts under way: who holds a send.
use ap_academy_landing.Prelude.{
  not-eq-false, ◌+◌, ◌≤◌, String, ◌≡◌, refl, sym, inl, inr, Bool, true, false, not, ◌&&◌, ◌||◌,
  Option, none, some, List, [], ◌∷◌, arith, leb, ◌==◌, if◌then◌else◌, Bool-cases, str_eq, ◌<◌,
}
use ap_academy_landing.Wallclock.{Instant}
use ap_academy_landing.Sends.{lease_ms, SendRow, World, max_attempts}
use ap_academy_landing.Sends.Rows.{
  busy, exhausted, ClaimResult, row_from, is_sending, claim_row, claim_from, claim_send, claimed,
  is_auto, is_leased, or_unfinished, failed_row, is_enabled, fail_row,
}
use ap_academy_landing.Sends.Lifecycle.{State, Flight, is_claimed}
use ap_academy_landing.Sends.Counting.{Counted, IsCounted, Counted-Same, sending_unsent}
use ap_academy_landing.Sends.Attempts.{is_empty}

-- The row of a send that is being attempted.
abbrev pub Attempted : String → Instant → Option SendRow → Type 0
Attempted id until none = ⊥
Attempted id until (some x) =
    (str_eq x.id id ≡ true)
    × (is_sending x.state ≡ true)
    × (1 ≤ x.attempts)
    × (x.lease_until ≡ some until)

-- The attempt holds the send, and nothing went out unless it is still to search.
abbrev pub Holds : World → Flight → Type 0
Holds w f =
    Attempted f.id f.until w.send
    × (w.now < f.until)
    × ((f.verify_first && not f.looked) || is_empty w.box) ≡ true

-- At most one attempt is under way, and it holds the send.
abbrev pub Alone : World → List Flight → Type 0
Alone w [] = Unit
Alone w (f ∷ []) = Holds w f
Alone w (f ∷ g ∷ fs) = ⊥

abbrev pub IsSafe : State → Type 0
IsSafe s = IsCounted s.world × Alone s.world s.flights

-- What a claim keeps: the count and the mailbox; and a send that it claims is held.
abbrev pub Claims : String → World → ClaimResult × World → Type 0
Claims id w c =
    IsCounted c.1
    × (is_claimed c.0 ≡ true → Attempted id (c.1.now + lease_ms) c.1.send)
    × (c.1.box ≡ w.box)

abbrev claimed_row : World → SendRow → SendRow
claimed_row w x = record x { attempts = x.attempts + 1; lease_until = some (w.now + lease_ms) }

nothing_out : (x : SendRow) (box : List String) → Counted (some x) box → x.attempts ≡ 0 → box ≡ []
nothing_out x [] h z = refl
nothing_out x (b ∷ box) h z = absurd (omega arith)

Claims-nothing :
    (id : String) (r : ClaimResult) (w : World)
    → is_claimed r ≡ false
    → IsCounted w
    → Claims id w (r, w)
Claims-nothing id r w e h = (h, λ k. absurd (cc), refl)

claim_leased :
    (w : World) (id : String) (x : SendRow)
    → str_eq x.id id ≡ true
    → is_sending x.state ≡ true
    → IsCounted w
    → Counted (some x) w.box
    → Claims id w (
        if leb max_attempts x.attempts
        then (exhausted, fail_row w x (or_unfinished x.last_error))
        else (claimed, record w { send = some (claimed_row w x) }))
claim_leased w id x same f h k = elim (Bool-cases (leb max_attempts x.attempts)) [
  | inl g ↦ rw g (
    Counted-Same x (failed_row x (or_unfinished x.last_error)) w.box
        (refl, sym (sending_unsent x.state f), omega arith) k,
    λ e. cc,
    refl,
  )
  | inr g ↦ rw g (
    Counted-Same x (claimed_row w x) w.box (refl, refl, omega arith) k,
    λ e. (same, f, omega arith, refl),
    refl,
  )
]

Claims-if :
    (id : String) (w : World) (b : Bool) (c d : ClaimResult × World)
    → (b ≡ true → Claims id w c)
    → (b ≡ false → Claims id w d)
    → Claims id w (if b then c else d)
Claims-if id w true c d h k = h refl
Claims-if id w false c d h k = k refl

claim_row-Claims :
    (w : World) (id : String) (x : SendRow)
    → str_eq x.id id ≡ true
    → IsCounted w
    → Counted (some x) w.box
    → Claims id w (claim_row w x)
claim_row-Claims w id x same h k =
    Claims-if id w (not (is_sending x.state)) _ _ (λ f. Claims-nothing id ClaimResult.done w refl h)
      (λ f.
        Claims-if id w w.paused _ _ (λ p. Claims-nothing id ClaimResult.paused w refl h)
          (λ p.
            Claims-if id w
              ((is_auto x.mode && x.attempts == 0)
                && (not w.sending_enabled || not (is_enabled w.type_switch)))
              _ _ (λ a. (nothing_out x w.box k (ground arith), λ e. cc, refl))
              (λ a.
                Claims-if id w (is_leased x.lease_until w.now) _ _
                  (λ l. Claims-nothing id busy w refl h)
                  (λ l. claim_leased w id x same (not-eq-false (is_sending x.state) f) h k))))

pub claim_send-Claims : (w : World) (id : String) → IsCounted w → Claims id w (claim_send w id)
unfolding claim_send
claim_send-Claims w id h = by_row w.send h
  where
    by_row : (s : Option SendRow) → Counted s w.box → Claims id w (claim_from w (row_from s id))
    by_row none k = Claims-nothing id ClaimResult.not_found w refl h
    by_row (some x) k = elim (Bool-cases (str_eq x.id id)) [
      | inl e ↦ rw e (claim_row-Claims w id x e h k)
      | inr e ↦ rw e (Claims-nothing id ClaimResult.not_found w refl h)
    ]

-- A claim that is turned away and changes nothing.
abbrev pub TurnedAway : World → ClaimResult × World → Type 0
TurnedAway w c = (is_claimed c.0 ≡ false) × (c.1 ≡ w)

claim_row-TurnedAway :
    (w : World) (x : SendRow)
    → is_sending x.state ≡ true
    → 1 ≤ x.attempts
    → is_leased x.lease_until w.now ≡ true
    → TurnedAway w (claim_row w x)
claim_row-TurnedAway w x s started l = elim (Bool-cases w.paused) [
  | inl p ↦ (ground (arith, s, p), ground (arith, s, p))
  | inr p ↦ (ground (arith, s, p, l, started), ground (arith, s, p, l, started))
]

-- A send that is being attempted cannot be claimed.
pub claim_send-TurnedAway :
    (w : World) (id : String) (f : Flight) → Holds w f → TurnedAway w (claim_send w id)
unfolding claim_send
claim_send-TurnedAway w id f h = by_row w.send h.0
  where
    by_row :
        (s : Option SendRow)
        → Attempted f.id f.until s
        → TurnedAway w (claim_from w (row_from s id))
    by_row none k = absurd k
    by_row (some x) k = elim (Bool-cases (str_eq x.id id)) [
      | inr e ↦ rw e (refl, refl)
      | inl e ↦ rw e (claim_row-TurnedAway w x (k.1) (k.2) (rw (k.3) (ground (arith, h.1))))
    ]
