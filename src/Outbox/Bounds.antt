-- ===== src/Outbox/Bounds.antt =====
-- The waits, the rounds of a drain, and the attempts of one row are bounded.
use Prim.Native.Nat.{◌^◌}
use Prim.Native.Nat.pow
use ap_academy_landing.Prelude.{
  ℕ, zero, suc, ◌+◌, ◌-◌, ◌*◌, ◌≤◌, max, ◌≡◌, Bool, false, Option, none, some, arith, some_or,
  if◌then◌else◌,
}
use ap_academy_landing.Wallclock.{Instant}
use ap_academy_landing.Outbox.{
  Moment, OutboxRow, deliver_safely, drain_outbox, next_attempt_at, stops_at, drain_outbox,
}

pow_positive : (n : ℕ) → 1 ≤ 2 ^ n
pow_positive zero = let e : 2 ^ zero ≡ 1 = pow.zero 2 in omega (arith, e)
pow_positive (suc n) =
    let e : 2 ^ suc n ≡ 2 ^ n * 2 = pow.suc 2 n in omega (arith, e, pow_positive n)

-- The next attempt is at least 30 seconds away, and at most an hour or, where that is longer, what
-- Notion's Retry-After asks for.
pub next_attempt_at-bounds :
    (attempts : ℕ) (now : Instant) (retry_after : Option ℕ)
    → (now + 30000 ≤ next_attempt_at attempts now retry_after)
      × (next_attempt_at attempts now retry_after ≤ now + max 3600 (some_or retry_after 0) * 1000)
unfolding next_attempt_at
next_attempt_at-bounds attempts now retry_after =
    let p = pow_positive (attempts - 1) in (omega (arith, p), omega (arith, p))

-- The answer of Notion in the first round is a 429.
abbrev pub limited_by : Moment → Option (Option OutboxRow) → Bool
limited_by m none = false
limited_by m (some none) = false
limited_by m (some (some row)) = stops_at (deliver_safely m row).error

-- How many rounds there can be of at most `left`, up to the first whose answer is a 429.
unfoldable pub until_limited : ℕ → (ℕ → Moment) → ℕ
unfolding deliver_safely
until_limited zero moments = 0
until_limited (suc left) moments =
    let later = until_limited left (λ i. moments (suc i)) in
    if limited_by (moments 0) (moments 0).claim then 1 else suc later
