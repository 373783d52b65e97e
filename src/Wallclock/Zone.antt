-- ===== src/Wallclock/Zone.antt =====
-- `localToUtc` of wallclock.ts. `behind t` stands for `-offsetAt(t, zone)`, which the source reads
-- from Intl.DateTimeFormat: by how many milliseconds the zone's clock is behind UTC at `t`. It is
-- a natural number, as America/Toronto is west of Greenwich.
use ap_academy_landing.Prelude.{
  ℕ, ◌+◌, ◌-◌, ◌*◌, ◌≤◌, ◌<◌, ◌≡◌, Option, none, some, arith, min, ◌==◌, if◌then◌else◌,
}
use ap_academy_landing.Wallclock.{Date, Time, Instant, parse_date, minute_ms, hour_ms}

unfoldable pub naive_of : Date → Time → Instant
naive_of date time = parse_date date + time * minute_ms

-- `Math.min` of the candidates, and the fallback where there is none
earliest : Option Instant → Option Instant → Instant → Instant
earliest none none fallback = fallback
earliest (some a) none fallback = a
earliest none (some b) fallback = b
earliest (some a) (some b) fallback = min a b

module _ (behind : Instant → ℕ) where
  -- One round of the loop over the probes: the candidate that it adds, if any.
  unfoldable pub candidate : Instant → Instant → Option Instant
  candidate naive probe =
      let off = behind probe in if behind (naive + off) == off then some (naive + off) else none

  unfoldable pub resolve : Instant → Instant
  unfolding candidate earliest
  resolve naive =
      earliest (candidate naive (naive - 12 * hour_ms)) (candidate naive (naive + 12 * hour_ms))
        (naive + behind (naive - 12 * hour_ms))

  unfoldable pub local_to_utc : Date → Time → Instant
  unfolding resolve naive_of
  local_to_utc date time = resolve (naive_of date time)

-- `u` is an instant whose clock in the zone reads `naive`.
abbrev pub Reads : (Instant → ℕ) → Instant → Instant → Type 0
Reads behind naive u = u ≡ naive + behind u

-- The clock around `naive`: by `first` behind until the one change at `turn`, by `second` from then
-- on, neither by more than twelve hours.
pub record OneTurn (behind : Instant → ℕ) (naive : Instant) : Type 0 where
  pub first : ℕ
  pub second : ℕ
  pub turn : Instant
  pub early :
      (t : Instant)
      → naive - 12 * hour_ms ≤ t
      → t ≤ naive + 12 * hour_ms
      → t < turn
      → behind t ≡ first
  pub late :
      (t : Instant)
      → naive - 12 * hour_ms ≤ t
      → t ≤ naive + 12 * hour_ms
      → turn ≤ t
      → behind t ≡ second
  pub first_small : first ≤ 12 * hour_ms
  pub second_small : second ≤ 12 * hour_ms

-- Where the clock of the zone changes at most once within twelve hours, and some instant reads the
-- wanted local time: the result reads it too, and no earlier instant of these hours does.
pub resolve-Reads :
    (behind : Instant → ℕ) (naive u : Instant)
    → OneTurn behind naive
    → naive - 12 * hour_ms ≤ u
    → u ≤ naive + 12 * hour_ms
    → Reads behind naive u
    → Reads behind naive (resolve behind naive) × (resolve behind naive ≤ u)
unfolding resolve
resolve-Reads behind naive u z lo hi r = ground (
  arith,
  z.early (naive - 12 * hour_ms),
  z.late (naive - 12 * hour_ms),
  z.early (naive + 12 * hour_ms),
  z.late (naive + 12 * hour_ms),
  z.early (naive + z.first),
  z.late (naive + z.first),
  z.early (naive + z.second),
  z.late (naive + z.second),
  z.early u,
  z.late u,
)

-- In a gap, where no instant reads the local time, the result is the local time by the clock from
-- before the gap.
pub resolve_gap :
    (behind : Instant → ℕ) (naive : Instant)
    → OneTurn behind naive
    → ((u : Instant) → ¬ (Reads behind naive u))
    → resolve behind naive ≡ naive + behind (naive - 12 * hour_ms)
unfolding resolve
resolve_gap behind naive z h =
    ground
      (arith, h (naive + behind (naive - 12 * hour_ms)), h (naive + behind (naive + 12 * hour_ms)))
