-- ===== src/Wallclock/Tests.antt =====
-- Concrete times, and the theorems of the component at them.
use ap_academy_landing.Prelude.{ℕ, ◌≤◌, ◌≡◌, refl, some, arith, ltb, if◌then◌else◌}
use ap_academy_landing.Wallclock.Text.{time_of, minutes_of, minutes_of-time_of}
use ap_academy_landing.Wallclock.Zone.{resolve, Reads, OneTurn, resolve-Reads}

minutes_of-time_of_example : minutes_of (time_of 1035) ≡ some 1035
minutes_of-time_of_example = minutes_of-time_of 1035 (omega arith)

-- A clock four hours behind until an hour before `naive` on the UTC axis is reached, then five
abbrev fall_back : ℕ → ℕ
fall_back t = if ltb t 1000000000 then 14400000 else 18000000

fall_back-OneTurn : OneTurn fall_back 984000000
fall_back-OneTurn = record {
  first = 14400000;
  second = 18000000;
  turn = 1000000000;
  early = λ t a b c. ground arith;
  late = λ t a b c. ground arith;
  first_small = omega arith;
  second_small = omega arith;
}

resolve-Reads_example :
    Reads fall_back 984000000 (resolve fall_back 984000000)
    × (resolve fall_back 984000000 ≤ 1002000000)
resolve-Reads_example =
    resolve-Reads fall_back 984000000 1002000000 fall_back-OneTurn (omega arith) (omega arith) refl
