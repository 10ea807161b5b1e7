-- ===== src/Common/Doubling.antt =====
-- Times in microseconds, and the arithmetic of a delay that doubles up to a cap.
use Prim.Native.Nat.{ℕ, zero, suc, ◌+◌, ◌-◌, ◌*◌, ◌^◌, ◌≤◌, min, max}
use mathlib.Core.Path.{◌≡◌}
use native.Mathlib.Nat.{pow-suc}
use native.Mathlib.Decide.{dec_le}
use native.Mathlib.Omega.{arith}

-- The retry delay after `n` failures in a row: `base` doubled for each failure after the first, at
-- most 16 times, and never above `cap`.
abbrev pub doubling_delay : ℕ → ℕ → ℕ → ℕ
doubling_delay base cap n = min (base * 2 ^ min (max (n - 1) 0) 16) cap

abbrev pub second : ℕ
second = 1000000

abbrev pub minute : ℕ
minute = 60 * second

pub pow_pos : (n : ℕ) → 1 ≤ 2 ^ n
pow_pos zero = omega arith
pow_pos (suc n) = omega (arith, pow_pos n, pow-suc 2 n)

pub pow_mono : (m n : ℕ) → m ≤ n → 2 ^ m ≤ 2 ^ n
pow_mono zero n h = pow_pos n
pow_mono (suc m) zero h = elim h [ ]
pow_mono (suc m) (suc n) h = omega (arith, pow-suc 2 m, pow-suc 2 n, pow_mono m n (omega arith))

pub doubling_delay-bounds :
    (base cap n : ℕ)
    → base ≤ cap
    → (base ≤ doubling_delay base cap n) × (doubling_delay base cap n ≤ cap)
doubling_delay-bounds base cap n h = grind (arith, pow_pos (min (max (n - 1) 0) 16))

pub doubling_delay_mono :
    (base cap m n : ℕ) → m ≤ n → doubling_delay base cap m ≤ doubling_delay base cap n
doubling_delay_mono base cap m n h =
    grind (arith, pow_mono (min (max (m - 1) 0) 16) (min (max (n - 1) 0) 16) (omega arith))

-- The bound on the exponent changes nothing once sixteen doublings pass the cap.
pub doubling_delay_uncapped :
    (base cap n : ℕ)
    → cap ≤ base * 2 ^ 16
    → doubling_delay base cap (n + 1) ≡ min (base * 2 ^ n) cap
doubling_delay_uncapped base cap n h = elim (dec_le n 16) [
  | yes p ↦ let e : min (max (n + 1 - 1) 0) 16 ≡ n = omega arith in rw e
  | no p ↦
      let e : min (max (n + 1 - 1) 0) 16 ≡ 16 = omega arith in
      rw e (grind (arith, pow_mono 16 n (omega arith)))
]
