-- ===== src/Base/Decimal.antt =====
-- Python's `Decimal.quantize` under the default context, on amounts that are whole numbers of a
-- finer unit: division with ROUND_HALF_EVEN.
use Prim.Native.Nat.{ℕ, suc, ◌+◌, ◌*◌, ◌/◌, ◌%◌, ◌≤◌, ◌<◌}
use mathlib.Core.Path.{◌≡◌}
use mathlib.Core.Logic.{◌⊎◌, inl, inr}
use native.Mathlib.Omega.{arith}
use native.Mathlib.Decide.{dec_lt}
use native.Mathlib.Nat.{mul-le-mul_right}
use vargate_telemetry.Base.Tests.{ltb, ◌==◌, if◌then◌else◌}

-- The choice between a quotient and its successor, by the remainder.
round_half_even : ℕ → ℕ → ℕ → ℕ
round_half_even q r d =
    if ltb (2 * r) d then q else if ltb d (2 * r) then q + 1 else if q % 2 == 0 then q else q + 1

unfoldable pub div_half_even : ℕ → ℕ → ℕ
unfolding round_half_even
div_half_even n d = round_half_even (n / d) (n % d) d

-- The cent is the finest unit of a stored amount; a cost is a whole number of micro-dollars.
abbrev pub micros_per_cent : ℕ
micros_per_cent = 10000

round_half_even-cases :
    (q r d : ℕ)
    → ((round_half_even q r d ≡ q) × (2 * r ≤ d)) ⊎ ((round_half_even q r d ≡ q + 1) × (d ≤ 2 * r))
unfolding round_half_even
round_half_even-cases q r d = ground arith

round_half_even_bounds :
    (q r d n : ℕ)
    → n ≡ q * d + r
    → r < d
    → (2 * n ≤ 2 * (round_half_even q r d * d) + d) × (2 * (round_half_even q r d * d) ≤ 2 * n + d)
round_half_even_bounds q r d n e h = elim (round_half_even-cases q r d) [
  | inl (p, k) ↦ rw (p, e) (omega arith, omega arith)
  | inr (p, k) ↦ rw (p, e) (omega arith, omega arith)
]

-- The rounded amount is within half a unit of the exact one.
pub div_half_even_bounds :
    (n d : ℕ)
    → 0 < d
    → (2 * n ≤ 2 * (div_half_even n d * d) + d) × (2 * (div_half_even n d * d) ≤ 2 * n + d)
unfolding div_half_even
div_half_even_bounds n d h = round_half_even_bounds (n / d) (n % d) d n (omega arith) (omega arith)

-- If a smaller amount rounded to more, both would lie on one midpoint, and so be equal.
round_midpoint :
    (a b m n d : ℕ)
    → b < a
    → m ≤ n
    → 2 * (a * d) ≤ 2 * m + d
    → 2 * n ≤ 2 * (b * d) + d
    → 0 < d
    → m ≡ n
round_midpoint a b m n d lt le up low h =
    let step : suc b * d ≤ a * d = mul-le-mul_right d lt in omega arith

-- A larger amount does not round to less.
pub div_half_even_mono : (m n d : ℕ) → 0 < d → m ≤ n → div_half_even m d ≤ div_half_even n d
div_half_even_mono m n d h le = elim (dec_lt (div_half_even n d) (div_half_even m d)) [
  | no p ↦ omega arith
  | yes p ↦
      let up = (div_half_even_bounds m d h).1 in
      let low = (div_half_even_bounds n d h).0 in
      let e : m ≡ n = round_midpoint (div_half_even m d) (div_half_even n d) m n d p le up low h in
      rw e (omega arith)
]
