-- ===== src/Pricing/Cost.antt =====
-- What `compute_cost_usd` of the three rate modules computes: rounding, monotony, the cached-input
-- discount and the vendors' missing charges.
use native.Mathlib.Nat.{mul-le-mul, mul-le-mul_right}
use vargate_telemetry.Base.{ℕ, ◌+◌, ◌≤◌, arith}
use vargate_telemetry.Base.Decimal.{div_half_even_mono}
use vargate_telemetry.Pricing.Rates.{ModelRates, raw_cost, row_cost}

-- Per million tokens no rate of the first is above the second's.
pub record AtMost (r s : ModelRates) : Type 0 where
  pub input : r.input_per_mtok ≤ s.input_per_mtok
  pub output : r.output_per_mtok ≤ s.output_per_mtok
  pub cache_read : r.cache_read_per_mtok ≤ s.cache_read_per_mtok
  pub cache_creation : r.cache_creation_per_mtok ≤ s.cache_creation_per_mtok

raw_cost_mono :
    (r s : ModelRates) (i o cr cc i' o' cr' cc' : ℕ)
    → AtMost r s
    → i ≤ i'
    → o ≤ o'
    → cr ≤ cr'
    → cc ≤ cc'
    → raw_cost r i o cr cc ≤ raw_cost s i' o' cr' cc'
unfolding raw_cost
raw_cost_mono r s i o cr cc i' o' cr' cc' h hi ho hr hc =
    let a = mul-le-mul h.input hi in
    let b = mul-le-mul h.output ho in
    let c = mul-le-mul h.cache_read hr in let d = mul-le-mul h.cache_creation hc in omega arith

-- More tokens, or dearer rates, never cost less.
pub row_cost_mono :
    (r s : ModelRates) (i o cr cc i' o' cr' cc' : ℕ)
    → AtMost r s
    → i ≤ i'
    → o ≤ o'
    → cr ≤ cr'
    → cc ≤ cc'
    → row_cost r i o cr cc ≤ row_cost s i' o' cr' cc'
unfolding row_cost
row_cost_mono r s i o cr cc i' o' cr' cc' h hi ho hr hc =
    div_half_even_mono (raw_cost r i o cr cc) (raw_cost s i' o' cr' cc') 10000 (omega arith)
      (raw_cost_mono r s i o cr cc i' o' cr' cc' h hi ho hr hc)

-- Where cached input is no dearer than input, counting `n` input tokens as cached costs no more.
pub row_cost-cached :
    (r : ModelRates) (i o cr cc n : ℕ)
    → r.cache_read_per_mtok ≤ r.input_per_mtok
    → row_cost r i o (cr + n) cc ≤ row_cost r (i + n) o cr cc
unfolding row_cost raw_cost
row_cost-cached r i o cr cc n h =
    let p = mul-le-mul_right n h in
    div_half_even_mono (raw_cost r i o (cr + n) cc) (raw_cost r (i + n) o cr cc) 10000 (omega arith)
      (omega arith)

-- Where writing the cache is no cheaper than input, `n` input tokens cost no more than as writes.
pub row_cost-written :
    (r : ModelRates) (i o cr cc n : ℕ)
    → r.input_per_mtok ≤ r.cache_creation_per_mtok
    → row_cost r (i + n) o cr cc ≤ row_cost r i o cr (cc + n)
unfolding row_cost raw_cost
row_cost-written r i o cr cc n h =
    let p = mul-le-mul_right n h in
    div_half_even_mono (raw_cost r (i + n) o cr cc) (raw_cost r i o cr (cc + n)) 10000 (omega arith)
      (omega arith)
