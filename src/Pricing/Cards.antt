-- ===== src/Pricing/Cards.antt =====
-- What holds of every rate on the three vendors' cards, and so of every price that
-- `compute_cost_usd` returns.
use native.Mathlib.Nat.{zero-mul}
use vargate_telemetry.Base.{
  ℕ, ◌+◌, ◌≤◌, ◌≡◌, refl, Option, none, some, [], ◌∷◌, String, arith, All, Bool-cases, inl, inr,
  ltb, subst, if◌then◌else◌,
}
use vargate_telemetry.Pricing.Rates.{
  ModelRates, Card, DateTime, aware, naive, utc, row_cost, priced, find_model,
}
use vargate_telemetry.Pricing.Lookup.{Has, find_model-cases}
use vargate_telemetry.Pricing.Cost.{AtMost, row_cost-cached, row_cost-written}
use vargate_telemetry.Pricing.Anthropic
use vargate_telemetry.Pricing.OpenAi
use vargate_telemetry.Pricing.Vertex
use vargate_telemetry.Pricing.Vertex.{RateValue, resolve_rates}

module _ {V : Type 0} where
  -- What holds of every value of a card holds of what the lookup finds.
  All-Has :
      (P : V → Type 0) (key : String) (val : V) (rates : Card V)
      → All (λ (e : String × V). P e.1) rates
      → Has key val rates
      → P val
  All-Has P key val [] h has = absurd has
  All-Has P key val ((k, v) ∷ rates) h (inl (_, e)) = subst P e h.0
  All-Has P key val ((k, v) ∷ rates) h (inr has) = All-Has P key val rates h.1 has

  pub find_model-All :
      (P : V → Type 0) (model : String) (rates : Card V) (v : V)
      → All (λ (e : String × V). P e.1) rates
      → find_model model rates ≡ some v
      → P v
  find_model-All P model rates v h e = elim (find_model-cases model rates) [
    | inr (nothing, _) ↦ cc
    | inl (key, val, found, has, _, _) ↦
        let same : val ≡ v = cc in subst P same (All-Has P key val rates h has)
  ]

-- A card without a charge for writing the cache, where reading it is no dearer than input.
pub record CachesFree (r : ModelRates) : Type 0 where
  pub discounted : r.cache_read_per_mtok ≤ r.input_per_mtok
  pub free_writes : r.cache_creation_per_mtok ≡ 0

abbrev pub Discounts : ModelRates → Type 0
Discounts r =
    (r.cache_read_per_mtok ≤ r.input_per_mtok) × (r.input_per_mtok ≤ r.cache_creation_per_mtok)

open_ai_card : All (λ (e : String × ModelRates). CachesFree e.1) OpenAi.rates_2026
unfolding OpenAi.rates_2026
open_ai_card = omega arith

-- Before the launch of Opus 4.7 the older card holds, also before its own start; from then on the
-- newer one.
pub anthropic-rates_at :
    (at : DateTime)
    → Anthropic.rates_at at ≡ (
        if ltb (utc at) Anthropic.opus_4_7_launch
        then Anthropic.rates_2025_prelaunch
        else Anthropic.rates_2026_05)
unfolding Anthropic.rates_at
anthropic-rates_at (aware at) = ground arith
anthropic-rates_at (naive at) = ground arith

anthropic_card :
    (at : DateTime) → All (λ (e : String × ModelRates). Discounts e.1) (Anthropic.rates_at at)
unfolding Anthropic.rates_2025_prelaunch Anthropic.rates_2026_05
anthropic_card at = elim (Bool-cases (ltb (utc at) Anthropic.opus_4_7_launch)) [
  | inl early ↦ rw (anthropic-rates_at at, early) (omega arith)
  | inr late ↦ rw (anthropic-rates_at at, late) (omega arith)
]

open_ai_rates_at :
    (at : DateTime) → All (λ (e : String × ModelRates). CachesFree e.1) (OpenAi.rates_at at)
unfolding OpenAi.rates_at
open_ai_rates_at (aware at) = ground (arith, open_ai_card)
open_ai_rates_at (naive at) = ground (arith, open_ai_card)

-- A price comes from rates on the card.
pub priced-eq-some :
    (o : Option ModelRates) (i t c w a : ℕ)
    → priced o i t c w ≡ some a
    → (r : ModelRates) × (o ≡ some r) × (a ≡ row_cost r i t c w)
priced-eq-some none i t c w a e = cc
priced-eq-some (some r) i t c w a e = (r, refl, ground arith)

-- Without a charge for writes their count does not matter.
row_cost-free_writes :
    (r : ModelRates) (i o c w w' : ℕ)
    → r.cache_creation_per_mtok ≡ 0
    → row_cost r i o c w ≡ row_cost r i o c w'
unfolding row_cost
row_cost-free_writes r i o c w w' free = rw free (rw (zero-mul, zero-mul))

-- OpenAI: where `n` of the input tokens are served from the cache the row is priced too and costs
-- no more, whatever count of cache writes is passed.
pub open_ai_cached :
    (model : String) (i o c w w' n a : ℕ) (at : DateTime)
    → OpenAi.compute_cost_usd (some model) (i + n) o c w at ≡ some a
    → (b : ℕ) × (OpenAi.compute_cost_usd (some model) i o (c + n) w' at ≡ some b) × (b ≤ a)
unfolding OpenAi.compute_cost_usd
open_ai_cached model i o c w w' n a at e =
    let rates = OpenAi.lookup_model model (OpenAi.rates_at at) in
    let (r, found, cost) = priced-eq-some rates (i + n) o c w a e in
    let free = find_model-All CachesFree model (OpenAi.rates_at at) r (open_ai_rates_at at) found in
    (
      row_cost r i o (c + n) w',
      rw found,
      rw (cost, row_cost-free_writes r i o (c + n) w' w free.free_writes)
          (row_cost-cached r i o c w n free.discounted),
    )

-- Anthropic: `n` tokens cost no more as cache reads than as input, and no more as input than as
-- cache writes; if one of the three rows is priced, all are.
pub anthropic_cache_order :
    (model : String) (i o c w n a : ℕ) (at : DateTime)
    → Anthropic.compute_cost_usd (some model) (i + n) o c w at ≡ some a
    → (read : ℕ) × (write : ℕ) × (Anthropic.compute_cost_usd (some model) i o (c + n) w at
        ≡ some read)
      × (Anthropic.compute_cost_usd (some model) i o c (w + n) at ≡ some write)
      × (read ≤ a)
      × (a ≤ write)
unfolding Anthropic.compute_cost_usd
anthropic_cache_order model i o c w n a at e =
    let rates = Anthropic.lookup_model model (Anthropic.rates_at at) in
    let (r, found, cost) = priced-eq-some rates (i + n) o c w a e in
    let order =
      find_model-All Discounts model (Anthropic.rates_at at) r (anthropic_card at) found in
    (
      row_cost r i o (c + n) w,
      row_cost r i o c (w + n),
      rw found,
      rw found,
      rw cost (row_cost-cached r i o c w n order.0),
      rw cost (row_cost-written r i o c w n order.1),
    )

-- The longer context never has lower rates.
abbrev pub Steps : RateValue → Type 0
Steps (RateValue.flat r) = Unit
Steps (RateValue.tiered r) = AtMost r.low r.high

pub vertex_rates_at :
    (at : DateTime) → All (λ (e : String × RateValue). Steps e.1) (Vertex.rates_at at)
unfolding Vertex.rates_at Vertex.rates_2026
vertex_rates_at (aware at) = ground arith
vertex_rates_at (naive at) = ground arith

AtMost-refl : (r : ModelRates) → AtMost r r
AtMost-refl r = omega arith

pub resolve_rates_mono :
    (v : RateValue) (i j : ℕ) → Steps v → i ≤ j → AtMost (resolve_rates v i) (resolve_rates v j)
unfolding resolve_rates
resolve_rates_mono (RateValue.flat r) i j h le = AtMost-refl r
resolve_rates_mono (RateValue.tiered r) i j h le =
    ground (arith, AtMost-refl r.low, AtMost-refl r.high)
