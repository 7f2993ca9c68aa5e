-- ===== src/Pricing/Tiers.antt =====
-- The context-length tiers of pricing/vertex_rates.py: crossing the boundary never lowers a price.
use vargate_telemetry.Base.{ℕ, ◌≤◌, ◌≡◌, refl, Option, none, some, String, arith}
use vargate_telemetry.Pricing.Rates.{DateTime, row_cost, priced}
use vargate_telemetry.Pricing.Cost.{row_cost_mono}
use vargate_telemetry.Pricing.Cards.{find_model-All, Steps, vertex_rates_at, resolve_rates_mono}
use vargate_telemetry.Pricing.Vertex
use vargate_telemetry.Pricing.Vertex.{RateValue, resolve_rates, resolved}

-- A resolved price comes from a value on the card.
priced-resolved :
    (v : Option RateValue) (i t c w a : ℕ)
    → priced (resolved v i) i t c w ≡ some a
    → (r : RateValue) × (v ≡ some r) × (a ≡ row_cost (resolve_rates r i) i t c w)
priced-resolved none i t c w a e = cc
priced-resolved (some r) i t c w a e = (r, refl, ground arith)

-- Vertex: with no fewer tokens of every kind a priced row is still priced, and costs no less, also
-- where the input crosses the boundary of a tier.
pub vertex_cost_mono :
    (model : String) (i o c w i' o' c' w' a : ℕ) (at : DateTime)
    → i ≤ i'
    → o ≤ o'
    → c ≤ c'
    → w ≤ w'
    → Vertex.compute_cost_usd (some model) i o c w at ≡ some a
    → (b : ℕ) × (Vertex.compute_cost_usd (some model) i' o' c' w' at ≡ some b) × (a ≤ b)
unfolding Vertex.compute_cost_usd
vertex_cost_mono model i o c w i' o' c' w' a at hi ho hc hw e =
    let value = Vertex.lookup_model model (Vertex.rates_at at) in
    let (r, found, cost) = priced-resolved value i o c w a e in
    let steps = find_model-All Steps model (Vertex.rates_at at) r (vertex_rates_at at) found in
    let dearer = resolve_rates_mono r i i' steps hi in
    (
      row_cost (resolve_rates r i') i' o' c' w',
      rw found,
      rw cost (
          row_cost_mono (resolve_rates r i) (resolve_rates r i') i o c w i' o' c' w' dearer hi ho hc
            hw),
    )
