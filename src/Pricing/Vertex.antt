-- ===== src/Pricing/Vertex.antt =====
-- The rate card, the context-length tiers and the cost of pricing/vertex_rates.py.
use vargate_telemetry.Base.{ℕ, Option, none, some, [], ◌∷◌, String, ltb, if◌then◌else◌}
use vargate_telemetry.Pricing.Rates.{
  ModelRates, model_rates, Card, History, DateTime, active_rates, find_model, row_cost, priced,
}

pub record TieredModelRates : Type 0 where
  pub input_token_threshold : ℕ
  pub low : ModelRates
  pub high : ModelRates

pub data RateValue : Type 0 where
  flat : ModelRates → RateValue
  tiered : TieredModelRates → RateValue

-- `_RATES_2026`.
unfoldable pub rates_2026 : Card RateValue
rates_2026 =
    (
      "gemini-2.5-pro",
      RateValue.tiered (record {
        input_token_threshold = 200000;
        low = model_rates 12500 100000 3125 0;
        high = model_rates 25000 150000 6250 0;
      }),
    )
    ∷ ("gemini-2.5-flash", RateValue.flat (model_rates 3000 25000 750 0))
    ∷ ("gemini-2.0-flash-lite", RateValue.flat (model_rates 750 3000 750 0))
    ∷ ("gemini-2.0-flash", RateValue.flat (model_rates 1500 6000 375 0))
    ∷ []

-- One open entry, from 2024-01-01.
unfoldable pub rate_history : History RateValue
unfolding rates_2026
rate_history = record {
  oldest = record { effective_from = 1704067200000000; effective_to = none; rates = rates_2026 };
  newer = [];
}

unfoldable pub rates_at : DateTime → Card RateValue
unfolding rate_history active_rates
rates_at = active_rates rate_history

-- `_lookup_model`.
unfoldable pub lookup_model : String → Card RateValue → Option RateValue
unfolding find_model
lookup_model = find_model

-- `_resolve_rates`.
unfoldable pub resolve_rates : RateValue → ℕ → ModelRates
resolve_rates (RateValue.flat r) input_tokens = r
resolve_rates (RateValue.tiered r) input_tokens =
    if ltb r.input_token_threshold input_tokens then r.high else r.low

abbrev pub resolved : Option RateValue → ℕ → Option ModelRates
resolved none input_tokens = none
resolved (some v) input_tokens = some (resolve_rates v input_tokens)

unfoldable pub compute_cost_usd : Option String → ℕ → ℕ → ℕ → ℕ → DateTime → Option ℕ
unfolding lookup_model rates_at row_cost resolve_rates
compute_cost_usd none i o cr cc at = none
compute_cost_usd (some model) i o cr cc at =
    priced (resolved (lookup_model model (rates_at at)) i) i o cr cc
