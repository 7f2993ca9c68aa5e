-- ===== src/Pricing/OpenAi.antt =====
-- The rate card and the cost of pricing/openai_rates.py.
use vargate_telemetry.Base.{ℕ, Option, none, some, [], ◌∷◌, String}
use vargate_telemetry.Pricing.Rates.{
  ModelRates, model_rates, Card, History, DateTime, active_rates, find_model, row_cost, priced,
}

-- `_RATES_2026`.
unfoldable pub rates_2026 : Card ModelRates
rates_2026 =
    ("gpt-4o-mini", model_rates 1500 6000 750 0)
    ∷ ("gpt-4o", model_rates 25000 100000 12500 0)
    ∷ ("gpt-4.1-mini", model_rates 4000 16000 1000 0)
    ∷ ("gpt-4.1", model_rates 20000 80000 5000 0)
    ∷ ("gpt-4-turbo", model_rates 50000 150000 50000 0)
    ∷ ("gpt-3.5-turbo", model_rates 5000 15000 5000 0)
    ∷ ("o1", model_rates 150000 600000 75000 0)
    ∷ ("o3", model_rates 20000 80000 5000 0)
    ∷ ("o4-mini", model_rates 5500 22000 2750 0)
    ∷ ("text-embedding-3-small", model_rates 200 0 200 0)
    ∷ ("text-embedding-3-large", model_rates 1300 0 1300 0)
    ∷ []

-- One open entry, from 2024-01-01.
unfoldable pub rate_history : History ModelRates
unfolding rates_2026
rate_history = record {
  oldest = record { effective_from = 1704067200000000; effective_to = none; rates = rates_2026 };
  newer = [];
}

unfoldable pub rates_at : DateTime → Card ModelRates
unfolding rate_history active_rates
rates_at = active_rates rate_history

-- `_lookup_model`.
unfoldable pub lookup_model : String → Card ModelRates → Option ModelRates
unfolding find_model
lookup_model = find_model

unfoldable pub compute_cost_usd : Option String → ℕ → ℕ → ℕ → ℕ → DateTime → Option ℕ
unfolding lookup_model rates_at row_cost
compute_cost_usd none i o cr cc at = none
compute_cost_usd (some model) i o cr cc at = priced (lookup_model model (rates_at at)) i o cr cc
