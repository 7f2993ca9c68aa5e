-- ===== src/Pricing/Anthropic.antt =====
-- The rate cards and the cost of pricing/anthropic_rates.py.
use vargate_telemetry.Base.{ℕ, Option, none, some, [], ◌∷◌, String}
use vargate_telemetry.Pricing.Rates.{
  ModelRates, model_rates, Card, History, DateTime, active_rates, find_model, row_cost, priced,
}

-- `_RATES_2026_05`.
unfoldable pub rates_2026_05 : Card ModelRates
rates_2026_05 =
    ("claude-sonnet-4-5-20250929", model_rates 30000 150000 3000 37500)
    ∷ ("claude-sonnet-4-6", model_rates 30000 150000 3000 37500)
    ∷ ("claude-opus-4-7", model_rates 150000 750000 15000 187500)
    ∷ ("claude-opus-4-5", model_rates 150000 750000 15000 187500)
    ∷ ("claude-opus-4-1", model_rates 150000 750000 15000 187500)
    ∷ ("claude-haiku-4-5", model_rates 10000 50000 1000 12500)
    ∷ ("claude-haiku-3-5", model_rates 8000 40000 800 10000)
    ∷ []

-- `_RATES_2025_PRELAUNCH`: the same card without `claude-opus-4-7`.
unfoldable pub rates_2025_prelaunch : Card ModelRates
rates_2025_prelaunch =
    ("claude-sonnet-4-5-20250929", model_rates 30000 150000 3000 37500)
    ∷ ("claude-sonnet-4-6", model_rates 30000 150000 3000 37500)
    ∷ ("claude-opus-4-5", model_rates 150000 750000 15000 187500)
    ∷ ("claude-opus-4-1", model_rates 150000 750000 15000 187500)
    ∷ ("claude-haiku-4-5", model_rates 10000 50000 1000 12500)
    ∷ ("claude-haiku-3-5", model_rates 8000 40000 800 10000)
    ∷ []

-- 2025-01-01 and 2026-03-01, midnight UTC.
abbrev pub history_start : ℕ
history_start = 1735689600000000

abbrev pub opus_4_7_launch : ℕ
opus_4_7_launch = 1772323200000000

unfoldable pub rate_history : History ModelRates
unfolding rates_2025_prelaunch rates_2026_05
rate_history = record {
  oldest = record {
    effective_from = history_start;
    effective_to = some opus_4_7_launch;
    rates = rates_2025_prelaunch;
  };
  newer =
      record { effective_from = opus_4_7_launch; effective_to = none; rates = rates_2026_05 } ∷ [];
}

unfoldable pub rates_at : DateTime → Card ModelRates
unfolding rate_history active_rates
rates_at = active_rates rate_history

-- `_lookup_model`.
unfoldable pub lookup_model : String → Card ModelRates → Option ModelRates
unfolding find_model
lookup_model = find_model

unfoldable pub compute_cost_usd : Option String → ℕ → ℕ → ℕ → ℕ → DateTime → Option ℕ
unfolding lookup_model rates_at row_cost
compute_cost_usd none i o cr cc at = none
compute_cost_usd (some model) i o cr cc at = priced (lookup_model model (rates_at at)) i o cr cc
