-- ===== src/Pricing/Examples.antt =====
-- Prices of single rows.
use vargate_telemetry.Base.{
  ℕ, ◌+◌, ◌≤◌, ◌≡◌, ◌⊎◌, refl, none, some, String, arith, true, chars, starts_with,
}
use vargate_telemetry.Base.Decimal.{div_half_even}
use vargate_telemetry.Pricing.Rates.{DateTime, aware, ModelRates, find_model}
use vargate_telemetry.Pricing.Lookup.{Has, Longest, find_model-cases}
use vargate_telemetry.Pricing.Tiers.{vertex_cost_mono}
use vargate_telemetry.Pricing.Anthropic
use vargate_telemetry.Pricing.OpenAi
use vargate_telemetry.Pricing.Vertex

-- 2026-05-01.
abbrev may_first : DateTime
may_first = aware 1777593600000000

find_model-cases_example :
    ((key : String) × (val : ModelRates) × (find_model "gpt-4o-2024-11-20" OpenAi.rates_2026
        ≡ some val)
      × Has key val OpenAi.rates_2026
      × (starts_with "gpt-4o-2024-11-20" key ≡ true)
      × Longest "gpt-4o-2024-11-20" (chars key) OpenAi.rates_2026)
    ⊎ ((find_model "gpt-4o-2024-11-20" OpenAi.rates_2026 ≡ none)
        × Longest "gpt-4o-2024-11-20" 0 OpenAi.rates_2026)
find_model-cases_example = find_model-cases "gpt-4o-2024-11-20" OpenAi.rates_2026

opus_cost :
    Anthropic.compute_cost_usd (some "claude-opus-4-7") (1000 + 200) 300 0 0 may_first ≡ some 40500
unfolding Anthropic.compute_cost_usd div_half_even Anthropic.rates_2026_05
opus_cost = refl

gpt_cost :
    OpenAi.compute_cost_usd (some "gpt-4o-2024-11-20") (1000 + 200) 300 0 0 may_first ≡ some 6000
unfolding OpenAi.compute_cost_usd div_half_even starts_with chars
gpt_cost = refl

gemini_cost :
    Vertex.compute_cost_usd (some "gemini-2.5-pro") 150000 1000 0 0 may_first ≡ some 197500
unfolding Vertex.compute_cost_usd div_half_even
gemini_cost = refl

vertex_cost_mono_example :
    (b : ℕ) × (Vertex.compute_cost_usd (some "gemini-2.5-pro") 250000 1000 0 0 may_first ≡ some b)
    × (197500 ≤ b)
vertex_cost_mono_example =
    vertex_cost_mono "gemini-2.5-pro" 150000 1000 0 0 250000 1000 0 0 197500 may_first (omega arith)
      (omega arith) (omega arith) (omega arith) gemini_cost
