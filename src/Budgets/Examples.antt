-- ===== src/Budgets/Examples.antt =====
-- Spend and alerts on 2026-05-13, with one usage record of two breakdowns.
use vargate_telemetry.Base.{
  ℕ, ◌+◌, ◌≡◌, ◌≢◌, inr, refl, Option, none, some, String, arith, List, [], ◌∷◌, Bool, true, false,
  ap, true-false, eq_iff,
}
use vargate_telemetry.Base.Decimal.{div_half_even}
use vargate_telemetry.Pricing.Anthropic
use vargate_telemetry.Base.Result.{ok}
use vargate_telemetry.Pricing.VendorCost.{Metadata, estimate_record_cost_usd, Breakdown, Ephemeral}
use vargate_telemetry.Budgets.Calendar.{to_ordinal, days_before_year, days_before_month}
use vargate_telemetry.Budgets.Period.{start_date, PeriodWindow, current_period_window}
use vargate_telemetry.Budgets.Spend.{
  cost_or_zero, row_micros, in_scope, ScopeKind, workspace, tenant, UsageRow, total_micros,
  compute_spend_in_window,
}
use vargate_telemetry.Budgets.SpendLaws.{total_micros-split}
use vargate_telemetry.Budgets.EstimateLaws.{IsRegular, estimate-row_micros}
use vargate_telemetry.Pricing.Rates.{aware}
use vargate_telemetry.Budgets.Evaluate.{
  AlertEvent, current_threshold, Budget, Firing, evaluate_one_budget, evaluate_budgets_for_tenant,
  unix,
}
use vargate_telemetry.Budgets.AlertLaws.{IsUnique}
use vargate_telemetry.Budgets.Ticks.{tick-again}
use vargate_telemetry.Budgets.Fires.{Fired, evaluate-Fired, tick-IsUnique}
use vargate_telemetry.Budgets.WindowExamples.{wednesday}

-- A breakdown of 3,000 input tokens of Opus 4.7 in a workspace: 4.5 cents.
abbrev breakdown : String → Breakdown
breakdown w = record {
  model = some "claude-opus-4-7";
  workspace_id = some w;
  api_key_id = none;
  input_tokens = some 3000;
  output_tokens = none;
  cache_read_input_tokens = none;
  cache_creation_input_tokens = none;
  cache_creation = none;
}

abbrev usage : List UsageRow
usage =
    record {
      record_type = "usage";
      source_api = "admin";
      occurred_at = 1778666400000000;
      results = breakdown "w1" ∷ breakdown "w2" ∷ [];
    }
    ∷ []

total_micros-split_example :
    total_micros usage tenant none 0 3557332800000000 usage
    ≡ total_micros usage tenant none 0 1778666400000000 usage
      + total_micros usage tenant none 1778666400000000 3557332800000000 usage
total_micros-split_example =
    total_micros-split usage usage tenant none 0 1778666400000000 3557332800000000 (omega arith)
      (omega arith)

is_some_kind : ScopeKind → Bool
is_some_kind tenant = true
is_some_kind _ = false

workspace-apart : workspace ≢ tenant
unfolding is_some_kind
workspace-apart p = let q : false ≡ true = ap is_some_kind p in true-false false q refl

names-apart : ◌≢◌ {A = String} "w1" "w2"
names-apart p = ground (arith, (eq_iff "w1" "w2").1 p)

abbrev nested : Option Ephemeral → Breakdown
nested e = record (breakdown "w1") { cache_creation = e }

abbrev five_minutes : Option Ephemeral
five_minutes =
    some (record { ephemeral_5m_input_tokens = some 40; ephemeral_1h_input_tokens = none })

-- Nine cents of a budget of ten: two thresholds are reached.
abbrev budget : Budget
budget = record {
  id = "b1";
  scope_kind = tenant;
  scope_value = none;
  period = "weekly";
  threshold_usd = 10;
  is_deleted = false;
}

tick-again_example :
    ((evaluate_budgets_for_tenant usage wednesday
        (budget ∷ [])
        (evaluate_budgets_for_tenant usage wednesday (budget ∷ []) []).events).events
      ≡ (evaluate_budgets_for_tenant usage wednesday (budget ∷ []) []).events)
    × ((evaluate_budgets_for_tenant usage wednesday
          (budget ∷ [])
          (evaluate_budgets_for_tenant usage wednesday (budget ∷ []) []).events).thresholds_fired
        ≡ [])
tick-again_example = tick-again usage wednesday (budget ∷ []) []

none-IsUnique : IsUnique []
unfolding IsUnique
none-IsUnique = tt

tick-IsUnique_example :
    IsUnique (evaluate_budgets_for_tenant usage wednesday (budget ∷ []) []).events
tick-IsUnique_example = tick-IsUnique usage wednesday (budget ∷ []) [] none-IsUnique

abbrev alert : ℕ → AlertEvent
alert t = record {
  key = record {
    budget_id = "b1";
    period_start = 739747;
    threshold_crossed = t;
    kind = current_threshold;
  };
  current_spend_usd = 9;
}

abbrev fired : Firing
fired = record { events = alert 85 ∷ alert 70 ∷ []; newly_fired = 70 ∷ 85 ∷ [] }

evaluated : evaluate_one_budget usage wednesday budget [] ≡ ok fired
unfolding evaluate_one_budget current_period_window to_ordinal days_before_year days_before_month
    compute_spend_in_window start_date div_half_even Anthropic.compute_cost_usd
evaluated = refl

has_threshold : budget.threshold_usd ≢ 0
has_threshold = omega arith

evaluate-Fired_example :
    (w : PeriodWindow) × (spend : ℕ) × (current_period_window "weekly" wednesday ≡ ok w)
    × (compute_spend_in_window usage tenant none (unix w.start) (unix w.end) ≡ ok spend)
    × Fired budget [] fired w spend
evaluate-Fired_example = evaluate-Fired usage wednesday budget [] fired has_threshold evaluated

abbrev metadata : Metadata
metadata = record {
  results = some (some (breakdown "w1") ∷ some (breakdown "w2") ∷ []);
  result = none;
  model = none;
  token_type = none;
  token_count = none;
}

breakdown-IsRegular : (w : String) → IsRegular (breakdown w)
breakdown-IsRegular w = record { named = named_apart; counted = inr tt }
  where
    text_of : Option String → String
    text_of none = ""
    text_of (some s) = s

    named_apart : ◌≢◌ {A = Option String} (some "claude-opus-4-7") (some "")
    named_apart p = ground (arith, (eq_iff "claude-opus-4-7" "").1 (ap text_of p))

estimate-row_micros_example :
    cost_or_zero (estimate_record_cost_usd "admin" metadata (aware 1778666400000000))
    ≡ row_micros (in_scope tenant none) (breakdown "w1" ∷ breakdown "w2" ∷ []) 1778666400000000
estimate-row_micros_example =
    estimate-row_micros metadata (breakdown "w1" ∷ breakdown "w2" ∷ []) 1778666400000000 refl
      (breakdown-IsRegular "w1", (breakdown-IsRegular "w2", tt))
