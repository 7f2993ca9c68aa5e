-- ===== src/Budgets/ForecastExamples.antt =====
-- A forecast on 2026-05-13 that reaches two thresholds of a budget of 1,000 dollars.
use vargate_telemetry.Base.{ℕ, ◌≡◌, ◌≢◌, refl, false, Option, none, some, [], ◌∷◌, ◌&&◌, ◌||◌, any}
use vargate_telemetry.Budgets.Spend.{tenant}
use vargate_telemetry.Budgets.Evaluate.{AlertKey, Budget, forecast_threshold, recorded}
use vargate_telemetry.Budgets.Forecasts.{
  ForecastResult, breach_date, days_ahead, evaluate_forecasts_for_tenant, is_usable,
}
use vargate_telemetry.Budgets.ForecastTicks.{AreDated, is_warned, forecasts-exact, forecasts-again}

-- 22.5 dollars a day, eighteen days before the end of the month.
abbrev forecast : ForecastResult
forecast = record {
  current_spend = 45000;
  projected_end = 85500;
  slope_per_day = record { is_negative = false; digits = 225; scale = 1 };
  days_of_data = 14;
  period_start = 739737;
  period_end = 739767;
}

abbrev monthly_budget : Budget
monthly_budget = record {
  id = "b1";
  scope_kind = tenant;
  scope_value = none;
  period = "monthly";
  threshold_usd = 100000;
  is_deleted = false;
}

days_ahead_test : days_ahead forecast monthly_budget 70 ≡ 11
unfolding days_ahead
days_ahead_test = refl

breach_date_test : breach_date forecast 739749 monthly_budget 100 ≡ some 739767
unfolding breach_date
breach_date_test = refl

forecasts_test :
    (evaluate_forecasts_for_tenant forecast 739749 (monthly_budget ∷ []) []).thresholds_fired
    ≡ ("b1", 70) ∷ ("b1", 85) ∷ []
unfolding evaluate_forecasts_for_tenant breach_date
forecasts_test = refl

abbrev warned_key : AlertKey
warned_key = record {
  budget_id = "b1";
  period_start = 739737;
  threshold_crossed = 70;
  kind = forecast_threshold;
}

not_none : (d : ℕ) (x : Option ℕ) → x ≡ some d → x ≢ none
not_none d x e n = cc

forecast-AreDated : AreDated forecast 739749 monthly_budget
unfolding breach_date
forecast-AreDated live =
    (λ u. not_none 739760 _ refl, (λ u. not_none 739766 _ refl, (λ u. not_none 739767 _ refl, tt)))

forecasts-exact_example :
    recorded warned_key
      (evaluate_forecasts_for_tenant forecast 739749 (monthly_budget ∷ []) []).events
    ≡ (recorded warned_key []
        || (is_usable forecast && any (is_warned forecast 739749 warned_key) (monthly_budget ∷ [])))
forecasts-exact_example =
    forecasts-exact forecast 739749 warned_key (monthly_budget ∷ []) [] (forecast-AreDated, tt)

forecasts-again_example :
    let later = (evaluate_forecasts_for_tenant forecast 739749 (monthly_budget ∷ []) []).events in
    ((evaluate_forecasts_for_tenant forecast 739749 (monthly_budget ∷ []) later).events ≡ later)
    × ((evaluate_forecasts_for_tenant forecast 739749 (monthly_budget ∷ []) later).thresholds_fired
        ≡ [])
forecasts-again_example = forecasts-again forecast 739749 (monthly_budget ∷ []) []
