-- ===== src/Budgets/Forecasts.antt =====
-- `evaluate_forecasts_for_tenant` of vargate_telemetry/tasks/evaluate_forecasts.py. Amounts are cents,
-- thresholds are per cent, and dates are ordinals. The forecast of `project_period_end` is an argument.
-- The send after an insert changes no table; of what is sent the breach date is here.
use vargate_telemetry.Base.{
  ℕ, zero, suc, ◌+◌, ◌-◌, ◌*◌, ◌/◌, Bool, true, false, not, Option, some, none, List, [], ◌∷◌, ◌++◌,
  ◌==◌, str_eq, ◌&&◌, ◌||◌, ltb, if◌then◌else◌,
}
use vargate_telemetry.Budgets.Period.{max_ordinal}
use vargate_telemetry.Budgets.Spend.{ScopeKind, tenant}
use vargate_telemetry.Budgets.Evaluate.{
  AlertKey, AlertEvent, forecast_threshold, recorded, Budget, Tick, alert_thresholds,
}

-- A finite float as `Decimal(str(…))` reads it: plus or minus `digits` over ten to the `scale`.
pub record Slope : Type 0 where
  pub is_negative : Bool
  pub digits : ℕ
  pub scale : ℕ

-- The fields of `ForecastResult` that the task reads.
pub record ForecastResult : Type 0 where
  pub current_spend : ℕ
  pub projected_end : ℕ
  pub slope_per_day : Slope
  pub days_of_data : ℕ
  pub period_start : ℕ
  pub period_end : ℕ

abbrev is_positive : Slope → Bool
is_positive s = not s.is_negative && not (s.digits == 0)

-- The guard before the session: enough history and a rising trend.
abbrev pub is_usable : ForecastResult → Bool
is_usable res = not (ltb res.days_of_data 7 || not (is_positive res.slope_per_day))

-- The WHERE of the SELECT.
abbrev is_tenant : ScopeKind → Bool
is_tenant tenant = true
is_tenant _ = false

abbrev pub is_forecast : Budget → Bool
is_forecast b = not b.is_deleted && (is_tenant b.scope_kind && str_eq b.period "monthly")

-- `res.projected_end < target`, multiplied out.
abbrev pub is_unreached : ForecastResult → Budget → ℕ → Bool
is_unreached res b t = ltb (100 * res.projected_end) (t * b.threshold_usd)

abbrev ten_to : ℕ → ℕ
ten_to zero = 1
ten_to (suc n) = 10 * ten_to n

-- The whole days of `(target - res.current_spend) / slope`, which is zero where the target is passed.
unfoldable pub days_ahead : ForecastResult → Budget → ℕ → ℕ
days_ahead res b t =
    ((t * b.threshold_usd - 100 * res.current_spend) * ten_to res.slope_per_day.scale)
    / (10000 * res.slope_per_day.digits)

-- `breach_date`; a date after the last one raises OverflowError.
unfoldable pub breach_date : ForecastResult → ℕ → Budget → ℕ → Option ℕ
unfolding days_ahead
breach_date res today b t =
    let date : ℕ = today + days_ahead res b t in
    if ltb max_ordinal date
    then none
    else if ltb res.period_end date
    then some res.period_end
    else some date

abbrev pub forecast_key : ForecastResult → Budget → ℕ → AlertKey
forecast_key res b t = record {
  budget_id = b.id;
  period_start = res.period_start;
  threshold_crossed = t;
  kind = forecast_threshold;
}

-- The INSERT with its ON CONFLICT, and the append to `thresholds_fired` when it wrote a row.
unfoldable pub insert_forecast : ForecastResult → Budget → ℕ → Tick → Tick
unfolding recorded
insert_forecast res b t tick =
    if recorded (forecast_key res b t) tick.events then tick else record {
      events =
          record { key = forecast_key res b t; current_spend_usd = res.current_spend }
          ∷ tick.events;
      budgets_checked = tick.budgets_checked;
      thresholds_fired = tick.thresholds_fired ++ (b.id, t) ∷ [];
    }

-- Where an exception ends the loop, what it has inserted stays.
abbrev pub on_date : Option ℕ → Tick → Tick → Tick
on_date none inserted tick = tick
on_date (some date) inserted tick = inserted

-- The loop over the thresholds.
unfoldable pub forecast_thresholds : ForecastResult → ℕ → Budget → List ℕ → Tick → Tick
unfolding insert_forecast
forecast_thresholds res today b [] tick = tick
forecast_thresholds res today b (t ∷ ts) tick =
    let skipped = forecast_thresholds res today b ts tick in
    let inserted = forecast_thresholds res today b ts (insert_forecast res b t tick) in
    if is_unreached res b t then skipped else on_date (breach_date res today b t) inserted tick

abbrev pub checked : Tick → Tick
checked tick = record tick { budgets_checked = tick.budgets_checked + 1 }

-- The loop over the rows of the SELECT.
unfoldable pub forecast_budgets : ForecastResult → ℕ → List Budget → Tick → Tick
unfolding forecast_thresholds
forecast_budgets res today [] tick = tick
forecast_budgets res today (b ∷ bs) tick = forecast_budgets res today bs (
    if is_forecast b then forecast_thresholds res today b alert_thresholds (checked tick) else tick)

unfoldable pub evaluate_forecasts_for_tenant :
    ForecastResult → ℕ → List Budget → List AlertEvent → Tick
unfolding forecast_budgets
evaluate_forecasts_for_tenant res today budgets events =
    let idle : Tick = record { events = events; budgets_checked = 0; thresholds_fired = [] } in
    if is_usable res then forecast_budgets res today budgets idle else idle
