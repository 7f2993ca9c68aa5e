-- ===== src/Budgets.antt =====
-- Budgets: the period windows, the spend in a window and the evaluation against the thresholds
-- (vargate_telemetry/budgets/ and tasks/evaluate_budgets.py).
pub mod Calendar
pub mod Period
pub mod Spend
pub mod SpendLaws
pub mod PeriodLaws
pub mod PeriodBounds
pub mod Windows
pub mod Evaluate
pub mod AlertLaws
pub mod TickLaws
pub mod Evaluations
pub mod Ticks
pub mod Forecasts
pub mod ForecastLaws
pub mod ForecastTicks
pub mod ForecastExamples
pub mod Fires
pub mod WindowExamples
pub mod Examples
pub mod EstimateLaws
