-- ===== src/Budgets/Fires.antt =====
-- What one evaluation of tasks/evaluate_budgets.py fires and records, and that no key of
-- `budget_alert_events` ever has two rows.
use vargate_telemetry.Base.{
  ℕ, Bool, ◌*◌, leb, not, ◌&&◌, ◌∙◌, ◌≡◌, ◌≢◌, refl, List, [], ◌∷◌, ◌==◌, ◌||◌, any, select, arith,
  Bool-cases, if-elim, inl, inr, subst,
}
use vargate_telemetry.Base.Result.{Result, ok, err}
use vargate_telemetry.Budgets.Spend.{UsageRow, compute_spend_in_window}
use vargate_telemetry.Budgets.Period.{PeriodWindow, Now, current_period_window}
use vargate_telemetry.Budgets.Evaluate.{
  alert_thresholds, AlertKey, AlertEvent, recorded, key_eq, alert_key, is_below, Firing, Budget,
  fire_thresholds, evaluate_one_budget, Tick, settle, check_budget, check_budgets,
  evaluate_budgets_for_tenant, unix,
}
use vargate_telemetry.Budgets.AlertLaws.{
  IsUnique, recorded-fire_thresholds, fire_thresholds-IsUnique,
}
use vargate_telemetry.Budgets.TickLaws.{Distinct, fire_thresholds-newly}
use vargate_telemetry.Budgets.Evaluations.{after, quiet, evaluate-ok}

thresholds-Distinct : Distinct alert_thresholds
unfolding Distinct
thresholds-Distinct = ground arith

-- The spend is at least `t` per cent of the budget.
abbrev pub is_reached : Budget → ℕ → ℕ → Bool
is_reached b spend t = leb (t * b.threshold_usd) (100 * spend)

not-is_below : (b : Budget) (spend t : ℕ) → not (is_below b spend t) ≡ is_reached b spend t
not-is_below b spend t = ground arith

-- What an evaluation has done, by the window and the spend it computed.
pub record Fired (b : Budget) (events : List AlertEvent) (f : Firing) (w : PeriodWindow) (spend : ℕ)
    : Type 0 where
  -- the thresholds that fire, in order: reached and without a row
  pub newly :
      f.newly_fired
      ≡ select
          (λ (t : ℕ). is_reached b spend t && not (recorded (alert_key b w t) events))
          alert_thresholds
  -- the keys that have a row: the old ones and those of the thresholds reached
  pub rows :
      (k : AlertKey)
      → recorded k f.events ≡ (
          recorded k events
          || any (λ (t : ℕ). is_reached b spend t && key_eq k (alert_key b w t)) alert_thresholds)

after-Fired :
    (b : Budget) (events : List AlertEvent) (w : PeriodWindow) (spend : ℕ)
    → b.threshold_usd ≢ 0
    → Fired b events (after b w spend events) w spend
after-Fired b events w spend n = elim (Bool-cases (b.threshold_usd == 0)) [
  | inl z ↦ absurd (ground arith)
  | inr nz ↦ rw nz (record {
    newly =
        fire_thresholds-newly b w spend alert_thresholds (quiet events) thresholds-Distinct ∙ (λ i.
          select (λ (t : ℕ). not-is_below b spend t i && not (recorded (alert_key b w t) events))
            alert_thresholds);
    rows = λ k. recorded-fire_thresholds k b w spend alert_thresholds (quiet events) ∙ (λ i.
        recorded k events
        || any (λ (t : ℕ). not-is_below b spend t i && key_eq k (alert_key b w t))
            alert_thresholds);
  })
]

-- An evaluation that returns, of a budget whose threshold is not zero, has computed a window and the
-- spend in it; it fires, in order, the alert thresholds that the spend reaches and that have no row
-- for the budget and the window yet; and after it the rows are the old ones and one for every
-- threshold reached.
pub evaluate-Fired :
    (rows : List UsageRow) (now : Now) (b : Budget) (events : List AlertEvent) (f : Firing)
    → b.threshold_usd ≢ 0
    → evaluate_one_budget rows now b events ≡ ok f
    → (w : PeriodWindow) × (spend : ℕ) × (current_period_window b.period now ≡ ok w)
      × (compute_spend_in_window rows b.scope_kind b.scope_value (unix w.start) (unix w.end)
          ≡ ok spend)
      × Fired b events f w spend
evaluate-Fired rows now b events f n h =
    let (w, spend, p, e) = evaluate-ok rows now b events f h in
    (
      w,
      spend,
      p.window_is,
      p.spend_is,
      subst (λ g. Fired b events g w spend) e (after-Fired b events w spend n),
    )

after-IsUnique :
    (b : Budget) (events : List AlertEvent) (w : PeriodWindow) (spend : ℕ)
    → IsUnique events
    → IsUnique (after b w spend events).events
after-IsUnique b events w spend u =
    if-elim (λ (f : Firing). IsUnique f.events) (b.threshold_usd == 0) (quiet events)
      (fire_thresholds b w spend alert_thresholds (quiet events)) (λ z. u)
      (λ nz. fire_thresholds-IsUnique b w spend alert_thresholds (quiet events) u)

module _ (rows : List UsageRow) (now : Now) where
  check_budget-IsUnique :
      (b : Budget) (tick : Tick)
      → IsUnique tick.events
      → IsUnique (check_budget rows now b tick).events
  unfolding check_budget
  check_budget-IsUnique b tick u = unique-of (evaluate_one_budget rows now b tick.events) refl
    where
      unique-of :
          (r : Result Firing)
          → evaluate_one_budget rows now b tick.events ≡ r
          → IsUnique (settle b tick r).events
      unique-of (err e) h = u
      unique-of (ok f) h =
          let (w, spend, p, e) = evaluate-ok rows now b tick.events f h in
          subst (λ (g : Firing). IsUnique g.events) e (after-IsUnique b tick.events w spend u)

  check_budgets-IsUnique :
      (bs : List Budget) (tick : Tick)
      → IsUnique tick.events
      → IsUnique (check_budgets rows now bs tick).events
  unfolding check_budgets
  check_budgets-IsUnique [] tick u = u
  check_budgets-IsUnique (b ∷ bs) tick u = check_budgets-IsUnique bs _ (
      if-elim (λ (z : Tick). IsUnique z.events) b.is_deleted tick (check_budget rows now b tick)
        (λ gone. u) (λ alive. check_budget-IsUnique b tick u))

  -- A tick keeps the keys of `budget_alert_events` unique.
  pub tick-IsUnique :
      (bs : List Budget) (events : List AlertEvent)
      → IsUnique events
      → IsUnique (evaluate_budgets_for_tenant rows now bs events).events
  unfolding evaluate_budgets_for_tenant
  tick-IsUnique bs events u = check_budgets-IsUnique bs _ u
