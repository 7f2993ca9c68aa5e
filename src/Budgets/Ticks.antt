-- ===== src/Budgets/Ticks.antt =====
-- `evaluate_budgets_for_tenant` of tasks/evaluate_budgets.py as a whole: a tick repeated fires nothing.
use mathlib.Core.List.{append-nil}
use vargate_telemetry.Base.{
  ◌≡◌, refl, false, List, [], ◌∷◌, if◌then◌else◌, if-elim, true-false, sym, ◌∙◌, All, subst,
}
use vargate_telemetry.Base.Result.{Result, err-ok, ok, err}
use vargate_telemetry.Budgets.Spend.{UsageRow}
use vargate_telemetry.Budgets.Period.{Now}
use vargate_telemetry.Budgets.Evaluate.{
  AlertEvent, Firing, Budget, evaluate_one_budget, Tick, settle, check_budget, check_budgets,
  evaluate_budgets_for_tenant,
}
use vargate_telemetry.Budgets.TickLaws.{Grows}
use vargate_telemetry.Budgets.Evaluations.{
  Done, Done-Grows, ok-rows, ok-quiet, evaluate-Priced, after,
}

module _ (rows : List UsageRow) (now : Now) where
  -- The rows after one turn of the loop over the budgets.
  check_budget-rows :
      (b : Budget) (tick : Tick)
      → Grows tick.events (check_budget rows now b tick).events
        × Done rows now b (check_budget rows now b tick).events
  unfolding check_budget
  check_budget-rows b tick = rows-of (evaluate_one_budget rows now b tick.events) refl
    where
      rows-of :
          (r : Result Firing)
          → evaluate_one_budget rows now b tick.events ≡ r
          → Grows tick.events (settle b tick r).events × Done rows now b (settle b tick r).events
      rows-of (ok f) h = ok-rows rows now b tick.events f h
      rows-of (err e) h = (
        λ k p. p,
        λ w spend p nz.
            elim (err-ok e (after b w spend tick.events)
              (sym h ∙ evaluate-Priced rows now b w spend tick.events p)) [ ],
      )

  -- A turn for a budget whose alerts are complete fires nothing.
  check_budget-Done :
      (b : Budget) (tick : Tick)
      → Done rows now b tick.events
      → ((check_budget rows now b tick).events ≡ tick.events)
        × ((check_budget rows now b tick).thresholds_fired ≡ tick.thresholds_fired)
  unfolding check_budget
  check_budget-Done b tick d = same-as (evaluate_one_budget rows now b tick.events) refl
    where
      same-as :
          (r : Result Firing)
          → evaluate_one_budget rows now b tick.events ≡ r
          → ((settle b tick r).events ≡ tick.events)
            × ((settle b tick r).thresholds_fired ≡ tick.thresholds_fired)
      same-as (err e) h = (refl, refl)
      same-as (ok f) h =
          let q = ok-quiet rows now b tick.events f h d in
          rw q (refl, append-nil tick.thresholds_fired)

  abbrev step : Budget → Tick → Tick
  step b tick = if b.is_deleted then tick else check_budget rows now b tick

  abbrev DoneOrDeleted : List AlertEvent → Budget → Type 0
  DoneOrDeleted events b = b.is_deleted ≡ false → Done rows now b events

  step-rows :
      (b : Budget) (tick : Tick)
      → Grows tick.events (step b tick).events × DoneOrDeleted (step b tick).events b
  step-rows b tick =
      if-elim (λ (z : Tick). Grows tick.events z.events × DoneOrDeleted z.events b) b.is_deleted
        tick (check_budget rows now b tick)
        (λ gone. (λ k p. p, λ alive. true-false b.is_deleted gone alive))
        (λ alive. let (g, d) = check_budget-rows b tick in (g, λ p. d))

  check_budgets-Grows :
      (bs : List Budget) (tick : Tick) → Grows tick.events (check_budgets rows now bs tick).events
  unfolding check_budgets
  check_budgets-Grows [] tick k h = h
  check_budgets-Grows (b ∷ bs) tick k h =
      check_budgets-Grows bs (step b tick) k ((step-rows b tick).0 k h)

  check_budgets-Done :
      (bs : List Budget) (tick : Tick)
      → All (DoneOrDeleted (check_budgets rows now bs tick).events) bs
  unfolding check_budgets
  check_budgets-Done [] tick = tt
  check_budgets-Done (b ∷ bs) tick = (
    λ alive.
        Done-Grows rows now b (step b tick).events (check_budgets rows now bs (step b tick)).events
          (check_budgets-Grows bs (step b tick)) ((step-rows b tick).1 alive),
    check_budgets-Done bs (step b tick),
  )

  step-quiet :
      (b : Budget) (tick : Tick)
      → DoneOrDeleted tick.events b
      → ((step b tick).events ≡ tick.events)
        × ((step b tick).thresholds_fired ≡ tick.thresholds_fired)
  step-quiet b tick d =
      if-elim
        (λ (z : Tick). (z.events ≡ tick.events) × (z.thresholds_fired ≡ tick.thresholds_fired))
        b.is_deleted tick (check_budget rows now b tick) (λ gone. (refl, refl))
        (λ alive. check_budget-Done b tick (d alive))

  check_budgets-quiet :
      (bs : List Budget) (tick : Tick)
      → All (DoneOrDeleted tick.events) bs
      → ((check_budgets rows now bs tick).events ≡ tick.events)
        × ((check_budgets rows now bs tick).thresholds_fired ≡ tick.thresholds_fired)
  unfolding check_budgets
  check_budgets-quiet [] tick d = (refl, refl)
  check_budgets-quiet (b ∷ bs) tick d =
      let (e, t) = step-quiet b tick d.0 in
      let (e', t') =
        check_budgets-quiet bs (step b tick)
          (subst (λ (z : List AlertEvent). All (DoneOrDeleted z) bs) (sym e) d.1) in
      (e' ∙ e, t' ∙ t)

  -- A tick repeated at once: no row is added and no threshold fires, whatever the budgets are.
  pub tick-again :
      (bs : List Budget) (events : List AlertEvent)
      → ((evaluate_budgets_for_tenant rows now bs
            (evaluate_budgets_for_tenant rows now bs events).events).events
          ≡ (evaluate_budgets_for_tenant rows now bs events).events)
        × ((evaluate_budgets_for_tenant rows now bs
              (evaluate_budgets_for_tenant rows now bs events).events).thresholds_fired
            ≡ [])
  unfolding evaluate_budgets_for_tenant
  tick-again bs events = check_budgets-quiet bs _ (
      check_budgets-Done bs
        (record { events = events; budgets_checked = 0; thresholds_fired = [] }))
