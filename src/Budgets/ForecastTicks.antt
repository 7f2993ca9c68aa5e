-- ===== src/Budgets/ForecastTicks.antt =====
-- `evaluate_forecasts_for_tenant` of vargate_telemetry/tasks/evaluate_forecasts.py as a whole.
use vargate_telemetry.Base.{
  ℕ, ◌≡◌, refl, Bool, true, false, List, [], ◌∷◌, ◌&&◌, ◌||◌, any, if◌then◌else◌, arith, ap, sym,
  ◌∙◌, All, or-false, if-elim, true-false, subst,
}
use vargate_telemetry.Budgets.Evaluate.{
  AlertKey, AlertEvent, recorded, Budget, Tick, alert_thresholds,
}
use vargate_telemetry.Budgets.TickLaws.{Grows}
use vargate_telemetry.Budgets.Forecasts.{
  ForecastResult, is_usable, is_forecast, forecast_thresholds, checked, forecast_budgets,
  evaluate_forecasts_for_tenant,
}
use vargate_telemetry.Budgets.ForecastLaws.{
  warns, IsDated, recorded-forecast_thresholds, forecast_thresholds-Grows, IsComplete,
  IsComplete-Grows, forecast_thresholds-IsComplete, forecast_thresholds-quiet,
}

abbrev idle : List AlertEvent → Tick
idle events = record { events = events; budgets_checked = 0; thresholds_fired = [] }

module _ (res : ForecastResult) (today : ℕ) where
  abbrev step : Budget → Tick → Tick
  step b tick =
      if is_forecast b
      then forecast_thresholds res today b alert_thresholds (checked tick)
      else tick

  abbrev pub is_warned : AlertKey → Budget → Bool
  is_warned k b = is_forecast b && any (warns res today b k) alert_thresholds

  abbrev pub AreDated : Budget → Type 0
  AreDated b = is_forecast b ≡ true → All (IsDated res today b) alert_thresholds

  forecast_adds : (f w old : Bool) → f ≡ true → (old || w) ≡ (old || (f && w))
  forecast_adds f w old h = ground (arith, h)

  other_adds : (f w old : Bool) → f ≡ false → old ≡ (old || (f && w))
  other_adds f w old h = ground (arith, h)

  recorded-step :
      (k : AlertKey) (b : Budget) (tick : Tick)
      → AreDated b
      → recorded k (step b tick).events ≡ (recorded k tick.events || is_warned k b)
  recorded-step k b tick d =
      let w = any (warns res today b k) alert_thresholds in
      let old = recorded k tick.events in
      if-elim (λ (z : Tick). recorded k z.events ≡ (old || is_warned k b)) (is_forecast b)
        (forecast_thresholds res today b alert_thresholds (checked tick)) tick
        (λ h.
          recorded-forecast_thresholds res today b k alert_thresholds (checked tick) (d h)
          ∙ forecast_adds (is_forecast b) w old h)
        (λ h. other_adds (is_forecast b) w old h)

  or_assoc : (a b c : Bool) → ((a || b) || c) ≡ (a || (b || c))
  or_assoc a b c = ground arith

  recorded-forecast_budgets :
      (k : AlertKey) (bs : List Budget) (tick : Tick)
      → All AreDated bs
      → recorded k (forecast_budgets res today bs tick).events
        ≡ (recorded k tick.events || any (is_warned k) bs)
  unfolding forecast_budgets
  recorded-forecast_budgets k [] tick d = sym (or-false (recorded k tick.events))
  recorded-forecast_budgets k (b ∷ bs) tick d =
      recorded-forecast_budgets k bs (step b tick) d.1
      ∙ ap (λ z. z || any (is_warned k) bs) (recorded-step k b tick d.0)
      ∙ or_assoc (recorded k tick.events) (is_warned k b) (any (is_warned k) bs)

  unused_adds : (u w old : Bool) → u ≡ false → old ≡ (old || (u && w))
  unused_adds u w old h = ground (arith, h)

  -- Where the thresholds that are reached have a breach date, a run records exactly these further
  -- keys: where the forecast is usable, the forecast key of each threshold of a live, tenant-wide,
  -- monthly budget that the projection reaches. So no key of another kind is recorded by it.
  pub forecasts-exact :
      (k : AlertKey) (bs : List Budget) (events : List AlertEvent)
      → All AreDated bs
      → recorded k (evaluate_forecasts_for_tenant res today bs events).events
        ≡ (recorded k events || (is_usable res && any (is_warned k) bs))
  unfolding evaluate_forecasts_for_tenant
  forecasts-exact k bs events d =
      let w = any (is_warned k) bs in
      if-elim (λ (z : Tick). recorded k z.events ≡ (recorded k events || (is_usable res && w)))
        (is_usable res) (forecast_budgets res today bs (idle events)) (idle events)
        (λ h.
          recorded-forecast_budgets k bs (idle events) d
          ∙ forecast_adds (is_usable res) w (recorded k events) h)
        (λ h. other_adds (is_usable res) w (recorded k events) h)

  abbrev CompleteOrOther : List AlertEvent → Budget → Type 0
  CompleteOrOther events b = is_forecast b ≡ true → IsComplete res today b events alert_thresholds

  step-rows :
      (b : Budget) (tick : Tick)
      → Grows tick.events (step b tick).events × CompleteOrOther (step b tick).events b
  step-rows b tick =
      if-elim (λ (z : Tick). Grows tick.events z.events × CompleteOrOther z.events b)
        (is_forecast b) (forecast_thresholds res today b alert_thresholds (checked tick)) tick
        (λ h. (
          forecast_thresholds-Grows res today b alert_thresholds (checked tick),
          λ p. forecast_thresholds-IsComplete res today b alert_thresholds (checked tick),
        ))
        (λ h. (λ k p. p, λ p. true-false (is_forecast b) p h))

  forecast_budgets-Grows :
      (bs : List Budget) (tick : Tick)
      → Grows tick.events (forecast_budgets res today bs tick).events
  unfolding forecast_budgets
  forecast_budgets-Grows [] tick k h = h
  forecast_budgets-Grows (b ∷ bs) tick k h =
      forecast_budgets-Grows bs (step b tick) k ((step-rows b tick).0 k h)

  forecast_budgets-Complete :
      (bs : List Budget) (tick : Tick)
      → All (CompleteOrOther (forecast_budgets res today bs tick).events) bs
  unfolding forecast_budgets
  forecast_budgets-Complete [] tick = tt
  forecast_budgets-Complete (b ∷ bs) tick = (
    λ p.
        IsComplete-Grows res today b (step b tick).events
          (forecast_budgets res today bs (step b tick)).events alert_thresholds
          (forecast_budgets-Grows bs (step b tick)) ((step-rows b tick).1 p),
    forecast_budgets-Complete bs (step b tick),
  )

  abbrev SameRows : Tick → Tick → Type 0
  SameRows tick z = (z.events ≡ tick.events) × (z.thresholds_fired ≡ tick.thresholds_fired)

  step-quiet :
      (b : Budget) (tick : Tick) → CompleteOrOther tick.events b → SameRows tick (step b tick)
  step-quiet b tick c =
      if-elim (SameRows tick) (is_forecast b)
        (forecast_thresholds res today b alert_thresholds (checked tick)) tick
        (λ h.
          let q = forecast_thresholds-quiet res today b alert_thresholds (checked tick) (c h) in
          (ap (λ (z : Tick). z.events) q, ap (λ (z : Tick). z.thresholds_fired) q))
        (λ h. (refl, refl))

  forecast_budgets-quiet :
      (bs : List Budget) (tick : Tick)
      → All (CompleteOrOther tick.events) bs
      → SameRows tick (forecast_budgets res today bs tick)
  unfolding forecast_budgets
  forecast_budgets-quiet [] tick c = (refl, refl)
  forecast_budgets-quiet (b ∷ bs) tick c =
      let (e, t) = step-quiet b tick c.0 in
      let (e', t') =
        forecast_budgets-quiet bs (step b tick)
          (subst (λ (z : List AlertEvent). All (CompleteOrOther z) bs) (sym e) c.1) in
      (e' ∙ e, t' ∙ t)

  -- A run repeated on the same day with the same forecast adds no row and fires no threshold, also
  -- where a breach date cannot be represented and the exception has ended a budget's loop.
  pub forecasts-again :
      (bs : List Budget) (events : List AlertEvent)
      → let later = (evaluate_forecasts_for_tenant res today bs events).events in
        ((evaluate_forecasts_for_tenant res today bs later).events ≡ later)
        × ((evaluate_forecasts_for_tenant res today bs later).thresholds_fired ≡ [])
  unfolding evaluate_forecasts_for_tenant
  forecasts-again bs events =
      if-elim
        (λ (z : Tick).
          let second =
            if is_usable res
            then forecast_budgets res today bs (idle z.events)
            else idle z.events in
          (second.events ≡ z.events) × (second.thresholds_fired ≡ []))
        (is_usable res) (forecast_budgets res today bs (idle events)) (idle events)
        (λ h. rw h (forecast_budgets-quiet bs _ (forecast_budgets-Complete bs (idle events))))
        (λ h. rw h (refl, refl))
