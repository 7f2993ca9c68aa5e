-- ===== src/Budgets/Evaluations.antt =====
-- `_evaluate_one_budget` of tasks/evaluate_budgets.py as a whole: what it returns by the window and the
-- spend, and that an evaluation repeated fires nothing.
use vargate_telemetry.Base.{
  ℕ, ◌≡◌, refl, Bool, true, false, List, [], ◌==◌, if◌then◌else◌, Bool-cases, inl, inr, ap, sym,
  ◌∙◌, subst,
}
use vargate_telemetry.Base.Result.{ok-injective, ok, bind-ok}
use vargate_telemetry.Budgets.Spend.{UsageRow, compute_spend_in_window}
use vargate_telemetry.Budgets.Period.{PeriodWindow, Now, current_period_window}
use vargate_telemetry.Budgets.Evaluate.{
  alert_thresholds, AlertEvent, Firing, Budget, fire_thresholds, evaluate_one_budget, unix,
}
use vargate_telemetry.Budgets.AlertLaws.{Settled, fire_thresholds-Settled}
use vargate_telemetry.Budgets.TickLaws.{
  Grows, fire_thresholds-Grows, fire_thresholds-settles, Settled-Grows,
}

abbrev pub quiet : List AlertEvent → Firing
quiet events = record { events = events; newly_fired = [] }

abbrev pub after : Budget → PeriodWindow → ℕ → List AlertEvent → Firing
after b w spend events =
    if b.threshold_usd == 0
    then quiet events
    else fire_thresholds b w spend alert_thresholds (quiet events)

module _ (rows : List UsageRow) (now : Now) where
  -- The window and the spend of a budget, where both are computed.
  pub record Priced (b : Budget) (w : PeriodWindow) (spend : ℕ) : Type 0 where
    pub window_is : current_period_window b.period now ≡ ok w
    pub spend_is :
        compute_spend_in_window rows b.scope_kind b.scope_value (unix w.start) (unix w.end)
        ≡ ok spend

  ok-if : {A : Type 0} (c : Bool) (x y : A) → (if c then ok x else ok y) ≡ ok (if c then x else y)
  ok-if true x y = refl
  ok-if false x y = refl

  pub evaluate-Priced :
      (b : Budget) (w : PeriodWindow) (spend : ℕ) (events : List AlertEvent)
      → Priced b w spend
      → evaluate_one_budget rows now b events ≡ ok (after b w spend events)
  unfolding evaluate_one_budget
  evaluate-Priced b w spend events p =
      rw (p.window_is, p.spend_is) (ok-if (b.threshold_usd == 0) _ _)

  pub evaluate-ok :
      (b : Budget) (events : List AlertEvent) (f : Firing)
      → evaluate_one_budget rows now b events ≡ ok f
      → (w : PeriodWindow) × (spend : ℕ) × Priced b w spend × (after b w spend events ≡ f)
  unfolding evaluate_one_budget
  evaluate-ok b events f h =
      let (w, p, rest) = bind-ok (current_period_window b.period now) _ f h in
      let (spend, q, last) =
        bind-ok
          (compute_spend_in_window rows b.scope_kind b.scope_value (unix w.start) (unix w.end)) _ f
          rest in
      let e =
        sym (
          ok-if (b.threshold_usd == 0) (quiet events)
            (fire_thresholds b w spend alert_thresholds (quiet events)))
        ∙ last in
      (w, spend, record { window_is = p; spend_is = q }, ok-injective (after b w spend events) f e)

  -- The recorded alerts of a budget at this moment are complete.
  abbrev pub Done : Budget → List AlertEvent → Type 0
  Done b events =
      (w : PeriodWindow) (spend : ℕ)
      → Priced b w spend
      → (b.threshold_usd == 0) ≡ false
      → Settled b w spend events alert_thresholds

  pub Done-Grows :
      (b : Budget) (events later : List AlertEvent)
      → Grows events later
      → Done b events
      → Done b later
  Done-Grows b events later g d =
      λ w spend p nz. Settled-Grows b w spend events later alert_thresholds g (d w spend p nz)

  after-Done :
      (b : Budget) (w : PeriodWindow) (spend : ℕ) (events : List AlertEvent)
      → ((b.threshold_usd == 0) ≡ false → Settled b w spend events alert_thresholds)
      → after b w spend events ≡ quiet events
  after-Done b w spend events s = elim (Bool-cases (b.threshold_usd == 0)) [
    | inl z ↦ rw z refl
    | inr nz ↦ rw nz (fire_thresholds-Settled b w spend alert_thresholds (quiet events) (s nz))
  ]

  after-Grows :
      (b : Budget) (w : PeriodWindow) (spend : ℕ) (events : List AlertEvent)
      → Grows events (after b w spend events).events
  after-Grows b w spend events = elim (Bool-cases (b.threshold_usd == 0)) [
    | inl z ↦ rw z (λ k h. h)
    | inr nz ↦ rw nz (fire_thresholds-Grows b w spend alert_thresholds (quiet events))
  ]

  after-settles :
      (b : Budget) (w : PeriodWindow) (spend : ℕ) (events : List AlertEvent)
      → (b.threshold_usd == 0) ≡ false
      → Settled b w spend (after b w spend events).events alert_thresholds
  after-settles b w spend events nz =
      rw nz (fire_thresholds-settles b w spend alert_thresholds (quiet events))

  -- A budget with recorded alerts evaluated again: it fires nothing and changes no row.
  pub evaluate-again :
      (b : Budget) (events : List AlertEvent) (f : Firing)
      → evaluate_one_budget rows now b events ≡ ok f
      → evaluate_one_budget rows now b f.events
        ≡ ok (record { events = f.events; newly_fired = [] })
  evaluate-again b events f h =
      let (w, spend, p, e) = evaluate-ok b events f h in
      let settled : (b.threshold_usd == 0) ≡ false → Settled b w spend f.events alert_thresholds =
        λ nz.
          subst (λ (g : Firing). Settled b w spend g.events alert_thresholds) e
            (after-settles b w spend events nz) in
      evaluate-Priced b w spend f.events p ∙ ap ok (after-Done b w spend f.events settled)

  -- The window and the spend of a budget are determined.
  Settled-of :
      (b : Budget) (w v : PeriodWindow) (spend other : ℕ) (events : List AlertEvent)
      → Priced b w spend
      → Priced b v other
      → Settled b w spend events alert_thresholds
      → Settled b v other events alert_thresholds
  Settled-of b w v spend other events p q s =
      let same = ok-injective w v (sym p.window_is ∙ q.window_is) in
      let r =
        subst
          (λ (z : PeriodWindow).
            compute_spend_in_window rows b.scope_kind b.scope_value (unix z.start) (unix z.end)
            ≡ ok spend)
          same p.spend_is in
      let amount = ok-injective spend other (sym r ∙ q.spend_is) in
      subst (λ z. Settled b v z events alert_thresholds) amount
        (subst (λ z. Settled b z spend events alert_thresholds) same s)

  pub ok-rows :
      (b : Budget) (events : List AlertEvent) (f : Firing)
      → evaluate_one_budget rows now b events ≡ ok f
      → Grows events f.events × Done b f.events
  ok-rows b events f h =
      let (w, spend, p, e) = evaluate-ok b events f h in
      (
        subst (λ (g : Firing). Grows events g.events) e (after-Grows b w spend events),
        λ v s q nz. Settled-of b w v spend s f.events p q (
            subst (λ (g : Firing). Settled b w spend g.events alert_thresholds) e
              (after-settles b w spend events nz)),
      )

  pub ok-quiet :
      (b : Budget) (events : List AlertEvent) (f : Firing)
      → evaluate_one_budget rows now b events ≡ ok f
      → Done b events
      → f ≡ quiet events
  ok-quiet b events f h d =
      let (w, spend, p, e) = evaluate-ok b events f h in
      sym e ∙ after-Done b w spend events (d w spend p)
