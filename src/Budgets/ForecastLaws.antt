-- ===== src/Budgets/ForecastLaws.antt =====
-- The inserts of vargate_telemetry/tasks/evaluate_forecasts.py for one budget: the keys that they
-- record, and when they are complete.
use vargate_telemetry.Base.{
  ℕ, ◌≡◌, ◌≢◌, refl, Bool, true, false, not, Option, none, some, List, [], ◌∷◌, ◌&&◌, ◌||◌, any,
  arith, Bool-cases, ◌⊎◌, inl, inr, ap, sym, ◌∙◌, All, or-false, if-elim,
}
use vargate_telemetry.Budgets.Evaluate.{
  AlertKey, AlertEvent, key_eq, recorded, insert_alert, Budget, Tick,
}
use vargate_telemetry.Budgets.AlertLaws.{recorded-insert_alert, key_eq_self}
use vargate_telemetry.Budgets.TickLaws.{Grows}
use vargate_telemetry.Budgets.Forecasts.{
  ForecastResult, is_unreached, breach_date, forecast_key, insert_forecast, on_date,
  forecast_thresholds,
}

module _ (res : ForecastResult) (today : ℕ) (b : Budget) where
  -- A turn of the loop skips its threshold, stops at a date that cannot be represented, or inserts.
  turn-elim :
      (P : Tick → Type 0) (t : ℕ) (ts : List ℕ) (tick : Tick)
      → (is_unreached res b t ≡ true → P (forecast_thresholds res today b ts tick))
      → (is_unreached res b t ≡ false → breach_date res today b t ≡ none → P tick)
      → (is_unreached res b t ≡ false
          → P (forecast_thresholds res today b ts (insert_forecast res b t tick)))
      → P (forecast_thresholds res today b (t ∷ ts) tick)
  unfolding forecast_thresholds
  turn-elim P t ts tick skip stop go =
      let inserted = forecast_thresholds res today b ts (insert_forecast res b t tick) in
      if-elim P (is_unreached res b t) (forecast_thresholds res today b ts tick)
        (on_date (breach_date res today b t) inserted tick) skip
        (λ reached. dated reached (breach_date res today b t) refl)
    where
      dated :
          is_unreached res b t ≡ false
          → (d : Option ℕ) → breach_date res today b t ≡ d
          → P (on_date d (forecast_thresholds res today b ts (insert_forecast res b t tick)) tick)
      dated reached none e = stop reached e
      dated reached (some date) e = go reached

  recorded-insert_forecast :
      (k : AlertKey) (t : ℕ) (tick : Tick)
      → recorded k (insert_forecast res b t tick).events
        ≡ (recorded k tick.events || key_eq k (forecast_key res b t))
  unfolding insert_forecast insert_alert
  recorded-insert_forecast k t tick =
      let e : AlertEvent = record {
        key = forecast_key res b t;
        current_spend_usd = res.current_spend;
      } in
      let old = recorded-insert_alert k e (record { events = tick.events; newly_fired = [] }) in
      elim (Bool-cases (recorded (forecast_key res b t) tick.events)) [
        | inl there ↦ rw there (rw there at old)
        | inr new ↦ rw new (rw new at old)
      ]

  -- A key of a threshold that the projection reaches.
  abbrev pub warns : AlertKey → ℕ → Bool
  warns k t = not (is_unreached res b t) && key_eq k (forecast_key res b t)

  -- The thresholds that are reached have a breach date.
  abbrev pub IsDated : ℕ → Type 0
  IsDated t = is_unreached res b t ≡ false → breach_date res today b t ≢ none

  unreached_adds :
      (u e any_later old : Bool)
      → u ≡ true
      → (old || any_later) ≡ (old || ((not u && e) || any_later))
  unreached_adds u e any_later old h = ground (arith, h)

  reached_adds :
      (u e any_later old : Bool)
      → u ≡ false
      → ((old || e) || any_later) ≡ (old || ((not u && e) || any_later))
  reached_adds u e any_later old h = ground (arith, h)

  -- After the loop a key is recorded if it was, or is the key of a threshold that is reached.
  pub recorded-forecast_thresholds :
      (k : AlertKey) (ts : List ℕ) (tick : Tick)
      → All IsDated ts
      → recorded k (forecast_thresholds res today b ts tick).events
        ≡ (recorded k tick.events || any (warns k) ts)
  unfolding forecast_thresholds
  recorded-forecast_thresholds k [] tick d = sym (or-false (recorded k tick.events))
  recorded-forecast_thresholds k (t ∷ ts) tick d =
      let e = key_eq k (forecast_key res b t) in
      let u = is_unreached res b t in
      let old = recorded k tick.events in
      turn-elim (λ (z : Tick). recorded k z.events ≡ (old || any (warns k) (t ∷ ts))) t ts tick
        (λ h.
          recorded-forecast_thresholds k ts tick d.1 ∙ unreached_adds u e (any (warns k) ts) old h)
        (λ h n. absurd (d.0 h n))
        (λ h.
          recorded-forecast_thresholds k ts (insert_forecast res b t tick) d.1
          ∙ ap (λ z. z || any (warns k) ts) (recorded-insert_forecast k t tick)
          ∙ reached_adds u e (any (warns k) ts) old h)

  grown : (a c e : Bool) → c ≡ (a || e) → a ≡ true → c ≡ true
  grown a c e h g = ground arith

  pub forecast_thresholds-Grows :
      (ts : List ℕ) (tick : Tick)
      → Grows tick.events (forecast_thresholds res today b ts tick).events
  unfolding forecast_thresholds
  forecast_thresholds-Grows [] tick k h = h
  forecast_thresholds-Grows (t ∷ ts) tick k h =
      turn-elim (λ (z : Tick). recorded k z.events ≡ true) t ts tick
        (λ u. forecast_thresholds-Grows ts tick k h) (λ u n. h)
        (λ u.
          forecast_thresholds-Grows ts (insert_forecast res b t tick) k
            (grown _ _ _ (recorded-insert_forecast k t tick) h))

  -- The loop has nothing left to insert.
  unfoldable pub IsComplete : List AlertEvent → List ℕ → Type 0
  IsComplete events [] = Unit
  IsComplete events (t ∷ ts) =
      ((is_unreached res b t ≡ true) × IsComplete events ts)
      ⊎ (((is_unreached res b t ≡ false) × (breach_date res today b t ≡ none))
          ⊎ ((recorded (forecast_key res b t) events ≡ true) × IsComplete events ts))

  pub IsComplete-Grows :
      (events later : List AlertEvent) (ts : List ℕ)
      → Grows events later
      → IsComplete events ts
      → IsComplete later ts
  unfolding IsComplete
  IsComplete-Grows events later [] g c = tt
  IsComplete-Grows events later (t ∷ ts) g (inl (u, c)) =
      inl (u, IsComplete-Grows events later ts g c)
  IsComplete-Grows events later (t ∷ ts) g (inr (inl n)) = inr (inl n)
  IsComplete-Grows events later (t ∷ ts) g (inr (inr (r, c))) =
      inr (inr (g (forecast_key res b t) r, IsComplete-Grows events later ts g c))

  or_self : (a c e : Bool) → c ≡ (a || e) → e ≡ true → c ≡ true
  or_self a c e h g = ground arith

  pub forecast_thresholds-IsComplete :
      (ts : List ℕ) (tick : Tick) → IsComplete (forecast_thresholds res today b ts tick).events ts
  unfolding forecast_thresholds IsComplete
  forecast_thresholds-IsComplete [] tick = tt
  forecast_thresholds-IsComplete (t ∷ ts) tick =
      let next = insert_forecast res b t tick in
      let key = forecast_key res b t in
      turn-elim (λ (z : Tick). IsComplete z.events (t ∷ ts)) t ts tick
        (λ u. inl (u, forecast_thresholds-IsComplete ts tick)) (λ u n. inr (inl (u, n)))
        (λ u. inr (
          inr (
            forecast_thresholds-Grows ts next key
                (or_self _ _ _ (recorded-insert_forecast key t tick) (key_eq_self key)),
            forecast_thresholds-IsComplete ts next,
          )))

  insert_forecast-recorded :
      (t : ℕ) (tick : Tick)
      → recorded (forecast_key res b t) tick.events ≡ true
      → insert_forecast res b t tick ≡ tick
  unfolding insert_forecast
  insert_forecast-recorded t tick h = rw h refl

  pub forecast_thresholds-quiet :
      (ts : List ℕ) (tick : Tick)
      → IsComplete tick.events ts
      → forecast_thresholds res today b ts tick ≡ tick
  unfolding forecast_thresholds IsComplete
  forecast_thresholds-quiet [] tick c = refl
  forecast_thresholds-quiet (t ∷ ts) tick (inl (u, c)) = rw u (forecast_thresholds-quiet ts tick c)
  forecast_thresholds-quiet (t ∷ ts) tick (inr (inl (u, n))) = rw (u, n) refl
  forecast_thresholds-quiet (t ∷ ts) tick (inr (inr (r, c))) =
      turn-elim (λ (z : Tick). z ≡ tick) t ts tick (λ u. forecast_thresholds-quiet ts tick c)
        (λ u n. refl)
        (λ u.
          ap (forecast_thresholds res today b ts) (insert_forecast-recorded t tick r)
          ∙ forecast_thresholds-quiet ts tick c)
