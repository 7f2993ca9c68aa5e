-- ===== src/Budgets/Evaluate.antt =====
-- tasks/evaluate_budgets.py: the loop over the thresholds with its insert into
-- `budget_alert_events`, one budget, and the tick of one tenant. Amounts are cents, thresholds
-- are per cent. The send after an insert changes no table, and what is sent is what is in
-- `newly_fired`.
use vargate_telemetry.Base.{
  ℕ, ◌+◌, ◌-◌, ◌*◌, Bool, true, false, Option, List, [], ◌∷◌, ◌++◌, String, ◌==◌, str_eq, ◌&&◌, ltb,
  any, if◌then◌else◌, map,
}
use vargate_telemetry.Base.Result.{Result, ok, err, ◌>>=◌}
use vargate_telemetry.Budgets.Spend.{ScopeKind, UsageRow, compute_spend_in_window}
use vargate_telemetry.Budgets.Period.{
  day_micros, Now, PeriodWindow, current_period_window, start_date,
}

-- `ALERT_THRESHOLDS`: 0.70, 0.85 and 1.00.
abbrev pub alert_thresholds : List ℕ
alert_thresholds = 70 ∷ 85 ∷ 100 ∷ []

pub data AlertKind : Type 0 where
  current_threshold forecast_threshold : AlertKind

abbrev pub kind_eq : AlertKind → AlertKind → Bool
kind_eq current_threshold current_threshold = true
kind_eq forecast_threshold forecast_threshold = true
kind_eq _ _ = false

-- The columns of the unique constraint; the tenant is that of the session.
pub record AlertKey : Type 0 where
  pub budget_id : String
  pub period_start : ℕ
  pub threshold_crossed : ℕ
  pub kind : AlertKind

unfoldable pub key_eq : AlertKey → AlertKey → Bool
key_eq k l =
    str_eq k.budget_id l.budget_id
    && (k.period_start == l.period_start)
    && (k.threshold_crossed == l.threshold_crossed)
    && kind_eq k.kind l.kind

pub record AlertEvent : Type 0 where
  pub key : AlertKey
  pub current_spend_usd : ℕ

unfoldable pub recorded : AlertKey → List AlertEvent → Bool
unfolding key_eq
recorded k events = any (λ (e : AlertEvent). key_eq k e.key) events

-- The loop's state: the table and `newly_fired`.
pub record Firing : Type 0 where
  pub events : List AlertEvent
  pub newly_fired : List ℕ

-- `INSERT … ON CONFLICT DO NOTHING RETURNING` and, when it wrote a row, the append.
unfoldable pub insert_alert : AlertEvent → Firing → Firing
unfolding recorded
insert_alert e f = if recorded e.key f.events then f else record {
  events = e ∷ f.events;
  newly_fired = f.newly_fired ++ e.key.threshold_crossed ∷ [];
}

pub record Budget : Type 0 where
  pub id : String
  pub scope_kind : ScopeKind
  pub scope_value : Option String
  pub period : String
  pub threshold_usd : ℕ
  pub is_deleted : Bool

abbrev pub alert_key : Budget → PeriodWindow → ℕ → AlertKey
alert_key b w t = record {
  budget_id = b.id;
  period_start = start_date w;
  threshold_crossed = t;
  kind = current_threshold;
}

-- `ratio < threshold`, multiplied out.
abbrev pub is_below : Budget → ℕ → ℕ → Bool
is_below b spend t = ltb (100 * spend) (t * b.threshold_usd)

-- One turn of the loop over the thresholds.
unfoldable pub fire_threshold : Budget → PeriodWindow → ℕ → ℕ → Firing → Firing
unfolding insert_alert
fire_threshold b w spend t f =
    if is_below b spend t
    then f
    else insert_alert (record { key = alert_key b w t; current_spend_usd = spend }) f

unfoldable pub fire_thresholds : Budget → PeriodWindow → ℕ → List ℕ → Firing → Firing
unfolding fire_threshold
fire_thresholds b w spend [] f = f
fire_thresholds b w spend (t ∷ ts) f = fire_thresholds b w spend ts (fire_threshold b w spend t f)

-- The days before 1970-01-01, from which the usage records count, and an instant of the calendar as
-- theirs.
abbrev pub epoch_ordinal : ℕ
epoch_ordinal = 719163

abbrev pub unix : ℕ → ℕ
unix t = t - epoch_ordinal * day_micros

-- `_evaluate_one_budget`, on the usage records and the alert events of the tenant.
unfoldable pub evaluate_one_budget : List UsageRow → Now → Budget → List AlertEvent → Result Firing
unfolding fire_thresholds
evaluate_one_budget rows now b events = do
  w ← current_period_window b.period now
  spend ← compute_spend_in_window rows b.scope_kind b.scope_value (unix w.start) (unix w.end)
  let quiet : Firing = record { events = events; newly_fired = [] }
  if b.threshold_usd == 0 then ok quiet else ok (fire_thresholds b w spend alert_thresholds quiet)

pub record Tick : Type 0 where
  pub events : List AlertEvent
  pub budgets_checked : ℕ
  pub thresholds_fired : List (String × ℕ)

-- The `try` around one budget: an exception is logged and changes nothing else.
abbrev pub settle : Budget → Tick → Result Firing → Tick
settle b tick (err e) = record tick { budgets_checked = tick.budgets_checked + 1 }
settle b tick (ok f) = record {
  events = f.events;
  budgets_checked = tick.budgets_checked + 1;
  thresholds_fired = tick.thresholds_fired ++ map (λ (t : ℕ). (b.id, t)) f.newly_fired;
}

-- One turn of the loop over the budgets.
unfoldable pub check_budget : List UsageRow → Now → Budget → Tick → Tick
unfolding evaluate_one_budget
check_budget rows now b tick = settle b tick (evaluate_one_budget rows now b tick.events)

unfoldable pub check_budgets : List UsageRow → Now → List Budget → Tick → Tick
unfolding check_budget
check_budgets rows now [] tick = tick
check_budgets rows now (b ∷ bs) tick =
    check_budgets rows now bs (if b.is_deleted then tick else check_budget rows now b tick)

unfoldable pub evaluate_budgets_for_tenant :
    List UsageRow → Now → List Budget → List AlertEvent → Tick
unfolding check_budgets
evaluate_budgets_for_tenant rows now budgets events =
    check_budgets rows now budgets
      (record { events = events; budgets_checked = 0; thresholds_fired = [] })
