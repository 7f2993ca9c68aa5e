-- ===== src/Budgets/AlertLaws.antt =====
-- What the inserts of tasks/evaluate_budgets.py do to `budget_alert_events`: a key has one row, and
-- a budget's evaluation records the thresholds that are reached and no other.
use vargate_telemetry.Base.{
  ℕ, ◌≡◌, refl, Bool, true, false, not, List, [], ◌∷◌, ◌==◌, str_eq, ◌&&◌, ◌||◌, any, if◌then◌else◌,
  arith, eq_iff, ==_iff, Bool-cases, inl, inr, ap, sym, ◌∙◌, or-false,
}
use vargate_telemetry.Budgets.Period.{PeriodWindow}
use vargate_telemetry.Budgets.Evaluate.{
  AlertKind, current_threshold, forecast_threshold, kind_eq, AlertKey, key_eq, AlertEvent, recorded,
  Firing, insert_alert, Budget, alert_key, is_below, fire_threshold, fire_thresholds,
}

kind_eq-eq : (k l : AlertKind) → kind_eq k l ≡ true → k ≡ l
kind_eq-eq current_threshold current_threshold h = refl
kind_eq-eq forecast_threshold forecast_threshold h = refl
kind_eq-eq current_threshold forecast_threshold h = absurd (ground arith)
kind_eq-eq forecast_threshold current_threshold h = absurd (ground arith)

kind_eq_self : (k : AlertKind) → kind_eq k k ≡ true
kind_eq_self current_threshold = refl
kind_eq_self forecast_threshold = refl

and4 :
    (a b c d : Bool) → (a && b && c && d) ≡ true → (a ≡ true) × (b ≡ true) × (c ≡ true) × (d ≡ true)
and4 a b c d h = ground arith

key-eq :
    (k l : AlertKey)
    → k.budget_id ≡ l.budget_id
    → k.period_start ≡ l.period_start
    → k.threshold_crossed ≡ l.threshold_crossed
    → k.kind ≡ l.kind
    → k ≡ l
key-eq k l a b c d i = record {
  budget_id = a i;
  period_start = b i;
  threshold_crossed = c i;
  kind = d i;
}

pub key_eq-eq : (k l : AlertKey) → key_eq k l ≡ true → k ≡ l
unfolding key_eq
key_eq-eq k l h =
    let (ids, starts, thresholds, kinds) =
      and4 (str_eq k.budget_id l.budget_id) (k.period_start == l.period_start)
        (k.threshold_crossed == l.threshold_crossed) (kind_eq k.kind l.kind) h in
    key-eq k l ((eq_iff k.budget_id l.budget_id).0 ids)
      ((==_iff k.period_start l.period_start).0 starts)
      ((==_iff k.threshold_crossed l.threshold_crossed).0 thresholds)
      (kind_eq-eq k.kind l.kind kinds)

pub key_eq_self : (k : AlertKey) → key_eq k k ≡ true
unfolding key_eq
key_eq_self k = rw ((eq_iff k.budget_id k.budget_id).1 refl, kind_eq_self k.kind) (ground arith)

recorded-same :
    (k l : AlertKey) (events : List AlertEvent)
    → key_eq k l ≡ true
    → recorded k events ≡ recorded l events
recorded-same k l events h = ap (λ z. recorded z events) (key_eq-eq k l h)

insert_cases :
    (old same there : Bool)
    → (same ≡ true → there ≡ old)
    → (if old then there else (same || there)) ≡ (there || same)
insert_cases old true there h = ground (arith, h refl)
insert_cases old false there h = ground arith

recorded-if :
    (b : Bool) (k : AlertKey) (e : AlertEvent) (f g : Firing)
    → recorded k (if b then f else g).events
      ≡ (if b then recorded k f.events else recorded k g.events)
recorded-if true k e f g = refl
recorded-if false k e f g = refl

-- An insert records its own key and changes no other key's rows.
pub recorded-insert_alert :
    (k : AlertKey) (e : AlertEvent) (f : Firing)
    → recorded k (insert_alert e f).events ≡ (recorded k f.events || key_eq k e.key)
unfolding insert_alert recorded
recorded-insert_alert k e f =
    recorded-if (recorded e.key f.events) k e f _
    ∙ insert_cases (recorded e.key f.events) (key_eq k e.key) (recorded k f.events)
        (recorded-same k e.key f.events)

-- A key has at most one row.
unfoldable pub IsUnique : List AlertEvent → Type 0
IsUnique [] = Unit
IsUnique (e ∷ es) = (recorded e.key es ≡ false) × IsUnique es

insert_alert-IsUnique :
    (e : AlertEvent) (f : Firing) → IsUnique f.events → IsUnique (insert_alert e f).events
unfolding insert_alert IsUnique
insert_alert-IsUnique e f u = elim (Bool-cases (recorded e.key f.events)) [
  | inl old ↦ rw old u
  | inr new ↦ rw new (new, u)
]

fire_threshold-IsUnique :
    (b : Budget) (w : PeriodWindow) (spend t : ℕ) (f : Firing)
    → IsUnique f.events
    → IsUnique (fire_threshold b w spend t f).events
unfolding fire_threshold
fire_threshold-IsUnique b w spend t f u = elim (Bool-cases (is_below b spend t)) [
  | inl below ↦ rw below u
  | inr reached ↦
      rw reached
        (insert_alert-IsUnique (record { key = alert_key b w t; current_spend_usd = spend }) f u)
]

pub fire_thresholds-IsUnique :
    (b : Budget) (w : PeriodWindow) (spend : ℕ) (ts : List ℕ) (f : Firing)
    → IsUnique f.events
    → IsUnique (fire_thresholds b w spend ts f).events
unfolding fire_thresholds
fire_thresholds-IsUnique b w spend [] f u = u
fire_thresholds-IsUnique b w spend (t ∷ ts) f u =
    fire_thresholds-IsUnique b w spend ts (fire_threshold b w spend t f)
      (fire_threshold-IsUnique b w spend t f u)

abbrev pub reaches : Budget → PeriodWindow → ℕ → AlertKey → ℕ → Bool
reaches b w spend k t = not (is_below b spend t) && key_eq k (alert_key b w t)

pub recorded-fire_threshold :
    (k : AlertKey) (b : Budget) (w : PeriodWindow) (spend t : ℕ) (f : Firing)
    → recorded k (fire_threshold b w spend t f).events
      ≡ (recorded k f.events || reaches b w spend k t)
unfolding fire_threshold
recorded-fire_threshold k b w spend t f = elim (Bool-cases (is_below b spend t)) [
  | inl below ↦ rw below (sym (or-false (recorded k f.events)))
  | inr reached ↦ rw reached (recorded-insert_alert k _ f)
]

or-right : {a b : Bool} → a ≡ false → (a || b) ≡ true → b ≡ true
or-right {a} {b} e h = ground arith

or_assoc : (a b c : Bool) → ((a || b) || c) ≡ (a || (b || c))
or_assoc a b c = ground arith

-- After the loop a key is recorded if it was before, or if it is the budget's key of a threshold
-- of the list that the spend reaches; and no other key is.
pub recorded-fire_thresholds :
    (k : AlertKey) (b : Budget) (w : PeriodWindow) (spend : ℕ) (ts : List ℕ) (f : Firing)
    → recorded k (fire_thresholds b w spend ts f).events
      ≡ (recorded k f.events || any (reaches b w spend k) ts)
unfolding fire_thresholds
recorded-fire_thresholds k b w spend [] f = sym (or-false (recorded k f.events))
recorded-fire_thresholds k b w spend (t ∷ ts) f =
    recorded-fire_thresholds k b w spend ts (fire_threshold b w spend t f)
    ∙ ap (λ z. z || any (reaches b w spend k) ts) (recorded-fire_threshold k b w spend t f)
    ∙ or_assoc (recorded k f.events) (reaches b w spend k t) (any (reaches b w spend k) ts)

-- A threshold of the list is settled when the spend is below it or its key has its row.
unfoldable pub Settled : Budget → PeriodWindow → ℕ → List AlertEvent → List ℕ → Type 0
Settled b w spend events [] = Unit
Settled b w spend events (t ∷ ts) =
    ((is_below b spend t || recorded (alert_key b w t) events) ≡ true) × Settled b w spend events ts

fire_threshold-settled :
    (b : Budget) (w : PeriodWindow) (spend t : ℕ) (f : Firing)
    → (is_below b spend t || recorded (alert_key b w t) f.events) ≡ true
    → fire_threshold b w spend t f ≡ f
unfolding fire_threshold insert_alert
fire_threshold-settled b w spend t f h = elim (Bool-cases (is_below b spend t)) [
  | inl below ↦ rw below refl
  | inr reached ↦
      let there : recorded (alert_key b w t) f.events ≡ true = or-right reached h in
      rw (reached, there) refl
]

-- The loop changes nothing where every threshold is settled.
pub fire_thresholds-Settled :
    (b : Budget) (w : PeriodWindow) (spend : ℕ) (ts : List ℕ) (f : Firing)
    → Settled b w spend f.events ts
    → fire_thresholds b w spend ts f ≡ f
unfolding fire_thresholds Settled
fire_thresholds-Settled b w spend [] f s = refl
fire_thresholds-Settled b w spend (t ∷ ts) f s =
    ap (fire_thresholds b w spend ts) (fire_threshold-settled b w spend t f s.0)
    ∙ fire_thresholds-Settled b w spend ts f s.1
