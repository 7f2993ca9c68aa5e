-- ===== src/Budgets/TickLaws.antt =====
-- Ticks of tasks/evaluate_budgets.py: what fires is what is reached and not yet recorded, and a
-- second tick fires nothing.
use mathlib.Core.List.{append_assoc, append-nil}
use vargate_telemetry.Base.{
  ℕ, ◌≡◌, ◌≢◌, refl, Bool, true, false, not, List, [], ◌∷◌, ◌++◌, ◌&&◌, ◌||◌, select, if◌then◌else◌,
  arith, Bool-cases, inl, inr, ap, sym, ◌∙◌, All,
}
use vargate_telemetry.Budgets.Period.{PeriodWindow}
use vargate_telemetry.Budgets.Evaluate.{
  AlertKey, key_eq, AlertEvent, recorded, Firing, insert_alert, Budget, alert_key, is_below,
  fire_threshold, fire_thresholds,
}
use vargate_telemetry.Budgets.AlertLaws.{
  Settled, recorded-fire_threshold, recorded-fire_thresholds, key_eq_self, key_eq-eq,
}

-- No row is lost.
abbrev pub Grows : List AlertEvent → List AlertEvent → Type 0
Grows events later = (k : AlertKey) → recorded k events ≡ true → recorded k later ≡ true

or_left : (a b c : Bool) → c ≡ (a || b) → a ≡ true → c ≡ true
or_left a b c e h = ground arith

pub fire_thresholds-Grows :
    (b : Budget) (w : PeriodWindow) (spend : ℕ) (ts : List ℕ) (f : Firing)
    → Grows f.events (fire_thresholds b w spend ts f).events
fire_thresholds-Grows b w spend ts f k h =
    or_left _ _ _ (recorded-fire_thresholds k b w spend ts f) h

settled_step :
    (below old now later : Bool)
    → now ≡ (old || (not below && true))
    → (now ≡ true → later ≡ true)
    → (below || later) ≡ true
settled_step true old now later e grow = refl
settled_step false old now later e grow = grow (ground arith)

-- After the loop every threshold of its list is settled.
pub fire_thresholds-settles :
    (b : Budget) (w : PeriodWindow) (spend : ℕ) (ts : List ℕ) (f : Firing)
    → Settled b w spend (fire_thresholds b w spend ts f).events ts
unfolding fire_thresholds Settled
fire_thresholds-settles b w spend [] f = tt
fire_thresholds-settles b w spend (t ∷ ts) f =
    let f' = fire_threshold b w spend t f in
    (
      settled_step (is_below b spend t) (recorded (alert_key b w t) f.events)
          (recorded (alert_key b w t) f'.events)
          (recorded (alert_key b w t) (fire_thresholds b w spend ts f').events)
          (recorded-fire_threshold (alert_key b w t) b w spend t f
            ∙ ap (λ z. recorded (alert_key b w t) f.events || (not (is_below b spend t) && z))
                (key_eq_self (alert_key b w t)))
          (fire_thresholds-Grows b w spend ts f' (alert_key b w t)),
      fire_thresholds-settles b w spend ts f',
    )

or_grow : (a b c : Bool) → (b ≡ true → c ≡ true) → (a || b) ≡ true → (a || c) ≡ true
or_grow true b c g h = refl
or_grow false b c g h = g h

-- What is settled stays so while rows are added.
pub Settled-Grows :
    (b : Budget) (w : PeriodWindow) (spend : ℕ) (events later : List AlertEvent) (ts : List ℕ)
    → Grows events later
    → Settled b w spend events ts
    → Settled b w spend later ts
unfolding Settled
Settled-Grows b w spend events later [] g s = tt
Settled-Grows b w spend events later (t ∷ ts) g s = (
  or_grow (is_below b spend t) (recorded (alert_key b w t) events)
      (recorded (alert_key b w t) later) (g (alert_key b w t)) s.0,
  Settled-Grows b w spend events later ts g s.1,
)

-- A threshold is due when the spend reaches it and its key has no row.
abbrev pub is_due : Budget → PeriodWindow → ℕ → List AlertEvent → ℕ → Bool
is_due b w spend events t = not (is_below b spend t) && not (recorded (alert_key b w t) events)

unfoldable pub Distinct : List ℕ → Type 0
Distinct [] = Unit
Distinct (t ∷ ts) = All (λ u. t ≢ u) ts × Distinct ts

newly-if :
    (b c : Bool) (f : Firing) (events : List AlertEvent) (t : ℕ)
    → (if b
        then f
        else if c
        then f
        else record { events = events; newly_fired = f.newly_fired ++ t ∷ [] }).newly_fired
      ≡ f.newly_fired ++ (if not b && not c then t ∷ [] else [])
newly-if true c f events t = sym (append-nil f.newly_fired)
newly-if false true f events t = sym (append-nil f.newly_fired)
newly-if false false f events t = refl

fire_threshold-newly :
    (b : Budget) (w : PeriodWindow) (spend t : ℕ) (f : Firing)
    → (fire_threshold b w spend t f).newly_fired
      ≡ f.newly_fired ++ (if is_due b w spend f.events t then t ∷ [] else [])
unfolding fire_threshold insert_alert
fire_threshold-newly b w spend t f =
    newly-if (is_below b spend t) (recorded (alert_key b w t) f.events) f _ t

and_false : (a b c : Bool) → b ≡ false → (c || (a && b)) ≡ c
and_false a b c h = ground arith

other-key :
    (b : Budget) (w : PeriodWindow) (t u : ℕ)
    → t ≢ u
    → key_eq (alert_key b w u) (alert_key b w t) ≡ false
other-key b w t u n = elim (Bool-cases (key_eq (alert_key b w u) (alert_key b w t))) [
  | inr apart ↦ apart
  | inl same ↦ absurd (n (sym (ap (λ (k : AlertKey). k.threshold_crossed) (key_eq-eq _ _ same))))
]

-- The turn for one threshold leaves another as due as it was.
is_due-other :
    (b : Budget) (w : PeriodWindow) (spend t u : ℕ) (f : Firing)
    → t ≢ u
    → is_due b w spend (fire_threshold b w spend t f).events u ≡ is_due b w spend f.events u
is_due-other b w spend t u f n =
    ap (λ z. not (is_below b spend u) && not z)
      (recorded-fire_threshold (alert_key b w u) b w spend t f
        ∙ and_false (not (is_below b spend t)) (key_eq (alert_key b w u) (alert_key b w t))
            (recorded (alert_key b w u) f.events) (other-key b w t u n))

select-due :
    (b : Budget) (w : PeriodWindow) (spend t : ℕ) (f : Firing) (ts : List ℕ)
    → All (λ u. t ≢ u) ts
    → select (is_due b w spend (fire_threshold b w spend t f).events) ts
      ≡ select (is_due b w spend f.events) ts
select-due b w spend t f [] a = refl
select-due b w spend t f (u ∷ ts) a =
    rw (is_due-other b w spend t u f a.0, select-due b w spend t f ts a.1) refl

append_if :
    (c : Bool) (t : ℕ) (xs rest : List ℕ)
    → (xs ++ (if c then t ∷ [] else [])) ++ rest ≡ xs ++ (if c then t ∷ rest else rest)
append_if true t xs rest = append_assoc xs (t ∷ []) rest
append_if false t xs rest = ap (λ z. z ++ rest) (append-nil xs)

-- The loop fires the thresholds that are due before it, in the order of its list.
pub fire_thresholds-newly :
    (b : Budget) (w : PeriodWindow) (spend : ℕ) (ts : List ℕ) (f : Firing)
    → Distinct ts
    → (fire_thresholds b w spend ts f).newly_fired
      ≡ f.newly_fired ++ select (is_due b w spend f.events) ts
unfolding fire_thresholds Distinct
fire_thresholds-newly b w spend [] f d = sym (append-nil f.newly_fired)
fire_thresholds-newly b w spend (t ∷ ts) f d =
    fire_thresholds-newly b w spend ts (fire_threshold b w spend t f) d.1
    ∙ ap (λ z. (fire_threshold b w spend t f).newly_fired ++ z) (select-due b w spend t f ts d.0)
    ∙ ap (λ z. z ++ select (is_due b w spend f.events) ts) (fire_threshold-newly b w spend t f)
    ∙ append_if (is_due b w spend f.events t) t f.newly_fired
        (select (is_due b w spend f.events) ts)
