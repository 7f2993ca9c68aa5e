-- ===== src/Budgets/Windows.antt =====
-- The windows of budgets/period.py partition time: each instant lies in its own window, and two
-- instants of one window have the same window.
use vargate_telemetry.Base.{
  ℕ, ◌+◌, ◌*◌, ◌≤◌, ◌<◌, ◌≡◌, refl, Bool, true, false, arith, String, if◌then◌else◌, Option, none,
  some, sym, ◌∙◌, subst,
}
use vargate_telemetry.Base.Result.{Result, err-ok, ok, err, value_error}
use vargate_telemetry.Budgets.Calendar.{
  Date, IsValid, to_ordinal, days_in_month, days_in_month_bounds,
}
use vargate_telemetry.Budgets.Period.{
  PeriodWindow, utc_zone, is_aware, Now, day_micros, max_ordinal, window, current_period_window,
  instant, days_in_period,
}
use vargate_telemetry.Budgets.PeriodLaws.{
  Kind, daily, weekly, monthly, kind_of, first_day, past_day, IsNow, window_of,
  current_period_window_lem,
}
use vargate_telemetry.Budgets.PeriodBounds.{window_lem, window-ok, day-in-period, same_period}

-- A window that was computed is the one of a kind.
window-kind :
    (o : Option Kind) (d : Date) (w : PeriodWindow)
    → window_of o d ≡ ok w
    → (k : Kind) × (o ≡ some k) × (window (first_day k d) (past_day k d) ≡ ok w)
window-kind none d w h = elim (err-ok value_error w h) [ ]
window-kind (some k) d w h = (k, refl, h)

aware-window :
    (b : Bool) (r : Result PeriodWindow) (w : PeriodWindow)
    → (if b then r else err value_error) ≡ ok w
    → (b ≡ true) × (r ≡ ok w)
aware-window true r w h = (refl, h)
aware-window false r w h = elim (err-ok value_error w h) [ ]

current_period_window-kind :
    (period : String) (now : Now) (w : PeriodWindow)
    → IsValid now.date
    → current_period_window period now ≡ ok w
    → (k : Kind) × (kind_of period ≡ some k)
      × (window (first_day k now.date) (past_day k now.date) ≡ ok w)
current_period_window-kind period now w v h =
    let e = sym (current_period_window_lem period now v) ∙ h in
    let (aware, r) = aware-window (is_aware now.zone) (window_of (kind_of period) now.date) w e in
    window-kind (kind_of period) now.date w r

utc_instant :
    (now : Now) → now.zone ≡ utc_zone → instant now ≡ to_ordinal now.date * day_micros + now.micros
unfolding instant
utc_instant now z = rw z (omega arith)

-- A UTC instant for which a window is computed is in it: not before its start, and before its end.
pub window-contains :
    (period : String) (now : Now) (w : PeriodWindow)
    → IsNow now
    → now.zone ≡ utc_zone
    → current_period_window period now ≡ ok w
    → (w.start ≤ instant now) × (instant now < w.end)
window-contains period now w i z h =
    let (k, e, r) = current_period_window-kind period now w i.date h in
    let (s, t) = window-ok (first_day k now.date) (past_day k now.date) w r in
    let (lo, hi) = day-in-period k now.date i.date in
    let time = i.time in rw (utc_instant now z, s, t) (omega arith, omega arith)

-- Any other UTC instant in a window that was computed for a UTC instant has the same window.
pub window-stable :
    (period : String) (now later : Now) (w : PeriodWindow)
    → IsNow now
    → IsNow later
    → now.zone ≡ utc_zone
    → later.zone ≡ utc_zone
    → current_period_window period now ≡ ok w
    → w.start ≤ instant later
    → instant later < w.end
    → current_period_window period later ≡ ok w
window-stable period now later w i j _ z h lo hi =
    let (k, e, r) = current_period_window-kind period now w i.date h in
    let (s, t) = window-ok (first_day k now.date) (past_day k now.date) w r in
    let time = j.time in
    let low =
      subst (λ x. x ≤ to_ordinal later.date * day_micros + later.micros) s
        (rw (utc_instant later z) at lo) in
    let high =
      subst (λ x. to_ordinal later.date * day_micros + later.micros < x) t
        (rw (utc_instant later z) at hi) in
    let (f, g) = same_period k now.date later.date i.date j.date (omega arith) (omega arith) in
    rw (current_period_window_lem period later j.date, z, e, f, g) r

unfoldable pub period_days : Kind → Date → ℕ
period_days daily d = 1
period_days weekly d = 7
period_days monthly d = days_in_month d.year d.month

period_days_le : (k : Kind) (d : Date) → period_days k d ≤ 31
unfolding period_days
period_days_le daily d = omega arith
period_days_le weekly d = omega arith
period_days_le monthly d = (days_in_month_bounds d.year d.month).1

past_day-first_day : (k : Kind) (d : Date) → past_day k d ≡ first_day k d + period_days k d
unfolding first_day past_day period_days
past_day-first_day daily d = refl
past_day-first_day weekly d = refl
past_day-first_day monthly d = refl

-- A daily window has one day, a weekly one seven, and a monthly one the days of its month.
pub days_in_period_lem :
    (period : String) (now : Now) (w : PeriodWindow)
    → IsNow now
    → current_period_window period now ≡ ok w
    → (k : Kind) × (kind_of period ≡ some k) × (days_in_period w ≡ period_days k now.date)
unfolding days_in_period
days_in_period_lem period now w i h =
    let (k, e, r) = current_period_window-kind period now w i.date h in
    let (s, t) = window-ok (first_day k now.date) (past_day k now.date) w r in
    let p = past_day-first_day k now.date in (k, e, rw (s, t) (omega arith))

-- An aware instant of a known period before 9999-12-01 has a window.
pub window-total :
    (period : String) (k : Kind) (now : Now)
    → IsNow now
    → is_aware now.zone ≡ true
    → kind_of period ≡ some k
    → to_ordinal now.date + 31 ≤ max_ordinal
    → current_period_window period now
      ≡ ok (record {
        start = first_day k now.date * day_micros;
        end = past_day k now.date * day_micros;
      })
window-total period k now i aware e h =
    let (lo, hi) = day-in-period k now.date i.date in
    let p = past_day-first_day k now.date in
    let q = period_days_le k now.date in
    rw (current_period_window_lem period now i.date, aware, e)
      (window_lem (first_day k now.date) (past_day k now.date) (omega arith) (omega arith))
