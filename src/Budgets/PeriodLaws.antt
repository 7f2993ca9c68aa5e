-- ===== src/Budgets/PeriodLaws.antt =====
-- The windows of budgets/period.py cut time into periods: each instant lies in its own window, and
-- all instants of a window have that window.
use vargate_telemetry.Base.{
  ℕ, ◌+◌, ◌<◌, ◌≡◌, arith, ◌==◌, String, str_eq, if◌then◌else◌, Bool-cases, ==_iff, inl, inr,
  Option, none, some,
}
use vargate_telemetry.Base.Result.{Result, err, value_error}
use vargate_telemetry.Budgets.Calendar.{
  Date, IsValid, to_ordinal, days_in_month, to_ordinal-month, month_ordinal, month_ordinal-next,
  month_ordinal-next_year,
}
use vargate_telemetry.Budgets.Period.{
  PeriodWindow, is_aware, Now, day_micros, start_of_month, start_of_next_month, start_of_iso_week,
  window, current_period_window,
}

-- The three literals of `Period`.
pub data Kind : Type 0 where
  daily weekly monthly : Kind

unfoldable pub kind_of : String → Option Kind
kind_of period =
    if str_eq period "daily"
    then some daily
    else if str_eq period "weekly"
    then some weekly
    else if str_eq period "monthly"
    then some monthly
    else none

-- The first day of the period of a date, and the first day after it, as ordinals.
unfoldable pub first_day : Kind → Date → ℕ
first_day daily d = to_ordinal d
first_day weekly d = start_of_iso_week (to_ordinal d)
first_day monthly d = month_ordinal d.year d.month

unfoldable pub past_day : Kind → Date → ℕ
past_day daily d = to_ordinal d + 1
past_day weekly d = start_of_iso_week (to_ordinal d) + 7
past_day monthly d = month_ordinal d.year d.month + days_in_month d.year d.month

-- A valid `now`: a date of the calendar and a time of the day.
pub record IsNow (now : Now) : Type 0 where
  pub date : IsValid now.date
  pub time : now.micros < day_micros

month_start : (d : Date) → to_ordinal (start_of_month d) ≡ month_ordinal d.year d.month
month_start d = let e = to_ordinal-month (start_of_month d) in omega arith

month_end :
    (d : Date)
    → IsValid d
    → to_ordinal (start_of_next_month d)
      ≡ month_ordinal d.year d.month + days_in_month d.year d.month
unfolding start_of_next_month
month_end d v = elim (Bool-cases (d.month == 12)) [
  | inl december ↦
      let m : d.month ≡ 12 = (==_iff d.month 12).0 december in
      let e = to_ordinal-month (record { year = d.year + 1; month = 1; day = 1 }) in
      let n = month_ordinal-next_year d.year v.year_pos in rw (december, m) (omega arith)
  | inr earlier ↦
      let e = to_ordinal-month (record { year = d.year; month = d.month + 1; day = 1 }) in
      let n = month_ordinal-next d.year d.month v.month_pos in rw earlier (omega arith)
]

abbrev pub window_of : Option Kind → Date → Result PeriodWindow
window_of none d = err value_error
window_of (some k) d = window (first_day k d) (past_day k d)

-- The function by the kind of the period; a naive `now` raises `ValueError`.
pub current_period_window_lem :
    (period : String) (now : Now)
    → IsValid now.date
    → current_period_window period now
      ≡ (if is_aware now.zone then window_of (kind_of period) now.date else err value_error)
unfolding current_period_window kind_of first_day past_day
current_period_window_lem period now v =
    rw (month_start now.date, month_end now.date v) (ground arith)
