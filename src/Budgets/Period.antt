-- ===== src/Budgets/Period.antt =====
-- budgets/period.py: the half-open UTC window that a budget is in. An instant is a number of
-- microseconds, midnight of the day with ordinal `n` being `n` days.
use vargate_telemetry.Base.{
  ℕ, ◌+◌, ◌-◌, ◌*◌, ◌/◌, Bool, true, false, not, ◌==◌, leb, String, str_eq, if◌then◌else◌,
}
use vargate_telemetry.Base.Result.{Result, ok, err, value_error, failure, ◌>>=◌}
use vargate_telemetry.Budgets.Calendar.{Date, to_ordinal, weekday}

-- Microseconds of a day, and `date.max.toordinal()`.
abbrev pub day_micros : ℕ
day_micros = 86400000000

abbrev pub max_ordinal : ℕ
max_ordinal = 3652059

pub record PeriodWindow : Type 0 where
  pub start : ℕ
  pub end : ℕ

-- The `tzinfo` of a datetime: none, or an offset from UTC, in microseconds ahead of it and behind it.
pub data Zone : Type 0 where
  naive : Zone
  offset : ℕ → ℕ → Zone

abbrev pub utc_zone : Zone
utc_zone = offset 0 0

abbrev pub is_aware : Zone → Bool
is_aware naive = false
is_aware (offset ahead behind) = true

-- `now`: its date and the microseconds since midnight in its own zone, and the zone.
pub record Now : Type 0 where
  pub date : Date
  pub micros : ℕ
  pub zone : Zone

-- `_utc_midnight` of a date given by its ordinal; a day past 9999-12-31 is no date.
unfoldable pub utc_midnight : ℕ → Result ℕ
utc_midnight ordinal = if leb ordinal max_ordinal then ok (ordinal * day_micros) else err failure

abbrev pub start_of_month : Date → Date
start_of_month d = record { year = d.year; month = d.month; day = 1 }

unfoldable pub start_of_next_month : Date → Date
start_of_next_month d =
    if d.month == 12
    then record { year = d.year + 1; month = 1; day = 1 }
    else record { year = d.year; month = d.month + 1; day = 1 }

-- `_start_of_iso_week`, on ordinals.
unfoldable pub start_of_iso_week : ℕ → ℕ
unfolding weekday
start_of_iso_week ordinal = ordinal - weekday ordinal

unfoldable pub window : ℕ → ℕ → Result PeriodWindow
unfolding utc_midnight
window first last = do
  start ← utc_midnight first
  end ← utc_midnight last
  ok (record { start = start; end = end })

unfoldable pub current_period_window : String → Now → Result PeriodWindow
unfolding window start_of_next_month start_of_iso_week
current_period_window period now =
    let today = to_ordinal now.date in
    if not (is_aware now.zone)
    then err value_error
    else if str_eq period "daily"
    then window today (today + 1)
    else if str_eq period "weekly"
    then window (start_of_iso_week today) (start_of_iso_week today + 7)
    else if str_eq period "monthly"
    then window (to_ordinal (start_of_month now.date)) (to_ordinal (start_of_next_month now.date))
    else err value_error

-- `PeriodWindow.start_date`, as an ordinal, and `days_in_period`.
unfoldable pub start_date : PeriodWindow → ℕ
start_date w = w.start / day_micros

unfoldable pub days_in_period : PeriodWindow → ℕ
days_in_period w = (w.end - w.start) / day_micros

-- The instant of `now`; a naive one is read as UTC.
abbrev pub from_utc : Zone → ℕ → ℕ
from_utc naive t = t
from_utc (offset ahead behind) t = t + behind - ahead

unfoldable pub instant : Now → ℕ
instant now = from_utc now.zone (to_ordinal now.date * day_micros + now.micros)
