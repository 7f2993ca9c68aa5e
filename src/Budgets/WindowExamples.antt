-- ===== src/Budgets/WindowExamples.antt =====
-- Windows around 2026-05-13, a Wednesday.
use vargate_telemetry.Base.{◌+◌, ◌≤◌, ◌<◌, ◌≡◌, refl, some, arith}
use vargate_telemetry.Base.Result.{ok}
use vargate_telemetry.Budgets.Calendar.{
  to_ordinal, days_in_month, days_before_year, days_before_month,
}
use vargate_telemetry.Budgets.Period.{
  utc_zone, offset, Now, PeriodWindow, max_ordinal, current_period_window, instant,
}
use vargate_telemetry.Budgets.PeriodLaws.{monthly, kind_of, IsNow}
use vargate_telemetry.Budgets.Windows.{window-contains, window-stable}

abbrev pub wednesday : Now
wednesday = record {
  date = record { year = 2026; month = 5; day = 13 };
  micros = 36000000000;
  zone = utc_zone;
}

abbrev saturday : Now
saturday = record {
  date = record { year = 2026; month = 5; day = 16 };
  micros = 0;
  zone = utc_zone;
}

wednesday-IsNow : IsNow wednesday
unfolding days_in_month
wednesday-IsNow = record {
  date = record {
    year_pos = omega arith;
    month_pos = omega arith;
    month_le = omega arith;
    day_pos = omega arith;
    day_le = omega arith;
  };
  time = omega arith;
}

saturday-IsNow : IsNow saturday
unfolding days_in_month
saturday-IsNow = record {
  date = record {
    year_pos = omega arith;
    month_pos = omega arith;
    month_le = omega arith;
    day_pos = omega arith;
    day_le = omega arith;
  };
  time = omega arith;
}

-- From Monday the 11th to Monday the 18th.
abbrev week : PeriodWindow
week = record { start = 63914140800000000; end = 63914745600000000 }

week_of_wednesday : current_period_window "weekly" wednesday ≡ ok week
unfolding current_period_window to_ordinal days_before_year days_before_month
week_of_wednesday = refl

window-contains_example : (week.start ≤ instant wednesday) × (instant wednesday < week.end)
window-contains_example =
    window-contains "weekly" wednesday week wednesday-IsNow refl week_of_wednesday

week_has_saturday : (week.start ≤ instant saturday) × (instant saturday < week.end)
unfolding instant to_ordinal days_before_year days_before_month
week_has_saturday = (omega arith, omega arith)

window-stable_example : current_period_window "weekly" saturday ≡ ok week
window-stable_example =
    window-stable "weekly" wednesday saturday week wednesday-IsNow saturday-IsNow refl refl
      week_of_wednesday week_has_saturday.0 week_has_saturday.1

-- 23:00 of that day five hours behind UTC is in the next day of UTC, but gets the window of its own.
abbrev evening : Now
evening = record {
  date = record { year = 2026; month = 5; day = 13 };
  micros = 82800000000;
  zone = offset 0 18000000000;
}

abbrev wednesday_only : PeriodWindow
wednesday_only = record { start = 63914313600000000; end = 63914400000000000 }

evening_outside :
    (current_period_window "daily" evening ≡ ok wednesday_only)
    × (wednesday_only.end ≤ instant evening)
unfolding current_period_window instant to_ordinal days_before_year days_before_month
evening_outside = (refl, omega arith)

monthly_kind : kind_of "monthly" ≡ some monthly
unfolding kind_of
monthly_kind = refl

is_early : to_ordinal wednesday.date + 31 ≤ max_ordinal
unfolding to_ordinal days_before_year days_before_month
is_early = omega arith
