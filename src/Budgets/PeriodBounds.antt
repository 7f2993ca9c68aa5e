-- ===== src/Budgets/PeriodBounds.antt =====
-- Periods of budgets/period.py around a day: their bounds, and that periods which overlap are one.
use native.Mathlib.Decide.{dec_lt}
use vargate_telemetry.Base.{ℕ, ◌+◌, ◌*◌, ◌≤◌, ◌<◌, ◌≡◌, refl, arith, le→leb, subst}
use vargate_telemetry.Base.Result.{ok}
use vargate_telemetry.Budgets.Calendar.{
  Date, IsValid, to_ordinal, weekday, days_in_month, to_ordinal-month, to_ordinal-pos,
  month_ordinal, month_ordinal_later, month_ordinal_later_year,
}
use vargate_telemetry.Budgets.Period.{
  PeriodWindow, day_micros, max_ordinal, utc_midnight, start_of_iso_week, window,
}
use vargate_telemetry.Budgets.PeriodLaws.{Kind, daily, weekly, monthly, first_day, past_day}

-- The window between two midnights, when both are dates.
pub window_lem :
    (m n : ℕ)
    → m ≤ n
    → n ≤ max_ordinal
    → window m n ≡ ok (record { start = m * day_micros; end = n * day_micros })
unfolding window utc_midnight
window_lem m n le h = rw (le→leb m max_ordinal (omega arith), le→leb n max_ordinal h)

pub window-ok :
    (m n : ℕ) (w : PeriodWindow)
    → window m n ≡ ok w
    → (w.start ≡ m * day_micros) × (w.end ≡ n * day_micros)
unfolding window utc_midnight
window-ok m n w h = ground arith

-- The bounds of a period around its day.
pub day-in-period :
    (k : Kind) (d : Date)
    → IsValid d
    → (first_day k d ≤ to_ordinal d) × (to_ordinal d < past_day k d)
unfolding first_day past_day start_of_iso_week weekday
day-in-period daily d v = omega arith
day-in-period weekly d v = let p = to_ordinal-pos d v in omega arith
day-in-period monthly d v =
    let e = to_ordinal-month d in let lo = v.day_pos in let hi = v.day_le in omega arith

same_month_lem :
    (y m n : ℕ)
    → (m < n → month_ordinal y m + days_in_month y m ≤ month_ordinal y n)
    → (n < m → month_ordinal y n + days_in_month y n ≤ month_ordinal y m)
    → month_ordinal y m < month_ordinal y n + days_in_month y n
    → month_ordinal y n < month_ordinal y m + days_in_month y m
    → m ≡ n
same_month_lem y m n before after lo hi = elim (dec_lt m n) [
  | yes p ↦ let a = before p in absurd (omega arith)
  | no p ↦ elim (dec_lt n m) [
    | yes q ↦ let a = after q in absurd (omega arith)
    | no q ↦ omega arith
  ]
]

same_month :
    (d e : Date)
    → d.year ≡ e.year
    → 0 < d.month
    → 0 < e.month
    → month_ordinal d.year d.month < month_ordinal e.year e.month + days_in_month e.year e.month
    → month_ordinal e.year e.month < month_ordinal d.year d.month + days_in_month d.year d.month
    → d.month ≡ e.month
same_month d e y dm em lo hi =
    let before = month_ordinal_later e.year d.month e.month dm in
    let after = month_ordinal_later e.year e.month d.month em in
    same_month_lem e.year d.month e.month before after
      (subst
        (λ z. month_ordinal z d.month < month_ordinal e.year e.month + days_in_month e.year e.month)
        y lo)
      (subst (λ z. month_ordinal e.year e.month < month_ordinal z d.month + days_in_month z d.month)
        y hi)

-- Two months that overlap are one.
months_overlap :
    (d e : Date)
    → IsValid d
    → IsValid e
    → month_ordinal d.year d.month < month_ordinal e.year e.month + days_in_month e.year e.month
    → month_ordinal e.year e.month < month_ordinal d.year d.month + days_in_month d.year d.month
    → (d.year ≡ e.year) × (d.month ≡ e.month)
months_overlap d e v u lo hi =
    let (dy, ey) : (0 < d.year) × (0 < e.year) = (v.year_pos, u.year_pos) in
    let (dm, em) : (0 < d.month) × (0 < e.month) = (v.month_pos, u.month_pos) in
    let (dl, el) : (d.month ≤ 12) × (e.month ≤ 12) = (v.month_le, u.month_le) in
    elim (dec_lt d.year e.year) [
      | yes y ↦
          let a = month_ordinal_later_year d.year d.month e.year e.month dy dm dl y em in
          absurd (omega arith)
      | no y ↦ elim (dec_lt e.year d.year) [
        | yes z ↦
            let a = month_ordinal_later_year e.year e.month d.year d.month ey em el z dm in
            absurd (omega arith)
        | no z ↦ let same : d.year ≡ e.year = omega arith in (same, same_month d e same dm em lo hi)
      ]
    ]

months-agree :
    (d e : Date)
    → IsValid d
    → IsValid e
    → month_ordinal d.year d.month ≤ to_ordinal e
    → to_ordinal e < month_ordinal d.year d.month + days_in_month d.year d.month
    → (d.year ≡ e.year) × (d.month ≡ e.month)
months-agree d e v u lo hi =
    let p = to_ordinal-month e in
    let (ep, el) : (0 < e.day) × (e.day ≤ days_in_month e.year e.month) = (u.day_pos, u.day_le) in
    let (dy, ey) : (0 < d.year) × (0 < e.year) = (v.year_pos, u.year_pos) in
    let (dm, em) : (0 < d.month) × (0 < e.month) = (v.month_pos, u.month_pos) in
    let (dl, ml) : (d.month ≤ 12) × (e.month ≤ 12) = (v.month_le, u.month_le) in
    months_overlap d e v u (omega arith) (omega arith)

pub same_period :
    (k : Kind) (d e : Date)
    → IsValid d
    → IsValid e
    → first_day k d ≤ to_ordinal e
    → to_ordinal e < past_day k d
    → (first_day k e ≡ first_day k d) × (past_day k e ≡ past_day k d)
unfolding first_day past_day start_of_iso_week weekday
same_period daily d e v u lo hi = omega arith
same_period weekly d e v u lo hi =
    let p = to_ordinal-pos d v in let q = to_ordinal-pos e u in omega arith
same_period monthly d e v u lo hi =
    let (y, m) = months-agree d e v u lo hi in rw (y, m) (refl, refl)
