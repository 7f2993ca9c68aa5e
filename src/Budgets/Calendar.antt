-- ===== src/Budgets/Calendar.antt =====
-- Python's proleptic Gregorian `date`, as budgets/period.py uses it: ordinals, weekdays and months.
use native.Mathlib.Decide.{dec_lt}
use native.Mathlib.Numerals.{add-one}
use vargate_telemetry.Base.{
  ℕ, zero, suc, ◌+◌, ◌-◌, ◌*◌, ◌/◌, ◌%◌, ◌≤◌, ◌<◌, ◌≡◌, refl, Bool, false, not, arith, ◌==◌, ◌&&◌,
  ◌||◌, if◌then◌else◌,
}

pub record Date : Type 0 where
  pub year : ℕ
  pub month : ℕ
  pub day : ℕ

unfoldable pub is_leap : ℕ → Bool
is_leap y = (y % 4 == 0) && (not (y % 100 == 0) || (y % 400 == 0))

unfoldable pub days_before_year : ℕ → ℕ
days_before_year y = (y - 1) * 365 + (y - 1) / 4 - (y - 1) / 100 + (y - 1) / 400

unfoldable pub days_in_month : ℕ → ℕ → ℕ
unfolding is_leap
days_in_month y m =
    if m == 2
    then if is_leap y then 29 else 28
    else if (m == 4) || ((m == 6) || ((m == 9) || (m == 11)))
    then 30
    else 31

-- The days of the year before month `m`; months count from 1.
unfoldable pub days_before_month : ℕ → ℕ → ℕ
unfolding days_in_month
days_before_month y zero = 0
days_before_month y (suc m) = if m == 0 then 0 else days_before_month y m + days_in_month y m

-- `date.toordinal`: 1 is 0001-01-01, a Monday.
unfoldable pub to_ordinal : Date → ℕ
to_ordinal d = days_before_year d.year + days_before_month d.year d.month + d.day

-- `date.weekday`: 0 is Monday.
unfoldable pub weekday : ℕ → ℕ
weekday ordinal = (ordinal + 6) % 7

pub record IsValid (d : Date) : Type 0 where
  pub year_pos : 0 < d.year
  pub month_pos : 0 < d.month
  pub month_le : d.month ≤ 12
  pub day_pos : 0 < d.day
  pub day_le : d.day ≤ days_in_month d.year d.month

-- The first day of a month, as an ordinal.
abbrev pub month_ordinal : ℕ → ℕ → ℕ
month_ordinal y m = days_before_year y + days_before_month y m + 1

pub days_in_month_bounds : (y m : ℕ) → (28 ≤ days_in_month y m) × (days_in_month y m ≤ 31)
unfolding days_in_month
days_in_month_bounds y m = ground arith

days_before_year-next :
    (y : ℕ)
    → 0 < y
    → days_before_year (y + 1) ≡ days_before_year y + 365 + (if is_leap y then 1 else 0)
unfolding days_before_year is_leap
days_before_year-next y h = ground arith

days_before_year_mono : (y z : ℕ) → 0 < y → y ≤ z → days_before_year y ≤ days_before_year z
unfolding days_before_year
days_before_year_mono y z h le = omega arith

days_before_month_clause :
    (y m : ℕ)
    → days_before_month y (suc m)
      ≡ (if m == 0 then 0 else days_before_month y m + days_in_month y m)
unfolding days_before_month
days_before_month_clause y m = refl

pos-==-zero : (m : ℕ) → 0 < m → (m == 0) ≡ false
pos-==-zero m h = ground arith

days_before_month-suc :
    (y m : ℕ) → 0 < m → days_before_month y (suc m) ≡ days_before_month y m + days_in_month y m
days_before_month-suc y m h = rw (days_before_month_clause y m, pos-==-zero m h)

days_before_month-next :
    (y m : ℕ) → 0 < m → days_before_month y (m + 1) ≡ days_before_month y m + days_in_month y m
days_before_month-next y zero h = elim h [ ]
days_before_month-next y (suc m) h = rw add-one (days_before_month-suc y (suc m) h)

days_before_month_mono : (y m n : ℕ) → 0 < m → m ≤ n → days_before_month y m ≤ days_before_month y n
days_before_month_mono y m zero h le = absurd (omega arith)
days_before_month_mono y m (suc n) h le = elim (dec_lt n m) [
  | yes p ↦ let e : m ≡ suc n = omega arith in rw e (omega arith)
  | no p ↦
      let below = days_before_month_mono y m n h (omega arith) in
      let step = days_before_month-suc y n (omega arith) in omega arith
]

days_in_year :
    (y : ℕ) → days_before_month y 12 + days_in_month y 12 ≡ 365 + (if is_leap y then 1 else 0)
unfolding days_before_month
days_in_year y = ground arith

-- The first of the next month, as an ordinal.
pub month_ordinal-next :
    (y m : ℕ) → 0 < m → month_ordinal y (m + 1) ≡ month_ordinal y m + days_in_month y m
month_ordinal-next y m h = let e = days_before_month-next y m h in omega arith

pub month_ordinal-next_year :
    (y : ℕ) → 0 < y → month_ordinal (y + 1) 1 ≡ month_ordinal y 12 + days_in_month y 12
month_ordinal-next_year y h =
    let a = days_before_year-next y h in
    let b = days_in_year y in
    let c : days_before_month (y + 1) 1 ≡ 0 = days_before_month_clause (y + 1) 0 in omega arith

-- A later month of the same year begins no sooner than this one ends.
pub month_ordinal_later :
    (y m n : ℕ) → 0 < m → m < n → month_ordinal y m + days_in_month y m ≤ month_ordinal y n
month_ordinal_later y m n h lt =
    let a = month_ordinal-next y m h in
    let b = days_before_month_mono y (m + 1) n (omega arith) (omega arith) in omega arith

month_ordinal-le-december :
    (y m : ℕ)
    → 0 < m
    → m ≤ 12
    → month_ordinal y m + days_in_month y m ≤ month_ordinal y 12 + days_in_month y 12
month_ordinal-le-december y m h le = elim (dec_lt m 12) [
  | yes p ↦ let a = month_ordinal_later y m 12 h p in omega arith
  | no p ↦ let e : m ≡ 12 = omega arith in rw e (omega arith)
]

-- A month of a later year begins no sooner than any of this year ends.
pub month_ordinal_later_year :
    (y m z n : ℕ)
    → 0 < y
    → 0 < m
    → m ≤ 12
    → y < z
    → 0 < n
    → month_ordinal y m + days_in_month y m ≤ month_ordinal z n
month_ordinal_later_year y m z n hy hm hm' lt hn =
    let last = month_ordinal-le-december y m hm hm' in
    let over = month_ordinal-next_year y hy in
    let c : days_before_month (y + 1) 1 ≡ 0 = days_before_month_clause (y + 1) 0 in
    let later = days_before_year_mono (y + 1) z (omega arith) (omega arith) in omega arith

pub to_ordinal-month : (d : Date) → to_ordinal d + 1 ≡ month_ordinal d.year d.month + d.day
unfolding to_ordinal
to_ordinal-month d = omega arith

-- Every date that the calendar has comes after ordinal zero.
pub to_ordinal-pos : (d : Date) → IsValid d → 0 < to_ordinal d
unfolding to_ordinal
to_ordinal-pos d v = let pos = v.day_pos in omega arith
