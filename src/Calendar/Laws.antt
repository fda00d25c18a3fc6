-- ===== src/Calendar/Laws.antt =====
-- `civil_from_days` of crates/rdt-types/src/timeutil.rs against the Gregorian calendar.
use remote_desktop_tool.Prelude.{
  ℕ, suc, ◌+◌, ◌-◌, ◌*◌, ◌/◌, ◌%◌, ◌≤◌, ◌<◌, ◌≡◌, ◌⊎◌, ◌∙◌, refl, sym, ap, ap₂, inl, inr, arith,
  Bool, true, false, not, ◌&&◌, ◌||◌, Bool-cases, ◌==◌, ltb, if◌then◌else◌,
}
use remote_desktop_tool.Calendar.{Date, year_of_era, day_of_year, from_march, civil_from_days}

-- The rules of the calendar.
abbrev pub is_leap : ℕ → Bool
is_leap y = y % 4 == 0 && (not (y % 100 == 0) || y % 400 == 0)

abbrev pub month_length : ℕ → ℕ → ℕ
month_length y m =
    if m == 2
    then (if is_leap y then 29 else 28)
    else if m == 4 || m == 6 || m == 9 || m == 11
    then 30
    else 31

abbrev pub tomorrow : Date → Date
tomorrow d =
    if ltb d.day (month_length d.year d.month)
    then record d { day = d.day + 1 }
    else if ltb d.month 12
    then record d { month = d.month + 1; day = 1 }
    else record { year = d.year + 1; month = 1; day = 1 }

-- The month of the day in a year that begins in March, counted from 0 for March.
abbrev mp_of : ℕ → ℕ
mp_of doy = (5 * doy + 2) / 153

abbrev day_of : ℕ → ℕ
day_of doy = doy - (153 * mp_of doy + 2) / 5 + 1

-- The length of that month; that of February, the last, is longer than needed.
abbrev march_length : ℕ → ℕ
march_length mp = if mp == 1 || mp == 3 || mp == 6 || mp == 8 then 30 else 31

month_step :
    (doy : ℕ)
    → doy < 364
    → ((mp_of (suc doy) ≡ mp_of doy)
        × (day_of (suc doy) ≡ day_of doy + 1)
        × (day_of doy < march_length (mp_of doy)))
      ⊎ ((mp_of (suc doy) ≡ mp_of doy + 1)
          × (day_of (suc doy) ≡ 1)
          × (day_of doy ≡ march_length (mp_of doy))
          × (mp_of doy < 11))
month_step doy h = ground arith

-- The day of the era splits into a year and a day of it.
yoe_bounds :
    (doe : ℕ)
    → doe < 146097
    → (year_of_era doe ≤ 399)
      × (365 * year_of_era doe + year_of_era doe / 4 - year_of_era doe / 100 ≤ doe)
      × (day_of_year doe (year_of_era doe) ≤ 365)
yoe_bounds doe h = (omega arith, omega arith, omega arith)

-- Within a year that begins in March, up to February 28.
from_march-tomorrow : (y doy : ℕ) → doy < 364 → from_march y (suc doy) ≡ tomorrow (from_march y doy)
from_march-tomorrow y doy h = ground (arith, month_step doy h)

-- From the last day of February.
from_march-last :
    (y doy : ℕ)
    → (is_leap (y + 1) ≡ true) × (doy ≡ 365) ⊎ (is_leap (y + 1) ≡ false) × (doy ≡ 364)
    → from_march (y + 1) 0 ≡ tomorrow (from_march y doy)
from_march-last y doy h = ground arith

from_march-leap : (y : ℕ) → is_leap (y + 1) ≡ true → from_march y 365 ≡ tomorrow (from_march y 364)
from_march-leap y h = ground arith

abbrev doy_of : ℕ → ℕ
doy_of doe = day_of_year doe (year_of_era doe)

-- The next day of an era: in the same year, which has 366 days if the year in which it ends is a
-- leap year, or the first day of the next.
year_step :
    (doe : ℕ)
    → doe < 146096
    → ((year_of_era (suc doe) ≡ year_of_era doe)
        × (doy_of (suc doe) ≡ doy_of doe + 1)
        × ((doy_of doe < 364) ⊎ ((doy_of doe ≡ 364) × (is_leap (year_of_era doe + 1) ≡ true))))
      ⊎ ((year_of_era (suc doe) ≡ year_of_era doe + 1)
          × (doy_of (suc doe) ≡ 0)
          × (((is_leap (year_of_era doe + 1) ≡ true) × (doy_of doe ≡ 365))
              ⊎ ((is_leap (year_of_era doe + 1) ≡ false) × (doy_of doe ≡ 364))))
year_step doe h = ground arith

is_leap-era : (y era : ℕ) → is_leap (y + era * 400 + 1) ≡ is_leap (y + 1)
is_leap-era y era = ground arith

-- The date of a day of an era.
abbrev in_era : ℕ → ℕ → Date
in_era era doe = from_march (year_of_era doe + era * 400) (doy_of doe)

in_era-tomorrow : (era doe : ℕ) → doe < 146096 → in_era era (suc doe) ≡ tomorrow (in_era era doe)
in_era-tomorrow era doe h =
    let y = year_of_era doe + era * 400 in
    let leap = is_leap-era (year_of_era doe) era in
    elim (year_step doe h) [
      | inl (same_year, next_day, inl early) ↦
          let next : doy_of (suc doe) ≡ suc (doy_of doe) = omega (arith, next_day) in
          ap₂ from_march (ap (λ n. n + era * 400) same_year) next
          ∙ from_march-tomorrow y (doy_of doe) early
      | inl (same_year, next_day, inr (late, leap_year)) ↦
          let next : doy_of (suc doe) ≡ 365 = omega (arith, next_day, late) in
          ap₂ from_march (ap (λ n. n + era * 400) same_year) next
          ∙ from_march-leap y (leap ∙ leap_year)
          ∙ ap (λ d. tomorrow (from_march y d)) (sym late)
      | inr (next_year, first, inl (leap_year, last)) ↦
          let new_year : year_of_era (suc doe) + era * 400 ≡ y + 1 = omega (arith, next_year) in
          ap₂ from_march new_year first
          ∙ from_march-last y (doy_of doe) (inl (leap ∙ leap_year, last))
      | inr (next_year, first, inr (plain_year, last)) ↦
          let new_year : year_of_era (suc doe) + era * 400 ≡ y + 1 = omega (arith, next_year) in
          ap₂ from_march new_year first
          ∙ from_march-last y (doy_of doe) (inr (leap ∙ plain_year, last))
    ]

-- The last day of an era is a February 29.
era-tomorrow : (era : ℕ) → in_era (era + 1) 0 ≡ tomorrow (in_era era 146096)
era-tomorrow era = ground arith

-- Days counted from 0000-03-01.
abbrev era_of : ℕ → ℕ
era_of z = z / 146097

abbrev day_in_era : ℕ → ℕ
day_in_era z = z - era_of z * 146097

next_in_era :
    (z : ℕ)
    → z % 146097 < 146096
    → in_era (era_of (z + 1)) (day_in_era (z + 1)) ≡ tomorrow (in_era (era_of z) (day_in_era z))
next_in_era z h =
    let same : era_of (z + 1) ≡ era_of z = omega arith in
    let next : day_in_era (z + 1) ≡ suc (day_in_era z) = omega arith in
    let early : day_in_era z < 146096 = omega arith in
    ap₂ in_era same next ∙ in_era-tomorrow (era_of z) (day_in_era z) early

next_era :
    (z : ℕ)
    → z % 146097 ≡ 146096
    → in_era (era_of (z + 1)) (day_in_era (z + 1)) ≡ tomorrow (in_era (era_of z) (day_in_era z))
next_era z h =
    let next : era_of (z + 1) ≡ era_of z + 1 = omega arith in
    let first : day_in_era (z + 1) ≡ 0 = omega arith in
    let last : 146096 ≡ day_in_era z = omega arith in
    ap₂ in_era next first ∙ era-tomorrow (era_of z) ∙ ap (λ d. tomorrow (in_era (era_of z) d)) last

-- Every day is followed by the next day of the Gregorian calendar, with its month lengths and leap
-- years, and day 0 is 1970-01-01.
pub civil_from_days-tomorrow :
    (days : ℕ)
    → (civil_from_days (days + 1) ≡ tomorrow (civil_from_days days))
      × (civil_from_days 0 ≡ record { year = 1970; month = 1; day = 1 })
unfolding civil_from_days
civil_from_days-tomorrow days =
    let z = days + 719468 in
    let shift : days + 1 + 719468 ≡ z + 1 = omega arith in
    let step = ap (λ n. in_era (era_of n) (day_in_era n)) shift in
    elim (Bool-cases (ltb (z % 146097) 146096)) [
      | inl inside ↦ (step ∙ next_in_era z (ground arith), refl)
      | inr last ↦ (step ∙ next_era z (ground arith), refl)
    ]
