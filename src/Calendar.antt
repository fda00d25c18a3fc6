-- ===== src/Calendar.antt =====
-- The timestamps of crates/rdt-types/src/timeutil.rs. Days are counted from 1970-01-01 and are never
-- negative here, since they come from a `u64`, so `era` needs no rounding down.
pub mod Laws
pub mod Format
mod Tests
use remote_desktop_tool.Prelude.{ℕ, ◌+◌, ◌-◌, ◌*◌, ◌/◌, leb, ltb, if◌then◌else◌}

pub record Date : Type 0 where
  pub year : ℕ
  pub month : ℕ
  pub day : ℕ

-- The day of the year that begins in March, from the day of the era.
abbrev pub year_of_era : ℕ → ℕ
year_of_era doe = (doe - doe / 1460 + doe / 36524 - doe / 146096) / 365

abbrev pub day_of_year : ℕ → ℕ → ℕ
day_of_year doe yoe = doe - (365 * yoe + yoe / 4 - yoe / 100)

-- The date of a year that begins in March, from its day.
abbrev pub from_march : ℕ → ℕ → Date
from_march y doy =
    let mp = (5 * doy + 2) / 153 in
    let m = if ltb mp 10 then mp + 3 else mp - 9 in
    record { year = if leb m 2 then y + 1 else y; month = m; day = doy - (153 * mp + 2) / 5 + 1 }

unfoldable pub civil_from_days : ℕ → Date
civil_from_days days =
    let z = days + 719468 in
    let era = z / 146097 in
    let doe = z - era * 146097 in
    let yoe = year_of_era doe in from_march (yoe + era * 400) (day_of_year doe yoe)
