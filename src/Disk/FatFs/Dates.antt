-- ===== src/Disk/FatFs/Dates.antt =====
-- ios/Disk/FatFS.cpp, `civil_from_days` and `get_fattime`: time stamps of files.
pub mod Calendar
pub mod Eras
pub mod Stamps
use saoirse.Prelude.{
  ℕ, zero, suc, ◌+◌, ◌-◌, ◌*◌, ◌/◌, ◌%◌, ◌^◌, ◌<◌, ◌≤◌, ◌≡◌, ◌≢◌, ◌∙◌, ◌⊎◌, inl, inr, arith, refl,
  sym, ap, subst, Bool, true, false, not, ◌&&◌, ◌||◌, leb, ltb, ◌==◌, if◌then◌else◌, Bool-cases,
  u32, add32, sub32,
}

pub record Date : Type 0 where
  pub year : ℕ
  pub month : ℕ
  pub day : ℕ

-- The year of a day of an era of 400 years, which start in March, and the day of that year.
unfoldable pub year_of_era : ℕ → ℕ
year_of_era doe = (doe - doe / 1460 + doe / 36524 - doe / 146096) / 365

unfoldable pub day_of_year : ℕ → ℕ
day_of_year doe = let yoe = year_of_era doe in doe - (365 * yoe + yoe / 4 - yoe / 100)

-- The month and the day of a day of a year.
unfoldable pub month_and_day : ℕ → ℕ → Date
month_and_day y doy =
    let mp = (5 * doy + 2) / 153 in
    let d = doy - (153 * mp + 2) / 5 + 1 in
    let m = if ltb mp 10 then mp + 3 else mp - 9 in
    record { year = y + (if leb m 2 then 1 else 0); month = m; day = d }

-- An s32, as its word, divided by the days of an era towards 0.
abbrev pub quotient : ℕ → ℕ
quotient v = if ltb v (2 ^ 31) then v / 146097 else u32 (2 ^ 32 - (2 ^ 32 - v) / 146097)

-- `civil_from_days` of an s32, which it takes and computes with as its word; the year is a word too.
unfoldable pub civil_from_days : ℕ → Date
civil_from_days days =
    let z = add32 days 719468 in
    let era = quotient (if ltb z (2 ^ 31) then z else sub32 z 146096) in
    let doe = sub32 z (u32 (era * 146097)) in
    let date = month_and_day (u32 (year_of_era doe + era * 400)) (day_of_year doe) in
    record date { year = u32 date.year }

-- `get_fattime`, with the seconds that `System::GetTime` gives: bit-fields from the highest bit down,
-- each cut to its width. The days are cut to an s32.
unfoldable pub get_fattime : ℕ → ℕ
get_fattime time64 =
    let time32 = u32 time64 in
    let date = civil_from_days (u32 (time64 / 86400)) in
    (date.year + 2 ^ 32 - 1980) % 2 ^ 7 * 2 ^ 25
    + date.month % 2 ^ 4 * 2 ^ 21
    + date.day % 2 ^ 5 * 2 ^ 16
    + time32 / 60 / 60 % 24 % 2 ^ 5 * 2 ^ 11
    + time32 / 60 % 60 % 2 ^ 6 * 2 ^ 5
    + time32 % 60 % 2 ^ 5
