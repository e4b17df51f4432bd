-- ===== src/Disk/FatFs/Dates/Stamps.antt =====
-- ios/Disk/FatFS.cpp, `get_fattime`: the fields of a time stamp.
use saoirse.Prelude.{ℕ, ◌+◌, ◌-◌, ◌*◌, ◌/◌, ◌%◌, ◌^◌, ◌<◌, ◌≤◌, ◌≡◌, arith, sym, ap, subst, u32}
use saoirse.Disk.FatFs.Dates.{
  Date, month_and_day, year_of_era, day_of_year, civil_from_days, get_fattime,
}
use saoirse.Disk.FatFs.Dates.Eras.{year_high', day_in_eras, civil_from_days-in_eras}

day_bounds :
    (y doy : ℕ)
    → doy < 366
    → ((month_and_day y doy).month < 2 ^ 4) × ((month_and_day y doy).day < 2 ^ 5)
unfolding month_and_day
day_bounds y doy lt = (ground (arith, lt), omega (arith, lt))

day_of_year_below : (doe : ℕ) → doe < 146097 → day_of_year doe < 366
unfolding day_of_year
day_of_year_below doe lt = ground (arith, year_high' doe lt)

era_bounds : (days : ℕ) → ((day_in_eras days).month < 2 ^ 4) × ((day_in_eras days).day < 2 ^ 5)
unfolding day_in_eras
era_bounds days =
    let z = days + 719468 in
    let doe = z - z / 146097 * 146097 in
    day_bounds (year_of_era doe + z / 146097 * 400) (day_of_year doe)
      (day_of_year_below doe (omega arith))

civil_bounds :
    (days : ℕ)
    → days + 719468 < 2 ^ 31
    → ((civil_from_days days).month < 2 ^ 4) × ((civil_from_days days).day < 2 ^ 5)
civil_bounds days small =
    subst (λ (d : Date). (d.month < 2 ^ 4) × (d.day < 2 ^ 5))
      (sym (civil_from_days-in_eras days small)) (era_bounds days)

-- Six fields of 7, 4, 5, 5, 6 and 5 bits, taken from their word.
fields :
    (y m d h i s : ℕ)
    → y < 2 ^ 7
    → m < 2 ^ 4
    → d < 2 ^ 5
    → h < 2 ^ 5
    → i < 2 ^ 6
    → s < 2 ^ 5
    → (t : ℕ) → t ≡ y * 2 ^ 25 + m * 2 ^ 21 + d * 2 ^ 16 + h * 2 ^ 11 + i * 2 ^ 5 + s
    → (t / 2 ^ 25 ≡ y)
      × (t / 2 ^ 21 % 2 ^ 4 ≡ m)
      × (t / 2 ^ 16 % 2 ^ 5 ≡ d)
      × (t / 2 ^ 11 % 2 ^ 5 ≡ h)
      × (t / 2 ^ 5 % 2 ^ 6 ≡ i)
      × (t % 2 ^ 5 ≡ s)
fields y m d h i s yb mb db hb ib sb t e =
    (omega arith, omega arith, omega arith, omega arith, omega arith, omega arith)

-- Until the seconds of the clock need more than 32 bits, the stamp of a year from 1980 to 2107 reads
-- back, by the layout of FAT, as the date that `civil_from_days` gives and the hour and the minute of
-- the clock. Its last field holds the second of the clock less 32 from second 32 on, where FAT has
-- half of the second.
pub get_fattime_decodes :
    (time : ℕ)
    → time < 2 ^ 32
    → 1980 ≤ (civil_from_days (time / 86400)).year
    → (civil_from_days (time / 86400)).year < 1980 + 2 ^ 7
    → (1980 + get_fattime time / 2 ^ 25 ≡ (civil_from_days (time / 86400)).year)
      × (get_fattime time / 2 ^ 21 % 2 ^ 4 ≡ (civil_from_days (time / 86400)).month)
      × (get_fattime time / 2 ^ 16 % 2 ^ 5 ≡ (civil_from_days (time / 86400)).day)
      × (get_fattime time / 2 ^ 11 % 2 ^ 5 ≡ time % 86400 / 3600)
      × (get_fattime time / 2 ^ 5 % 2 ^ 6 ≡ time % 3600 / 60)
      × (get_fattime time % 2 ^ 5 ≡ time % 60 % 32)
unfolding get_fattime
get_fattime_decodes time small from upto =
    let date = civil_from_days (time / 86400) in
    let (month, day) = civil_bounds (time / 86400) (omega (arith, small)) in
    let days : u32 (time / 86400) ≡ time / 86400 = omega (arith, small) in
    let same : civil_from_days (u32 (time / 86400)) ≡ date = ap civil_from_days days in
    let year_field : (date.year + 2 ^ 32 - 1980) % 2 ^ 7 ≡ date.year - 1980 =
      omega (arith, from, upto) in
    let (y, m, d, h, i, s) =
      fields (date.year - 1980) date.month date.day (time / 60 / 60 % 24) (time / 60 % 60)
        (time % 60 % 32) (omega (arith, from, upto)) month day (omega arith) (omega arith)
        (omega arith) (get_fattime time) (rw same (omega (arith, year_field, month, day, small))) in
    (omega (arith, y, from), m, d, omega (arith, h), omega (arith, i), s)
