-- ===== src/Disk/FatFs/Dates/Calendar.antt =====
-- The Gregorian calendar, and the months of `month_and_day` (ios/Disk/FatFS.cpp) against it.
use saoirse.Prelude.{
  ℕ, zero, suc, ◌+◌, ◌-◌, ◌*◌, ◌/◌, ◌%◌, ◌<◌, ◌≤◌, ◌≡◌, ◌∙◌, ◌⊎◌, inl, inr, arith, refl, sym, ap,
  Bool, true, false, not, ◌&&◌, ◌||◌, leb, ltb, ◌==◌, if◌then◌else◌,
}
use native.Mathlib.Decide.{dec_lt}
use saoirse.Disk.FatFs.Dates.{Date, month_and_day}

-- The Gregorian calendar.
abbrev pub is_leap : ℕ → Bool
is_leap y = y % 4 == 0 && (not (y % 100 == 0) || y % 400 == 0)

abbrev pub days_in_month : ℕ → ℕ → ℕ
days_in_month y m =
    if m == 2
    then (if is_leap y then 29 else 28)
    else if m == 4 || m == 6 || m == 9 || m == 11
    then 30
    else 31

abbrev pub next_day : Date → Date
next_day t =
    if ltb t.day (days_in_month t.year t.month)
    then record t { day = t.day + 1 }
    else if ltb t.month 12
    then record t { month = t.month + 1; day = 1 }
    else record { year = t.year + 1; month = 1; day = 1 }

-- The date so many days after 1 January 1970.
abbrev pub date_after : ℕ → Date
date_after zero = record { year = 1970; month = 1; day = 1 }
date_after (suc days) = next_day (date_after days)

abbrev pub first_day : ℕ → ℕ
first_day y = 365 * y + y / 4 - y / 100

abbrev pub year_length : ℕ → ℕ
year_length y = 365 + (if is_leap (y + 1) then 1 else 0)

-- The first day of a month that is counted from March, and its length.
abbrev month_start : ℕ → ℕ
month_start mp = (153 * mp + 2) / 5

pub month_bounds :
    (doy : ℕ)
    → doy < 366
    → (month_start ((5 * doy + 2) / 153) ≤ doy)
      × (doy < month_start ((5 * doy + 2) / 153 + 1))
      × ((5 * doy + 2) / 153 < 12)
month_bounds doy lt = (omega (arith, lt), omega (arith, lt), omega (arith, lt))

next_month :
    (doy mp mp' : ℕ)
    → month_start mp ≤ doy
    → doy < month_start (mp + 1)
    → month_start mp' ≤ doy + 1
    → doy + 1 < month_start (mp' + 1)
    → (mp' ≡ mp) ⊎ ((mp' ≡ mp + 1) × (doy + 1 ≡ month_start mp'))
next_month doy mp mp' low high low' high' = elim (dec_lt mp mp') [
  | yes later ↦
      inr
        (omega (arith, low, high, low', high', later), omega (arith, low, high, low', high', later))
  | no not_later ↦ inl (omega (arith, low, high, low', high', not_later))
]

-- The date of a day of a year, with its month known.
abbrev month_of : ℕ → ℕ
month_of mp = if ltb mp 10 then mp + 3 else mp - 9

abbrev calendar_year : ℕ → ℕ → ℕ
calendar_year y mp = y + (if leb (month_of mp) 2 then 1 else 0)

abbrev month_days : ℕ → ℕ → ℕ
month_days y mp = days_in_month (calendar_year y mp) (month_of mp)

abbrev date_of : ℕ → ℕ → ℕ → Date
date_of y mp d = record { year = calendar_year y mp; month = month_of mp; day = d }

-- The months but the last have the lengths that the calendar says, and the last one what is left.
month_length : (y mp : ℕ) → mp < 11 → month_start mp + month_days y mp ≡ month_start (mp + 1)
month_length y mp lt = ground (arith, lt)

last_month_length : (y mp : ℕ) → mp ≡ 11 → month_start mp + month_days y mp ≡ year_length y
last_month_length y mp e = ground (arith, e)

in_month :
    (y mp doy : ℕ)
    → mp < 12
    → doy + 1 < month_start (mp + 1)
    → doy + 1 < year_length y
    → doy + 1 < month_start mp + month_days y mp
in_month y mp doy below inside lt = elim (dec_lt mp 11) [
  | yes early ↦ omega (arith, month_length y mp early, inside)
  | no late ↦ omega (arith, last_month_length y mp (omega (arith, late, below)), lt)
]

next_day-same :
    (y mp d : ℕ) → d < month_days y mp → next_day (date_of y mp d) ≡ date_of y mp (d + 1)
next_day-same y mp d lt =
    let inside : ltb d (month_days y mp) ≡ true = ground (arith, lt) in rw inside refl

next_day-next :
    (y mp d : ℕ) → mp < 11 → d ≡ month_days y mp → next_day (date_of y mp d) ≡ date_of y (mp + 1) 1
next_day-next y mp d lt e =
    let over : ltb d (month_days y mp) ≡ false = ground (arith, e) in rw over (ground (arith, lt))

pub month_step :
    (y doy : ℕ)
    → doy + 1 < year_length y
    → month_and_day y (doy + 1) ≡ next_day (month_and_day y doy)
unfolding month_and_day
month_step y doy lt =
    let mp = (5 * doy + 2) / 153 in
    let mp' = (5 * (doy + 1) + 2) / 153 in
    let (low, high, below) = month_bounds doy (ground (arith, lt)) in
    let (low', high', below') = month_bounds (doy + 1) (ground (arith, lt)) in
    elim (next_month doy mp mp' low high low' high') [
      | inl same ↦
          let fits = in_month y mp doy below (omega (arith, high', same)) lt in
          let days : doy + 1 - month_start mp + 1 ≡ doy - month_start mp + 1 + 1 =
            omega (arith, same, low) in
          ap (λ m. date_of y m (doy + 1 - month_start m + 1)) same
          ∙ ap (date_of y mp) days
          ∙ sym (next_day-same y mp (doy - month_start mp + 1) (omega (arith, fits, low)))
      | inr (next, starts) ↦
          let full : doy - month_start mp + 1 ≡ month_days y mp =
            omega (arith, starts, next, low, month_length y mp (omega (arith, next, below'))) in
          let first : doy + 1 - month_start mp' + 1 ≡ 1 = omega (arith, starts) in
          ap (date_of y mp') first
          ∙ ap (λ m. date_of y m 1) next
          ∙ sym (next_day-next y mp (doy - month_start mp + 1) (omega (arith, next, below')) full)
    ]

pub month_last :
    (y doy : ℕ) → doy + 1 ≡ year_length y → month_and_day (y + 1) 0 ≡ next_day (month_and_day y doy)
unfolding month_and_day
month_last y doy lt = ground (arith, lt)
