-- ===== src/Disk/FatFs/Dates/Eras.antt =====
-- ios/Disk/FatFS.cpp, `civil_from_days`: the years and eras against the calendar.
use saoirse.Prelude.{
  ℕ, zero, suc, ◌+◌, ◌-◌, ◌*◌, ◌/◌, ◌%◌, ◌<◌, ◌≤◌, ◌≡◌, ◌∙◌, ◌⊎◌, inl, inr, arith, refl, sym, ap,
  subst, ◌^◌, ltb, u32, add32, sub32, if◌then◌else◌,
}
use native.Mathlib.Decide.{dec_lt}
use saoirse.Disk.FatFs.Dates.{
  quotient, Date, month_and_day, year_of_era, day_of_year, civil_from_days,
}
use saoirse.Disk.FatFs.Dates.Calendar.{
  is_leap, next_day, date_after, first_day, year_length, month_step, month_last,
}

year_low :
    (doe : ℕ)
    → doe < 146097
    → 365 * year_of_era doe + year_of_era doe / 4 - year_of_era doe / 100 ≤ doe
unfolding year_of_era
year_low doe lt = omega (arith, lt)

year_below : (doe : ℕ) → doe < 146097 → year_of_era doe < 400
unfolding year_of_era
year_below doe lt = omega (arith, lt)

year_high :
    (doe : ℕ)
    → doe < 146097
    → doe
      < 365 * year_of_era doe
        + year_of_era doe / 4
        - year_of_era doe / 100
        + 365
        + (if is_leap (year_of_era doe + 1) then 1 else 0)
unfolding year_of_era
year_high doe lt = ground (arith, lt)

first_day-next : (y : ℕ) → y < 399 → first_day (y + 1) ≡ first_day y + year_length y
first_day-next y lt = ground (arith, lt)

pub year_high' :
    (doe : ℕ) → doe < 146097 → doe < first_day (year_of_era doe) + year_length (year_of_era doe)
year_high' doe lt = omega (arith, year_high doe lt)

-- A multiple of 400 years changes no leap year.
year_length-add : (y years : ℕ) → years % 400 ≡ 0 → year_length (y + years) ≡ year_length y
year_length-add y years whole = ground (arith, whole)

next_year :
    (doe y y' : ℕ)
    → first_day y ≤ doe
    → doe < first_day y + year_length y
    → first_day y' ≤ doe + 1
    → doe + 1 < first_day y' + year_length y'
    → y < 400
    → y' < 400
    → (y' ≡ y) ⊎ ((y' ≡ y + 1) × (doe + 1 ≡ first_day y') × (doe + 1 ≡ first_day y + year_length y))
next_year doe y y' low high low' high' below below' = elim (dec_lt y y') [
  | yes later ↦
      let next = first_day-next y (omega (arith, later, below')) in
      let reached : doe + 1 ≡ first_day (y + 1) = omega (arith, next, high, low', later) in
      let same : y' ≡ y + 1 = omega (arith, reached, low', later) in
      inr (same, reached ∙ ap first_day (sym same), reached ∙ next)
  | no not_later ↦ inl (elim (dec_lt y' y) [
    | yes earlier ↦
        let next = first_day-next y' (omega (arith, earlier, below)) in
        absurd (omega (arith, next, high', low, earlier))
    | no not_earlier ↦ omega (arith, not_later, not_earlier)
  ])
]

era_step :
    (years doe : ℕ)
    → years % 400 ≡ 0
    → doe + 1 < 146097
    → month_and_day (year_of_era (doe + 1) + years) (day_of_year (doe + 1))
      ≡ next_day (month_and_day (year_of_era doe + years) (day_of_year doe))
unfolding day_of_year
era_step years doe whole inside =
    let y = year_of_era doe in
    let y' = year_of_era (doe + 1) in
    let lt : doe < 146097 = omega (arith, inside) in
    let low = year_low doe lt in
    let low' = year_low (doe + 1) inside in
    elim (next_year doe y y' low (year_high' doe lt) low' (year_high' (doe + 1) inside)
      (year_below doe lt) (year_below (doe + 1) inside)) [
        | inl same ↦
            let length : year_length (y + years) ≡ year_length y = year_length-add y years whole in
            let high' = year_high' (doe + 1) inside in
            let day : doe + 1 - first_day y' ≡ doe - first_day y + 1 =
              ap (λ v. doe + 1 - first_day v) same ∙ omega (arith, low) in
            let reached : doe + 1 < first_day y + year_length y =
              subst (λ v. doe + 1 < first_day v + year_length v) same high' in
            ap (λ v. month_and_day (v + years) (doe + 1 - first_day y')) same
            ∙ ap (month_and_day (y + years)) day
            ∙ month_step (y + years) (doe - first_day y) (omega (arith, length, reached, low))
        | inr (next, starts, ends) ↦
            let length : year_length (y + years) ≡ year_length y = year_length-add y years whole in
            let day : doe + 1 - first_day y' ≡ 0 = omega (arith, starts) in
            let year : y' + years ≡ y + years + 1 = omega (arith, next) in
            ap (λ v. month_and_day v (doe + 1 - first_day y')) year
            ∙ ap (month_and_day (y + years + 1)) day
            ∙ month_last (y + years) (doe - first_day y) (omega (arith, length, ends, low))
      ]

-- The last day of an era.
era_last :
    (years : ℕ)
    → years % 400 ≡ 0
    → month_and_day (years + 400) 0 ≡ next_day (month_and_day (399 + years) 365)
era_last years whole =
    let length : year_length (399 + years) ≡ year_length 399 = year_length-add 399 years whole in
    let year : years + 400 ≡ 399 + years + 1 = omega arith in
    ap (λ v. month_and_day v 0) year ∙ month_last (399 + years) 365 (omega (arith, length))

-- A day of an era.
abbrev in_era : ℕ → ℕ → Date
in_era era doe = month_and_day (year_of_era doe + era * 400) (day_of_year doe)

next_era : (era : ℕ) → in_era (era + 1) 0 ≡ next_day (in_era era 146096)
unfolding year_of_era day_of_year
next_era era =
    let years : 0 + (era + 1) * 400 ≡ era * 400 + 400 = omega arith in
    ap (λ v. month_and_day v 0) years ∙ era_last (era * 400) (omega arith)

-- The date of a day from 1970 on, without bounds.
unfoldable pub day_in_eras : ℕ → Date
day_in_eras days =
    let z = days + 719468 in let era = z / 146097 in let doe = z - era * 146097 in in_era era doe

day_in_eras-next : (days : ℕ) → day_in_eras (days + 1) ≡ next_day (day_in_eras days)
unfolding day_in_eras
day_in_eras-next days =
    let z = days + 719468 in
    let z' = days + 1 + 719468 in
    let era = z / 146097 in
    let doe = z - era * 146097 in
    let doe' = z' - z' / 146097 * 146097 in
    elim (dec_lt (doe + 1) 146097) [
      | yes inside ↦
          let same : z' / 146097 ≡ era = omega (arith, inside) in
          let day : doe' ≡ doe + 1 = omega (arith, inside) in
          ap (λ e. in_era e doe') same
          ∙ ap (in_era era) day
          ∙ era_step (era * 400) doe (omega arith) inside
      | no over ↦
          let next : z' / 146097 ≡ era + 1 = omega (arith, over) in
          let day : doe' ≡ 0 = omega (arith, over) in
          let final : doe ≡ 146096 = omega (arith, over) in
          ap (λ e. in_era e doe') next
          ∙ ap (in_era (era + 1)) day
          ∙ next_era era
          ∙ ap (λ d. next_day (in_era era d)) (sym final)
    ]

day_in_eras-date_after : (days : ℕ) → day_in_eras days ≡ date_after days
unfolding day_in_eras month_and_day year_of_era day_of_year
day_in_eras-date_after zero = refl
day_in_eras-date_after (suc days) =
    let later : suc days ≡ days + 1 = omega arith in
    ap day_in_eras later ∙ day_in_eras-next days ∙ ap next_day (day_in_eras-date_after days)

year_in_word :
    (y doy : ℕ)
    → y < 2 ^ 31
    → (let date = month_and_day (u32 y) doy in record date { year = u32 date.year })
      ≡ month_and_day y doy
unfolding month_and_day
year_in_word y doy small = ground (arith, small)

-- Where the days leave room in an s32, no step wraps.
pub civil_from_days-in_eras :
    (days : ℕ) → days + 719468 < 2 ^ 31 → civil_from_days days ≡ day_in_eras days
unfolding civil_from_days day_in_eras
civil_from_days-in_eras days small =
    let z = days + 719468 in
    let era = z / 146097 in
    let doe = z - era * 146097 in
    let no_wrap : add32 days 719468 ≡ z = omega (arith, small) in
    let eras : quotient (if ltb z (2 ^ 31) then z else sub32 z 146096) ≡ era =
      ground (arith, small) in
    let day : sub32 z (u32 (era * 146097)) ≡ doe = omega (arith, small) in
    let year : year_of_era doe + era * 400 < 2 ^ 31 =
      omega (arith, year_below doe (omega arith), small) in
    rw no_wrap
      (rw eras (rw day (year_in_word (year_of_era doe + era * 400) (day_of_year doe) year)))

-- For the days from 1 January 1970 on that leave room for 719468 more in an s32, `civil_from_days`
-- gives the date that counting on day by day reaches, by the lengths of the months and the leap years
-- of the Gregorian calendar.
pub civil_from_days_exact :
    (days : ℕ) → days + 719468 < 2 ^ 31 → civil_from_days days ≡ date_after days
civil_from_days_exact days small = civil_from_days-in_eras days small ∙ day_in_eras-date_after days
