-- ===== src/Time/Dates.antt =====
-- crates/cluster-core/src/time.rs: the date and the time of day of an instant are its own.
use gavel.Shared.{
  ℕ, ◌+◌, ◌-◌, ◌*◌, ◌/◌, ◌%◌, ◌≤◌, ◌<◌, ◌≡◌, u64_max, refl, ap, ◌∙◌, if◌then◌else◌, ltb, leb, arith,
}
use gavel.Time.{Millis}
use gavel.Time.Calendar.{
  days_before_year, days_before_month, year_of_era, day_of_year, month_index, from_utc_date,
  to_utc_parts,
}

year_lt : (doe : ℕ) → doe < 146097 → year_of_era doe < 400
year_lt doe h = omega arith

year_le : (doe : ℕ) → doe < 146097 → days_before_year (year_of_era doe) ≤ doe
year_le doe h = omega arith

day_lt : (doe : ℕ) → doe < 146097 → day_of_year doe < 366
day_lt doe h = omega arith

month_le : (doy : ℕ) → days_before_month (month_index doy) ≤ doy
month_le doy = omega arith

day_le : (doy : ℕ) → doy < 366 → (doy - days_before_month (month_index doy)) + 1 ≤ 31
day_le doy h = omega arith

month_lt : (doy : ℕ) → doy < 366 → month_index doy < 12
month_lt doy h = omega arith

-- The month that is `mp` months after March, and the year it is in, for a year that begins in March.
abbrev pub month_of : ℕ → ℕ
month_of mp = if ltb mp 10 then mp + 3 else mp - 9

abbrev pub year_of : ℕ → ℕ → ℕ
year_of mp y = if leb (month_of mp) 2 then y + 1 else y

month_back :
    (mp : ℕ) → mp < 12 → (if ltb 2 (month_of mp) then month_of mp - 3 else month_of mp + 9) ≡ mp
month_back mp h = ground arith

year_back :
    (mp y : ℕ) → mp < 12 → (if leb (month_of mp) 2 then year_of mp y - 1 else year_of mp y) ≡ y
year_back mp y h = ground arith

month_of_range : (mp : ℕ) → mp < 12 → (1 ≤ month_of mp) × (month_of mp ≤ 12)
month_of_range mp h = ground arith

-- The day of a date that is written with a year of an era and a month that is counted from March.
from_utc_date-march :
    (era yoe mp day : ℕ)
    → yoe < 400
    → mp < 12
    → from_utc_date (year_of mp (yoe + era * 400)) (month_of mp) day
      ≡ (((era * 146097 + (days_before_year yoe + (days_before_month mp + day))) - 719469)
          * 86400000)
        % 18446744073709551616
unfolding from_utc_date
from_utc_date-march era yoe mp day h k =
    let e : (yoe + era * 400) / 400 ≡ era = omega arith in
    let f : (yoe + era * 400) % 400 ≡ yoe = omega arith in
    rw (month_back mp k, year_back mp (yoe + era * 400) k, e, f) refl

rejoin :
    (z a b : ℕ)
    → a ≤ z % 146097
    → b ≤ z % 146097 - a
    → (z / 146097) * 146097 + (a + (b + ((z % 146097 - a - b) + 1))) ≡ z + 1
rejoin z a b h k = omega arith

time_of_day : (r : ℕ) → ((r / 3600) * 60 + (r % 3600) / 60) * 60 + r % 60 ≡ r
time_of_day r = omega arith

-- The date of an instant, read back, is its midnight.
midnight :
    (t : Millis)
    → t ≤ u64_max
    → let p = to_utc_parts t in from_utc_date p.year p.month p.day ≡ (t / 1000 / 86400) * 86400000
unfolding to_utc_parts
midnight t small =
    let z = t / 1000 / 86400 + 719468 in
    let doe = z % 146097 in
    let doe_lt : doe < 146097 = omega arith in
    let yoe = year_of_era doe in
    let mp = month_index (day_of_year doe) in
    let whole =
      rejoin z (days_before_year yoe) (days_before_month mp) (year_le doe doe_lt)
        (month_le (day_of_year doe)) in
    from_utc_date-march (z / 146097) yoe mp ((day_of_year doe - days_before_month mp) + 1)
      (year_lt doe doe_lt) (month_lt (day_of_year doe) (day_lt doe doe_lt))
    ∙ ap (λ n. ((n - 719469) * 86400000) % 18446744073709551616) whole
    ∙ omega arith

-- The parts of an instant of a u64 are in their ranges, and the date and the time of day give the instant back
-- up to its milliseconds.
pub to_utc_parts_lem :
    (t : Millis)
    → t ≤ u64_max
    → let p = to_utc_parts t in
      ((1 ≤ p.month) × (p.month ≤ 12))
      × ((1 ≤ p.day) × (p.day ≤ 31))
      × ((p.hour < 24) × (p.minute < 60) × (p.second < 60))
      × (from_utc_date p.year p.month p.day
            + ((p.hour * 60 + p.minute) * 60 + p.second) * 1000
            + t % 1000
          ≡ t)
unfolding to_utc_parts from_utc_date
to_utc_parts_lem t small =
    let doe = (t / 1000 / 86400 + 719468) % 146097 in
    let doe_lt : doe < 146097 = omega arith in
    let doy_lt = day_lt doe doe_lt in
    (
      month_of_range (month_index (day_of_year doe)) (month_lt (day_of_year doe) doy_lt),
      (omega arith, day_le (day_of_year doe) doy_lt),
      (omega arith, omega arith, omega arith),
      rw (midnight t small, time_of_day (t / 1000 % 86400)) (omega arith),
    )
