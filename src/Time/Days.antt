-- ===== src/Time/Days.antt =====
-- crates/cluster-core/src/time.rs: the dates of the calendar are read back from their midnights.
use gavel.Shared.{
  ℕ, ◌+◌, ◌-◌, ◌*◌, ◌/◌, ◌%◌, ◌≤◌, ◌<◌, ◌≡◌, Bool, true, ◌==◌, not, ◌&&◌, ◌||◌, inl, inr, suc, refl,
  ◌⊎◌, ap, ◌∙◌, if◌then◌else◌, ltb, leb, arith,
}
use gavel.Time.Calendar.{
  UtcParts, days_before_year, days_before_month, year_of_era, day_of_year, month_index,
  from_utc_date, to_utc_parts,
}
use gavel.Time.Dates.{month_of, year_of}

-- The calendar: a leap year is one that 4 divides and 100 does not, or that 400 divides.
abbrev pub is_leap : ℕ → Bool
is_leap year = (year % 4 == 0 && not (year % 100 == 0)) || year % 400 == 0

-- The length of a month.
abbrev pub days_in_month : ℕ → ℕ → ℕ
days_in_month year month =
    if month == 2
    then (if is_leap year then 29 else 28)
    else if month == 4 || month == 6 || month == 9 || month == 11
    then 30
    else 31

-- How many months a month is after March.
abbrev march : ℕ → ℕ
march month = if ltb 2 month then month - 3 else month + 9

year_again :
    (yoe doy : ℕ)
    → yoe < 400
    → doy < 366
    → (doy < 365) ⊎ (is_leap (yoe + 1) ≡ true)
    → year_of_era (days_before_year yoe + doy) ≡ yoe
year_again yoe doy h k (inl l) = omega arith
year_again yoe doy h k (inr l) =
    let four : ((yoe + 1) % 4 ≡ 0) × ((((yoe + 1) % 100 ≡ 0) → ⊥) ⊎ ((yoe + 1) % 400 ≡ 0)) =
      ground arith in
    omega arith

month_again :
    (mp day : ℕ)
    → mp < 12
    → days_before_month mp + day < days_before_month (mp + 1)
    → month_index (days_before_month mp + day) ≡ mp
month_again mp day h k = omega arith

era_end :
    (yoe doy : ℕ)
    → yoe < 400
    → doy < 366
    → (doy < 365) ⊎ (is_leap (yoe + 1) ≡ true)
    → days_before_year yoe + doy < 146097
era_end yoe doy h k (inl l) = omega arith
era_end yoe doy h k (inr l) = omega arith

in_month :
    (y m d : ℕ)
    → 1 ≤ m
    → m ≤ 12
    → d < days_in_month y m
    → days_before_month (march m) + d < days_before_month (march m + 1)
in_month y m d h k l = ground arith

-- The parts of an instant from what `to_utc_parts` computes.
abbrev parts : ℕ → ℕ → ℕ → ℕ → ℕ → UtcParts
parts era yoe doy mp rem = record {
  year = year_of mp (yoe + era * 400);
  month = month_of mp;
  day = (doy - days_before_month mp) + 1;
  hour = rem / 3600;
  minute = (rem % 3600) / 60;
  second = rem % 60;
}

parts-cong :
    {era era' yoe yoe' doy doy' mp mp' rem rem' : ℕ}
    → era ≡ era'
    → yoe ≡ yoe'
    → doy ≡ doy'
    → mp ≡ mp'
    → rem ≡ rem'
    → parts era yoe doy mp rem ≡ parts era' yoe' doy' mp' rem'
parts-cong a b c d e = λ i. parts (a i) (b i) (c i) (d i) (e i)

-- The parts of a midnight whose day is counted in an era that begins in March.
to_utc_parts-march :
    (era yoe mp d days : ℕ)
    → yoe < 400
    → mp < 12
    → days_before_month mp + d < days_before_month (mp + 1)
    → days_before_month mp + d < 366
    → (days_before_month mp + d < 365) ⊎ (is_leap (yoe + 1) ≡ true)
    → days + 719468 ≡ era * 146097 + (days_before_year yoe + (days_before_month mp + d))
    → to_utc_parts (days * 86400000) ≡ record {
      year = year_of mp (yoe + era * 400);
      month = month_of mp;
      day = d + 1;
      hour = 0;
      minute = 0;
      second = 0;
    }
unfolding to_utc_parts
to_utc_parts-march era yoe mp d days h k l m n e =
    let doy = days_before_month mp + d in
    let a : days * 86400000 / 1000 / 86400 + 719468 ≡ era * 146097 + (days_before_year yoe + doy) =
      omega arith in
    let b : days * 86400000 / 1000 % 86400 ≡ 0 = omega arith in
    let within = era_end yoe doy h m n in
    let c : (era * 146097 + (days_before_year yoe + doy)) / 146097 ≡ era = omega arith in
    let f : (era * 146097 + (days_before_year yoe + doy)) % 146097 ≡ days_before_year yoe + doy =
      omega arith in
    let g = year_again yoe doy h m n in
    let day : day_of_year (days_before_year yoe + doy) ≡ doy =
      ap (λ y. (days_before_year yoe + doy) - days_before_year y) g ∙ omega arith in
    let doy_of = ap (λ z. day_of_year (z % 146097)) a ∙ ap day_of_year f ∙ day in
    let found : to_utc_parts (days * 86400000) ≡ parts era yoe doy mp 0 =
      parts-cong (ap (λ z. z / 146097) a ∙ c)
        (ap (λ z. year_of_era (z % 146097)) a ∙ ap year_of_era f ∙ g) doy_of
        (ap month_index doy_of ∙ month_again mp d k l) b in
    let of_month : doy - days_before_month mp + 1 ≡ d + 1 = omega arith in
    found
    ∙ ap
        (λ n. record {
          year = year_of mp (yoe + era * 400);
          month = month_of mp;
          day = n;
          hour = 0;
          minute = 0;
          second = 0;
        })
        of_month

march_lt : (m : ℕ) → 1 ≤ m → m ≤ 12 → march m < 12
march_lt m h k = ground arith

month_of-march : (m : ℕ) → 1 ≤ m → m ≤ 12 → month_of (march m) ≡ m
month_of-march m h k = ground arith

abbrev march_year : ℕ → ℕ → ℕ
march_year year month = if leb month 2 then year - 1 else year

year_of-march : (y m : ℕ) → 1 ≤ y → 1 ≤ m → m ≤ 12 → year_of (march m) (march_year y m) ≡ y
year_of-march y m h k l = ground arith

leap_again : (y : ℕ) → is_leap (y % 400 + 1) ≡ is_leap (y + 1)
leap_again y =
    let a : (y % 400 + 1) % 4 ≡ (y + 1) % 4 = omega arith in
    let b : (y % 400 + 1) % 100 ≡ (y + 1) % 100 = omega arith in
    let c : (y % 400 + 1) % 400 ≡ (y + 1) % 400 = omega arith in rw (a, b, c) refl

day_in_year :
    (y m d : ℕ)
    → 1 ≤ y
    → 1 ≤ m
    → m ≤ 12
    → d < days_in_month y m
    → (days_before_month (march m) + d < 366)
      × ((days_before_month (march m) + d < 365) ⊎ (is_leap (march_year y m + 1) ≡ true))
day_in_year y m d g h k l = ground arith

-- The days since 1970 of a date whose year begins in March, for a date from 1970 on.
abbrev days_since : ℕ → ℕ → ℕ → ℕ
days_since y mp d =
    ((y / 400) * 146097 + (days_before_year (y % 400) + (days_before_month mp + d))) - 719469

days_since-fits :
    (y mp d : ℕ)
    → y < 584000000
    → mp < 12
    → d ≤ 31
    → (days_since y mp d * 86400000) % 18446744073709551616 ≡ days_since y mp d * 86400000
days_since-fits y mp d h k l = omega arith

days_since-counted :
    (y mp d : ℕ)
    → 1 ≤ d
    → (1970 ≤ y) ⊎ ((y ≡ 1969) × (10 ≤ mp))
    → days_since y mp d + 719468
      ≡ (y / 400) * 146097 + (days_before_year (y % 400) + (days_before_month mp + (d - 1)))
days_since-counted y mp d h (inl k) = omega arith
days_since-counted y mp d h (inr (k, l)) = omega arith

month_le_31 : (y m d : ℕ) → d ≤ days_in_month y m → d ≤ 31
month_le_31 y m d h = ground arith

-- From 1970 on, in the years whose instants a u64 holds, a date of the calendar is what
-- `to_utc_parts` reads at its midnight, at 00:00:00.
pub from_utc_date-to_utc_parts :
    (y m d : ℕ)
    → 1970 ≤ y
    → y < 584000000
    → (1 ≤ m) × (m ≤ 12)
    → (1 ≤ d) × (d ≤ days_in_month y m)
    → to_utc_parts (from_utc_date y m d)
      ≡ record { year = y; month = m; day = d; hour = 0; minute = 0; second = 0 }
unfolding from_utc_date
from_utc_date-to_utc_parts y m d modern fits (m1, m12) (d1, in_time) =
    let y' = march_year y m in
    let yoe = y' % 400 in
    let bounds : (y' < 584000000) × ((1970 ≤ y') ⊎ ((y' ≡ 1969) × (10 ≤ march m))) = ground arith in
    let month = march_lt m m1 m12 in
    let d' : suc (d - 1) ≡ d = omega arith in
    let (of_year, leap) = day_in_year y m (d - 1) (omega arith) m1 m12 (omega arith) in
    let year : y' % 400 + (y' / 400) * 400 ≡ y' = omega arith in
    let of_year' : year_of (march m) (y' % 400 + (y' / 400) * 400) ≡ y =
      ap (λ n. year_of (march m) n) year ∙ year_of-march y m (omega arith) m1 m12 in
    let of_day : (d - 1) + 1 ≡ d = omega arith in
    let leap' : (days_before_month (march m) + (d - 1) < 365) ⊎ (is_leap (yoe + 1) ≡ true) =
      rw (leap_again y') leap in
    ap to_utc_parts (days_since-fits y' (march m) d bounds.0 month (month_le_31 y m d in_time))
    ∙ to_utc_parts-march (y' / 400) yoe (march m) (d - 1) (days_since y' (march m) d) (omega arith)
        month (in_month y m (d - 1) m1 m12 (omega arith)) of_year leap'
        (days_since-counted y' (march m) d d1 bounds.1)
    ∙ (λ i. record {
      year = of_year' i;
      month = month_of-march m m1 m12 i;
      day = of_day i;
      hour = 0;
      minute = 0;
      second = 0;
    })
