-- ===== src/Time/Calendar.antt =====
-- crates/cluster-core/src/time.rs: dates and times of day in UTC. Years are counted from 0, and what
-- `i64` would make negative before the `max(0)` is subtracted last, so that ℕ stops it at 0 there.
use gavel.Shared.{ℕ, ◌+◌, ◌-◌, ◌*◌, ◌/◌, ◌%◌, if◌then◌else◌, ltb, leb}
use gavel.Time.{Millis}

-- The tuple that `to_utc_parts` returns.
pub record UtcParts : Type 0 where
  pub year : ℕ
  pub month : ℕ
  pub day : ℕ
  pub hour : ℕ
  pub minute : ℕ
  pub second : ℕ

-- The days of the first `yoe` years of an era of 400 years that begins on the first of March.
abbrev pub days_before_year : ℕ → ℕ
days_before_year yoe = (yoe * 365 + yoe / 4) - yoe / 100

-- The days of the first `mp` months of a year that begins in March.
abbrev pub days_before_month : ℕ → ℕ
days_before_month mp = (153 * mp + 2) / 5

abbrev pub year_of_era : ℕ → ℕ
year_of_era doe = (((doe - doe / 1460) + doe / 36524) - doe / 146096) / 365

abbrev pub day_of_year : ℕ → ℕ
day_of_year doe = doe - days_before_year (year_of_era doe)

abbrev pub month_index : ℕ → ℕ
month_index doy = (5 * doy + 2) / 153

-- `Millis::from_utc_date`.
unfoldable pub from_utc_date : ℕ → ℕ → ℕ → Millis
from_utc_date year month day =
    let y = if leb month 2 then year - 1 else year in
    let mp = if ltb 2 month then month - 3 else month + 9 in
    let doe_and_one = days_before_year (y % 400) + (days_before_month mp + day) in
    ((((y / 400) * 146097 + doe_and_one) - 719469) * 86400000) % 18446744073709551616

-- `Millis::to_utc_parts`.
unfoldable pub to_utc_parts : Millis → UtcParts
to_utc_parts self =
    let secs = self / 1000 in
    let rem = secs % 86400 in
    let z = secs / 86400 + 719468 in
    let doe = z % 146097 in
    let y = year_of_era doe + (z / 146097) * 400 in
    let doy = day_of_year doe in
    let mp = month_index doy in
    let m = if ltb mp 10 then mp + 3 else mp - 9 in
    record {
      year = if leb m 2 then y + 1 else y;
      month = m;
      day = (doy - days_before_month mp) + 1;
      hour = rem / 3600;
      minute = (rem % 3600) / 60;
      second = rem % 60;
    }
