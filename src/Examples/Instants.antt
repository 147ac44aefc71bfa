-- ===== src/Examples/Instants.antt =====
-- crates/cluster-core/src/time.rs: a date in a leap year, and an instant of it.
use gavel.Shared.{ℕ, ◌≡◌, refl, arith}
use gavel.Time.Calendar.{from_utc_date, to_utc_parts}
use gavel.Time.Days.{from_utc_date-to_utc_parts}

leap_day : from_utc_date 2024 2 29 ≡ 1709164800000
unfolding from_utc_date
leap_day = refl

-- A minute before midnight.
abbrev late : ℕ
late = 1709251140123

from_utc_date-to_utc_parts_example :
    to_utc_parts (from_utc_date 2024 2 29)
    ≡ record { year = 2024; month = 2; day = 29; hour = 0; minute = 0; second = 0 }
from_utc_date-to_utc_parts_example =
    from_utc_date-to_utc_parts 2024 2 29 (omega arith) (omega arith) (omega arith, omega arith)
      (omega arith, omega arith)
