-- ===== src/Time.antt =====
-- crates/cluster-core/src/time.rs: `Millis`, milliseconds since the Unix epoch in a u64. The
-- clock is a parameter of what reads it: each handler takes the instant at which it runs.
pub mod Calendar
pub mod Dates
pub mod Days
use gavel.Shared.{ℕ, saturating_add, saturating_sub, u64_max}

abbrev pub Millis : Type 0
Millis = ℕ

-- `Millis::since`.
abbrev pub since : Millis → Millis → ℕ
since self earlier = saturating_sub self earlier

-- `Millis::plus_ms`.
abbrev pub plus_ms : Millis → ℕ → Millis
plus_ms self ms = saturating_add u64_max self ms
