-- ===== src/Market/Cadence/Defs.antt =====
-- crates/app-core/src/market/realm.rs, `RealmCadence`.
use gavel.Shared.{ℕ, ◌*◌, min, max, Bool, leb, ltb, if◌then◌else◌, u64_max, saturating_sub}
use gavel.Time.{Millis, plus_ms}

pub record RealmCadence : Type 0 where
  pub interval_ms : ℕ
  pub next_check_at : Millis

-- `saturating_mul`.
abbrev pub saturating_mul : ℕ → ℕ → ℕ
saturating_mul a b = min (a * b) u64_max

-- `clamp`, which needs `lo ≤ hi`.
abbrev pub clamp : ℕ → ℕ → ℕ → ℕ
clamp x lo hi = if ltb x lo then lo else if ltb hi x then hi else x

-- The two results of `bounds`.
abbrev pub lower_bound : ℕ → ℕ
lower_bound minimum_ms = max minimum_ms 1

abbrev pub upper_bound : ℕ → ℕ → ℕ
upper_bound minimum_ms maximum_ms = max maximum_ms (lower_bound minimum_ms)

-- `RealmCadence::new`.
abbrev pub new_cadence : Millis → ℕ → RealmCadence
new_cadence now minimum_ms = record { interval_ms = minimum_ms; next_check_at = now }

abbrev pub is_due : RealmCadence → Millis → Bool
is_due self now = leb self.next_check_at now

unfoldable pub within_bounds : RealmCadence → ℕ → ℕ → RealmCadence
within_bounds self minimum_ms maximum_ms =
    let checked_at = saturating_sub self.next_check_at (max self.interval_ms 1) in
    let interval_ms =
      clamp self.interval_ms (lower_bound minimum_ms) (upper_bound minimum_ms maximum_ms) in
    record { interval_ms = interval_ms; next_check_at = plus_ms checked_at interval_ms }

-- The ladder of `after_unchanged`.
abbrev pub quieter : ℕ → ℕ → ℕ → ℕ
quieter interval lo hi =
    let five = min (saturating_mul lo 5) hi in
    let fifteen = min (saturating_mul lo 15) hi in
    if ltb interval five then five else if ltb interval fifteen then fifteen else hi

unfoldable pub after_unchanged : RealmCadence → Millis → ℕ → ℕ → RealmCadence
after_unchanged self now minimum_ms maximum_ms =
    let interval_ms =
      quieter self.interval_ms (lower_bound minimum_ms) (upper_bound minimum_ms maximum_ms) in
    record { interval_ms = interval_ms; next_check_at = plus_ms now interval_ms }

unfoldable pub after_activity : Millis → ℕ → ℕ → RealmCadence
after_activity now minimum_ms maximum_ms =
    let interval_ms = lower_bound minimum_ms in
    record { interval_ms = interval_ms; next_check_at = plus_ms now interval_ms }

unfoldable pub after_failure : RealmCadence → Millis → ℕ → ℕ → RealmCadence
after_failure self now minimum_ms maximum_ms =
    let hi = upper_bound minimum_ms maximum_ms in
    let current = within_bounds self minimum_ms hi in
    let interval_ms = min (saturating_mul current.interval_ms 2) hi in
    record { interval_ms = interval_ms; next_check_at = plus_ms now interval_ms }
