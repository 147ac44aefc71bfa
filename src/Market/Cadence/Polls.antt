-- ===== src/Market/Cadence/Polls.antt =====
-- crates/app-core/src/market/realm.rs: what a run of requests makes of a realm's cadence.
use gavel.Shared.{
  ℕ, zero, suc, ◌+◌, ◌*◌, ◌≤◌, ◌≡◌, refl, ◌∙◌, ap, min, arith, List, [], ◌∷◌, u64_max, length,
}
use gavel.Time.{Millis, plus_ms}
use gavel.Market.Cadence.Defs.{
  RealmCadence, lower_bound, upper_bound, within_bounds, after_unchanged, after_activity,
  after_failure, quieter,
}

-- How a request ended.
pub data Poll : Type 0 where
  unchanged fresh failed : Poll

abbrev pub after : RealmCadence → Poll → Millis → ℕ → ℕ → RealmCadence
after c Poll.unchanged now lo hi = after_unchanged c now lo hi
after c Poll.fresh now lo hi = after_activity now lo hi
after c Poll.failed now lo hi = after_failure c now lo hi

-- A request after other requests.
abbrev pub run_polls : RealmCadence → List (Poll × Millis) → ℕ → ℕ → RealmCadence
run_polls c [] lo hi = c
run_polls c ((p, now) ∷ ps) lo hi = run_polls (after c p now lo hi) ps lo hi

after_bounds :
    (c : RealmCadence) (p : Poll) (now lo hi : ℕ)
    → lo ≤ u64_max
    → hi ≤ u64_max
    → (lower_bound lo ≤ (after c p now lo hi).interval_ms)
      × ((after c p now lo hi).interval_ms ≤ upper_bound lo hi)
      × ((after c p now lo hi).next_check_at ≡ plus_ms now (after c p now lo hi).interval_ms)
unfolding after_unchanged after_activity after_failure within_bounds
after_bounds c Poll.unchanged now lo hi a b = ground arith
after_bounds c Poll.fresh now lo hi a b = ground arith
after_bounds c Poll.failed now lo hi a b = ground arith

abbrev pub failures : List Millis → List (Poll × Millis)
failures [] = []
failures (t ∷ ts) = (Poll.failed, t) ∷ failures ts

-- `n` doublings that stop at a greatest interval.
abbrev pub doubled : ℕ → ℕ → ℕ → ℕ
doubled zero i top = i
doubled (suc n) i top = doubled n (min (i * 2) top) top

failed_interval :
    (c : RealmCadence) (now lo hi : ℕ)
    → lo ≤ u64_max
    → hi ≤ u64_max
    → lower_bound lo ≤ c.interval_ms
    → c.interval_ms ≤ upper_bound lo hi
    → (after_failure c now lo hi).interval_ms ≡ min (c.interval_ms * 2) (upper_bound lo hi)
unfolding after_failure within_bounds
failed_interval c now lo hi a b h k = ground arith

failures_double :
    (c : RealmCadence) (ts : List Millis) (lo hi : ℕ)
    → lo ≤ u64_max
    → hi ≤ u64_max
    → lower_bound lo ≤ c.interval_ms
    → c.interval_ms ≤ upper_bound lo hi
    → (run_polls c (failures ts) lo hi).interval_ms
      ≡ doubled (length ts) c.interval_ms (upper_bound lo hi)
failures_double c [] lo hi a b h k = refl
failures_double c (t ∷ ts) lo hi a b h k =
    let next = after_bounds c Poll.failed t lo hi a b in
    failures_double (after_failure c t lo hi) ts lo hi a b next.0 next.1
    ∙ ap (λ i. doubled (length ts) i (upper_bound lo hi)) (failed_interval c t lo hi a b h k)

quiet_steps :
    (interval lo hi : ℕ)
    → lo ≤ hi
    → hi ≤ u64_max
    → quieter (quieter (quieter interval lo hi) lo hi) lo hi ≡ hi
quiet_steps interval lo hi a b = ground arith

-- However a run of requests went, the next check of a realm comes within the bounds after the last of
-- them: not before the shortest interval, and no later than the longest, where the clock does not
-- reach the end of a u64.
pub run_polls_next :
    (c : RealmCadence) (ps : List (Poll × Millis)) (p : Poll) (now lo hi : ℕ)
    → lo ≤ u64_max
    → hi ≤ u64_max
    → now + upper_bound lo hi ≤ u64_max
    → let next = (after (run_polls c ps lo hi) p now lo hi).next_check_at in
      (now + lower_bound lo ≤ next) × (next ≤ now + upper_bound lo hi)
run_polls_next c ps p now lo hi a b fits =
    let (low, high, next) = after_bounds (run_polls c ps lo hi) p now lo hi a b in
    rw next (omega arith, omega arith)

-- Three requests that found nothing new take any cadence to the longest interval; a fresh snapshot
-- takes it to the shortest; and from there each failure doubles it up to the longest.
pub run_polls_back_off :
    (c : RealmCadence) (t u v now lo hi : ℕ) (ts : List Millis)
    → lo ≤ u64_max
    → hi ≤ u64_max
    → ((run_polls c
          ((Poll.unchanged, t) ∷ (Poll.unchanged, u) ∷ (Poll.unchanged, v) ∷ [])
          lo
          hi).interval_ms
        ≡ upper_bound lo hi)
      × ((after c Poll.fresh now lo hi).interval_ms ≡ lower_bound lo)
      × ((run_polls c ((Poll.fresh, now) ∷ failures ts) lo hi).interval_ms
          ≡ doubled (length ts) (lower_bound lo) (upper_bound lo hi))
unfolding after_unchanged after_activity
run_polls_back_off c t u v now lo hi ts a b = (
  quiet_steps c.interval_ms (lower_bound lo) (upper_bound lo hi) (omega arith) (omega arith),
  refl,
  failures_double (after_activity now lo hi) ts lo hi a b (omega arith) (omega arith),
)
