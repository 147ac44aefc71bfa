-- ===== src/Market/Event/Resets.antt =====
-- crates/app-core/src/market/event.rs: the weekly resets of a region in a window.
use gavel.Shared.{
  ℕ, zero, suc, ◌+◌, ◌-◌, ◌*◌, ◌/◌, ◌%◌, ◌≤◌, ◌<◌, ◌≡◌, refl, ap, ◌∙◌, ◌↔◌, inl, inr, some, List,
  [], ◌∷◌, ◌++◌, map, In, ltb→lt, arith, ltb, Bool-cases, false,
}
use mathlib.Core.List.{append_assoc, append-nil}
use gavel.Time.{Millis}
use gavel.Time.Calendar.{from_utc_date}
use gavel.Market.Event.Defs.{
  MarketEvent, ResetRule, weekday, day_ms, week_ms, first_at_or_after, reset_event, reset_loop,
  events,
}

-- The start of Monday, 5 January 1970.
abbrev first_monday : Millis
first_monday = 345600000

from_utc_date-first_monday : from_utc_date 1970 1 5 ≡ first_monday
unfolding from_utc_date
from_utc_date-first_monday = refl

-- The instant is a whole number of weeks after the rule's hour of the rule's day, counted from
-- Monday, of the week before that of 5 January 1970.
abbrev pub IsReset : ResetRule → Millis → Type 0
IsReset rule at =
    (weeks : ℕ) × (at + 604800000
      ≡ first_monday + rule.weekday * 86400000 + rule.hour_utc * 3600000 + weeks * 604800000)

-- The weekday and the hour of an instant, as the code computes them, are those of a rule.
abbrev HasTime : ResetRule → Millis → Type 0
HasTime rule at = (weekday at ≡ rule.weekday) × (at % day_ms ≡ rule.hour_utc * 3600000)

HasTime-iff :
    (rule : ResetRule) (at : Millis)
    → rule.weekday < 7
    → rule.hour_utc < 24
    → HasTime rule at ↔ IsReset rule at
HasTime-iff rule at h k = (
  (λ t. (
    (at + 604800000 - (345600000 + rule.weekday * 86400000 + rule.hour_utc * 3600000)) / 604800000,
    omega arith,
  )),
  (λ r. let (weeks, e) = r in (omega arith, omega arith)),
)

first_lem :
    (rule : ResetRule) (from : Millis)
    → rule.weekday < 7
    → rule.hour_utc < 24
    → let r = first_at_or_after rule from in HasTime rule r × (from ≤ r) × (r < from + week_ms)
unfolding first_at_or_after
first_lem rule from h k = ground arith

-- Resets of one rule are whole weeks apart.
weeks_apart :
    (rule : ResetRule) (a b : Millis)
    → HasTime rule a
    → HasTime rule b
    → a ≤ b
    → b < a + week_ms
    → a ≡ b
weeks_apart rule a b h k l m = omega arith

HasTime-next : (rule : ResetRule) (at : Millis) → HasTime rule at → HasTime rule (at + week_ms)
HasTime-next rule at h = (omega arith, omega arith)

abbrev pub starts : List MarketEvent → List Millis
starts = map (λ e. e.starts_at)

-- What the loop adds from an instant on.
abbrev Adds : ResetRule → Millis → Millis → List MarketEvent → Type 0
Adds rule at until es = (x : Millis) → In x (starts es) ↔ (HasTime rule x × (at ≤ x) × (x < until))

Adds-none : (rule : ResetRule) (at until : Millis) → until ≤ at → Adds rule at until []
Adds-none rule at until h x = ((λ m. absurd m), (λ p. absurd (omega arith)))

not_before : (a b : ℕ) → ltb a b ≡ false → b ≤ a
not_before a b h = ground arith

Adds-next :
    (rule : ResetRule) (at until : Millis) (es : List MarketEvent)
    → HasTime rule at
    → at < until
    → Adds rule (at + week_ms) until es
    → Adds rule at until (reset_event rule at ∷ es)
unfolding reset_event
Adds-next rule at until es h lt adds x = (
  (λ m. elim m [
    | inl e ↦ ((omega arith, omega arith), omega arith, omega arith)
    | inr later ↦ let q = (adds x).0 later in (q.0, omega arith, q.2)
  ]),
  (λ p. elim (Bool-cases (ltb x (at + week_ms))) [
    | inl soon ↦ inl (weeks_apart rule at x h p.0 p.1 (ltb→lt x (at + week_ms) soon))
    | inr later ↦ inr ((adds x).1 (p.0, not_before x (at + week_ms) later, p.2))
  ]),
)

reset_loop_lem :
    (fuel : ℕ) (rule : ResetRule) (at until : Millis) (found : List MarketEvent)
    → HasTime rule at
    → 0 < fuel
    → until ≤ at + (fuel - 1) * week_ms
    → (es : List MarketEvent) × (reset_loop fuel rule at until found ≡ some (found ++ es))
      × Adds rule at until es
unfolding reset_loop
reset_loop_lem zero rule at until found h some_fuel enough = absurd (omega arith)
reset_loop_lem (suc fuel) rule at until found h some_fuel enough =
    elim (Bool-cases (ltb at until)) [
      | inl more ↦
          let soon = ltb→lt at until more in
          let (es, e, adds) =
            reset_loop_lem fuel rule (at + week_ms) until (found ++ reset_event rule at ∷ [])
              (HasTime-next rule at h) (omega arith) (omega arith) in
          (
            reset_event rule at ∷ es,
            rw more (e ∙ ap some (append_assoc found (reset_event rule at ∷ []) es)),
            Adds-next rule at until es h soon adds,
          )
      | inr over ↦ ([], rw (over, append-nil) refl, Adds-none rule at until (ground arith))
    ]

-- No reset of the rule stands between the start of a window and the first that is found.
between_lem :
    (rule : ResetRule) (from at until x : Millis) (es : List MarketEvent)
    → HasTime rule at
    → from ≤ at
    → at < from + week_ms
    → In x (starts es) ↔ (HasTime rule x × (at ≤ x) × (x < until))
    → In x (starts es) ↔ (HasTime rule x × (from ≤ x) × (x < until))
between_lem rule from at until x es reset low high adds = (
  (λ m. let q = adds.0 m in (q.0, omega arith, q.2)),
  (λ p. elim (Bool-cases (ltb x at)) [
    | inl early ↦
        let lt = ltb→lt x at early in
        let same = weeks_apart rule x at p.0 reset (omega arith) (omega arith) in
        absurd (omega arith)
    | inr late ↦ adds.1 (p.0, not_before x at late, p.2)
  ]),
)

-- The resets of a rule in a window, given a weekday and an hour that there are and a round for each
-- week of the window and one more: the loop ends, and the events that it returns start exactly at
-- the instants of the window, its end excluded, that lie whole weeks before or after the rule's hour
-- of the rule's day in the week that began on Monday, 5 January 1970.
pub events_lem :
    (fuel : ℕ) (rule : ResetRule) (from until : Millis)
    → rule.weekday < 7
    → rule.hour_utc < 24
    → 0 < fuel
    → until ≤ from + (fuel - 1) * week_ms
    → (es : List MarketEvent) × (events fuel rule from until ≡ some es)
      × ((x : Millis) → In x (starts es) ↔ (IsReset rule x × (from ≤ x) × (x < until)))
unfolding events
events_lem fuel rule from until h k some_fuel enough =
    let at = first_at_or_after rule from in
    let (reset, low, high) = first_lem rule from h k in
    let (es, e, adds) = reset_loop_lem fuel rule at until [] reset some_fuel (omega arith) in
    (es, e, λ x. restate x es (between_lem rule from at until x es reset low high (adds x)))
  where
    restate :
        (x : Millis) (es : List MarketEvent)
        → In x (starts es) ↔ (HasTime rule x × (from ≤ x) × (x < until))
        → In x (starts es) ↔ (IsReset rule x × (from ≤ x) × (x < until))
    restate x es p =
        let q = HasTime-iff rule x h k in
        ((λ m. let r = p.0 m in (q.0 r.0, r.1, r.2)), (λ r. p.1 (q.1 r.0, r.1, r.2)))
