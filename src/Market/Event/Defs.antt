-- ===== src/Market/Event/Defs.antt =====
-- crates/app-core/src/market/event.rs: events, their scope, who may see them, and the weekly resets.
-- The instants are far from the end of a u64, so that their sums are those of ℕ; of a scope, the
-- fields that a reset sets or that its operations read are kept.
use gavel.Shared.{
  ℕ, zero, suc, ◌+◌, ◌-◌, ◌*◌, ◌/◌, ◌%◌, Bool, true, false, ◌&&◌, ◌||◌, Option, none, some, List,
  [], ◌∷◌, ◌++◌, if◌then◌else◌, leb, ltb, is_empty, String, ◌⋯◌, show,
}
use gavel.Time.{Millis}
use gavel.Market.Defs.{Region, eu, us, kr, tw, region_eq, region_str}

pub data EventKind : Type 0 where
  patch_release raid_opening season_start weekly_reset hotfix profession_change holiday annotation :
      EventKind

pub data Provenance : Type 0 where
  catalogue calendar administrator : Provenance

pub data Validation : Type 0 where
  unvalidated validated rejected : Validation

pub data Visibility : Type 0 where
  internal public : Visibility

pub record EventScope : Type 0 where
  pub regions : List Region
  pub expansion : Option String
  pub patch : Option String
  pub tier : Option String

abbrev pub has_region : List Region → Region → Bool
has_region [] r = false
has_region (x ∷ xs) r = region_eq x r || has_region xs r

-- `EventScope::covers_region`.
abbrev pub covers_region : EventScope → Region → Bool
covers_region scope r = is_empty scope.regions || has_region scope.regions r

pub record MarketEvent : Type 0 where
  pub id : String
  pub kind : EventKind
  pub title : String
  pub notes : Option String
  pub starts_at : Millis
  pub ends_at : Option Millis
  pub scope : EventScope
  pub provenance : Provenance
  pub validation : Validation
  pub visibility : Visibility

abbrev is_validated : Validation → Bool
is_validated Validation.validated = true
is_validated _ = false

abbrev is_visible : Visibility → Bool
is_visible Visibility.public = true
is_visible Visibility.internal = false

-- `MarketEvent::is_public`.
abbrev pub is_public : MarketEvent → Bool
is_public e = is_visible e.visibility && is_validated e.validation

abbrev pub day_ms : ℕ
day_ms = 86400000

abbrev pub week_ms : ℕ
week_ms = 604800000

-- Monday is 0.
abbrev pub weekday : Millis → ℕ
weekday at = (at / day_ms + 3) % 7

pub record ResetRule : Type 0 where
  pub region : Region
  pub weekday : ℕ
  pub hour_utc : ℕ

-- `RESET_RULES`.
abbrev pub reset_rules : List ResetRule
reset_rules =
    record { region = us; weekday = 1; hour_utc = 15 }
    ∷ record { region = eu; weekday = 2; hour_utc = 3 }
    ∷ record { region = kr; weekday = 2; hour_utc = 22 }
    ∷ record { region = tw; weekday = 2; hour_utc = 22 }
    ∷ []

unfoldable pub first_at_or_after : ResetRule → Millis → Millis
first_at_or_after self from =
    let day = (from / day_ms) * day_ms in
    let ahead = ((7 + self.weekday) - weekday day) % 7 in
    let candidate = day + ahead * day_ms + self.hour_utc * 3600000 in
    if leb from candidate then candidate else candidate + week_ms

-- `region.as_str().to_uppercase()`.
abbrev upper_region : Region → String
upper_region eu = "EU"
upper_region us = "US"
upper_region kr = "KR"
upper_region tw = "TW"

-- The event that the loop of `events` pushes.
unfoldable pub reset_event : ResetRule → Millis → MarketEvent
reset_event self at = record {
  id = "calendar:reset:" ⋯ region_str self.region ⋯ ":" ⋯ show at;
  kind = EventKind.weekly_reset;
  title = upper_region self.region ⋯ " weekly reset";
  notes = none;
  starts_at = at;
  ends_at = none;
  scope = record { regions = self.region ∷ []; expansion = none; patch = none; tier = none };
  provenance = Provenance.calendar;
  validation = Validation.unvalidated;
  visibility = Visibility.internal;
}

-- The `while` loop, with at most as many rounds as the fuel; `none` where the fuel ran out.
unfoldable pub reset_loop :
    ℕ → ResetRule → Millis → Millis → List MarketEvent → Option (List MarketEvent)
reset_loop zero self at until found = none
reset_loop (suc fuel) self at until found =
    let more = reset_loop fuel self (at + week_ms) until (found ++ (reset_event self at ∷ [])) in
    if ltb at until then more else some found

-- `ResetRule::events`.
unfoldable pub events : ℕ → ResetRule → Millis → Millis → Option (List MarketEvent)
events fuel self from until = reset_loop fuel self (first_at_or_after self from) until []
