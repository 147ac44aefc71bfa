-- ===== src/Web/Throttle/Streams.antt =====
-- crates/app-web/src/throttle.rs, `SseGate` and `SsePermit`: calls of `enter` and drops of permits
-- as they interleave. An atomic of the counter and a section under the lock are a step each.
use gavel.Shared.{
  ℕ, suc, ◌+◌, ◌-◌, ◌==◌, leb, Option, none, some, List, [], ◌∷◌, if◌then◌else◌, contains, u64_add,
}
use gavel.Shared.HashMap.{HashMap, nat_eq, get, insert, remove}

-- `SseGate`.
pub record SseGate : Type 0 where
  pub total : ℕ
  pub origins : HashMap ℕ ℕ
  pub max_total : ℕ
  pub max_per_origin : ℕ

abbrev pub default_gate : SseGate
default_gate = record { total = 0; origins = []; max_total = 256; max_per_origin = 8 }

-- The gate and the calls under way, by their addresses: those counted that have yet to take the
-- lock, the refused ones that have yet to undo their count, the permits held, and the dropped ones
-- that have yet to take the lock.
pub record Streams : Type 0 where
  pub gate : SseGate
  pub entering : List ℕ
  pub refused : ℕ
  pub held : List ℕ
  pub leaving : List ℕ

pub data Event : Type 0 where
  begin : ℕ → Event
  undo : Event
  admit : ℕ → Event
  drop_permit : ℕ → Event
  release : ℕ → Event

-- `fetch_sub(1)`, which wraps.
abbrev pub fetch_sub : ℕ → ℕ
fetch_sub a = u64_add a 18446744073709551615

abbrev pub remove_one : ℕ → List ℕ → List ℕ
remove_one a [] = []
remove_one a (x ∷ xs) = let rest = remove_one a xs in if x == a then xs else x ∷ rest

-- `or_default`.
abbrev pub or_zero : Option ℕ → ℕ
or_zero none = 0
or_zero (some c) = c

-- `enter` up to the lock.
unfoldable pub begin_enter : ℕ → Streams → Streams
begin_enter origin s =
    let counted = record s.gate { total = u64_add s.gate.total 1 } in
    if leb s.gate.max_total s.gate.total
    then record s { gate = counted; refused = suc s.refused }
    else record s { gate = counted; entering = origin ∷ s.entering }

-- The `fetch_sub` of a call that is refused.
unfoldable pub undo_enter : Streams → Streams
undo_enter s = if s.refused == 0 then s else record s {
  gate = record s.gate { total = fetch_sub s.gate.total };
  refused = s.refused - 1;
}

-- What `enter` does under the lock.
unfoldable pub admit_origin : ℕ → Streams → Streams
admit_origin origin s =
    let c = or_zero (get origin s.gate.origins) in
    let waiting = remove_one origin s.entering in
    if contains s.entering origin
    then if leb s.gate.max_per_origin c
      then record s {
        gate = record s.gate { origins = insert origin c s.gate.origins };
        entering = waiting;
        refused = suc s.refused;
      }
      else record s {
        gate = record s.gate { origins = insert origin (c + 1) s.gate.origins };
        entering = waiting;
        held = origin ∷ s.held;
      }
    else s

-- `SsePermit::drop` up to the lock.
unfoldable pub begin_drop : ℕ → Streams → Streams
begin_drop origin s =
    if contains s.held origin
    then record s {
      gate = record s.gate { total = fetch_sub s.gate.total };
      held = remove_one origin s.held;
      leaving = origin ∷ s.leaving;
    }
    else s

-- The map after a permit of `origin` is gone.
abbrev pub give_back : ℕ → Option ℕ → HashMap ℕ ℕ → HashMap ℕ ℕ
give_back origin none m = m
give_back origin (some c) m = if (c - 1) == 0 then remove origin m else insert origin (c - 1) m

-- What `SsePermit::drop` does under the lock.
unfoldable pub release_origin : ℕ → Streams → Streams
release_origin origin s =
    if contains s.leaving origin
    then record s {
      gate = record s.gate {
        origins = give_back origin (get origin s.gate.origins) s.gate.origins;
      };
      leaving = remove_one origin s.leaving;
    }
    else s

unfoldable pub step : Event → Streams → Streams
step (begin o) s = begin_enter o s
step undo s = undo_enter s
step (admit o) s = admit_origin o s
step (drop_permit o) s = begin_drop o s
step (release o) s = release_origin o s

abbrev pub run : List Event → Streams → Streams
run [] s = s
run (e ∷ es) s = run es (step e s)
