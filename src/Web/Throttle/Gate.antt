-- ===== src/Web/Throttle/Gate.antt =====
-- crates/app-web/src/throttle.rs, `AuthGate`: how many addresses it remembers.
use gavel.Shared.{
  ℕ, ◌+◌, ◌*◌, ◌≤◌, ◌≡◌, refl, ap, ◌∙◌, Bool, true, false, none, some, List, [], ◌∷◌, arith, leb,
  if◌then◌else◌, inl, inr, Bool-cases, length,
}
use gavel.Shared.HashMap.{HashMap, nat_eq, get, insert, retain}
use gavel.Time.{Millis}
use gavel.Web.Throttle.Defs.{
  Window, AuthGate, is_open, fresh_window, counted, take_window, take, max_origin_attempts,
  max_global_attempts,
}
use gavel.Web.Throttle.Tracked.{
  tracked, tracked-insert, tracked-retain, tracked-retain_le, since, before, tracked_all, NoneAfter,
  Bounded, entry, added_since, added_before, NoneAfter-later, NoneAfter-retain, NoneAfter-insert,
  NoneAfter-get, none_since,
}

module _ (g : AuthGate) (w : Window) (last now : Millis) (origin : ℕ) (ordered : last ≤ now)
    (b : Bounded g w last) where
  kept : HashMap ℕ Window
  kept = retain (λ v. is_open v now) g.origins

  stored : HashMap ℕ Window
  unfolding kept
  stored = insert origin (entry (get origin kept) now) kept

  stored-NoneAfter : NoneAfter now stored
  unfolding stored
  stored-NoneAfter =
      let a =
        NoneAfter-retain now (λ v. is_open v now) g.origins
          (NoneAfter-later last now g.origins ordered b.none_after) in
      NoneAfter-insert now origin (entry (get origin kept) now) kept
        (NoneAfter-get now origin kept a) a

  stored_since : (t : Millis) → tracked (since t) stored ≤ tracked (since t) kept + 1
  unfolding stored
  stored_since t = omega (
    arith,
    tracked-insert (since t) origin (entry (get origin kept) now) kept,
    added_since t now (get origin kept),
  )

  stored_before : (t : Millis) → t ≤ now → tracked (before t) stored ≤ tracked (before t) kept
  unfolding stored
  stored_before t h = omega (
    arith,
    tracked-insert (before t) origin (entry (get origin kept) now) kept,
    added_before t now (get origin kept) h,
  )

  kept-le : (f : Window → Bool) → tracked f kept ≤ tracked f g.origins
  unfolding kept
  kept-le f = tracked-retain f (λ v. is_open v now) g.origins

  -- A call in the open window that is let through.
  same_window :
      is_open w now ≡ true
      → leb (counted w).attempts max_global_attempts ≡ true
      → Bounded (record { origins = stored; global = some (counted w) }) (counted w) now
  same_window o ok = record {
    global_eq = refl;
    begun = omega (arith, b.begun);
    open_at = ground arith;
    current = ground (arith, stored_since w.started, kept-le (since w.started), b.current);
    older = omega (
      arith,
      stored_before w.started (omega (arith, b.begun)),
      kept-le (before w.started),
      b.older,
    );
    none_after = stored-NoneAfter;
  }

  -- A call that the open window refuses.
  full_window :
      is_open w now ≡ true → Bounded (record g { global = some (counted w) }) (counted w) now
  full_window o = record {
    global_eq = refl;
    begun = omega (arith, b.begun);
    open_at = ground arith;
    current = omega (arith, b.current);
    older = b.older;
    none_after = NoneAfter-later last now g.origins ordered b.none_after;
  }

  kept_before_now :
      is_open w now ≡ false → tracked (before now) kept ≤ tracked (since w.started) g.origins
  unfolding kept
  kept_before_now closed =
      tracked-retain_le (before now) (since w.started) (λ v. is_open v now) g.origins
        λ v h o. ground arith

  kept_since_now : is_open w now ≡ false → tracked (since now) kept ≡ 0
  unfolding kept
  kept_since_now closed =
      let a = NoneAfter-retain last (λ v. is_open v now) g.origins b.none_after in
      none_since last now kept (ground (arith, b.open_at)) a

  -- A call that opens a new window.
  next_window :
      is_open w now ≡ false
      → Bounded
          (record { origins = stored; global = some (fresh_window now) })
          (fresh_window now)
          now
  next_window closed = record {
    global_eq = refl;
    begun = omega arith;
    open_at = omega arith;
    current = omega (arith, stored_since now, kept_since_now closed);
    older = omega (arith, stored_before now (omega arith), kept_before_now closed, b.current);
    none_after = stored-NoneAfter;
  }

  -- What the gate becomes by the answer of the global window.
  outcome : Window × Bool → AuthGate
  outcome (global, true) = record { origins = stored; global = some global }
  outcome (global, false) = record g { global = some global }

  take-outcome : (take g origin now).0 ≡ outcome (take_window (some w) now max_global_attempts)
  unfolding take outcome stored kept
  take-outcome =
      by_answer (take_window g.global now max_global_attempts)
        (leb (entry (get origin kept) now).attempts max_origin_attempts)
      ∙ ap (λ o. outcome (take_window o now max_global_attempts)) b.global_eq
    where
      by_answer :
          (r : Window × Bool) (answer : Bool)
          → let result : AuthGate × Bool =
              if r.1
              then (record { origins = stored; global = some r.0 }, answer)
              else (record g { global = some r.0 }, false) in
            result.0 ≡ outcome r
      by_answer (global, true) answer = refl
      by_answer (global, false) answer = refl

  take-Bounded : (w' : Window) × Bounded (take g origin now).0 w' now
  unfolding outcome take_window
  take-Bounded = elim (Bool-cases (is_open w now)) [
    | inl o ↦ elim (Bool-cases (leb (counted w).attempts max_global_attempts)) [
      | inl ok ↦ (counted w, rw (take-outcome, o, ok) (same_window o ok))
      | inr full ↦ (counted w, rw (take-outcome, o, full) (full_window o))
    ]
    | inr closed ↦ (fresh_window now, rw (take-outcome, closed) (next_window closed))
  ]

-- Calls by their addresses and instants.
abbrev pub takes : AuthGate → List (ℕ × Millis) → AuthGate
takes g [] = g
takes g ((origin, now) ∷ rest) = takes (take g origin now).0 rest

-- The instants do not go back.
abbrev pub Ascends : Millis → List (ℕ × Millis) → Type 0
Ascends from [] = Unit {0}
Ascends from ((origin, now) ∷ rest) = (from ≤ now) × Ascends now rest

abbrev pub new_gate : AuthGate
new_gate = record { origins = []; global = none }

Bounded-length :
    (g : AuthGate) (w : Window) (last : Millis)
    → Bounded g w last
    → length g.origins ≤ 2 * max_global_attempts
Bounded-length g w last b = omega (arith, tracked_all w.started g.origins, b.current, b.older)

takes-Bounded :
    (g : AuthGate) (calls : List (ℕ × Millis)) (w : Window) (last : Millis)
    → Ascends last calls
    → Bounded g w last
    → length (takes g calls).origins ≤ 2 * max_global_attempts
takes-Bounded g [] w last a b = Bounded-length g w last b
takes-Bounded g ((origin, now) ∷ rest) w last a b =
    let (w', b') = take-Bounded g w last now origin a.0 b in
    takes-Bounded (take g origin now).0 rest w' now a.1 b'

first_call :
    (origin : ℕ) (now : Millis) → Bounded (take new_gate origin now).0 (fresh_window now) now
unfolding take take_window retain insert get
first_call origin now = record {
  global_eq = refl;
  begun = omega arith;
  open_at = omega arith;
  current = ground arith;
  older = ground arith;
  none_after = ground arith;
}

-- Whatever addresses call a new gate, one call after the other and at instants that do not go back,
-- it remembers at most 200 of them.
pub length-takes :
    (calls : List (ℕ × Millis)) (from : Millis)
    → Ascends from calls
    → length (takes new_gate calls).origins ≤ 2 * max_global_attempts
length-takes [] from a = omega arith
length-takes ((origin, now) ∷ rest) from a =
    takes-Bounded (take new_gate origin now).0 rest (fresh_window now) now a.1
      (first_call origin now)
