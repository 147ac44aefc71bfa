-- ===== src/Web/Throttle/Admitted.antt =====
-- crates/app-web/src/throttle.rs, `SseGate`: what its counts say in every interleaving.
use gavel.Shared.{
  ℕ, suc, ◌+◌, ◌-◌, ◌≤◌, ◌<◌, ◌≡◌, refl, subst, true, ◌==◌, leb, Option, none, some, List, [], ◌∷◌,
  arith, if◌then◌else◌, inl, inr, Bool-cases, length, contains,
}
use gavel.Shared.HashMap.{HashMap, nat_eq, get, get-insert, get-remove}
use gavel.Web.Throttle.Streams.{
  Streams, Event, begin, undo, admit, drop_permit, release, remove_one, or_zero, begin_enter,
  undo_enter, admit_origin, begin_drop, give_back, release_origin, step, run,
}

-- How many of the calls are of `o`.
abbrev pub of_origin : ℕ → List ℕ → ℕ
of_origin o [] = 0
of_origin o (x ∷ xs) = (if x == o then 1 else 0) + of_origin o xs

-- Of what `steps` steps can lead to: the counter counts the calls under way and the permits, the
-- map counts the permits by address, and neither limit is passed.
pub record IsAccounted (steps : ℕ) (s : Streams) : Type 0 where
  pub total_eq : s.gate.total ≡ s.refused + (length s.entering + length s.held)
  pub below : s.gate.total ≤ steps
  pub origin_eq :
      (o : ℕ) → or_zero (get o s.gate.origins) ≡ of_origin o s.held + of_origin o s.leaving
  pub origin_le : (o : ℕ) → of_origin o s.held + of_origin o s.leaving ≤ s.gate.max_per_origin
  pub total_le : length s.entering + length s.held ≤ s.gate.max_total

length-remove_one :
    (a : ℕ) (xs : List ℕ) → contains xs a ≡ true → length (remove_one a xs) + 1 ≡ length xs
length-remove_one a [] h = ground arith
length-remove_one a (x ∷ xs) h = ground (arith, length-remove_one a xs)

of_origin-remove_one :
    (o a : ℕ) (xs : List ℕ)
    → contains xs a ≡ true
    → of_origin o (remove_one a xs) + (if a == o then 1 else 0) ≡ of_origin o xs
of_origin-remove_one o a [] h = ground arith
of_origin-remove_one o a (x ∷ xs) h = ground (arith, of_origin-remove_one o a xs)

of_origin-contains : (a : ℕ) (xs : List ℕ) → contains xs a ≡ true → 1 ≤ of_origin a xs
of_origin-contains a [] h = ground arith
of_origin-contains a (x ∷ xs) h = ground (arith, of_origin-contains a xs)

get-give_back :
    (o a : ℕ) (m : HashMap ℕ ℕ)
    → or_zero (get o (give_back a (get a m) m))
      ≡ (if a == o then or_zero (get o m) - 1 else or_zero (get o m))
get-give_back o a m = by_count (get a m) refl
  where
    by_count :
        (c : Option ℕ)
        → get a m ≡ c
        → or_zero (get o (give_back a c m))
          ≡ (if a == o then or_zero (get o m) - 1 else or_zero (get o m))
    by_count none e = ground (arith, e)
    by_count (some c) e = ground (arith, e, get-remove a o m, get-insert a o (c - 1) m)

module _ (n : ℕ) (s : Streams) (small : n < 18446744073709551615) (w : IsAccounted n s) where
  later : IsAccounted (suc n) s
  later = record {
    total_eq = w.total_eq;
    below = omega (arith, w.below);
    origin_eq = w.origin_eq;
    origin_le = w.origin_le;
    total_le = w.total_le;
  }

  begin_enter-IsAccounted : (o : ℕ) → IsAccounted (suc n) (begin_enter o s)
  unfolding begin_enter
  begin_enter-IsAccounted o = elim (Bool-cases (leb s.gate.max_total s.gate.total)) [
    | inl e ↦ rw e (record {
      total_eq = omega (arith, w.total_eq, w.below);
      below = omega (arith, w.below);
      origin_eq = w.origin_eq;
      origin_le = w.origin_le;
      total_le = w.total_le;
    })
    | inr e ↦ rw e (record {
      total_eq = omega (arith, w.total_eq, w.below);
      below = omega (arith, w.below);
      origin_eq = w.origin_eq;
      origin_le = w.origin_le;
      total_le = ground (arith, w.total_eq);
    })
  ]

  undo_enter-IsAccounted : IsAccounted (suc n) (undo_enter s)
  unfolding undo_enter
  undo_enter-IsAccounted = elim (Bool-cases (s.refused == 0)) [
    | inl e ↦ rw e later
    | inr e ↦ rw e (record {
      total_eq = ground (arith, w.total_eq, w.below);
      below = ground (arith, w.total_eq, w.below);
      origin_eq = w.origin_eq;
      origin_le = w.origin_le;
      total_le = w.total_le;
    })
  ]

  admit_origin-IsAccounted : (o : ℕ) → IsAccounted (suc n) (admit_origin o s)
  unfolding admit_origin
  admit_origin-IsAccounted o = elim (Bool-cases (contains s.entering o)) [
    | inr e ↦ rw e later
    | inl e ↦ elim (Bool-cases (leb s.gate.max_per_origin (or_zero (get o s.gate.origins)))) [
      | inl full ↦
          rw (e, full)
            (record {
              total_eq = omega (arith, w.total_eq, length-remove_one o s.entering e);
              below = omega (arith, w.below);
              origin_eq = λ j. ground (
                arith,
                w.origin_eq j,
                get-insert o j (or_zero (get o s.gate.origins)) s.gate.origins,
              );
              origin_le = w.origin_le;
              total_le = omega (arith, w.total_le, length-remove_one o s.entering e);
            })
      | inr room ↦
          rw (e, room)
            (record {
              total_eq = omega (arith, w.total_eq, length-remove_one o s.entering e);
              below = omega (arith, w.below);
              origin_eq = λ j. ground (
                arith,
                w.origin_eq j,
                get-insert o j (or_zero (get o s.gate.origins) + 1) s.gate.origins,
              );
              origin_le = λ j. ground (arith, w.origin_le j, w.origin_eq j);
              total_le = omega (arith, w.total_le, length-remove_one o s.entering e);
            })
    ]
  ]

  begin_drop-IsAccounted : (o : ℕ) → IsAccounted (suc n) (begin_drop o s)
  unfolding begin_drop
  begin_drop-IsAccounted o = elim (Bool-cases (contains s.held o)) [
    | inr e ↦ rw e later
    | inl e ↦ rw e (record {
      total_eq = omega (arith, w.total_eq, w.below, length-remove_one o s.held e);
      below = omega (arith, w.total_eq, w.below, length-remove_one o s.held e);
      origin_eq = λ j. omega (arith, w.origin_eq j, of_origin-remove_one j o s.held e);
      origin_le = λ j. omega (arith, w.origin_le j, of_origin-remove_one j o s.held e);
      total_le = omega (arith, w.total_le, length-remove_one o s.held e);
    })
  ]

  release_origin-IsAccounted : (o : ℕ) → IsAccounted (suc n) (release_origin o s)
  unfolding release_origin
  release_origin-IsAccounted o = elim (Bool-cases (contains s.leaving o)) [
    | inr e ↦ rw e later
    | inl e ↦ rw e (record {
      total_eq = w.total_eq;
      below = omega (arith, w.below);
      origin_eq = λ j. ground (
        arith,
        w.origin_eq j,
        of_origin-remove_one j o s.leaving e,
        get-give_back j o s.gate.origins,
      );
      origin_le = λ j. omega (arith, w.origin_le j, of_origin-remove_one j o s.leaving e);
      total_le = w.total_le;
    })
  ]

  step-IsAccounted : (e : Event) → IsAccounted (suc n) (step e s)
  unfolding step
  step-IsAccounted (begin o) = begin_enter-IsAccounted o
  step-IsAccounted undo = undo_enter-IsAccounted
  step-IsAccounted (admit o) = admit_origin-IsAccounted o
  step-IsAccounted (drop_permit o) = begin_drop-IsAccounted o
  step-IsAccounted (release o) = release_origin-IsAccounted o

-- However calls of `enter` and drops of permits interleave, in fewer than 2^64 steps from an
-- accounted state: the counter is the number of the permits held, of the calls between the counter
-- and the lock and of those yet to undo their count; the map has for every address the number of
-- its permits that are held or have yet to be given back, which is at most `max_per_origin`; and
-- the permits held, with the calls that the counter let pass, are at most `max_total`.
pub run-IsAccounted :
    (events : List Event) (n : ℕ) (s : Streams)
    → n + length events < 18446744073709551616
    → IsAccounted n s
    → IsAccounted (n + length events) (run events s)
run-IsAccounted [] n s small w = subst (λ m. IsAccounted m s) (omega arith) w
run-IsAccounted (e ∷ es) n s small w =
    subst (λ m. IsAccounted m (run es (step e s))) (omega arith)
      (run-IsAccounted es (suc n) (step e s) (omega arith) (step-IsAccounted n s (omega arith) w e))
