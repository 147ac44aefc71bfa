-- ===== src/Shared/HashMap.antt =====
-- std::collections::HashMap: entries under keys that are compared by a lawful test.
use Prim.Native.Nat.{ℕ}
use mathlib.Core.Path.{◌≡◌, refl, sym, ap}
use mathlib.Core.Logic.{◌↔◌}
use mathlib.Core.Bool.{Bool, true}
use mathlib.Core.Option.{Option, none, some}
use mathlib.Core.List.{List, [], ◌∷◌}
use native.Mathlib.Omega.{arith}
use gavel.Shared.Tests.{if◌then◌else◌, ◌==◌, ==_iff}

-- Rust's `Eq`.
pub record Eq {ℓ} (K : Type ℓ) : Type ℓ where
  pub eq : K → K → Bool
  pub eq_iff : (a b : K) → (eq a b ≡ true) ↔ (a ≡ b)

instance abbrev pub nat_eq : Eq ℕ
nat_eq = record { eq = ◌==◌; eq_iff = ==_iff }

abbrev pub HashMap {ℓ} : Type ℓ → Type ℓ → Type ℓ
HashMap K V = List (K × V)

-- `o.filter(p)`.
abbrev pub keep {ℓ} : {V : Type ℓ} → (V → Bool) → Option V → Option V
keep p none = none
keep p (some v) = if p v then some v else none

module _ {ℓ} {K V : Type ℓ} ⦃e : Eq K⦄ where
  unfoldable pub get : K → HashMap K V → Option V
  get k [] = none
  get k ((j, v) ∷ m) = if e.eq j k then some v else get k m

  unfoldable pub insert : K → V → HashMap K V → HashMap K V
  insert k v [] = (k, v) ∷ []
  insert k v ((j, w) ∷ m) =
      let rest = insert k v m in if e.eq j k then (j, v) ∷ m else (j, w) ∷ rest

  unfoldable pub remove : K → HashMap K V → HashMap K V
  remove k [] = []
  remove k ((j, w) ∷ m) = let rest = remove k m in if e.eq j k then rest else (j, w) ∷ rest

  -- `retain`, by a test of the value.
  unfoldable pub retain : (V → Bool) → HashMap K V → HashMap K V
  retain p [] = []
  retain p ((j, w) ∷ m) = let rest = retain p m in if p w then (j, w) ∷ rest else rest

  -- No key stands twice.
  abbrev pub IsMap : HashMap K V → Type ℓ
  IsMap [] = Unit
  IsMap ((k, v) ∷ m) = (get k m ≡ none) × IsMap m

  pub get-insert :
      (k j : K) (v : V) (m : HashMap K V)
      → get j (insert k v m) ≡ (if e.eq k j then some v else get j m)
  unfolding get insert
  get-insert k j v [] = refl
  get-insert k j v ((i, w) ∷ m) =
      ground (arith, e.eq_iff k j, e.eq_iff i k, e.eq_iff i j, get-insert k j v m)

  pub get-remove :
      (k j : K) (m : HashMap K V) → get j (remove k m) ≡ (if e.eq k j then none else get j m)
  unfolding get remove
  get-remove k j [] = ground arith
  get-remove k j ((i, w) ∷ m) =
      ground (arith, e.eq_iff k j, e.eq_iff i k, e.eq_iff i j, get-remove k j m)

  get-other : (i k : K) (m : HashMap K V) → e.eq i k ≡ true → get k m ≡ get i m
  get-other i k m h = ap (λ j. get j m) (sym ((e.eq_iff i k).0 h))

  pub get-retain :
      (p : V → Bool) (k : K) (m : HashMap K V) → IsMap m → get k (retain p m) ≡ keep p (get k m)
  unfolding get retain
  get-retain p k [] s = refl
  get-retain p k ((i, w) ∷ m) s = ground (arith, get-retain p k m s.1, get-other i k m)

  pub insert-IsMap : (k : K) (v : V) (m : HashMap K V) → IsMap m → IsMap (insert k v m)
  unfolding get insert
  insert-IsMap k v [] s = (refl, tt)
  insert-IsMap k v ((i, w) ∷ m) s =
      ground (arith, insert-IsMap k v m s.1, get-insert k i v m, e.eq_iff k i, e.eq_iff i k)

  pub remove-IsMap : (k : K) (m : HashMap K V) → IsMap m → IsMap (remove k m)
  unfolding get remove
  remove-IsMap k [] s = tt
  remove-IsMap k ((i, w) ∷ m) s = ground (arith, remove-IsMap k m s.1, get-remove k i m)

  pub retain-IsMap : (p : V → Bool) (m : HashMap K V) → IsMap m → IsMap (retain p m)
  unfolding get retain
  retain-IsMap p [] s = tt
  retain-IsMap p ((i, w) ∷ m) s = ground (arith, retain-IsMap p m s.1, get-retain p i m s.1)
