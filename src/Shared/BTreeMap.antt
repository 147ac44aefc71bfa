-- ===== src/Shared/BTreeMap.antt =====
-- std::collections::BTreeMap with integer keys: the entries in the order of their keys.
use Prim.Native.Nat.{ℕ, ◌<◌}
use mathlib.Core.Path.{◌≡◌, refl}
use mathlib.Core.Bool.{Bool, true}
use mathlib.Core.Option.{Option, none, some}
use mathlib.Core.Logic.{inl, inr}
use mathlib.Core.List.{List, [], ◌∷◌, map}
use native.Mathlib.Omega.{arith}
use gavel.Shared.Tests.{if◌then◌else◌, ◌==◌, ltb, Bool-cases}
use gavel.Shared.Lists.{filter, contains}

abbrev pub BTreeMap {ℓ} : Type ℓ → Type ℓ
BTreeMap V = List (ℕ × V)

module _ {ℓ} {V : Type ℓ} where
  unfoldable pub get : ℕ → BTreeMap V → Option V
  get k [] = none
  get k ((j, v) ∷ m) = if j == k then some v else get k m

  unfoldable pub insert : ℕ → V → BTreeMap V → BTreeMap V
  insert k v [] = (k, v) ∷ []
  insert k v ((j, w) ∷ m) =
      let rest = insert k v m in
      if ltb k j then (k, v) ∷ (j, w) ∷ m else if j == k then (k, v) ∷ m else (j, w) ∷ rest

  unfoldable pub remove : ℕ → BTreeMap V → BTreeMap V
  remove k [] = []
  remove k ((j, w) ∷ m) = let rest = remove k m in if j == k then rest else (j, w) ∷ rest

  -- `retain`, by a test of the value.
  unfoldable pub retain : (V → Bool) → BTreeMap V → BTreeMap V
  retain p [] = []
  retain p ((j, w) ∷ m) = let rest = retain p m in if p w then (j, w) ∷ rest else rest

  -- A loop over `values_mut`.
  unfoldable pub map_values : (V → V) → BTreeMap V → BTreeMap V
  map_values f [] = []
  map_values f ((j, w) ∷ m) = (j, f w) ∷ map_values f m

  abbrev pub keys : BTreeMap V → List ℕ
  keys = map (λ e. e.0)

  abbrev pub values : BTreeMap V → List V
  values = map (λ e. e.1)

  pub get-insert :
      (k j : ℕ) (v : V) (m : BTreeMap V)
      → get j (insert k v m) ≡ (if k == j then some v else get j m)
  unfolding get insert
  get-insert k j v [] = refl
  get-insert k j v ((i, w) ∷ m) = ground (arith, get-insert k j v m)

  pub get-remove :
      (k j : ℕ) (m : BTreeMap V) → get j (remove k m) ≡ (if k == j then none else get j m)
  unfolding get remove
  get-remove k j [] = ground arith
  get-remove k j ((i, w) ∷ m) = ground (arith, get-remove k j m)

  -- Each key stands under the bound, and the keys grow along the list.
  abbrev pub Above : ℕ → BTreeMap V → Type 0
  Above b [] = Unit {0}
  Above b ((j, w) ∷ m) = (b < j) × Above j m

  -- The entries of a map that was built by `insert` and `remove`.
  abbrev pub IsSorted : BTreeMap V → Type 0
  IsSorted [] = Unit {0}
  IsSorted ((j, w) ∷ m) = Above j m

  Above-insert : (b k : ℕ) (v : V) (m : BTreeMap V) → b < k → Above b m → Above b (insert k v m)
  unfolding insert
  Above-insert b k v [] h a = (h, tt)
  Above-insert b k v ((j, w) ∷ m) h a = ground (arith, Above-insert j k v m)

  pub insert-IsSorted : (k : ℕ) (v : V) (m : BTreeMap V) → IsSorted m → IsSorted (insert k v m)
  unfolding insert
  insert-IsSorted k v [] s = tt
  insert-IsSorted k v ((j, w) ∷ m) s = ground (arith, Above-insert j k v m)

  Above-weaken : (a b : ℕ) (m : BTreeMap V) → a < b → Above b m → Above a m
  Above-weaken a b [] h s = tt
  Above-weaken a b ((j, w) ∷ m) h s = (omega arith, s.1)

  Above-remove : (b k : ℕ) (m : BTreeMap V) → Above b m → Above b (remove k m)
  unfolding remove
  Above-remove b k [] s = tt
  Above-remove b k ((j, w) ∷ m) s =
      ground (arith, Above-remove j k m s.1, Above-weaken b j (remove k m) s.0)

  IsSorted-of_Above : (b : ℕ) (m : BTreeMap V) → Above b m → IsSorted m
  IsSorted-of_Above b [] s = tt
  IsSorted-of_Above b ((j, w) ∷ m) s = s.1

  pub remove-IsSorted : (k : ℕ) (m : BTreeMap V) → IsSorted m → IsSorted (remove k m)
  unfolding remove
  remove-IsSorted k [] s = tt
  remove-IsSorted k ((j, w) ∷ m) s =
      ground (arith, Above-remove j k m s, IsSorted-of_Above j (remove k m))

  Above-get : (b k : ℕ) (v : V) (m : BTreeMap V) → Above b m → get k m ≡ some v → b < k
  unfolding get
  Above-get b k v [] s e = absurd (ground arith)
  Above-get b k v ((j, w) ∷ m) s e = ground (arith, Above-get j k v m)

  Above-retain : (b : ℕ) (p : V → Bool) (m : BTreeMap V) → Above b m → Above b (retain p m)
  unfolding retain
  Above-retain b p [] s = tt
  Above-retain b p ((j, w) ∷ m) s =
      ground (arith, Above-retain j p m s.1, Above-weaken b j (retain p m) s.0)

  pub retain-IsSorted : (p : V → Bool) (m : BTreeMap V) → IsSorted m → IsSorted (retain p m)
  unfolding retain
  retain-IsSorted p [] s = tt
  retain-IsSorted p ((j, w) ∷ m) s =
      ground (arith, Above-retain j p m s, IsSorted-of_Above j (retain p m))

  -- What is kept was there before.
  pub get-retain :
      (p : V → Bool) (k : ℕ) (v : V) (m : BTreeMap V)
      → IsSorted m
      → get k (retain p m) ≡ some v
      → get k m ≡ some v
  unfolding get retain
  get-retain p k v [] s e = e
  get-retain p k v ((j, w) ∷ m) s e = elim (Bool-cases (p w)) [
    | inl held ↦ ground (arith, get-retain p k v m (IsSorted-of_Above j m s))
    | inr gone ↦ ground (
      arith,
      get-retain p k v m (IsSorted-of_Above j m s),
      Above-get j k v (retain p m) (Above-retain j p m s),
    )
  ]

  -- A key that `get` finds is among the keys that a filter of the values keeps.
  pub get-filter :
      (p : V → Bool) (key : V → ℕ) (k : ℕ) (v : V) (m : BTreeMap V)
      → get k m ≡ some v
      → p v ≡ true
      → key v ≡ k
      → contains (map key (filter p (values m))) k ≡ true
  unfolding get
  get-filter p key k v [] e h i = absurd (ground arith)
  get-filter p key k v ((j, w) ∷ m) e h i = ground (arith, get-filter p key k v m)
