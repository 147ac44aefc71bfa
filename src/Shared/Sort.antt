-- ===== src/Shared/Sort.antt =====
-- `sort_unstable` on integers: any sort gives this list.
use Prim.Native.Nat.{ℕ, suc, ◌+◌, ◌≤◌}
use mathlib.Core.Path.{◌≡◌, refl}
use mathlib.Core.Bool.{Bool}
use mathlib.Core.List.{List, [], ◌∷◌}
use native.Mathlib.Omega.{arith}
use gavel.Shared.Tests.{if◌then◌else◌, leb}
use gavel.Shared.Lists.{length, count}

unfoldable pub insert_sorted : ℕ → List ℕ → List ℕ
insert_sorted a [] = a ∷ []
insert_sorted a (x ∷ xs) = let rest = insert_sorted a xs in if leb a x then a ∷ x ∷ xs else x ∷ rest

unfoldable pub sort : List ℕ → List ℕ
sort [] = []
sort (x ∷ xs) = insert_sorted x (sort xs)

-- The numbers do not go down along the list, and `a` is no more than the first.
abbrev pub From : ℕ → List ℕ → Type 0
From a [] = Unit {0}
From a (x ∷ xs) = (a ≤ x) × From x xs

abbrev pub IsAscending : List ℕ → Type 0
IsAscending xs = From 0 xs

From-insert_sorted : (b a : ℕ) (xs : List ℕ) → b ≤ a → From b xs → From b (insert_sorted a xs)
unfolding insert_sorted
From-insert_sorted b a [] h s = (h, tt)
From-insert_sorted b a (x ∷ xs) h s = ground (arith, From-insert_sorted x a xs)

pub sort-IsAscending : (xs : List ℕ) → IsAscending (sort xs)
unfolding sort
sort-IsAscending [] = tt
sort-IsAscending (x ∷ xs) = From-insert_sorted 0 x (sort xs) (omega arith) (sort-IsAscending xs)

count-insert_sorted :
    (p : ℕ → Bool) (a : ℕ) (xs : List ℕ)
    → count p (insert_sorted a xs) ≡ (if p a then 1 else 0) + count p xs
unfolding insert_sorted
count-insert_sorted p a [] = refl
count-insert_sorted p a (x ∷ xs) = ground (arith, count-insert_sorted p a xs)

-- A sort has as many elements of every sort as there were.
pub count-sort : (p : ℕ → Bool) (xs : List ℕ) → count p (sort xs) ≡ count p xs
unfolding sort
count-sort p [] = refl
count-sort p (x ∷ xs) = omega (arith, count-insert_sorted p x (sort xs), count-sort p xs)

length-insert_sorted : (a : ℕ) (xs : List ℕ) → length (insert_sorted a xs) ≡ suc (length xs)
unfolding insert_sorted
length-insert_sorted a [] = refl
length-insert_sorted a (x ∷ xs) = ground (arith, length-insert_sorted a xs)

pub length-sort : (xs : List ℕ) → length (sort xs) ≡ length xs
unfolding sort
length-sort [] = refl
length-sort (x ∷ xs) = omega (arith, length-insert_sorted x (sort xs), length-sort xs)
