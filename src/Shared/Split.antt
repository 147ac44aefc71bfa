-- ===== src/Shared/Split.antt =====
-- `str::split` at a byte, and fields joined by a byte.
use Prim.Native.Nat.{ℕ, ◌≤◌}
use mathlib.Core.Path.{◌≡◌, refl, ap, ◌∙◌}
use mathlib.Core.Logic.{◌≢◌}
use mathlib.Core.Bool.{false}
use mathlib.Core.List.{List, [], ◌∷◌, ◌++◌}
use native.Mathlib.Omega.{arith}
use gavel.Shared.Tests.{if◌then◌else◌, ◌==◌}
use gavel.Shared.Lists.{All, length}
use gavel.Shared.Bytes.{Bytes}

abbrev pub push_first : ℕ → List Bytes → List Bytes
push_first x [] = (x ∷ []) ∷ []
push_first x (f ∷ fs) = (x ∷ f) ∷ fs

unfoldable pub split : ℕ → Bytes → List Bytes
split sep [] = [] ∷ []
split sep (x ∷ s) = let rest = split sep s in if x == sep then [] ∷ rest else push_first x rest

unfoldable pub join_with : ℕ → List Bytes → Bytes
join_with sep [] = []
join_with sep (f ∷ []) = f
join_with sep (f ∷ g ∷ fs) = f ++ sep ∷ join_with sep (g ∷ fs)

abbrev pub Without : ℕ → Bytes → Type 0
Without sep f = All (λ c. c ≢ sep) f

pub split-field : (sep : ℕ) (f : Bytes) → Without sep f → split sep f ≡ f ∷ []
unfolding split
split-field sep [] h = refl
split-field sep (x ∷ f) h =
    let other : (x == sep) ≡ false = ground (arith, h.0) in rw (other, split-field sep f h.1) refl

pub split-append :
    (sep : ℕ) (f s : Bytes) → Without sep f → split sep (f ++ sep ∷ s) ≡ f ∷ split sep s
unfolding split
split-append sep [] s h = ground arith
split-append sep (x ∷ f) s h =
    let other : (x == sep) ≡ false = ground (arith, h.0) in
    rw (other, split-append sep f s h.1) refl

-- Fields without the separator come back.
pub split-join_with :
    (sep : ℕ) (fs : List Bytes)
    → 1 ≤ length fs
    → All (Without sep) fs
    → split sep (join_with sep fs) ≡ fs
unfolding join_with
split-join_with sep [] l h = absurd (omega arith)
split-join_with sep (f ∷ []) l h = split-field sep f h.0
split-join_with sep (f ∷ g ∷ fs) l h =
    split-append sep f (join_with sep (g ∷ fs)) h.0
    ∙ ap (λ r. f ∷ r) (split-join_with sep (g ∷ fs) (omega arith) h.1)
