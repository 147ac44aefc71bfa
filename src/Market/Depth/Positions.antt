-- ===== src/Market/Depth/Positions.antt =====
-- crates/app-core/src/market/depth.rs, `Curve`: what the searches of the bands find.
use gavel.Shared.{
  ℕ, zero, suc, ◌<◌, ◌≡◌, refl, ap, ◌∙◌, inl, inr, Bool, true, false, none, some, List, [], ◌∷◌,
  map, arith, Bool-cases, Option-cases, length,
}
use gavel.Market.Depth.Curve.{position, at}

-- Where `position` goes past the head of the list, or stops at it.
position-suc :
    (p : ℕ → Bool) (x : ℕ) (xs : List ℕ) (i : ℕ)
    → position p (x ∷ xs) ≡ some (suc i)
    → (p x ≡ false) × (position p xs ≡ some i)
unfolding position
position-suc p x xs i e = elim (Bool-cases (p x)) [
  | inl h ↦ absurd (ground arith)
  | inr h ↦ elim (Option-cases (position p xs)) [
    | inl n ↦ absurd (ground arith)
    | inr (j, n) ↦ let same : j ≡ i = ground arith in (h, n ∙ ap some same)
  ]
]

position-zero : (p : ℕ → Bool) (x : ℕ) (xs : List ℕ) → position p (x ∷ xs) ≡ some 0 → p x ≡ true
unfolding position
position-zero p x xs e = elim (Bool-cases (p x)) [
  | inl h ↦ h
  | inr h ↦ elim (Option-cases (position p xs)) [
    | inl n ↦ absurd (ground arith)
    | inr (j, n) ↦ absurd (ground arith)
  ]
]

-- What `position` finds passes the test, what stands before it does not, and if it finds nothing,
-- nothing passes.
pub position-some :
    (p : ℕ → Bool) (xs : List ℕ) (i : ℕ)
    → position p xs ≡ some i
    → (i < length xs) × (p (at xs i) ≡ true)
position-some p [] i e = absurd (unfold position in ground arith)
position-some p (x ∷ xs) zero e = (omega arith, position-zero p x xs e)
position-some p (x ∷ xs) (suc i) e =
    let (lt, t) = position-some p xs i (position-suc p x xs i e).1 in (omega arith, t)

pub position-before :
    (p : ℕ → Bool) (xs : List ℕ) (i : ℕ) → position p xs ≡ some (suc i) → p (at xs i) ≡ false
position-before p [] i e = absurd (unfold position in ground arith)
position-before p (x ∷ xs) zero e = (position-suc p x xs zero e).0
position-before p (x ∷ xs) (suc i) e = position-before p xs i (position-suc p x xs (suc i) e).1

all_false :
    (p : ℕ → Bool) (x : ℕ) (xs : List ℕ)
    → position p (x ∷ xs) ≡ none
    → (p x ≡ false) × (position p xs ≡ none)
unfolding position
all_false p x xs e = elim (Bool-cases (p x)) [
  | inl t ↦ absurd (ground arith)
  | inr f ↦ elim (Option-cases (position p xs)) [
    | inl n ↦ (f, n)
    | inr (j, n) ↦ absurd (ground arith)
  ]
]

pub position-none :
    (p : ℕ → Bool) (xs : List ℕ) (i : ℕ)
    → position p xs ≡ none
    → i < length xs
    → p (at xs i) ≡ false
position-none p [] i e h = absurd (omega arith)
position-none p (x ∷ xs) zero e h = (all_false p x xs e).0
position-none p (x ∷ xs) (suc i) e h = position-none p xs i (all_false p x xs e).1 (omega arith)

pub at-map : (f : ℕ → ℕ) (xs : List ℕ) (i : ℕ) → i < length xs → at (map f xs) i ≡ f (at xs i)
at-map f [] i h = absurd (omega arith)
at-map f (x ∷ xs) zero h = refl
at-map f (x ∷ xs) (suc i) h = at-map f xs i (omega arith)
