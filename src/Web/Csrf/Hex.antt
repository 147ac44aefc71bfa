-- ===== src/Web/Csrf/Hex.antt =====
-- crates/app-web/src/csrf.rs, `to_hex` and `from_hex`: what is written reads back.
use gavel.Shared.{
  ℕ, ◌+◌, ◌*◌, ◌/◌, ◌%◌, ◌≤◌, ◌<◌, ◌≡◌, refl, sym, subst, ◌∙◌, inl, inr, true, ◌==◌, arith, Option,
  none, some, [], ◌∷◌, All, length, Bool-cases,
}
use gavel.Shared.Bytes.{Bytes}
use gavel.Web.Csrf.Defs.{hex_digit, to_hex, to_digit, pair_of, from_pairs, from_hex}
use gavel.Web.Csrf.Bits.{IsByte}

to_digit-hex_digit : (d : ℕ) → d < 16 → to_digit (hex_digit d) ≡ some d
to_digit-hex_digit d h = ground arith

from_pairs-to_hex : (bytes : Bytes) → All IsByte bytes → from_pairs (to_hex bytes) ≡ some bytes
unfolding from_pairs to_hex
from_pairs-to_hex [] h = refl
from_pairs-to_hex (b ∷ bytes) h =
    let whole : (b / 16 * 16 + b % 16) % 256 ≡ b = omega (arith, h.0) in
    rw
      (
        to_digit-hex_digit (b / 16) (omega (arith, h.0)),
        to_digit-hex_digit (b % 16) (omega arith),
        from_pairs-to_hex bytes h.1,
        whole,
      )
      refl

pub length-to_hex : (bytes : Bytes) → length (to_hex bytes) ≡ 2 * length bytes
unfolding to_hex
length-to_hex [] = refl
length-to_hex (b ∷ bytes) = omega (arith, length-to_hex bytes)

from_hex-even :
    (text : Bytes) → 1 ≤ length text → length text % 2 ≡ 0 → from_hex text ≡ from_pairs text
unfolding from_hex
from_hex-even [] l e = absurd (omega arith)
from_hex-even (c ∷ text) l e =
    let even : (length (c ∷ text) % 2 == 0) ≡ true = ground arith in rw even refl

-- `from_hex` reads what `to_hex` wrote of at least one byte.
pub from_hex-to_hex :
    (bytes : Bytes) → 1 ≤ length bytes → All IsByte bytes → from_hex (to_hex bytes) ≡ some bytes
from_hex-to_hex bytes l h =
    from_hex-even (to_hex bytes) (omega (arith, length-to_hex bytes))
      (omega (arith, length-to_hex bytes))
    ∙ from_pairs-to_hex bytes h

-- What is read has half as many bytes, each below 256.
pub record IsRead (text bytes : Bytes) : Type 0 where
  pub length_eq : 2 * length bytes ≡ length text
  pub bytes_ok : All IsByte bytes

pair_of-some :
    (hi lo : Option ℕ) (rest : Option Bytes) (out : Bytes)
    → pair_of hi lo rest ≡ some out
    → (b : ℕ) × (tail : Bytes) × (rest ≡ some tail) × (out ≡ b ∷ tail) × (b < 256)
pair_of-some none lo rest out e = absurd (ground arith)
pair_of-some (some hi) none rest out e = absurd (ground arith)
pair_of-some (some hi) (some lo) none out e = absurd (ground arith)
pair_of-some (some hi) (some lo) (some tail) out e =
    ((hi * 16 + lo) % 256, tail, refl, ground arith, omega arith)

from_pairs-IsRead : (text out : Bytes) → from_pairs text ≡ some out → IsRead text out
unfolding from_pairs
from_pairs-IsRead [] [] e = record { length_eq = refl; bytes_ok = tt }
from_pairs-IsRead [] (b ∷ out) e = absurd (ground arith)
from_pairs-IsRead (c ∷ []) out e = absurd (ground arith)
from_pairs-IsRead (c ∷ d ∷ text) out e =
    let (b, tail, r, o, lt) = pair_of-some (to_digit c) (to_digit d) (from_pairs text) out e in
    let read : IsRead text tail = from_pairs-IsRead text tail r in
    subst (IsRead (c ∷ d ∷ text)) (sym o)
      (record { length_eq = omega (arith, read.length_eq); bytes_ok = (lt, read.bytes_ok) })

pub from_hex-IsRead : (text out : Bytes) → from_hex text ≡ some out → IsRead text out
unfolding from_hex
from_hex-IsRead [] out e = absurd (ground arith)
from_hex-IsRead (c ∷ text) out e = elim (Bool-cases (length (c ∷ text) % 2 == 0)) [
  | inl h ↦
      let e' : from_pairs (c ∷ text) ≡ some out = rw h at e in from_pairs-IsRead (c ∷ text) out e'
  | inr h ↦ let e' : none ≡ some out = rw h at e in absurd (ground arith)
]
