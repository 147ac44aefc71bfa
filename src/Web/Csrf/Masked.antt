-- ===== src/Web/Csrf/Masked.antt =====
-- crates/app-web/src/csrf.rs, `masked` and `verify`: what a page shows is accepted, and only what
-- decodes to the token is.
use gavel.Shared.{
  ℕ, zero, suc, ◌+◌, ◌≤◌, max, ◌≡◌, ◌↔◌, refl, ap, sym, subst, ◌∙◌, inl, inr, true, false, ◌==◌,
  ==_iff, ==-refl, arith, Bool, Option, none, if◌then◌else◌, some, [], ◌∷◌, ◌++◌, All, length,
  length-append, take, drop, Bool-cases,
}
use gavel.Shared.Bytes.{Bytes}
use gavel.Web.Csrf.Defs.{
  token_bytes, to_hex, from_hex, xor_all, masked, xor_options, Unmasked, panicked, answers,
  is_char_boundary, unmask, fold_differences, verify_decoded, verify, new_token,
}
use gavel.Web.Csrf.Bits.{
  IsByte, xor_all-IsByte, length-xor_all, xor_all-twice, fold_differences_eq, fold_differences-same,
}
use gavel.Web.Csrf.Hex.{from_hex-to_hex, length-to_hex, from_hex-IsRead}

take-append : (n : ℕ) (xs ys : Bytes) → length xs ≡ n → take n (xs ++ ys) ≡ xs
take-append zero [] ys h = refl
take-append zero (x ∷ xs) ys h = absurd (omega arith)
take-append (suc n) [] ys h = absurd (omega arith)
take-append (suc n) (x ∷ xs) ys h = ap (λ r. x ∷ r) (take-append n xs ys (omega arith))

drop-append : (n : ℕ) (xs ys : Bytes) → length xs ≡ n → drop n (xs ++ ys) ≡ ys
drop-append zero [] ys h = refl
drop-append zero (x ∷ xs) ys h = absurd (omega arith)
drop-append (suc n) [] ys h = absurd (omega arith)
drop-append (suc n) (x ∷ xs) ys h = drop-append n xs ys (omega arith)

is_char_boundary-to_hex :
    (bytes : Bytes) → All IsByte bytes → is_char_boundary (to_hex bytes) ≡ true
unfolding to_hex
is_char_boundary-to_hex [] a = refl
is_char_boundary-to_hex (b ∷ bytes) a = ground arith

unmask-masked :
    (bytes pad : Bytes)
    → length bytes ≡ token_bytes
    → length pad ≡ token_bytes
    → All IsByte bytes
    → All IsByte pad
    → unmask (to_hex pad ++ to_hex (xor_all pad bytes)) ≡ answers (some bytes)
unfolding unmask
unmask-masked bytes pad l m b p =
    let shown = to_hex pad ++ to_hex (xor_all pad bytes) in
    let half : length (xor_all pad bytes) ≡ 32 = length-xor_all pad bytes (omega arith) ∙ l in
    let whole : length shown ≡ 128 = omega (
      arith,
      length-append (to_hex pad) (to_hex (xor_all pad bytes)),
      length-to_hex pad,
      length-to_hex (xor_all pad bytes),
    ) in
    let bare : (length shown == 64) ≡ false = ground arith in
    let both : (length shown == 128) ≡ true = ground arith in
    let front : length (to_hex pad) ≡ 64 = omega (arith, length-to_hex pad) in
    rw
      (
        bare,
        both,
        take-append 64 (to_hex pad) (to_hex (xor_all pad bytes)) front,
        drop-append 64 (to_hex pad) (to_hex (xor_all pad bytes)) front,
        is_char_boundary-to_hex (xor_all pad bytes) (xor_all-IsByte pad bytes),
        from_hex-to_hex pad (omega arith) p,
        from_hex-to_hex (xor_all pad bytes) (omega arith) (xor_all-IsByte pad bytes),
      )
      (ap (λ r. answers (some r)) (xor_all-twice pad bytes (omega arith) b))

unmask-to_hex :
    (bytes : Bytes)
    → length bytes ≡ token_bytes
    → All IsByte bytes
    → unmask (to_hex bytes) ≡ answers (some bytes)
unfolding unmask
unmask-to_hex bytes l b =
    let short : (length (to_hex bytes) == 64) ≡ true = ground (arith, length-to_hex bytes) in
    rw (short, from_hex-to_hex bytes (omega arith) b) refl

-- Equal texts pass.
verify_decoded-same : (bytes : Bytes) → verify_decoded (some bytes) (answers (some bytes)) ≡ true
verify_decoded-same bytes = rw (==-refl (length bytes), fold_differences-same bytes) refl

-- The token that `new_token` made is accepted, bare or masked with any pad.
pub verify-masked :
    (bytes pad : Bytes)
    → length bytes ≡ token_bytes
    → length pad ≡ token_bytes
    → All IsByte bytes
    → All IsByte pad
    → (verify (new_token bytes) (masked (new_token bytes) (some pad)) ≡ true)
      × (verify (new_token bytes) (masked (new_token bytes) none) ≡ true)
unfolding verify masked new_token
verify-masked bytes pad l m b p =
    let read = from_hex-to_hex bytes (omega arith) b in
    (
      rw (read, unmask-masked bytes pad l m b p) (verify_decoded-same bytes),
      rw (read, unmask-to_hex bytes l b) (verify_decoded-same bytes),
    )

-- What `unmask` gives has 32 bytes.
pub record IsToken (bytes : Bytes) : Type 0 where
  pub length_eq : length bytes ≡ token_bytes
  pub bytes_ok : All IsByte bytes

length-take : (n : ℕ) (xs : Bytes) → n ≤ length xs → length (take n xs) ≡ n
length-take zero xs h = refl
length-take (suc n) [] h = absurd (omega arith)
length-take (suc n) (x ∷ xs) h = ap suc (length-take n xs (omega arith))

length-drop : (n : ℕ) (xs : Bytes) → n + length (drop n xs) ≡ max n (length xs)
length-drop zero xs = omega arith
length-drop (suc n) [] = omega arith
length-drop (suc n) (x ∷ xs) = omega (arith, length-drop n xs)

xor_options-some :
    (p m : Option Bytes) (out : Bytes)
    → xor_options p m ≡ some out
    → (pad : Bytes) × (mask : Bytes) × (p ≡ some pad) × (m ≡ some mask) × (out ≡ xor_all pad mask)
xor_options-some none m out e = absurd (ground arith)
xor_options-some (some pad) none out e = absurd (ground arith)
xor_options-some (some pad) (some mask) out e = (pad, mask, refl, refl, ground arith)

abbrev answer_of : Unmasked → Option Bytes
answer_of panicked = none
answer_of (answers o) = o

split_ok :
    (o : Option Bytes) (out : Bytes) (boundary : Bool)
    → (if boundary then answers o else panicked) ≡ answers (some out)
    → o ≡ some out
split_ok o out true e = ap answer_of e
split_ok o out false e = absurd (ground (arith, e))

pub unmask-IsToken : (presented out : Bytes) → unmask presented ≡ answers (some out) → IsToken out
unfolding unmask
unmask-IsToken presented out e = elim (Bool-cases (length presented == 64)) [
  | inl h ↦
      let e' : answers (from_hex presented) ≡ answers (some out) = rw h at e in
      let read = from_hex-IsRead presented out (ap answer_of e') in
      record {
        length_eq = omega (arith, read.length_eq, (==_iff (length presented) 64).0 h);
        bytes_ok = read.bytes_ok;
      }
  | inr h ↦ elim (Bool-cases (length presented == 128)) [
    | inr k ↦
        let e' : answers none ≡ answers (some out) = rw (h, k) at e in absurd (ground (arith, e'))
    | inl k ↦
        let e' : xor_options (from_hex (take 64 presented)) (from_hex (drop 64 presented))
            ≡ some out =
          split_ok (xor_options (from_hex (take 64 presented)) (from_hex (drop 64 presented))) out
            (is_char_boundary (drop 64 presented)) (rw (h, k) at e) in
        let (pad, mask, p, m, o) =
          xor_options-some (from_hex (take 64 presented)) (from_hex (drop 64 presented)) out e' in
        let front = from_hex-IsRead (take 64 presented) pad p in
        let back = from_hex-IsRead (drop 64 presented) mask m in
        let long : length presented ≡ 128 = (==_iff (length presented) 128).0 k in
        let front_length : length pad ≡ 32 =
          omega (arith, front.length_eq, length-take 64 presented (omega arith)) in
        let back_length : length mask ≡ 32 =
          omega (arith, back.length_eq, length-drop 64 presented) in
        subst IsToken (sym o) (record {
          length_eq = length-xor_all pad mask (omega arith) ∙ back_length;
          bytes_ok = xor_all-IsByte pad mask;
        })
  ]
]

verify_decoded-some :
    (x : Option Bytes) (y : Unmasked)
    → verify_decoded x y ≡ true
    → (expected : Bytes) × (actual : Bytes) × (x ≡ some expected)
      × (y ≡ answers (some actual))
      × (length expected ≡ length actual)
      × (fold_differences 0 expected actual ≡ 0)
verify_decoded-some none y e = absurd (ground arith)
verify_decoded-some (some x) panicked e = absurd (ground arith)
verify_decoded-some (some x) (answers none) e = absurd (ground arith)
verify_decoded-some (some x) (answers (some y)) e = (x, y, refl, refl, ground arith, ground arith)

-- A value is accepted exactly where it decodes to the token.
pub verify_iff :
    (csrf presented : Bytes)
    → (verify csrf presented ≡ true)
      ↔ ((token : Bytes) × (from_hex csrf ≡ some token) × (unmask presented ≡ answers (some token)))
unfolding verify
verify_iff csrf presented = (
  (λ e.
      let (expected, actual, x, y, l, z) =
        verify_decoded-some (from_hex csrf) (unmask presented) e in
      let same : expected ≡ actual =
        fold_differences_eq 0 expected actual (omega arith)
          (from_hex-IsRead csrf expected x).bytes_ok (unmask-IsToken presented actual y).bytes_ok l
          z in
      (expected, x, y ∙ ap (λ r. answers (some r)) (sym same))),
  (λ t. rw (t.1, t.2) (verify_decoded-same t.0)),
)
