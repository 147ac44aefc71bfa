-- ===== src/Web/Csrf/Defs.antt =====
-- crates/app-web/src/csrf.rs. The bytes that `getrandom` fills are an argument, `none` where it
-- fails; text is its bytes.
use gavel.Shared.{
  ℕ, zero, suc, ◌+◌, ◌-◌, ◌*◌, ◌/◌, ◌%◌, max, Bool, true, false, ◌==◌, ◌&&◌, ◌||◌, leb, ltb, Option,
  none, some, [], ◌∷◌, ◌++◌, if◌then◌else◌, take, drop, length, is_some,
}
use gavel.Shared.Bytes.{Bytes}

abbrev pub token_bytes : ℕ
token_bytes = 32

-- `^` and `|` on numbers of so many bits.
unfoldable pub xor_bits : ℕ → ℕ → ℕ → ℕ
xor_bits zero a b = 0
xor_bits (suc n) a b = (a + b) % 2 + 2 * xor_bits n (a / 2) (b / 2)

unfoldable pub or_bits : ℕ → ℕ → ℕ → ℕ
or_bits zero a b = 0
or_bits (suc n) a b = max (a % 2) (b % 2) + 2 * or_bits n (a / 2) (b / 2)

abbrev pub xor : ℕ → ℕ → ℕ
xor a b = xor_bits 8 a b

-- A digit of `HEX`.
abbrev pub hex_digit : ℕ → ℕ
hex_digit d = if leb d 9 then 48 + d else 87 + d

-- `to_hex`.
unfoldable pub to_hex : Bytes → Bytes
to_hex [] = []
to_hex (b ∷ bytes) = hex_digit (b / 16) ∷ hex_digit (b % 16) ∷ to_hex bytes

-- `char::to_digit(16)`.
abbrev pub to_digit : ℕ → Option ℕ
to_digit c =
    if leb 48 c && leb c 57
    then some (c - 48)
    else if leb 97 c && leb c 102
    then some (c - 87)
    else if leb 65 c && leb c 70
    then some (c - 55)
    else none

abbrev pub pair_of : Option ℕ → Option ℕ → Option Bytes → Option Bytes
pair_of (some hi) (some lo) (some rest) = some ((hi * 16 + lo) % 256 ∷ rest)
pair_of (some hi) (some lo) none = none
pair_of (some hi) none rest = none
pair_of none lo rest = none

-- The loop of `from_hex`, on a text of even length.
unfoldable pub from_pairs : Bytes → Option Bytes
from_pairs [] = some []
from_pairs (c ∷ []) = none
from_pairs (c ∷ d ∷ text) = pair_of (to_digit c) (to_digit d) (from_pairs text)

-- `from_hex`; an odd length is refused by the loop too.
unfoldable pub from_hex : Bytes → Option Bytes
from_hex [] = none
from_hex (c ∷ text) = if length (c ∷ text) % 2 == 0 then from_pairs (c ∷ text) else none

-- `zip` with `^`.
abbrev pub xor_all : Bytes → Bytes → Bytes
xor_all [] ys = []
xor_all (x ∷ xs) [] = []
xor_all (x ∷ xs) (y ∷ ys) = xor x y ∷ xor_all xs ys

abbrev pub Csrf : Type 0
Csrf = Bytes

abbrev pub masked_with : Csrf → Option Bytes → Option Bytes → Bytes
masked_with csrf none pad = csrf
masked_with csrf (some token) none = csrf
masked_with csrf (some token) (some pad) = to_hex pad ++ to_hex (xor_all pad token)

-- `Csrf::masked`, with what `getrandom::fill` gave.
unfoldable pub masked : Csrf → Option Bytes → Bytes
masked csrf pad = masked_with csrf (from_hex csrf) pad

abbrev pub xor_options : Option Bytes → Option Bytes → Option Bytes
xor_options none masked = none
xor_options (some pad) none = none
xor_options (some pad) (some masked) = some (xor_all pad masked)

-- What `unmask` comes to: `split_at` panics inside a character, otherwise it answers.
pub data Unmasked : Type 0 where
  panicked : Unmasked
  answers : Option Bytes → Unmasked

-- `is_char_boundary` at the start of a rest of a text, which is UTF-8.
abbrev pub is_char_boundary : Bytes → Bool
is_char_boundary [] = true
is_char_boundary (c ∷ rest) = ltb c 128 || leb 192 c

-- `unmask`.
unfoldable pub unmask : Bytes → Unmasked
unmask presented =
    let pad = take (token_bytes * 2) presented in
    let masked = drop (token_bytes * 2) presented in
    if length presented == token_bytes * 2
    then answers (from_hex presented)
    else if length presented == token_bytes * 4
    then if is_char_boundary masked
      then answers (xor_options (from_hex pad) (from_hex masked))
      else panicked
    else answers none

-- The `fold` of `verify`.
abbrev pub fold_differences : ℕ → Bytes → Bytes → ℕ
fold_differences acc [] ys = acc
fold_differences acc (x ∷ xs) [] = acc
fold_differences acc (x ∷ xs) (y ∷ ys) = fold_differences (or_bits 8 acc (xor x y)) xs ys

abbrev pub verify_decoded : Option Bytes → Unmasked → Bool
verify_decoded none actual = false
verify_decoded (some expected) panicked = false
verify_decoded (some expected) (answers none) = false
verify_decoded (some expected) (answers (some actual)) =
    length expected == length actual && fold_differences 0 expected actual == 0

-- `Csrf::verify`: whether it returns `Ok`; otherwise it returns `Forbidden`, its one error, or panics
-- in `unmask`.
unfoldable pub verify : Csrf → Bytes → Bool
verify csrf presented = verify_decoded (from_hex csrf) (unmask presented)

-- `Csrf::verify_request`, by the header and the field of the form.
abbrev pub verify_request : Csrf → Option Bytes → Option Bytes → Bool
verify_request csrf (some token) form_token = verify csrf token
verify_request csrf none (some token) = verify csrf token
verify_request csrf none none = false

-- `new_token`, from its random bytes.
unfoldable pub new_token : Bytes → Csrf
new_token bytes = to_hex bytes

-- What `layer` takes for the token and whether it issues a cookie, by the cookie that came.
unfoldable pub layer_token : Option Bytes → Bytes → Csrf × Bool
layer_token none fresh = (new_token fresh, true)
layer_token (some cookie) fresh =
    if is_some (from_hex cookie) then (cookie, false) else (new_token fresh, true)
