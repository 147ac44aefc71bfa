-- ===== src/Shared/Text.antt =====
-- Decimal text, for the messages that the source builds by `format!`.
use Prim.Native.Nat.{ℕ, zero, suc, ◌+◌, ◌/◌, ◌%◌}
use Prim.Native.String.{String}
use Prim.Native.String.{◌++◌ as join}
use gavel.Shared.Tests.{ltb, if◌then◌else◌}

infixr 60 ◌⋯◌
abbrev pub ◌⋯◌ : String → String → String
s ⋯ t = join s t

digit : ℕ → String
digit zero = "0"
digit (suc zero) = "1"
digit (suc (suc zero)) = "2"
digit (suc (suc (suc zero))) = "3"
digit (suc (suc (suc (suc zero)))) = "4"
digit (suc (suc (suc (suc (suc zero))))) = "5"
digit (suc (suc (suc (suc (suc (suc zero)))))) = "6"
digit (suc (suc (suc (suc (suc (suc (suc zero))))))) = "7"
digit (suc (suc (suc (suc (suc (suc (suc (suc zero)))))))) = "8"
digit _ = "9"

-- A number has at most as many digits as its value plus one.
show_digits : ℕ → ℕ → String
show_digits zero n = ""
show_digits (suc fuel) n =
    let front = show_digits fuel (n / 10) in if ltb n 10 then digit n else front ⋯ digit (n % 10)

-- `{n}`.
unfoldable pub show : ℕ → String
unfolding show_digits digit
show n = show_digits (n + 1) n

-- `{n:02}`.
unfoldable pub show_padded : ℕ → String
unfolding show
show_padded n = if ltb n 10 then "0" ⋯ show n else show n
