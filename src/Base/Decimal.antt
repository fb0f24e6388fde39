-- ===== src/Base/Decimal.antt =====
-- `fmt.Sprintf("%d", n)` at a number that is not negative.
use Prim.Native.Nat.{ℕ, zero, suc, ◌/◌, ◌%◌}
use Prim.Native.String.{String, ◌++◌}
use mathlib.Core.Path.{◌≡◌, refl}
use minio_operator_ext.Base.Tests.{if◌then◌else◌, ltb}

-- The digit `n`.
abbrev digit_text : ℕ → String
digit_text zero = "0"
digit_text (suc zero) = "1"
digit_text (suc (suc zero)) = "2"
digit_text (suc (suc (suc zero))) = "3"
digit_text (suc (suc (suc (suc zero)))) = "4"
digit_text (suc (suc (suc (suc (suc zero))))) = "5"
digit_text (suc (suc (suc (suc (suc (suc zero)))))) = "6"
digit_text (suc (suc (suc (suc (suc (suc (suc zero))))))) = "7"
digit_text (suc (suc (suc (suc (suc (suc (suc (suc zero)))))))) = "8"
digit_text _ = "9"

-- One unit of fuel for each digit.
format_digits : ℕ → ℕ → String
format_digits zero n = ""
format_digits (suc fuel) n =
    let rest = format_digits fuel (n / 10) in
    if ltb n 10 then digit_text n else rest ++ digit_text (n % 10)

-- An `int32` has ten digits at most.
unfoldable pub format_int : ℕ → String
unfolding format_digits
format_int n = format_digits 10 n

format_int_port : format_int 9000 ≡ "9000"
unfolding format_int
format_int_port = refl

format_int_max : format_int 2147483647 ≡ "2147483647"
unfolding format_int
format_int_max = refl
