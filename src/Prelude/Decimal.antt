-- ===== src/Prelude/Decimal.antt =====
-- `%u` and `%d` of a non-negative number, and the loop that reads decimal digits back.
use Prim.Native.Nat.{ℕ, zero, suc, ◌+◌, ◌/◌, ◌%◌}
use mathlib.Core.Bool.{Bool, ◌&&◌}
use mathlib.Core.List.{[], ◌∷◌}
use schema_init.Prelude.Tests.{ltb, leb, if◌then◌else◌}
use schema_init.Prelude.Strings.{Bytes}

-- The digits of `n` in front of `rest`, with a bound on their number.
unfoldable pub print_digits : ℕ → ℕ → Bytes → Bytes
print_digits zero n rest = rest
print_digits (suc k) n rest =
    let more = print_digits k (n / 10) ((b'0' + n % 10) ∷ rest) in
    if ltb n 10 then (b'0' + n) ∷ rest else more

-- Twenty digits are enough for every 64-bit number.
unfoldable pub print_decimal : ℕ → Bytes
unfolding print_digits
print_decimal n = print_digits 20 n []

abbrev pub is_digit : ℕ → Bool
is_digit c = leb b'0' c && leb c b'9'
