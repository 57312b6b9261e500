-- ===== src/Prelude/Flags.antt =====
-- Flag words: `f | (1 << k)`, `f & (1 << k)` and `f & ~(1 << k)` in a form that `omega` reads.
use schema_init.Prelude.Tests.{◌==◌, if◌then◌else◌}
use Prim.Native.Nat.{ℕ, ◌+◌, ◌/◌, ◌%◌, ◌^◌}
use mathlib.Core.Bool.{Bool}

-- `(f & (1 << k)) != 0`.
abbrev pub has_flag : ℕ → ℕ → Bool
has_flag f k = (f / 2 ^ k) % 2 == 1

-- `f | (1 << k)`.
abbrev pub set_flag : ℕ → ℕ → ℕ
set_flag f k = if has_flag f k then f else f + 2 ^ k

-- `if (c) f |= (1 << k);`
unfoldable pub flag_if : Bool → ℕ → ℕ → ℕ
flag_if c k f = if c then set_flag f k else f
