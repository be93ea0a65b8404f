-- ===== src/Base/Words.antt =====
-- Arithmetic of the C types: a value is a native number, an operation wraps at the type's width.
use Prim.Native.Nat.{ℕ, ◌+◌, ◌-◌, ◌%◌, ◌^◌}

-- `__u64`
abbrev pub add64 : ℕ → ℕ → ℕ
add64 a b = (a + b) % 2 ^ 64

abbrev pub sub64 : ℕ → ℕ → ℕ
sub64 a b = (a + 2 ^ 64 - b) % 2 ^ 64

-- `unsigned`, on the platforms where it has 32 bits
abbrev pub sub32 : ℕ → ℕ → ℕ
sub32 a b = (a + 2 ^ 32 - b) % 2 ^ 32

-- the conversion to `__u32` that a parameter of that type makes
abbrev pub to_u32 : ℕ → ℕ
to_u32 a = a % 2 ^ 32

-- the conversion to `unsigned short`
abbrev pub to_u16 : ℕ → ℕ
to_u16 a = a % 2 ^ 16
