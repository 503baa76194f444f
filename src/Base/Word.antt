-- ===== src/Base/Word.antt =====
-- Casts to the unsigned widths of C.
use Prim.Native.Nat.{ℕ, ◌%◌, ◌^◌}

abbrev pub u8 : ℕ → ℕ
u8 n = n % 2 ^ 8

abbrev pub u16 : ℕ → ℕ
u16 n = n % 2 ^ 16

abbrev pub u32 : ℕ → ℕ
u32 n = n % 2 ^ 32

-- `INT_MIN` is the zero of the shifted representation of a C `int`: `n` stands for `n - int_zero`.
abbrev pub int_zero : ℕ
int_zero = 2 ^ 31
