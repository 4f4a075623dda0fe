-- ===== src/Base/Words.antt =====
-- Bytes and 16-bit words as native numbers.
use Prim.Native.Nat.{ℕ, ◌%◌, bit_and, compare, Ordering}
use mathlib.Core.Bool.{Bool, true, false}
use mathlib.Core.List.{List}

abbrev pub Bytes : Type 0
Bytes = List ℕ

-- A conversion to `__u8`, and one to `__u16`.
abbrev pub u8 : ℕ → ℕ
u8 n = n % 256

abbrev pub u16 : ℕ → ℕ
u16 n = n % 65536

-- A C test `x & mask`, read as a truth value.
abbrev pub has : ℕ → ℕ → Bool
has x mask = elim (compare (bit_and x mask) 0) [ Ordering.eq ↦ false | _ ↦ true ]
