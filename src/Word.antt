-- ===== src/Word.antt =====
-- Unsigned machine words and bit masks, in the form that linear arithmetic reads at a numeral.
use dimq.Prelude.{ℕ, ◌/◌, ◌%◌, ◌^◌, ◌<◌, Bool, ◌==◌}

abbrev pub u8 : ℕ → ℕ
u8 x = x % 2 ^ 8

abbrev pub u16 : ℕ → ℕ
u16 x = x % 2 ^ 16

abbrev pub u32 : ℕ → ℕ
u32 x = x % 2 ^ 32

abbrev pub IsByte : ℕ → Type 0
IsByte b = b < 256

-- x >> k, x & (2^k - 1), and the test of bit k of x.
abbrev pub shr : ℕ → ℕ → ℕ
shr x k = x / 2 ^ k

abbrev pub low_bits : ℕ → ℕ → ℕ
low_bits x k = x % 2 ^ k

abbrev pub has_bit : ℕ → ℕ → Bool
has_bit x k = x / 2 ^ k % 2 == 1

-- The bits of x from bit k up to bit 7 are those of the number m: (x & mask) == m << k.
abbrev pub top_bits : ℕ → ℕ → ℕ → Bool
top_bits x k m = x % 256 / 2 ^ k == m

-- The macros of lib/net_dimq.h.
abbrev pub msb : ℕ → ℕ
msb a = u8 (shr (u16 a) 8)

abbrev pub lsb : ℕ → ℕ
lsb a = u8 a
