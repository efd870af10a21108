-- ===== src/Base/Words.antt =====
-- Machine words as natural numbers: casts, shifts and bit fields.
use Prim.Native.Nat.{ℕ, ◌+◌, ◌-◌, ◌*◌, ◌/◌, ◌%◌, ◌^◌}
use mathlib.Core.Bool.{Bool}
use rv_emu.Base.Tests.{◌==◌, if◌then◌else◌}

abbrev pub u8 : ℕ → ℕ
u8 n = n % 2 ^ 8

abbrev pub u16 : ℕ → ℕ
u16 n = n % 2 ^ 16

abbrev pub u32 : ℕ → ℕ
u32 n = n % 2 ^ 32

abbrev pub u64 : ℕ → ℕ
u64 n = n % 2 ^ 64

-- `(x >> k) & 1` as a test, also for `x & (1 << k)`.
abbrev pub bit : ℕ → ℕ → Bool
bit x k = x / 2 ^ k % 2 == 1

-- `(x >> lo) & ((1 << w) - 1)`.
abbrev pub field : ℕ → ℕ → ℕ → ℕ
field x lo w = x / 2 ^ lo % 2 ^ w

-- `(x & ~(((1 << w) - 1) << lo)) | (v << lo)`, for a value `v` of at most `w` bits.
abbrev pub put : ℕ → ℕ → ℕ → ℕ → ℕ
put x lo w v = x / 2 ^ (lo + w) * 2 ^ (lo + w) + v * 2 ^ lo + x % 2 ^ lo

-- `x | (1 << k)` and `x & ~(1 << k)`.
abbrev pub set_bit : ℕ → ℕ → ℕ
set_bit x k = put x k 1 1

abbrev pub clear_bit : ℕ → ℕ → ℕ
clear_bit x k = put x k 1 0

-- `((x >> (lo - at)) & (((1 << w) - 1) << at))`: the field at `lo` moved to bit `at`.
abbrev pub move : ℕ → ℕ → ℕ → ℕ → ℕ
move x lo w at = field x lo w * 2 ^ at

-- The 64-bit pattern of a signed word of w bits.
abbrev pub sext : ℕ → ℕ → ℕ
sext w x = if bit x (w - 1) then x % 2 ^ w + (2 ^ 64 - 2 ^ w) else x % 2 ^ w

-- `x >> k` on a signed word of w bits: the sign fills the top.
abbrev pub sar : ℕ → ℕ → ℕ → ℕ
sar w x k = if bit x (w - 1) then x / 2 ^ k + (2 ^ w - 2 ^ (w - k)) else x / 2 ^ k
