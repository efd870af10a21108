-- ===== src/Platform.antt =====
-- What the emulator takes from outside its sources: the C library and the compiler.
use rv_emu.Base.{ℕ, ◌+◌, ◌*◌, ◌^◌, ◌<◌, ◌≡◌, u32, u64, sext, ltb, if◌then◌else◌}

pub record Platform : Type 0 where
  -- `ffsll` of <string.h>, on a 64-bit pattern.
  pub ffsll : ℕ → ℕ
  -- `x << k` for a `uint64_t` x and k of 64 or more, which C++ leaves undefined.
  pub shl_over : ℕ → ℕ → ℕ
  -- `x << k` for an `int` x and k of 32 or more, undefined likewise, converted to 64 bits.
  pub shl_int_over : ℕ → ℕ → ℕ

-- `x << k` on a `uint64_t`.
abbrev pub shl64 : Platform → ℕ → ℕ → ℕ
shl64 P x k = if ltb k 64 then u64 (x * 2 ^ k) else P.shl_over x k

-- The documented result of `ffsll`: one plus the place of the lowest bit that is set.
abbrev pub IsFfsll : Platform → Type 0
IsFfsll P = (q k : ℕ) → (2 * q + 1) * 2 ^ k < 2 ^ 64 → P.ffsll ((2 * q + 1) * 2 ^ k) ≡ k + 1

-- `x << k` on an `int`, converted to a `uint64_t`.
abbrev pub shl_int : Platform → ℕ → ℕ → ℕ
shl_int P x k = if ltb k 32 then sext 32 (u32 (x * 2 ^ k)) else P.shl_int_over x k
