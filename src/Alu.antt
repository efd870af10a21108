-- ===== src/Alu.antt =====
-- `decode_exc` in cpu.cpp: the value that OP_IMM, OP_IMM_32, OP, OP_32 and the M extension compute
-- from the registers, and the test of BRANCH. A register is its 64-bit pattern. Signed arithmetic
-- wraps round, as the hardware that runs the emulator does it.
pub mod Signed
pub mod Division
use Prim.Native.Nat.{bit_and, bit_or, bit_xor}
use rv_emu.Base.{
  ℕ, ◌+◌, ◌*◌, ◌-◌, ◌/◌, ◌%◌, ◌^◌, Bool, true, false, not, ◌&&◌, ◌||◌, bit, field, sext, sar, u32,
  u64, ltb, leb, ◌==◌, if◌then◌else◌,
}

-- What an instruction does to `hs.regs[rd]`: nothing, a value, or undefined behaviour.
pub data Outcome : Type 0 where
  keep : Outcome
  value : ℕ → Outcome
  undefined : Outcome

abbrev pub add64 : ℕ → ℕ → ℕ
add64 a b = u64 (a + b)

abbrev pub sub64 : ℕ → ℕ → ℕ
sub64 a b = u64 (a + 2 ^ 64 - b)

-- `(int64_t)a < (int64_t)b`.
unfoldable pub slt : ℕ → ℕ → Bool
slt a b =
    if bit a 63 then (if bit b 63 then ltb a b else true) else if bit b 63 then false else ltb a b

abbrev pub from_bool : Bool → ℕ
from_bool true = 1
from_bool false = 0

-- The patterns of `-a` and of the magnitude of `a`, for words of w bits.
abbrev pub neg : ℕ → ℕ → ℕ
neg w a = (2 ^ w - a) % 2 ^ w

abbrev pub mag : ℕ → ℕ → ℕ
mag w a = if bit a (w - 1) then 2 ^ w - a else a

-- `a / b` and `a % b` on signed words of w bits, which round towards zero.
unfoldable pub sdiv : ℕ → ℕ → ℕ → ℕ
sdiv w a b =
    let q = mag w a / mag w b in
    if bit a (w - 1)
    then (if bit b (w - 1) then q else neg w q)
    else if bit b (w - 1)
    then neg w q
    else q

unfoldable pub srem : ℕ → ℕ → ℕ → ℕ
srem w a b = let r = mag w a % mag w b in if bit a (w - 1) then neg w r else r

-- The pattern of `(int128_t)a` for a signed 64-bit word.
abbrev pub wide : ℕ → ℕ
wide a = if bit a 63 then a + (2 ^ 128 - 2 ^ 64) else a

-- `full_result >> 64` as 64 bits.
abbrev pub high64 : ℕ → ℕ
high64 full = full % 2 ^ 128 / 2 ^ 64

unfoldable pub exec_op_imm : ℕ → ℕ → ℕ → ℕ → Outcome
unfolding slt
exec_op_imm funct3 inst a imm =
    if funct3 == 0
    then value (add64 a imm)
    else if funct3 == 3
    then value (from_bool (ltb a imm))
    else if funct3 == 2
    then value (from_bool (slt a imm))
    else if funct3 == 4
    then value (bit_xor a imm)
    else if funct3 == 6
    then value (bit_or a imm)
    else if funct3 == 7
    then value (bit_and a imm)
    else if funct3 == 1
    then value (u64 (a * 2 ^ field imm 0 6))
    else if funct3 == 5
    then value (if bit inst 30 then sar 64 a (field imm 0 6) else a / 2 ^ field imm 0 6)
    else keep

unfoldable pub exec_op_imm_32 : ℕ → ℕ → ℕ → ℕ → Outcome
unfolding slt
exec_op_imm_32 funct3 inst a imm =
    if funct3 == 0
    then value (sext 32 (add64 a imm))
    else if funct3 == 3
    then value (from_bool (ltb (u32 a) imm))
    else if funct3 == 2
    then value (from_bool (slt (sext 32 a) imm))
    else if funct3 == 4
    then value (bit_xor (sext 32 a) imm)
    else if funct3 == 6
    then value (bit_or (sext 32 a) imm)
    else if funct3 == 7
    then value (bit_and (sext 32 a) imm)
    else if funct3 == 1
    then value (sext 32 (u32 a * 2 ^ field imm 0 5))
    else if funct3 == 5
    then value (
        if bit inst 30
        then sext 32 (sar 32 (u32 a) (field imm 0 5))
        else sext 32 (u32 a / 2 ^ field imm 0 5))
    else keep

-- `case inst_op_32::OP` with funct7 of the base instructions.
unfoldable pub exec_op_base : ℕ → ℕ → ℕ → ℕ → Outcome
unfolding slt
exec_op_base funct3 inst a b =
    if funct3 == 0
    then value (if bit inst 30 then sub64 a b else add64 a b)
    else if funct3 == 3
    then value (from_bool (ltb a b))
    else if funct3 == 2
    then value (from_bool (slt a b))
    else if funct3 == 4
    then value (bit_xor a b)
    else if funct3 == 6
    then value (bit_or a b)
    else if funct3 == 7
    then value (bit_and a b)
    else if funct3 == 1
    then value (u64 (a * 2 ^ field b 0 6))
    else if funct3 == 5
    then value (if bit inst 30 then sar 64 a (field b 0 6) else a / 2 ^ field b 0 6)
    else keep

-- The M extension on 64 bits.
unfoldable pub exec_op_mul : ℕ → ℕ → ℕ → Outcome
unfolding sdiv srem
exec_op_mul funct3 a b =
    if funct3 == 0
    then value (u64 (a * b))
    else if funct3 == 1
    then value (high64 (wide a * wide b))
    else if funct3 == 2
    then value (high64 (wide a * b))
    else if funct3 == 3
    then value (high64 (a * b))
    else if funct3 == 4
    then value
        (if b == 0 then 2 ^ 64 - 1 else if a == 2 ^ 63 && b == 2 ^ 64 - 1 then a else sdiv 64 a b)
    else if funct3 == 5
    then value (if b == 0 then 2 ^ 64 - 1 else a / b)
    else if funct3 == 6
    then value (if b == 0 then a else if a == 2 ^ 63 && b == 2 ^ 64 - 1 then 0 else srem 64 a b)
    else if funct3 == 7
    then value (if b == 0 then a else a % b)
    else keep

unfoldable pub exec_op : ℕ → ℕ → ℕ → ℕ → ℕ → Outcome
unfolding exec_op_base exec_op_mul
exec_op funct7 funct3 inst a b =
    if funct7 == 0b0100000 || funct7 == 0
    then exec_op_base funct3 inst a b
    else if funct7 == 1
    then exec_op_mul funct3 a b
    else keep

-- `case inst_op_32::OP_32` with funct7 of the base instructions.
unfoldable pub exec_op_32_base : ℕ → ℕ → ℕ → ℕ → Outcome
unfolding slt
exec_op_32_base funct3 inst a b =
    if funct3 == 0
    then value (sext 32 (if bit inst 30 then sub64 a b else add64 a b))
    else if funct3 == 3
    then value (from_bool (ltb (u32 a) (u32 b)))
    else if funct3 == 2
    then value (from_bool (slt (sext 32 a) (sext 32 b)))
    else if funct3 == 4
    then value (sext 32 (bit_xor (u32 a) (u32 b)))
    else if funct3 == 6
    then value (sext 32 (bit_or (u32 a) (u32 b)))
    else if funct3 == 7
    then value (sext 32 (bit_and (u32 a) (u32 b)))
    else if funct3 == 1
    then value (sext 32 (u32 a * 2 ^ field b 0 5))
    else if funct3 == 5
    then value (
        if bit inst 30
        then sext 32 (sar 32 (u32 a) (field b 0 5))
        else sext 32 (u32 a / 2 ^ field b 0 5))
    else keep

-- DIVW divides the low words, but looks for the overflow in the whole registers, so that it may
-- divide -2 ^ 31 by -1 as `int32_t`, which C++ leaves undefined.
unfoldable pub divw : ℕ → ℕ → Outcome
unfolding sdiv
divw a b =
    if u32 b == 0
    then value (2 ^ 64 - 1)
    else if a == 2 ^ 64 - 2 ^ 31 && b == 2 ^ 64 - 1
    then value (sext 32 a)
    else if u32 a == 2 ^ 31 && u32 b == 2 ^ 32 - 1
    then undefined
    else value (sext 32 (sdiv 32 (u32 a) (u32 b)))

-- The M extension on 32 bits.
unfoldable pub exec_op_32_mul : ℕ → ℕ → ℕ → Outcome
unfolding divw srem
exec_op_32_mul funct3 a b =
    if funct3 == 0
    then value (sext 32 (u32 a * u32 b))
    else if funct3 == 4
    then divw a b
    else if funct3 == 5
    then value (if u32 b == 0 then 2 ^ 64 - 1 else sext 32 (u32 a / u32 b))
    else if funct3 == 6
    then value (
        if u32 b == 0
        then sext 32 a
        else if u32 a == 2 ^ 31 && u32 b == 2 ^ 32 - 1
        then 0
        else srem 64 (sext 32 a) (sext 32 b))
    else if funct3 == 7
    then value (if u32 b == 0 then sext 32 a else sext 32 (u32 a % u32 b))
    else keep

unfoldable pub exec_op_32 : ℕ → ℕ → ℕ → ℕ → ℕ → Outcome
unfolding exec_op_32_base exec_op_32_mul
exec_op_32 funct7 funct3 inst a b =
    if funct7 == 0b0100000 || funct7 == 0
    then exec_op_32_base funct3 inst a b
    else if funct7 == 1
    then exec_op_32_mul funct3 a b
    else keep

-- `jflag` of BRANCH.
unfoldable pub branch_taken : ℕ → ℕ → ℕ → Bool
unfolding slt
branch_taken funct3 a b =
    if funct3 == 0
    then a == b
    else if funct3 == 1
    then not (a == b)
    else if funct3 == 4
    then slt a b
    else if funct3 == 5
    then not (slt a b)
    else if funct3 == 6
    then ltb a b
    else if funct3 == 7
    then leb b a
    else false
