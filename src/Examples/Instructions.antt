-- ===== src/Examples/Instructions.antt =====
-- The decoder and the arithmetic at concrete instructions.
use rv_emu.Base.{
  ℕ, ◌+◌, ◌*◌, ◌-◌, ◌^◌, ◌<◌, ◌≡◌, ◌≢◌, ◌↔◌, refl, true, arith, signed, ◌<ℤ◌, ◌*ℤ◌, not, sext, u64,
  u32,
}
use rv_emu.Decode.{decode_32}
use rv_emu.Decode.Compressed.{imm_j}
use rv_emu.Decode.Formats.{Inst, b_type, encode, IsInst, Decodes, decode_32-encode}
use rv_emu.Alu.{exec_op, exec_op_32, value, undefined, branch_taken}
use rv_emu.Alu.Signed.{branch_taken_lem, exec_op-mul, join}
use rv_emu.Alu.Division.{IsDivision, exec_op-div, exec_op_32-undefined}

-- `bge x5, x6, -4`.
abbrev back : Inst
back = b_type 24 5 5 6 (2 ^ 13 - 4)

back-IsInst : IsInst back
back-IsInst = (omega arith, omega arith, omega arith, omega arith, omega arith, refl, refl)

back_word : encode back ≡ 0xfe62dee3
unfolding encode
back_word = refl

decode_32-encode_example : Decodes back (decode_32 (encode back))
decode_32-encode_example = decode_32-encode back back-IsInst

-- `c.j -2`.
jump_back : imm_j 0xbffd ≡ 2 ^ 64 - 2
unfolding imm_j
jump_back = refl

branch_taken_lem_example :
    ((branch_taken 0 (2 ^ 64 - 1) 1 ≡ true) ↔ ((2 ^ 64 - 1) ≡ 1))
    × ((branch_taken 4 (2 ^ 64 - 1) 1 ≡ true) ↔ (signed 64 (2 ^ 64 - 1) <ℤ signed 64 1))
    × ((branch_taken 6 (2 ^ 64 - 1) 1 ≡ true) ↔ ((2 ^ 64 - 1) < 1))
    × (branch_taken 1 (2 ^ 64 - 1) 1 ≡ not (branch_taken 0 (2 ^ 64 - 1) 1))
    × (branch_taken 5 (2 ^ 64 - 1) 1 ≡ not (branch_taken 4 (2 ^ 64 - 1) 1))
    × (branch_taken 7 (2 ^ 64 - 1) 1 ≡ not (branch_taken 6 (2 ^ 64 - 1) 1))
branch_taken_lem_example = branch_taken_lem (2 ^ 64 - 1) 1 (omega arith) (omega arith)

-- -2 times 3.
exec_op-mul_example :
    (low : ℕ) × (high : ℕ) × (highu : ℕ) × (exec_op 1 0 0 (2 ^ 64 - 2) 3 ≡ value low)
    × (exec_op 1 1 0 (2 ^ 64 - 2) 3 ≡ value high)
    × (exec_op 1 3 0 (2 ^ 64 - 2) 3 ≡ value highu)
    × (signed 128 (join high low) ≡ signed 64 (2 ^ 64 - 2) *ℤ signed 64 3)
    × (join highu low ≡ (2 ^ 64 - 2) * 3)
exec_op-mul_example = exec_op-mul 0 (2 ^ 64 - 2) 3 (omega arith) (omega arith)

-- -7 by 2.
exec_op-div_example :
    (quotient : ℕ) × (remainder : ℕ) × (exec_op 1 4 0 (2 ^ 64 - 7) 2 ≡ value quotient)
    × (exec_op 1 6 0 (2 ^ 64 - 7) 2 ≡ value remainder)
    × (u64 (quotient * 2 + remainder) ≡ 2 ^ 64 - 7)
    × (0 < 2 → IsDivision (2 ^ 64 - 7) 2 quotient remainder)
    × (◌≡◌ {A = ℕ} 2 0 → (quotient ≡ 2 ^ 64 - 1) × (remainder ≡ 2 ^ 64 - 7))
exec_op-div_example = exec_op-div 0 (2 ^ 64 - 7) 2 (omega arith) (omega arith)

exec_op_32-undefined_example :
    ((exec_op_32 1 4 0 (2 ^ 31) (2 ^ 64 - 1) ≡ undefined) ↔ (
      (u32 (2 ^ 31) ≡ 2 ^ 31)
      × (u32 (2 ^ 64 - 1) ≡ 2 ^ 32 - 1)
      × ¬ ((2 ^ 31 ≡ 2 ^ 64 - 2 ^ 31) × ((2 ^ 64 - 1) ≡ 2 ^ 64 - 1))))
    × ((sext 32 (2 ^ 31) ≡ 2 ^ 31) × (sext 32 (2 ^ 64 - 1) ≡ 2 ^ 64 - 1)
        → exec_op_32 1 4 0 (2 ^ 31) (2 ^ 64 - 1) ≢ undefined)
exec_op_32-undefined_example = exec_op_32-undefined 0 (2 ^ 31) (2 ^ 64 - 1)
