-- ===== src/Decode/Compressed.antt =====
-- The decoder of `decode_exc` in cpu.cpp for 16-bit instructions, which maps each to the fields of
-- the 32-bit instruction that it stands for. The masks and shifts that unscramble an immediate are
-- written `move inst lo w at`: the w bits of `inst` from `lo` on, moved to `at`.
use rv_emu.Base.{
  ℕ, ◌+◌, ◌*◌, ◌^◌, true, not, List, [], ◌∷◌, Option, none, some, bit, field, move, sext, set_bit,
  clear_bit, get_or, ◌==◌, if◌then◌else◌,
}
use rv_emu.Decode.{
  Decoded, undecoded, InstOp32, load, store, op_imm, op_imm_32, op, op_32, branch, system,
}

pub data InstOp16 : Type 0 where
  addi4spn fld lw ld res1 fsd sw sd : InstOp16
  addi addiw li lui misc_alu j beqz bnez : InstOp16
  slli fldsp lwsp ldsp jalr fsdsp swsp sdsp : InstOp16
  -- The values from 24 on, which no instruction of 16 bits has.
  none16 : InstOp16

-- The enumerators of `inst_op_16` in the order of their values.
abbrev pub inst_ops_16 : List InstOp16
inst_ops_16 =
    addi4spn ∷ fld ∷ lw ∷ ld ∷ res1 ∷ fsd ∷ sw ∷ sd ∷ addi ∷ addiw ∷ li ∷ lui ∷ misc_alu ∷ j ∷ beqz
    ∷ bnez ∷ slli ∷ fldsp ∷ lwsp ∷ ldsp ∷ jalr ∷ fsdsp ∷ swsp ∷ sdsp ∷ []

-- `REG16TO32` of the two short register fields, and the long ones.
abbrev pub short_rd : ℕ → ℕ
short_rd inst = field inst 2 3 + 8

abbrev pub short_rs1 : ℕ → ℕ
short_rs1 inst = field inst 7 3 + 8

abbrev pub long_rd : ℕ → ℕ
long_rd inst = field inst 7 5

abbrev pub long_rs2 : ℕ → ℕ
long_rs2 inst = field inst 2 5

-- The immediates, in the order of the source.
unfoldable pub imm_addi4spn : ℕ → ℕ
imm_addi4spn inst = move inst 7 4 6 + move inst 11 2 4 + move inst 5 1 3 + move inst 6 1 2

unfoldable pub imm_lw : ℕ → ℕ
imm_lw inst = move inst 5 1 6 + move inst 10 3 3 + move inst 6 1 2

unfoldable pub imm_ld : ℕ → ℕ
imm_ld inst = move inst 5 2 6 + move inst 10 3 3

-- The six bits of ADDI, ADDIW, LI, MISC_ALU and SLLI before any sign extension.
unfoldable pub imm_6 : ℕ → ℕ
imm_6 inst = move inst 12 1 5 + field inst 2 5

unfoldable pub imm_addi16sp : ℕ → ℕ
imm_addi16sp inst =
    sext 10
      (move inst 12 1 9 + move inst 3 2 7 + move inst 5 1 6 + move inst 2 1 5 + move inst 6 1 4)

unfoldable pub imm_lui : ℕ → ℕ
imm_lui inst = sext 18 (move inst 12 1 17 + move inst 2 5 12)

-- 0xB40 takes bits 11, 9, 8 and 6.
unfoldable pub imm_j : ℕ → ℕ
imm_j inst = sext 12 (
    move inst 12 1 11
    + move inst 9 2 8
    + move inst 7 1 6
    + move inst 3 3 1
    + move inst 11 1 4
    + move inst 6 1 7
    + move inst 8 1 10
    + move inst 2 1 5)

unfoldable pub imm_b : ℕ → ℕ
imm_b inst =
    sext 9
      (move inst 12 1 8 + move inst 5 2 6 + move inst 2 1 5 + move inst 10 2 3 + move inst 3 2 1)

unfoldable pub imm_lwsp : ℕ → ℕ
imm_lwsp inst = move inst 2 2 6 + move inst 12 1 5 + move inst 4 3 2

unfoldable pub imm_ldsp : ℕ → ℕ
imm_ldsp inst = move inst 2 3 6 + move inst 12 1 5 + move inst 5 2 3

unfoldable pub imm_swsp : ℕ → ℕ
imm_swsp inst = move inst 7 2 6 + move inst 9 4 2

unfoldable pub imm_sdsp : ℕ → ℕ
imm_sdsp inst = move inst 7 3 6 + move inst 10 3 3

-- `case inst_op_16::LUI`: C.ADDI16SP if the register is the stack pointer, else C.LUI.
unfoldable pub decode_lui : ℕ → Decoded → Decoded
unfolding imm_addi16sp imm_lui
decode_lui inst d =
    if long_rd inst == 2
    then record d { op_fun = op_imm; funct3 = 0; rs1 = 2; rd = 2; imm = imm_addi16sp inst }
    else record d { op_fun = InstOp32.lui; rd = long_rd inst; imm = imm_lui inst }

-- The last case of MISC_ALU: the register forms. Bit 30 of `inst` tells SUB and SUBW.
unfoldable pub decode_alu_regs : ℕ → Decoded → Decoded
decode_alu_regs inst d =
    let kind = field inst 5 2 in
    if bit inst 12
    then record d {
      op_fun = op_32;
      funct3 = 0;
      inst = if bit inst 5 then inst else set_bit inst 30;
    }
    else if kind == 0
    then record d { op_fun = op; funct3 = 0; inst = set_bit inst 30 }
    else if kind == 1
    then record d { op_fun = op; funct3 = 4 }
    else if kind == 2
    then record d { op_fun = op; funct3 = 6 }
    else record d { op_fun = op; funct3 = 7 }

-- `case inst_op_16::MISC_ALU`.
unfoldable pub decode_misc_alu : ℕ → Decoded → Decoded
unfolding decode_alu_regs imm_6
decode_misc_alu inst d₀ =
    let d = record d₀ { rs2 = short_rd inst; rd = short_rs1 inst; imm = imm_6 inst } in
    let kind = field inst 10 2 in
    if kind == 0
    then record d { op_fun = op_imm; funct3 = 5; inst = clear_bit inst 30 }
    else if kind == 1
    then record d { op_fun = op_imm; funct3 = 5; inst = set_bit inst 30 }
    else if kind == 2
    then record d { op_fun = op_imm; funct3 = 7; imm = sext 6 (imm_6 inst) }
    else decode_alu_regs inst d

-- `case inst_op_16::JALR`: C.EBREAK, C.ADD, C.JALR, C.MV and C.JR.
unfoldable pub decode_jalr : ℕ → Decoded → Decoded
decode_jalr inst d₀ =
    let d = record d₀ { rs1 = long_rd inst; rs2 = long_rs2 inst } in
    if inst == 0x9002
    then record d₀ { op_fun = system; cebreak = true }
    else if bit inst 12
    then if not (long_rs2 inst == 0)
      then record d { op_fun = op; funct3 = 0; rd = long_rd inst }
      else record d { op_fun = InstOp32.jalr; rd = 1; imm = 0 }
    else if not (long_rs2 inst == 0)
    then record d { op_fun = op; funct3 = 0; rd = long_rd inst; rs1 = 0 }
    else record d { op_fun = InstOp32.jalr; rd = 0; imm = 0 }

-- The `switch` over `op_fun_16`. `none` is the return with an illegal instruction; the cases that
-- the source leaves to do keep L4, which no instruction executes.
unfoldable pub decode_op_16 : InstOp16 → ℕ → Decoded → Option Decoded
unfolding imm_addi4spn imm_lw imm_ld imm_6 imm_j imm_b imm_lwsp imm_ldsp imm_swsp imm_sdsp
    decode_lui decode_misc_alu decode_jalr
decode_op_16 addi4spn inst d =
    some (record d { op_fun = op_imm; funct3 = 0; rs1 = 2; imm = imm_addi4spn inst })
decode_op_16 fld inst d = some d
decode_op_16 lw inst d = some (record d { op_fun = load; funct3 = 2; imm = imm_lw inst })
decode_op_16 ld inst d = some (record d { op_fun = load; funct3 = 3; imm = imm_ld inst })
decode_op_16 res1 inst d = none
decode_op_16 fsd inst d = some d
decode_op_16 sw inst d =
    some (record d { op_fun = store; funct3 = 2; rs2 = d.rd; imm = imm_lw inst })
decode_op_16 sd inst d =
    some (record d { op_fun = store; funct3 = 3; rs2 = d.rd; imm = imm_ld inst })
decode_op_16 addi inst d = some (record d {
  op_fun = op_imm;
  funct3 = 0;
  rd = long_rd inst;
  rs1 = long_rd inst;
  imm = sext 6 (imm_6 inst);
})
decode_op_16 addiw inst d = some (record d {
  op_fun = op_imm_32;
  funct3 = 0;
  rd = long_rd inst;
  rs1 = long_rd inst;
  imm = sext 6 (imm_6 inst);
})
decode_op_16 li inst d = some (record d {
  op_fun = op_imm;
  funct3 = 0;
  rd = long_rd inst;
  rs1 = 0;
  imm = sext 6 (imm_6 inst);
})
decode_op_16 lui inst d = some (decode_lui inst d)
decode_op_16 misc_alu inst d = some (decode_misc_alu inst d)
decode_op_16 j inst d =
    some (record d { op_fun = InstOp32.jal; rd = 0; rs1 = long_rd inst; imm = imm_j inst })
decode_op_16 beqz inst d =
    some (record d { op_fun = branch; funct3 = field inst 13 1; rs2 = 0; imm = imm_b inst })
decode_op_16 bnez inst d =
    some (record d { op_fun = branch; funct3 = field inst 13 1; rs2 = 0; imm = imm_b inst })
decode_op_16 slli inst d = some (record d {
  op_fun = op_imm;
  funct3 = 1;
  rs1 = long_rd inst;
  rd = long_rd inst;
  imm = imm_6 inst;
})
decode_op_16 fldsp inst d = some d
decode_op_16 lwsp inst d =
    some (record d { op_fun = load; funct3 = 2; rd = long_rd inst; rs1 = 2; imm = imm_lwsp inst })
decode_op_16 ldsp inst d =
    some (record d { op_fun = load; funct3 = 3; rd = long_rd inst; rs1 = 2; imm = imm_ldsp inst })
decode_op_16 jalr inst d = some (decode_jalr inst d)
decode_op_16 fsdsp inst d = some d
decode_op_16 swsp inst d =
    some
      (record d { op_fun = store; funct3 = 2; rs2 = long_rs2 inst; rs1 = 2; imm = imm_swsp inst })
decode_op_16 sdsp inst d =
    some
      (record d { op_fun = store; funct3 = 3; rs2 = long_rs2 inst; rs1 = 2; imm = imm_sdsp inst })
decode_op_16 none16 inst d = some d

-- `case 16` of the `switch` over the instruction's length.
unfoldable pub decode_16 : ℕ → Option Decoded
unfolding decode_op_16
decode_16 inst =
    decode_op_16 (get_or inst_ops_16 (field inst 0 2 * 2 ^ 3 + field inst 13 3) none16) inst
      (record (undecoded inst) { rd = short_rd inst; rs1 = short_rs1 inst })
