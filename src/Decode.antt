-- ===== src/Decode.antt =====
-- The decoder of `decode_exc` in cpu.cpp for 32-bit instructions, with its tables from cpu.h. The
-- instruction word `inst` is a 32-bit pattern, an immediate the 64-bit pattern of an `int64_t`.
pub mod Compressed
pub mod Formats
use rv_emu.Base.{
  ℕ, ◌+◌, ◌-◌, ◌*◌, ◌/◌, ◌%◌, ◌^◌, Bool, true, false, List, [], ◌∷◌, field, put, clear_bit, get_or,
  sext, sar,
}

pub data InstOp32 : Type 0 where
  load load_fp cst0 misc_mem op_imm auipc op_imm_32 l1 : InstOp32
  store store_fp cst1 amo op lui op_32 l2 : InstOp32
  madd msub nmsub nmadd op_fp res1 cst2 l3 : InstOp32
  branch jalr res2 jal system res3 cst3 l4 : InstOp32

pub data InstType : Type 0 where
  r r4 i s b u j diff : InstType

-- The enumerators of `inst_op_32` in the order of their values.
abbrev pub inst_ops_32 : List InstOp32
inst_ops_32 =
    load ∷ load_fp ∷ cst0 ∷ misc_mem ∷ op_imm ∷ auipc ∷ op_imm_32 ∷ l1 ∷ store ∷ store_fp ∷ cst1
    ∷ amo ∷ op ∷ lui ∷ op_32 ∷ l2 ∷ madd ∷ msub ∷ nmsub ∷ nmadd ∷ op_fp ∷ res1 ∷ cst2 ∷ l3 ∷ branch
    ∷ jalr ∷ res2 ∷ jal ∷ system ∷ res3 ∷ cst3 ∷ l4 ∷ []

abbrev pub inst_type_lookup_32 : List InstType
inst_type_lookup_32 =
    i ∷ diff ∷ diff ∷ i ∷ i ∷ u ∷ i ∷ diff ∷ s ∷ diff ∷ diff ∷ r ∷ r ∷ u ∷ r ∷ diff ∷ r4 ∷ r4 ∷ r4
    ∷ r4 ∷ r ∷ diff ∷ diff ∷ diff ∷ b ∷ i ∷ diff ∷ j ∷ i ∷ diff ∷ diff ∷ diff ∷ []

-- The locals that decoding sets, with `hs.inst`, which the compressed decoder changes.
pub record Decoded : Type 0 where
  pub op_fun : InstOp32
  pub rd : ℕ
  pub rs1 : ℕ
  pub rs2 : ℕ
  pub funct3 : ℕ
  pub funct7 : ℕ
  pub imm : ℕ
  pub cebreak : Bool
  pub inst : ℕ

-- The locals before decoding; 0b11111 is L4.
abbrev pub undecoded : ℕ → Decoded
undecoded inst = record {
  op_fun = l4;
  rd = 0;
  rs1 = 0;
  rs2 = 0;
  funct3 = 0;
  funct7 = 0;
  imm = 0;
  cebreak = false;
  inst = inst;
}

-- The immediates of the I, S, B, U and J formats.
unfoldable pub imm_i : ℕ → ℕ
imm_i inst = sext 32 (sar 32 inst 20)

unfoldable pub imm_s : ℕ → ℕ
imm_s inst = sar 64 (sext 32 (inst / 2 ^ 25 * 2 ^ 25)) 20 + field inst 7 5

-- Bit 0 goes to bit 11 and is cleared.
abbrev pub move_bit0 : ℕ → ℕ
move_bit0 imm = clear_bit (put imm 11 1 (field imm 0 1)) 0

unfoldable pub imm_b : ℕ → ℕ
unfolding imm_s
imm_b inst = move_bit0 (imm_s inst)

unfoldable pub imm_u : ℕ → ℕ
imm_u inst = sext 32 (inst / 2 ^ 12 * 2 ^ 12)

unfoldable pub imm_j : ℕ → ℕ
imm_j inst =
    let top = sext 32 (sar 32 (inst / 2 ^ 12 * 2 ^ 12) 20) in
    move_bit0 (put top 12 8 (field inst 12 8))

-- The `switch` over the format.
unfoldable pub decode_type : InstType → ℕ → Decoded → Decoded
unfolding imm_i imm_s imm_b imm_u imm_j
decode_type r4 inst d = record d { rs2 = field inst 20 5 }
decode_type r inst d = record d { rs2 = field inst 20 5; funct7 = field inst 25 7 }
decode_type i inst d = record d { imm = imm_i inst }
decode_type s inst d = record d { rs2 = field inst 20 5; imm = imm_s inst }
decode_type b inst d = record d { rs2 = field inst 20 5; imm = imm_b inst }
decode_type u inst d = record d { imm = imm_u inst }
decode_type j inst d = record d { imm = imm_j inst }
decode_type diff inst d = d

-- `case 32` of the `switch` over the instruction's length.
unfoldable pub decode_32 : ℕ → Decoded
unfolding decode_type
decode_32 inst =
    let n = field inst 2 5 in
    decode_type (get_or inst_type_lookup_32 n diff) inst (record {
      op_fun = get_or inst_ops_32 n l4;
      rd = field inst 7 5;
      rs1 = field inst 15 5;
      rs2 = 0;
      funct3 = field inst 12 3;
      funct7 = 0;
      imm = 0;
      cebreak = false;
      inst = inst;
    })
