-- ===== src/Decode/Formats.antt =====
-- The instruction formats of RISC-V, written down on their own, against `decode_32`.
mod Immediates
use Immediates.{imm_i_lem, imm_s_lem, imm_b_lem, imm_u_lem, imm_j_lem}
use rv_emu.Base.{ℕ, ◌+◌, ◌*◌, ◌%◌, ◌^◌, ◌<◌, ◌≡◌, refl, arith, ap, ◌∙◌, field, sext, get_or}
use rv_emu.Decode.{
  Decoded, InstType, inst_ops_32, inst_type_lookup_32, decode_32, decode_type, imm_i, imm_s, imm_b,
  imm_u, imm_j, l4, diff,
}

-- An instruction of 32 bits: the number `n` of its opcode and its operands. An offset is the
-- pattern of 12, 13, 21 or 20 bits that the format stores.
pub data Inst : Type 0 where
  r_type : (n rd funct3 rs1 rs2 funct7 : ℕ) → Inst
  i_type : (n rd funct3 rs1 imm : ℕ) → Inst
  s_type : (n funct3 rs1 rs2 imm : ℕ) → Inst
  b_type : (n funct3 rs1 rs2 imm : ℕ) → Inst
  u_type : (n rd imm : ℕ) → Inst
  j_type : (n rd imm : ℕ) → Inst

-- The word that the format prescribes.
unfoldable pub encode : Inst → ℕ
encode (r_type n rd funct3 rs1 rs2 funct7) =
    funct7 * 2 ^ 25 + rs2 * 2 ^ 20 + rs1 * 2 ^ 15 + funct3 * 2 ^ 12 + rd * 2 ^ 7 + n * 4 + 3
encode (i_type n rd funct3 rs1 imm) =
    imm * 2 ^ 20 + rs1 * 2 ^ 15 + funct3 * 2 ^ 12 + rd * 2 ^ 7 + n * 4 + 3
encode (s_type n funct3 rs1 rs2 imm) =
    field imm 5 7 * 2 ^ 25
    + rs2 * 2 ^ 20
    + rs1 * 2 ^ 15
    + funct3 * 2 ^ 12
    + field imm 0 5 * 2 ^ 7
    + n * 4
    + 3
encode (b_type n funct3 rs1 rs2 imm) =
    field imm 12 1 * 2 ^ 31
    + field imm 5 6 * 2 ^ 25
    + rs2 * 2 ^ 20
    + rs1 * 2 ^ 15
    + funct3 * 2 ^ 12
    + field imm 1 4 * 2 ^ 8
    + field imm 11 1 * 2 ^ 7
    + n * 4
    + 3
encode (u_type n rd imm) = imm * 2 ^ 12 + rd * 2 ^ 7 + n * 4 + 3
encode (j_type n rd imm) =
    field imm 20 1 * 2 ^ 31
    + field imm 1 10 * 2 ^ 21
    + field imm 11 1 * 2 ^ 20
    + field imm 12 8 * 2 ^ 12
    + rd * 2 ^ 7
    + n * 4
    + 3

-- The operands fit their fields, jumps and branches are even, and the opcode is of the format.
abbrev pub IsInst : Inst → Type 0
IsInst (r_type n rd funct3 rs1 rs2 funct7) =
    (n < 32)
    × (rd < 32)
    × (funct3 < 8)
    × (rs1 < 32)
    × (rs2 < 32)
    × (funct7 < 128)
    × (get_or inst_type_lookup_32 n diff ≡ InstType.r)
IsInst (i_type n rd funct3 rs1 imm) =
    (n < 32)
    × (rd < 32)
    × (funct3 < 8)
    × (rs1 < 32)
    × (imm < 2 ^ 12)
    × (get_or inst_type_lookup_32 n diff ≡ InstType.i)
IsInst (s_type n funct3 rs1 rs2 imm) =
    (n < 32)
    × (funct3 < 8)
    × (rs1 < 32)
    × (rs2 < 32)
    × (imm < 2 ^ 12)
    × (get_or inst_type_lookup_32 n diff ≡ InstType.s)
IsInst (b_type n funct3 rs1 rs2 imm) =
    (n < 32)
    × (funct3 < 8)
    × (rs1 < 32)
    × (rs2 < 32)
    × (imm < 2 ^ 13)
    × (imm % 2 ≡ 0)
    × (get_or inst_type_lookup_32 n diff ≡ InstType.b)
IsInst (u_type n rd imm) =
    (n < 32) × (rd < 32) × (imm < 2 ^ 20) × (get_or inst_type_lookup_32 n diff ≡ InstType.u)
IsInst (j_type n rd imm) =
    (n < 32)
    × (rd < 32)
    × (imm < 2 ^ 21)
    × (imm % 2 ≡ 0)
    × (get_or inst_type_lookup_32 n diff ≡ InstType.j)

-- The decoder found the opcode and the operands, with the offset sign-extended.
abbrev pub Decodes : Inst → Decoded → Type 0
Decodes (r_type n rd funct3 rs1 rs2 funct7) d =
    (d.op_fun ≡ get_or inst_ops_32 n l4)
    × (d.rd ≡ rd)
    × (d.funct3 ≡ funct3)
    × (d.rs1 ≡ rs1)
    × (d.rs2 ≡ rs2)
    × (d.funct7 ≡ funct7)
Decodes (i_type n rd funct3 rs1 imm) d =
    (d.op_fun ≡ get_or inst_ops_32 n l4)
    × (d.rd ≡ rd)
    × (d.funct3 ≡ funct3)
    × (d.rs1 ≡ rs1)
    × (d.imm ≡ sext 12 imm)
Decodes (s_type n funct3 rs1 rs2 imm) d =
    (d.op_fun ≡ get_or inst_ops_32 n l4)
    × (d.funct3 ≡ funct3)
    × (d.rs1 ≡ rs1)
    × (d.rs2 ≡ rs2)
    × (d.imm ≡ sext 12 imm)
Decodes (b_type n funct3 rs1 rs2 imm) d =
    (d.op_fun ≡ get_or inst_ops_32 n l4)
    × (d.funct3 ≡ funct3)
    × (d.rs1 ≡ rs1)
    × (d.rs2 ≡ rs2)
    × (d.imm ≡ sext 13 imm)
Decodes (u_type n rd imm) d =
    (d.op_fun ≡ get_or inst_ops_32 n l4) × (d.rd ≡ rd) × (d.imm ≡ sext 32 (imm * 2 ^ 12))
Decodes (j_type n rd imm) d =
    (d.op_fun ≡ get_or inst_ops_32 n l4) × (d.rd ≡ rd) × (d.imm ≡ sext 21 imm)

decode_32-r_type :
    (n rd funct3 rs1 rs2 funct7 : ℕ)
    → let e = r_type n rd funct3 rs1 rs2 funct7 in IsInst e → Decodes e (decode_32 (encode e))
unfolding decode_32 encode
decode_32-r_type n rd funct3 rs1 rs2 funct7 v =
    let opc : field (encode (r_type n rd funct3 rs1 rs2 funct7)) 2 5 ≡ n = omega arith in
    rw (opc, v.6, decode_type)
      (refl, omega arith, omega arith, omega arith, omega arith, omega arith)

decode_32-i_type :
    (n rd funct3 rs1 imm : ℕ)
    → let e = i_type n rd funct3 rs1 imm in IsInst e → Decodes e (decode_32 (encode e))
unfolding decode_32 encode
decode_32-i_type n rd funct3 rs1 imm v =
    let w = encode (i_type n rd funct3 rs1 imm) in
    let opc : field w 2 5 ≡ n = omega arith in
    let low : ℕ = rs1 * 2 ^ 15 + funct3 * 2 ^ 12 + rd * 2 ^ 7 + n * 4 + 3 in
    let shape : w ≡ imm * 2 ^ 20 + low = omega arith in
    rw (opc, v.5, decode_type)
      (
        refl,
        omega arith,
        omega arith,
        omega arith,
        ap imm_i shape ∙ imm_i_lem imm low (omega arith) (omega arith),
      )

decode_32-s_type :
    (n funct3 rs1 rs2 imm : ℕ)
    → let e = s_type n funct3 rs1 rs2 imm in IsInst e → Decodes e (decode_32 (encode e))
unfolding decode_32 encode
decode_32-s_type n funct3 rs1 rs2 imm v =
    let w = encode (s_type n funct3 rs1 rs2 imm) in
    let opc : field w 2 5 ≡ n = omega arith in
    let mid : ℕ = rs2 * 2 ^ 8 + rs1 * 2 ^ 3 + funct3 in
    let low : ℕ = n * 4 + 3 in
    let shape : w ≡ field imm 5 7 * 2 ^ 25 + mid * 2 ^ 12 + field imm 0 5 * 2 ^ 7 + low =
      omega arith in
    rw (opc, v.5, decode_type)
      (
        refl,
        omega arith,
        omega arith,
        omega arith,
        ap imm_s shape ∙ imm_s_lem imm mid low (omega arith) (omega arith) (omega arith),
      )

decode_32-b_type :
    (n funct3 rs1 rs2 imm : ℕ)
    → let e = b_type n funct3 rs1 rs2 imm in IsInst e → Decodes e (decode_32 (encode e))
unfolding decode_32 encode
decode_32-b_type n funct3 rs1 rs2 imm v =
    let w = encode (b_type n funct3 rs1 rs2 imm) in
    let opc : field w 2 5 ≡ n = omega arith in
    let mid : ℕ = rs2 * 2 ^ 8 + rs1 * 2 ^ 3 + funct3 in
    let low : ℕ = n * 4 + 3 in
    let shape : w
        ≡ field imm 12 1 * 2 ^ 31
          + field imm 5 6 * 2 ^ 25
          + mid * 2 ^ 12
          + field imm 1 4 * 2 ^ 8
          + field imm 11 1 * 2 ^ 7
          + low =
      omega arith in
    rw (opc, v.6, decode_type)
      (
        refl,
        omega arith,
        omega arith,
        omega arith,
        ap imm_b shape ∙ imm_b_lem imm mid low (omega arith) v.5 (omega arith) (omega arith),
      )

decode_32-u_type :
    (n rd imm : ℕ) → let e = u_type n rd imm in IsInst e → Decodes e (decode_32 (encode e))
unfolding decode_32 encode
decode_32-u_type n rd imm v =
    let w = encode (u_type n rd imm) in
    let opc : field w 2 5 ≡ n = omega arith in
    let low : ℕ = rd * 2 ^ 7 + n * 4 + 3 in
    let shape : w ≡ imm * 2 ^ 12 + low = omega arith in
    rw (opc, v.3, decode_type)
      (refl, omega arith, ap imm_u shape ∙ imm_u_lem imm low (omega arith) (omega arith))

decode_32-j_type :
    (n rd imm : ℕ) → let e = j_type n rd imm in IsInst e → Decodes e (decode_32 (encode e))
unfolding decode_32 encode
decode_32-j_type n rd imm v =
    let w = encode (j_type n rd imm) in
    let opc : field w 2 5 ≡ n = omega arith in
    let low : ℕ = rd * 2 ^ 7 + n * 4 + 3 in
    let shape : w
        ≡ field imm 20 1 * 2 ^ 31
          + field imm 1 10 * 2 ^ 21
          + field imm 11 1 * 2 ^ 20
          + field imm 12 8 * 2 ^ 12
          + low =
      omega arith in
    rw (opc, v.4, decode_type)
      (refl, omega arith, ap imm_j shape ∙ imm_j_lem imm low (omega arith) v.3 (omega arith))

-- Decoding the encoding of an instruction of the R, I, S, B, U or J format, its operands in range,
-- gives back the opcode and the operands, the offset sign-extended.
pub decode_32-encode : (e : Inst) → IsInst e → Decodes e (decode_32 (encode e))
decode_32-encode (r_type n rd funct3 rs1 rs2 funct7) v =
    decode_32-r_type n rd funct3 rs1 rs2 funct7 v
decode_32-encode (i_type n rd funct3 rs1 imm) v = decode_32-i_type n rd funct3 rs1 imm v
decode_32-encode (s_type n funct3 rs1 rs2 imm) v = decode_32-s_type n funct3 rs1 rs2 imm v
decode_32-encode (b_type n funct3 rs1 rs2 imm) v = decode_32-b_type n funct3 rs1 rs2 imm v
decode_32-encode (u_type n rd imm) v = decode_32-u_type n rd imm v
decode_32-encode (j_type n rd imm) v = decode_32-j_type n rd imm v
