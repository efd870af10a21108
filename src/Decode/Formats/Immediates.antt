-- ===== src/Decode/Formats/Immediates.antt =====
-- cpu.cpp, `decode_exc`: that each scrambled immediate of a 32-bit instruction is put together.
use rv_emu.Base.{ℕ, ◌+◌, ◌*◌, ◌%◌, ◌^◌, ◌<◌, ◌≡◌, arith, field, sext}
use rv_emu.Decode.{imm_i, imm_s, imm_b, imm_u, imm_j}

pub imm_i_lem :
    (imm low : ℕ) → imm < 2 ^ 12 → low < 2 ^ 20 → imm_i (imm * 2 ^ 20 + low) ≡ sext 12 imm
unfolding imm_i
imm_i_lem imm low h l = ground arith

pub imm_s_lem :
    (imm mid low : ℕ)
    → imm < 2 ^ 12
    → mid < 2 ^ 13
    → low < 2 ^ 7
    → imm_s (field imm 5 7 * 2 ^ 25 + mid * 2 ^ 12 + field imm 0 5 * 2 ^ 7 + low) ≡ sext 12 imm
unfolding imm_s
imm_s_lem imm mid low h m l = ground arith

pub imm_b_lem :
    (imm mid low : ℕ)
    → imm < 2 ^ 13
    → imm % 2 ≡ 0
    → mid < 2 ^ 13
    → low < 2 ^ 7
    → imm_b (
        field imm 12 1 * 2 ^ 31
        + field imm 5 6 * 2 ^ 25
        + mid * 2 ^ 12
        + field imm 1 4 * 2 ^ 8
        + field imm 11 1 * 2 ^ 7
        + low)
      ≡ sext 13 imm
unfolding imm_b
imm_b_lem imm mid low h e m l = ground arith

pub imm_u_lem :
    (imm low : ℕ)
    → imm < 2 ^ 20
    → low < 2 ^ 12
    → imm_u (imm * 2 ^ 12 + low) ≡ sext 32 (imm * 2 ^ 12)
unfolding imm_u
imm_u_lem imm low h l = ground arith

pub imm_j_lem :
    (imm low : ℕ)
    → imm < 2 ^ 21
    → imm % 2 ≡ 0
    → low < 2 ^ 12
    → imm_j (
        field imm 20 1 * 2 ^ 31
        + field imm 1 10 * 2 ^ 21
        + field imm 11 1 * 2 ^ 20
        + field imm 12 8 * 2 ^ 12
        + low)
      ≡ sext 21 imm
unfolding imm_j
imm_j_lem imm low h e l = ground arith
