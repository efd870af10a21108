-- ===== src/Alu/Division.antt =====
-- The divisions of cpu.cpp.
use rv_emu.Base.{
  ℕ, zero, suc, ◌+◌, ◌*◌, ◌-◌, ◌/◌, ◌%◌, ◌^◌, ◌≤◌, ◌<◌, ◌≡◌, refl, arith, ◌&&◌, ◌↔◌, ◌⊎◌, ◌≢◌, inl,
  inr, ap, sym, bit, u64, u32, sext, ◌==◌, Bool-cases,
}
use rv_emu.Alu.Signed.{word_cases}
use rv_emu.Alu.{exec_op, exec_op_mul, exec_op_32, sdiv, srem, neg, mag, value, undefined}

-- A quotient and a remainder of magnitudes, and their patterns put back together modulo 2 ^ 64.
div-mod : (x y : ℕ) → x / y * y + x % y ≡ x
div-mod x y = grind arith

-- `neg 64 q` is -q modulo 2 ^ 64, also under a factor.
neg_mul : (q b : ℕ) → q < 2 ^ 64 → (c : ℕ) × (neg 64 q * b + q * b ≡ 2 ^ 64 * c)
neg_mul zero b h = (0, omega arith)
neg_mul (suc q) b h =
    let e : neg 64 (suc q) + suc q ≡ 2 ^ 64 = omega arith in
    (b, omega (arith, ap (λ (t : ℕ). t * b) e))

mul_neg : (q b : ℕ) → b ≤ 2 ^ 64 → q * (2 ^ 64 - b) + q * b ≡ 2 ^ 64 * q
mul_neg q b h =
    let e : 2 ^ 64 - b + b ≡ 2 ^ 64 = omega arith in omega (arith, ap (λ (t : ℕ). q * t) e)

div_le : (x y : ℕ) → x / y ≤ x
div_le x y = grind arith

module _ (x y : ℕ) (x_fits : x ≤ 2 ^ 63) (y_fits : y ≤ 2 ^ 63) where
  abbrev q : ℕ
  q = x / y

  abbrev r : ℕ
  r = x % y

  join_pos_pos : u64 (q * y + r) ≡ x
  join_pos_pos = omega (arith, div-mod x y)

  join_neg_pos : 0 < x → u64 (neg 64 q * y + neg 64 r) ≡ 2 ^ 64 - x
  join_neg_pos pos =
      let n = neg_mul q y (omega (arith, div_le x y)) in omega (arith, div-mod x y, n.1)

  join_pos_neg : u64 (neg 64 q * (2 ^ 64 - y) + r) ≡ x
  join_pos_neg =
      let n = neg_mul q (2 ^ 64 - y) (omega (arith, div_le x y)) in
      omega (arith, div-mod x y, n.1, mul_neg q y (omega arith))

  join_neg-neg : 0 < x → u64 (q * (2 ^ 64 - y) + neg 64 r) ≡ 2 ^ 64 - x
  join_neg-neg pos = omega (arith, div-mod x y, mul_neg q y (omega arith))

-- Division rounds towards zero: the quotient times the divisor and the remainder give the dividend
-- back, and the remainder is smaller than the divisor and has the sign of the dividend.
abbrev pub IsDivision : ℕ → ℕ → ℕ → ℕ → Type 0
IsDivision a b quotient remainder =
    (u64 (quotient * b + remainder) ≡ a)
    × (mag 64 remainder < mag 64 b)
    × ((remainder ≡ 0) ⊎ (bit remainder 63 ≡ bit a 63))

sdiv-srem : (a b : ℕ) → a < 2 ^ 64 → b < 2 ^ 64 → 0 < b → IsDivision a b (sdiv 64 a b) (srem 64 a b)
unfolding sdiv srem
sdiv-srem a b h k p = elim (word_cases a h) [
  | inl ap ↦ elim (word_cases b k) [
    | inl bp ↦ ground (arith, join_pos_pos a b)
    | inr (m, lm, f) ↦ rw f (ground (arith, join_pos_neg a (suc m)))
  ]
  | inr (n, ln, e) ↦ rw e (elim (word_cases b k) [
    | inl bp ↦ ground (arith, join_neg_pos (suc n) b)
    | inr (m, lm, f) ↦ rw f (ground (arith, join_neg-neg (suc n) (suc m)))
  ])
]

-- On overflow truncated division wraps to what the source returns.
overflow : (sdiv 64 (2 ^ 63) (2 ^ 64 - 1) ≡ 2 ^ 63) × (srem 64 (2 ^ 63) (2 ^ 64 - 1) ≡ 0)
unfolding sdiv srem
overflow = (refl, refl)

div_value : (inst a b : ℕ) → 0 < b → exec_op 1 4 inst a b ≡ value (sdiv 64 a b)
unfolding exec_op_mul exec_op
div_value inst a b p = elim (Bool-cases (a == 2 ^ 63 && b == 2 ^ 64 - 1)) [
  | inl over ↦
      let ea : a ≡ 2 ^ 63 = ground arith in
      let eb : b ≡ 2 ^ 64 - 1 = ground arith in rw (ea, eb) (ap value (sym (overflow.0)))
  | inr fine ↦ rw (fine, exec_op, exec_op_mul) (ground arith)
]

rem_value : (inst a b : ℕ) → 0 < b → exec_op 1 6 inst a b ≡ value (srem 64 a b)
unfolding exec_op_mul exec_op
rem_value inst a b p = elim (Bool-cases (a == 2 ^ 63 && b == 2 ^ 64 - 1)) [
  | inl over ↦
      let ea : a ≡ 2 ^ 63 = ground arith in
      let eb : b ≡ 2 ^ 64 - 1 = ground arith in rw (ea, eb) (ap value (sym (overflow.1)))
  | inr fine ↦ rw (fine, exec_op, exec_op_mul) (ground arith)
]

-- On 64-bit words DIV and REM give values with quotient * b + remainder = a modulo 2 ^ 64; for b
-- other than 0 they divide towards zero, and for b = 0 they are -1 and a.
pub exec_op-div :
    (inst a b : ℕ)
    → a < 2 ^ 64
    → b < 2 ^ 64
    → (quotient : ℕ) × (remainder : ℕ) × (exec_op 1 4 inst a b ≡ value quotient)
      × (exec_op 1 6 inst a b ≡ value remainder)
      × (u64 (quotient * b + remainder) ≡ a)
      × (0 < b → IsDivision a b quotient remainder)
      × (b ≡ 0 → (quotient ≡ 2 ^ 64 - 1) × (remainder ≡ a))
unfolding exec_op
exec_op-div inst a zero h k =
    (2 ^ 64 - 1, a, refl, refl, omega arith, λ p. absurd (omega arith), λ e. (refl, refl))
exec_op-div inst a (suc b) h k =
    let d = sdiv-srem a (suc b) h k (omega arith) in
    (
      sdiv 64 a (suc b),
      srem 64 a (suc b),
      div_value inst a (suc b) (omega arith),
      rem_value inst a (suc b) (omega arith),
      d.0,
      λ p. d,
      λ e. absurd (omega arith),
    )

-- DIVW is left undefined exactly if the low words are -2 ^ 31 and -1 and the whole registers are
-- not, so never on sign-extended registers.
pub exec_op_32-undefined :
    (inst a b : ℕ)
    → ((exec_op_32 1 4 inst a b ≡ undefined)
        ↔ ((u32 a ≡ 2 ^ 31) × (u32 b ≡ 2 ^ 32 - 1) × ¬ ((a ≡ 2 ^ 64 - 2 ^ 31) × (b ≡ 2 ^ 64 - 1))))
      × ((sext 32 a ≡ a) × (sext 32 b ≡ b) → exec_op_32 1 4 inst a b ≢ undefined)
unfolding exec_op_32
exec_op_32-undefined inst a b = ground arith
