-- ===== src/Alu/Signed.antt =====
-- The comparisons and products of cpu.cpp on signed words, against the integers.
use rv_emu.Base.{
  ℕ, ◌+◌, ◌*◌, ◌-◌, ◌%◌, ◌^◌, ◌≤◌, ◌<◌, ◌≡◌, refl, arith, true, not, ◌↔◌, ◌⊎◌, inl, inr, zero, suc,
  ap, signed, pos, negsuc, ◌<ℤ◌, ◌*ℤ◌, u64,
}
use native.Mathlib.Decide.{dec_lt}
use rv_emu.Alu.{slt, branch_taken, exec_op, high64, wide, value}

-- `slt` compares the integers that the words stand for.
pub slt-signed :
    (a b : ℕ) → a < 2 ^ 64 → b < 2 ^ 64 → (slt a b ≡ true) ↔ (signed 64 a <ℤ signed 64 b)
unfolding slt
slt-signed a b ha hb = ground arith

-- On 64-bit words BEQ decides equality, BLT the signed and BLTU the unsigned order, and BNE, BGE
-- and BGEU their negations.
pub branch_taken_lem :
    (a b : ℕ)
    → a < 2 ^ 64
    → b < 2 ^ 64
    → ((branch_taken 0 a b ≡ true) ↔ (a ≡ b))
      × ((branch_taken 4 a b ≡ true) ↔ (signed 64 a <ℤ signed 64 b))
      × ((branch_taken 6 a b ≡ true) ↔ (a < b))
      × (branch_taken 1 a b ≡ not (branch_taken 0 a b))
      × (branch_taken 5 a b ≡ not (branch_taken 4 a b))
      × (branch_taken 7 a b ≡ not (branch_taken 6 a b))
unfolding branch_taken
branch_taken_lem a b ha hb =
    (ground arith, slt-signed a b ha hb, ground arith, ground arith, ground arith, ground arith)

-- Both halves of a product, joined.
abbrev pub join : ℕ → ℕ → ℕ
join high low = high * 2 ^ 64 + low

mul_bound : (a b m n : ℕ) → a ≤ m → b ≤ n → a * b ≤ m * n
mul_bound a b m n h k = grind arith

join_lem : (w p v : ℕ) → w % 2 ^ 128 ≡ v → p % 2 ^ 64 ≡ v % 2 ^ 64 → join (high64 w) (u64 p) ≡ v
join_lem w p v h l = omega arith

sub-mul : (m x b : ℕ) → x ≤ m → (m - x) * b + x * b ≡ m * b
sub-mul m x b h = let e : m - x + x ≡ m = omega arith in omega (arith, ap (λ (t : ℕ). t * b) e)

mul-sub : (m x b : ℕ) → x ≤ m → b * (m - x) + b * x ≡ b * m
mul-sub m x b h = let e : m - x + x ≡ m = omega arith in omega (arith, ap (λ (t : ℕ). b * t) e)

-- The two halves for -x times -y, for -x times b and for b times -y.
product_neg :
    (x y : ℕ)
    → x ≤ 2 ^ 63
    → y ≤ 2 ^ 63
    → join (high64 ((2 ^ 128 - x) * (2 ^ 128 - y))) (u64 ((2 ^ 64 - x) * (2 ^ 64 - y))) ≡ x * y
product_neg x y h k =
    join_lem ((2 ^ 128 - x) * (2 ^ 128 - y)) ((2 ^ 64 - x) * (2 ^ 64 - y)) (x * y)
      (omega (
        arith,
        sub-mul (2 ^ 128) x (2 ^ 128 - y) (omega arith),
        mul-sub (2 ^ 128) y x (omega arith),
        mul_bound x y (2 ^ 63) (2 ^ 63) h k,
      ))
      (omega (
        arith,
        sub-mul (2 ^ 64) x (2 ^ 64 - y) (omega arith),
        mul-sub (2 ^ 64) y x (omega arith),
        mul_bound x y (2 ^ 63) (2 ^ 63) h k,
      ))

product_neg_left :
    (x b : ℕ)
    → x ≤ 2 ^ 63
    → b < 2 ^ 64
    → 0 < x
    → 0 < b
    → join (high64 ((2 ^ 128 - x) * b)) (u64 ((2 ^ 64 - x) * b)) ≡ 2 ^ 128 - x * b
product_neg_left x b h k p q =
    let bound = mul_bound x b (2 ^ 63) (2 ^ 64) h (omega arith) in
    let some_product : 1 * 1 ≤ x * b = mul_bound 1 1 x b p q in
    join_lem ((2 ^ 128 - x) * b) ((2 ^ 64 - x) * b) (2 ^ 128 - x * b)
      (omega (arith, sub-mul (2 ^ 128) x b (omega arith), bound, some_product))
      (omega (arith, sub-mul (2 ^ 64) x b (omega arith), bound, some_product))

product_neg_right :
    (b y : ℕ)
    → b < 2 ^ 64
    → y ≤ 2 ^ 63
    → 0 < b
    → 0 < y
    → join (high64 (b * (2 ^ 128 - y))) (u64 (b * (2 ^ 64 - y))) ≡ 2 ^ 128 - b * y
product_neg_right b y h k p q =
    let bound = mul_bound b y (2 ^ 64) (2 ^ 63) (omega arith) k in
    let some_product : 1 * 1 ≤ b * y = mul_bound 1 1 b y p q in
    join_lem (b * (2 ^ 128 - y)) (b * (2 ^ 64 - y)) (2 ^ 128 - b * y)
      (omega (arith, mul-sub (2 ^ 128) y b (omega arith), bound, some_product))
      (omega (arith, mul-sub (2 ^ 64) y b (omega arith), bound, some_product))

abbrev mulh_word : ℕ → ℕ → ℕ
mulh_word a b = join (high64 (wide a * wide b)) (u64 (a * b))

mulh_pos :
    (a b : ℕ) → a < 2 ^ 63 → b < 2 ^ 63 → signed 128 (mulh_word a b) ≡ signed 64 a *ℤ signed 64 b
mulh_pos a b h k = ground (arith, mul_bound a b (2 ^ 63) (2 ^ 63))

-- The same for words that stand for -(n + 1) and -(m + 1).
mulh_neg_neg :
    (n m : ℕ)
    → n < 2 ^ 63
    → m < 2 ^ 63
    → signed 128 (
        join
          (high64 ((2 ^ 128 - suc n) * (2 ^ 128 - suc m)))
          (u64 ((2 ^ 64 - suc n) * (2 ^ 64 - suc m))))
      ≡ negsuc n *ℤ negsuc m
mulh_neg_neg n m h k =
    rw (product_neg (suc n) (suc m) h k)
      (ground (arith, mul_bound (suc n) (suc m) (2 ^ 63) (2 ^ 63) h k))

mulh_neg_pos :
    (n b : ℕ)
    → n < 2 ^ 63
    → b < 2 ^ 63
    → signed 128 (join (high64 ((2 ^ 128 - suc n) * b)) (u64 ((2 ^ 64 - suc n) * b)))
      ≡ negsuc n *ℤ pos b
mulh_neg_pos n zero h k = ground arith
mulh_neg_pos n (suc b) h k =
    rw (product_neg_left (suc n) (suc b) h (omega arith) (omega arith) (omega arith))
      (ground (arith, mul_bound 1 1 (suc n) (suc b), mul_bound (suc n) (suc b) (2 ^ 63) (2 ^ 63)))

mulh_pos_neg :
    (b n : ℕ)
    → b < 2 ^ 63
    → n < 2 ^ 63
    → signed 128 (join (high64 (b * (2 ^ 128 - suc n))) (u64 (b * (2 ^ 64 - suc n))))
      ≡ pos b *ℤ negsuc n
mulh_pos_neg zero n h k = ground arith
mulh_pos_neg (suc b) n h k =
    rw (product_neg_right (suc b) (suc n) (omega arith) k (omega arith) (omega arith))
      (ground (arith, mul_bound 1 1 (suc b) (suc n), mul_bound (suc b) (suc n) (2 ^ 63) (2 ^ 63)))

-- A word is small, or stands for -(n + 1).
pub word_cases :
    (a : ℕ) → a < 2 ^ 64 → (a < 2 ^ 63) ⊎ ((n : ℕ) × (n < 2 ^ 63) × (a ≡ 2 ^ 64 - suc n))
word_cases a h = elim (dec_lt a (2 ^ 63)) [
  | yes p ↦ inl p
  | no p ↦ inr (2 ^ 64 - a - 1, omega arith, omega arith)
]

wide-neg : (n : ℕ) → n < 2 ^ 63 → wide (2 ^ 64 - suc n) ≡ 2 ^ 128 - suc n
wide-neg n h = ground arith

signed-neg : (n : ℕ) → n < 2 ^ 63 → signed 64 (2 ^ 64 - suc n) ≡ negsuc n
signed-neg n h = ground arith

wide-pos : (a : ℕ) → a < 2 ^ 63 → wide a ≡ a
wide-pos a h = ground arith

signed-pos : (a : ℕ) → a < 2 ^ 63 → signed 64 a ≡ pos a
signed-pos a h = ground arith

mulh_word_lem :
    (a b : ℕ) → a < 2 ^ 64 → b < 2 ^ 64 → signed 128 (mulh_word a b) ≡ signed 64 a *ℤ signed 64 b
mulh_word_lem a b h k = elim (word_cases a h) [
  | inl p ↦ elim (word_cases b k) [
    | inl q ↦ mulh_pos a b p q
    | inr (m, lt, e) ↦
        rw e (
          rw (wide-neg m lt, signed-neg m lt, wide-pos a p, signed-pos a p) (mulh_pos_neg a m p lt))
  ]
  | inr (n, lt, e) ↦ rw e (elim (word_cases b k) [
    | inl q ↦
        rw (wide-neg n lt, signed-neg n lt, wide-pos b q, signed-pos b q) (mulh_neg_pos n b lt q)
    | inr (m, lm, f) ↦ rw f (
        rw (wide-neg n lt, signed-neg n lt, wide-neg m lm, signed-neg m lm)
          (mulh_neg_neg n m lt lm))
  ])
]

-- On 64-bit words MUL and MULH joined are the signed product, and MUL and MULHU joined the unsigned
-- one.
pub exec_op-mul :
    (inst a b : ℕ)
    → a < 2 ^ 64
    → b < 2 ^ 64
    → (low : ℕ) × (high : ℕ) × (highu : ℕ) × (exec_op 1 0 inst a b ≡ value low)
      × (exec_op 1 1 inst a b ≡ value high)
      × (exec_op 1 3 inst a b ≡ value highu)
      × (signed 128 (join high low) ≡ signed 64 a *ℤ signed 64 b)
      × (join highu low ≡ a * b)
unfolding exec_op
exec_op-mul inst a b h k = (
  u64 (a * b),
  high64 (wide a * wide b),
  high64 (a * b),
  refl,
  refl,
  refl,
  mulh_word_lem a b h k,
  omega (arith, mul_bound a b (2 ^ 64 - 1) (2 ^ 64 - 1) (omega arith) (omega arith)),
)
