-- ===== src/Pmp/Napot.antt =====
-- The region that mem.cpp gives to a NAPOT entry.
use rv_emu.Base.{
  ℕ, ◌+◌, ◌-◌, ◌*◌, ◌/◌, ◌^◌, ◌≤◌, ◌<◌, ◌≡◌, arith, ◌∙◌, sym, ap, u8, pow-add, pow-pos, div-eq,
}
use native.Mathlib.Decide.{dec_le}
use rv_emu.Platform.{Platform, IsFfsll}
use rv_emu.Pmp.{napot_bounds, uint64_all_ones}

-- The arithmetic of one region of 8 * p bytes, with p = 2 ^ k and r = 2 ^ (63 - k).
room : (p r y : ℕ) → r * p ≡ 2 ^ 63 → (y + 1) * (8 * p) ≤ 2 ^ 64 → y + 1 ≤ r
room p r y e fits = elim (dec_le (y + 1) r) [
  | yes h ↦ h
  | no h ↦
      let below : r ≤ y = omega arith in
      let product : r * p ≤ y * p = grind arith in absurd (omega arith)
]

complement :
    (p r y : ℕ)
    → 0 < p
    → r * p ≡ 2 ^ 63
    → (y + 1) * (8 * p) ≤ 2 ^ 64
    → uint64_all_ones - (y * (2 * p) + (p - 1)) ≡ (2 * (r - y - 1) + 1) * p
complement p r y pos e fits =
    let split : r ≡ y + 1 + (r - y - 1) = omega (arith, room p r y e fits) in
    omega (arith, ap (λ (t : ℕ). t * p) split)

module _ (P : Platform) (k y : ℕ) (law : IsFfsll P) (small : k ≤ 60)
    (fits : (y + 1) * 2 ^ (k + 3) ≤ 2 ^ 64) where
  abbrev napot_addr : ℕ
  napot_addr = y * 2 ^ (k + 1) + (2 ^ k - 1)

  abbrev half : ℕ
  half = 2 ^ (63 - k)

  whole : half * 2 ^ k ≡ 2 ^ 63
  whole =
      let e : 63 - k + k ≡ 63 = omega arith in sym (pow-add (63 - k) k) ∙ ap (λ (t : ℕ). 2 ^ t) e

  bytes_fit : (y + 1) * (8 * 2 ^ k) ≤ 2 ^ 64
  bytes_fit = omega (arith, fits, ap (λ (t : ℕ). (y + 1) * t) (pow-add k 3))

  addr_eq : napot_addr ≡ y * (2 * 2 ^ k) + (2 ^ k - 1)
  addr_eq = omega (arith, ap (λ (t : ℕ). y * t) (pow-add k 1))

  word : (2 * (half - y - 1) + 1) * 2 ^ k < 2 ^ 64
  word = omega (arith, complement (2 ^ k) half y (pow-pos k) whole bytes_fit)

  size_eq : u8 (P.ffsll (uint64_all_ones - napot_addr) - 1) ≡ k
  size_eq =
      rw (addr_eq, complement (2 ^ k) half y (pow-pos k) whole bytes_fit, law (half - y - 1) k word)
        (omega arith)

  shifted : napot_addr / 2 ^ k ≡ 2 * y
  shifted = rw addr_eq (
      ap (λ (t : ℕ). (t + (2 ^ k - 1)) / 2 ^ k) (grind arith)
      ∙ div-eq (2 * y) (2 ^ k - 1) (2 ^ k) (omega (arith, pow-pos k)))

  base_eq : 2 * y * 2 ^ (k + 2) ≡ y * 2 ^ (k + 3)
  base_eq = omega (arith, ap (λ (t : ℕ). y * t) (pow-add k 2), ap (λ (t : ℕ). y * t) (pow-add k 3))

  top-lt : y * 2 ^ (k + 3) + 2 ^ (k + 2) < 2 ^ 64
  top-lt = omega (arith, fits, pow-add k 2, pow-add k 3, pow-pos k)

  addr-lt : napot_addr < uint64_all_ones
  addr-lt = omega (arith, addr_eq, bytes_fit, pow-pos k)

  -- Where ffsll is as documented, a NAPOT register with k trailing ones is given the lower half of
  -- the 2 ^ (k + 3) bytes that it stands for, if these end within 64 bits.
  pub napot_bounds_half :
      napot_bounds P napot_addr ≡ (y * 2 ^ (k + 3), y * 2 ^ (k + 3) + 2 ^ (k + 2))
  unfolding napot_bounds
  napot_bounds_half = rw (size_eq, shifted, base_eq, napot_bounds) (ground (arith, top-lt, addr-lt))
