-- ===== src/Memory/Bytes.antt =====
-- The byte loops of mem.h's little-endian memories: what a store leaves for a load.
use native.Mathlib.Nat.{pow-suc, one-le-pow, mod-add-div, div-div-eq-div-mul, mul_assoc, mul_comm}
use rv_emu.Base.{
  ℕ, zero, suc, ◌+◌, ◌*◌, ◌/◌, ◌%◌, ◌^◌, ◌≤◌, ◌<◌, ◌≡◌, refl, ◌⊎◌, inl, arith, u8, ap, ◌∙◌, sym,
}
use rv_emu.Memory.{read_bytes, write_byte, write_bytes}

pub write_bytes-other :
    (m : ℕ → ℕ) (a len v b : ℕ) → (b < a) ⊎ (a + len ≤ b) → write_bytes m a len v b ≡ m b
unfolding write_bytes
write_bytes-other m a zero v b h = refl
write_bytes-other m a (suc len) v b h =
    let rest =
      write_bytes-other (write_byte m a (u8 v)) (a + 1) len (v / 256) b (ground (arith, h)) in
    rest ∙ ground (arith, h)

mod-step : (v p : ℕ) → 0 < p → v % (256 * p) ≡ v % 256 + 256 * (v / 256 % p)
mod-step v p h =
    let d = v / 256 / p in
    let whole : v % (256 * p) + 256 * p * d ≡ v =
      ap (λ (t : ℕ). v % (256 * p) + 256 * p * t) (div-div-eq-div-mul v 256 p)
      ∙ mod-add-div v (256 * p) in
    let high : v / 256 % p + p * d ≡ v / 256 = mod-add-div (v / 256) p in
    let assoc : 256 * p * d ≡ 256 * (p * d) = mul_assoc 256 p d in omega (arith, whole, high, assoc)

pub read_bytes-write_bytes :
    (m : ℕ → ℕ) (a len v : ℕ) → read_bytes (write_bytes m a len v) a len ≡ v % 256 ^ len
unfolding read_bytes write_bytes
read_bytes-write_bytes m a zero v = ground arith
read_bytes-write_bytes m a (suc len) v =
    let low =
      write_bytes-other (write_byte m a (u8 v)) (a + 1) len (v / 256) a (inl (omega arith)) in
    let high = read_bytes-write_bytes (write_byte m a (u8 v)) (a + 1) len (v / 256) in
    let here : write_byte m a (u8 v) a ≡ v % 256 = ground arith in
    rw (low, high, here, pow-suc 256 len, mul_comm (256 ^ len) 256)
      (sym (mod-step v (256 ^ len) (one-le-pow len 256 (omega arith))))
