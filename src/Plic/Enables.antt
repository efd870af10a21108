-- ===== src/Plic/Enables.antt =====
-- Which enable registers of plic.cpp are there.
use rv_emu.Base.{
  ℕ, ◌+◌, ◌*◌, ◌/◌, ◌%◌, ◌≤◌, ◌<◌, ◌≡◌, ◌↔◌, refl, Option, bit, List, none, some, length, set,
  replicate, length-set, length-replicate, arith, ◌∙◌,
}
use rv_emu.Plic.Places.{at-none}
use rv_emu.Plic.{at, plic_init, plic_find_en, plic_source_count, and_then}

and_then-none : (o : Option ℕ) (s : ℕ) → (and_then o (λ w. some (bit w s)) ≡ none) ↔ (o ≡ none)
and_then-none none s = (λ e. refl, λ e. refl)
and_then-none (some w) s = (λ e. cc, λ e. cc)

-- After plic_init for n harts the enable bit of a source is read past the array exactly for the
-- contexts from n / 16, rounded up, on.
pub plic_find_en-plic_init :
    (n ctx s : ℕ) (prio pend thres : List ℕ)
    → s < plic_source_count
    → (plic_find_en (plic_init n prio pend thres).int_en_regs ctx s ≡ none) ↔ (2 * n ≤ 0x20 * ctx)
unfolding plic_init plic_find_en
plic_find_en-plic_init n ctx s prio pend thres lt =
    let en : List ℕ = set (replicate (2 * n) 0) 0 0xFFFF_FFFF in
    let size : length en ≡ 2 * n =
      length-set (replicate (2 * n) 0) 0 0xFFFF_FFFF ∙ length-replicate (2 * n) 0 in
    let f = and_then-none (at en (0x20 * ctx + s / 32)) (s % 32) in
    let a = at-none en (0x20 * ctx + s / 32) in
    (λ e. omega (arith, a.0 (f.0 e), size), λ h. f.1 (a.1 (omega (arith, size))))
