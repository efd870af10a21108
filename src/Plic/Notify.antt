-- ===== src/Plic/Notify.antt =====
-- plic.cpp: which harts a pending source is signalled to.
pub mod Loop
use rv_emu.Base.{
  ℕ, zero, suc, ◌+◌, ◌*◌, ◌/◌, ◌%◌, ◌^◌, ◌≤◌, ◌<◌, ◌≡◌, ◌≢◌, refl, Bool, true, false, not, ◌&&◌,
  ◌||◌, List, Option, none, some, ltb, ◌==◌, if◌then◌else◌, bit, field, set_bit, length, get_or,
  set, arith, Bool-cases, inl, inr, ◌∙◌, subst, sym, lt→ltb, ge→ltb,
}
use native.Mathlib.Decide.{ℕ_discrete}
use rv_emu.Hart.{HartState}
use rv_emu.Plic.{
  Plic, at, and_then, plic_find_en, try_ctx, try_loop, plic_try_int, notified, plic_notify_ctx,
}
use rv_emu.Plic.Claim.{at-get_or}
use rv_emu.Plic.Places.{at-set_self, at-set_ne, at-some}

-- The context is not handling an interrupt, and its threshold is below.
abbrev pub is_tried : Plic → ℕ → ℕ → Bool
is_tried p prio ctx =
    not (get_or p.int_handling ctx false) && ltb (get_or p.int_prio_thres ctx 0) prio

-- And the source is enabled.
abbrev pub is_open : Plic → ℕ → ℕ → ℕ → Bool
is_open p prio source ctx =
    not (get_or p.int_handling ctx false)
    && ltb (get_or p.int_prio_thres ctx 0) prio
    && bit (get_or p.int_en_regs (0x20 * ctx + source / 32) 0) (source % 32)

-- MEIP and SEIP set if two tests hold.
abbrev pub raise : Bool → Bool → ℕ → ℕ
raise machine supervisor mip =
    let m = (if machine then set_bit mip 11 else mip) in if supervisor then set_bit m 9 else m

abbrev pub raised : Bool → Bool → HartState → HartState
raised machine supervisor hs = record hs {
  csrs = record hs.csrs { mip = raise machine supervisor hs.mip };
}

pub notified-even :
    (i : ℕ) (hs : HartState) → bit i 0 ≡ false → notified i hs ≡ raised true false hs
unfolding notified
notified-even i hs e = rw e refl

pub notified-odd :
    (i : ℕ) (m : Bool) (hs : HartState)
    → bit i 0 ≡ true
    → notified i (raised m false hs) ≡ raised m true hs
unfolding notified
notified-odd i m hs e = rw e refl

module _ (p : Plic) (prio source : ℕ) where
  -- The test on a context, once the loop has come to it.
  unfoldable pub mark : ℕ → ℕ → Bool
  mark c i = ltb c i && is_open p prio source c

  pub mark-later : (c i : ℕ) → i ≤ c → mark c i ≡ false
  unfolding mark
  mark-later c i h = rw (ge→ltb c i h) refl

  pub mark-before : (c i : ℕ) → c < i → mark c i ≡ is_open p prio source c
  unfolding mark
  mark-before c i h = rw (lt→ltb c i h) refl

  pub mark-other : (c i : ℕ) → c ≢ i → mark c (i + 1) ≡ mark c i
  mark-other c i ne = elim (Bool-cases (ltb c i)) [
    | inl lt ↦ mark-before c (i + 1) (ground arith) ∙ sym (mark-before c i (ground arith))
    | inr ge ↦ mark-later c (i + 1) (ground (arith, ne)) ∙ sym (mark-later c i (ground arith))
  ]

  pub mark-closed : (c i : ℕ) → is_open p prio source i ≡ false → mark c (i + 1) ≡ mark c i
  mark-closed c i off = elim (ℕ_discrete c i) [
    | no ne ↦ mark-other c i ne
    | yes same ↦
        mark-before c (i + 1) (omega (arith, same))
        ∙ subst (λ j. is_open p prio source j ≡ false) (sym same) off
        ∙ sym (mark-later c i (omega (arith, same)))
  ]

  module _ (i : ℕ) (handling : i < length p.int_handling) (thresholds : i < length p.int_prio_thres)
      (enables : is_tried p prio i ≡ true → 0x20 * i + source / 32 < length p.int_en_regs)
      (harts : List HartState) where
    find_en-there :
        is_tried p prio i ≡ true
        → plic_find_en p.int_en_regs i source
          ≡ some (bit (get_or p.int_en_regs (0x20 * i + source / 32) 0) (source % 32))
    unfolding plic_find_en
    find_en-there on = rw (at-get_or p.int_en_regs (0x20 * i + source / 32) 0 (enables on)) refl

    pub try_ctx_lem :
        try_ctx p prio source i harts
        ≡ (if is_open p prio source i then plic_notify_ctx harts i else some harts)
    unfolding try_ctx
    try_ctx_lem =
        let h = at-get_or p.int_handling i false handling in
        let t = at-get_or p.int_prio_thres i 0 thresholds in
        elim (Bool-cases (get_or p.int_handling i false)) [
          | inl busy ↦ rw (h, busy) refl
          | inr idle ↦ elim (Bool-cases (ltb (get_or p.int_prio_thres i 0) prio)) [
            | inr low ↦ rw (h, t, idle, low) refl
            | inl high ↦ rw (h, t, idle, high, find_en-there (rw (idle, high) refl)) refl
          ]
        ]
