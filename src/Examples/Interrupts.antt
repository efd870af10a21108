-- ===== src/Examples/Interrupts.antt =====
-- The interrupt controller of one hart: source 10 is pending, enabled in context 0, at priority 3.
use rv_emu.Base.{
  zero, suc, List, ◌+◌, ◌/◌, ◌<◌, length, ℕ, ◌*◌, ◌≤◌, ◌≡◌, ◌≢◌, ◌↔◌, refl, [], ◌∷◌, none, some,
  replicate, set, get_or, arith, clear_bit, true,
}
use rv_emu.Hart.{HartState}
use rv_emu.Hart.Reset.{hart_init}
use rv_emu.Plic.Notify.{is_open, is_tried, raised}
use rv_emu.Plic.Notify.Loop.{HasContexts, plic_try_int-raised}
use rv_emu.Plic.{at, plic_try_int, Plic, plic_init, plic_find_en, plic_source_count, claim}
use rv_emu.Plic.Claim.{IsHighest, claim-IsHighest}
use rv_emu.Plic.Enables.{plic_find_en-plic_init}

abbrev console : Plic
unfolding plic_init
console = plic_init 1 (set (replicate 16 0) 10 3) (0x400 ∷ []) (0 ∷ 0 ∷ [])

claim-IsHighest_example :
    (prio : ℕ) × (source : ℕ) × (p' : Plic) × (claim console 0 ≡ some p')
    × IsHighest console 0 plic_source_count prio source
    × (p'.highest_source ≡ source)
    × (source ≡ 0 → p' ≡ record console { highest_source = 0 })
    × (source ≢ 0
        → (p'.int_handling ≡ set console.int_handling 0 true)
          × (p'.int_pend_regs
              ≡ set console.int_pend_regs 0 (clear_bit (get_or console.int_pend_regs 0 0) source)))
unfolding plic_init
claim-IsHighest_example = claim-IsHighest console 0 refl (omega arith) (omega arith) (omega arith)

plic_find_en-plic_init_example :
    (plic_find_en (plic_init 1 [] [] []).int_en_regs 1 10 ≡ none) ↔ (2 * 1 ≤ 0x20 * 1)
plic_find_en-plic_init_example = plic_find_en-plic_init 1 1 10 [] [] [] (omega arith)

-- The threshold of the second context is 3, so only the first is tried.
abbrev masked : Plic
unfolding plic_init
masked = plic_init 1 (set (replicate 16 0) 10 3) (0x400 ∷ []) (0 ∷ 3 ∷ [])

unfoldable one_hart : List HartState
one_hart = hart_init 4096 0 ∷ []

masked-HasContexts : HasContexts masked 1 3 10
unfolding plic_init
masked-HasContexts = record {
  handling = omega arith;
  thresholds = omega arith;
  enables = λ ctx lt on. first_only ctx lt on;
}
  where
    first_only :
        (ctx : ℕ)
        → ctx < 2
        → is_tried masked 3 ctx ≡ true
        → 0x20 * ctx + 10 / 32 < length masked.int_en_regs
    first_only zero lt on = omega arith
    first_only (suc zero) lt on = absurd (cc)
    first_only (suc (suc ctx)) lt on = absurd (omega (arith, lt))

one_hart-length : length one_hart ≡ 1
unfolding one_hart
one_hart-length = refl

masked-pending : at masked.int_pend_regs (10 / 32) ≡ some 0x400
unfolding at plic_init
masked-pending = refl

masked-priority : at masked.int_prio_regs 10 ≡ some 3
unfolding at plic_init
masked-priority = refl

plic_try_int-raised_example :
    (after : List HartState) × (plic_try_int 1 masked 10 one_hart ≡ some after)
    × ((k : ℕ) (hs : HartState)
        → k < 1
        → at one_hart k ≡ some hs
        → at after k
          ≡ some (raised (is_open masked 3 10 (2 * k)) (is_open masked 3 10 (2 * k + 1)) hs))
plic_try_int-raised_example =
    plic_try_int-raised 1 10 3 0x400 masked one_hart one_hart-length masked-HasContexts
      masked-pending refl masked-priority
