-- ===== src/Guard/Reset.antt =====
-- That a hart that `hart_init` of main.cpp has set up is well formed.
use rv_emu.Base.{ℕ, zero, suc, ◌≡◌, refl, true, get_or-replicate, arith}
use rv_emu.Hart.Reset.{reset_pmp, reset_state, hart_init}
use rv_emu.Pmp.Sync.{AreBytes}
use rv_emu.Pmp.Config.Locks.{IsConfig, locked}
use rv_emu.Tlb.{tlb_clear}
use rv_emu.Tlb.Count.{IsCounted, tlb_clear-IsCounted}
use rv_emu.Guard.{IsHart}

reset_pmp-AreBytes : AreBytes reset_pmp
reset_pmp-AreBytes zero = omega arith
reset_pmp-AreBytes (suc i) = rw (get_or-replicate {A = ℕ} 15 i 0) (omega arith)

reset_pmp-unlocked : (i : ℕ) → locked reset_pmp i ≡ true → ⊥
reset_pmp-unlocked zero e = ground arith
reset_pmp-unlocked (suc i) e = ground (arith, get_or-replicate {A = ℕ} 15 i 0, e)

pub reset_pmp-IsConfig : IsConfig reset_pmp
reset_pmp-IsConfig = record {
  cfgs = refl;
  locks = refl;
  entries = refl;
  bytes = reset_pmp-AreBytes;
  addrs = λ i lt on. absurd (reset_pmp-unlocked i on);
}

reset-IsCounted : (i : ℕ) → IsCounted (reset_state i).tlb
unfolding reset_state tlb_clear
reset-IsCounted i = tlb_clear-IsCounted

pub hart_init-IsHart : (mem_size hartid : ℕ) → IsHart (hart_init mem_size hartid)
unfolding hart_init reset_state
hart_init-IsHart mem_size hartid = record {
  has_regs = refl;
  has_config = reset_pmp-IsConfig;
  has_tlb = reset-IsCounted hartid;
  has_mode = omega arith;
}
