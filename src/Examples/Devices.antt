-- ===== src/Examples/Devices.antt =====
-- The timer of one hart and the interrupt controller at concrete registers.
use rv_emu.Base.{
  ℕ, zero, suc, ◌+◌, ◌-◌, ◌*◌, ◌≤◌, ◌≡◌, refl, List, [], ◌∷◌, some, none, ◌↔◌, leb, set, replicate,
  arith, false, subst,
}
use rv_emu.Hart.{HartState}
use rv_emu.Hart.Reset.{hart_init, reset_state}
use rv_emu.Plic.{Plic, and_then, at}
use rv_emu.Plic.Registers.Access.{write_read, plic_r-plic_w}
use rv_emu.Aclint.{Aclint, aclint_mtime_get, aclint_mtimer_r, aclint_mtimer_w, aclint_mtimer_chk}
use rv_emu.Aclint.Time.{aclint_mtimer_r-aclint_mtimer_w}
use rv_emu.Aclint.Timer.{Follows, aclint_mtimer_w-chk, aclint_mtimer_w-none}

abbrev timer : Aclint
timer = record { time_start = 1000; mtimer_regs = 7 ∷ []; mswi_regs = 0 ∷ [] }

abbrev single : HartState
single = hart_init 4096 0

abbrev harts : List HartState
harts = single ∷ []

aclint_mtimer_r-aclint_mtimer_w_example :
    and_then
      (aclint_mtimer_w 5000 0x7ff8 20 timer harts)
      (λ s. aclint_mtimer_r ((5000 + 250) - 0) 0x7ff8 s.0)
    ≡ some 22
aclint_mtimer_r-aclint_mtimer_w_example =
    aclint_mtimer_r-aclint_mtimer_w 5000 250 20 timer harts (omega arith) (omega arith)

single_number : single.hartid ≡ 0
unfolding hart_init reset_state
single_number = refl

first_register : at timer.mtimer_regs 0 ≡ some 7
unfolding at
first_register = refl

first_hart : at harts 0 ≡ some single
unfolding at
first_hart = refl

abbrev set_to_nine : Aclint
set_to_nine = record timer { mtimer_regs = set timer.mtimer_regs 0 9 }

aclint_mtimer_w-chk_example :
    ((hs' : HartState) × (aclint_mtimer_w 5000 0 9 timer harts
        ≡ some (set_to_nine, set harts 0 hs'))
      × Follows single.mip hs'.mip (leb 9 (aclint_mtime_get 5000 set_to_nine)))
    × ((hs' : HartState) × (aclint_mtimer_chk 9000 set_to_nine single ≡ some hs')
        × Follows single.mip hs'.mip (leb 9 (aclint_mtime_get 9000 set_to_nine)))
aclint_mtimer_w-chk_example =
    aclint_mtimer_w-chk 5000 9000 0 9 7 timer harts single single (λ e. omega arith) first_register
      first_hart single_number single_number

harts_numbered : (k : ℕ) (hs : HartState) → at harts k ≡ some hs → hs.hartid ≡ k
unfolding at
harts_numbered zero hs e =
    let same : single ≡ hs = cc in subst (λ h. h.hartid ≡ 0) same single_number
harts_numbered (suc k) hs e = absurd (cc)

aclint_mtimer_w-none_example : (aclint_mtimer_w 5000 (8 * 1) 9 timer harts ≡ none) ↔ (1 ≤ 8 * 1)
aclint_mtimer_w-none_example =
    aclint_mtimer_w-none 5000 1 9 1 timer harts (λ e. omega arith) refl refl harts_numbered

abbrev controller : Plic
controller = record {
  int_prio_regs = replicate 16 0;
  int_pend_regs = 0 ∷ [];
  int_en_regs = 0 ∷ 0 ∷ [];
  int_prio_thres = 0 ∷ 0 ∷ [];
  int_handling = false ∷ false ∷ [];
  highest_source = 0;
}

plic_r-plic_w_example :
    (write_read 1 (4 * 10) 6 controller harts ≡ some 6)
    × (write_read 1 (0x20_0000 + 0x1000 * 1) 6 controller harts ≡ some 6)
plic_r-plic_w_example =
    plic_r-plic_w 1 6 controller harts 10 1 (omega arith) (omega arith) (omega arith) (omega arith)
