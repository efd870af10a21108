-- ===== src/Examples/Registers.antt =====
-- CSR instructions at a hart just out of reset, in S-mode.
use rv_emu.Base.{set}
use rv_emu.Hart.{HartState}
use rv_emu.Hart.Reset.{reset_state}
use rv_emu.Csr.{csr_op}
use rv_emu.Csr.Safety.{LocksHold, csr_op-LocksHold}
use rv_emu.Examples.Protection.{boot, boot-IsConfig, host}

-- CSRRW of pmpaddr3 from register 0.
csr_op-LocksHold_example : LocksHold boot 0x3B3 (csr_op host boot 7 0x3B3 5 0 1)
csr_op-LocksHold_example = csr_op-LocksHold host boot 7 0x3B3 5 0 1 boot-IsConfig

-- Register 6 holds the two bits of MPP.
abbrev kernel : HartState
unfolding reset_state
kernel = record boot { regs = set boot.regs 6 0x1800 }
