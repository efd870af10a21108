-- ===== src/Pmp/Config.antt =====
-- cpu.cpp: `pmpcfg_rw`, the CSR instructions on the configuration bytes.
pub mod Locks
pub mod Writes
use Prim.Native.Nat.{bit_and, bit_or}
use rv_emu.Base.{
  ℕ, zero, suc, ◌+◌, ◌-◌, ◌*◌, ◌/◌, ◌%◌, ◌^◌, Bool, true, false, not, ◌&&◌, leb, ◌==◌,
  if◌then◌else◌, u8, sext, bit, field, get_or, set, Option, none, some,
}
use rv_emu.Hart.{HartState, HartException, Pmp, noexc, illinst}
use rv_emu.Platform.{Platform, shl_int}
use rv_emu.Pmp.{pmp_count, sync_exp_pmp}
use rv_emu.Trap.{create_exception}

-- The `switch` over `funct`: the byte after CSRRW, CSRRS or CSRRC.
unfoldable pub written : ℕ → ℕ → ℕ → ℕ
written funct old writeval =
    if funct == 1
    then writeval
    else if funct == 2
    then u8 (bit_or old writeval)
    else if funct == 3
    then u8 (bit_and old (255 - writeval))
    else old

-- The locks that follow the write of entry `i`: its address, and for TOR also the address before.
unfoldable pub lock_addrs : ℕ → Pmp → Pmp
lock_addrs i pmp =
    let cfg = get_or pmp.pmpcfg i 0 in
    let own = set pmp.pmp_lockedaddr i true in
    if not (bit cfg 7)
    then pmp
    else if field cfg 3 2 == 1 && not (i == 0)
    then record pmp { pmp_lockedaddr = set own (i - 1) true }
    else record pmp { pmp_lockedaddr = own }

-- What the body of the loop does to entry `i`, which holds byte `b` of the register.
unfoldable pub cfg_step : ℕ → ℕ → ℕ → ℕ → Pmp → Pmp
unfolding written lock_addrs
cfg_step funct wvalue i b pmp =
    let old = get_or pmp.pmpcfg i 0 in
    let writeval = field wvalue (8 * b) 8 in
    if bit old 7
    then pmp
    else lock_addrs i (record pmp { pmpcfg = set pmp.pmpcfg i (written funct old writeval) })

module _ (P : Platform) where
  -- The loop with `left` bytes to go, at byte `b`; the second result is `readval`.
  unfoldable pub cfg_loop : ℕ → ℕ → ℕ → ℕ → ℕ → Pmp × ℕ → Pmp × ℕ
  unfolding cfg_step
  cfg_loop funct wvalue start zero b s = s
  cfg_loop funct wvalue start (suc left) b (pmp, readval) =
      cfg_loop funct wvalue start left (b + 1) (
        cfg_step funct wvalue (start + b) b pmp,
        bit_or readval (shl_int P (get_or pmp.pmpcfg (start + b) 0) (8 * b)),
      )

  -- `rvalue` points to register `rd`. `none` is undefined behaviour: the bytes from 16 on are not
  -- in the array.
  unfoldable pub pmpcfg_rw : HartState → ℕ → ℕ → ℕ → ℕ → Option (HartState × HartException)
  unfolding cfg_loop
  pmpcfg_rw hs addr rd wvalue funct =
      let start = u8 (4 * (addr - 0x3A0)) in
      let result = cfg_loop funct wvalue start 8 0 (hs.pmp, 0) in
      if bit addr 0
      then some (create_exception hs illinst (sext 32 hs.inst))
      else if leb pmp_count start
      then none
      else some
          (sync_exp_pmp P (record hs { pmp = result.0; regs = set hs.regs rd result.1 }), noexc)
