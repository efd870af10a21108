-- ===== src/Cycle.antt =====
-- cpu.cpp: `fetch` and `cycle`.
pub mod Reservations
use rv_emu.Base.{
  ℕ, ◌+◌, ◌/◌, ◌^◌, Bool, true, false, not, ◌&&◌, ◌||◌, ◌==◌, if◌then◌else◌, field, set, u16, u32,
  u64, sext,
}
use rv_emu.Hart.{HartState, HartException, is_noexc, noexc, illinst, imisalign, iafault, ipfault}
use rv_emu.Platform.{Platform}
use rv_emu.Trap.{setup_pending_int}
use rv_emu.Memory.{Board, M, ◌>>=◌, ◌>>◌, pure, gets, modify}
use rv_emu.Memory.Walk.{virt_mem_fetch}
use rv_emu.Exec.{decode_exc}
use rv_emu.Exec.Control.{Flow, stop, go, raise, handle_mem_error, set_load}

-- The length of an instruction: 0 is one that is not supported.
abbrev pub length_of : ℕ → ℕ
length_of inst =
    if not (field inst 0 2 == 3) then 16 else if not (field inst 2 3 == 7) then 32 else 0

-- The upper half of a word that is a compressed instruction is kept for the next fetch.
abbrev pub buffered : ℕ → ℕ → ℕ
buffered inst instbuf =
    if length_of inst == 16 && not (field inst 16 2 == 3) then u16 (inst / 2 ^ 16) else instbuf

-- `hs.inst` and `hs.instbuf` after the `switch` over the length.
unfoldable pub split : HartState → HartState
split hs = record hs {
  inst = if length_of hs.inst == 16 then u16 hs.inst else hs.inst;
  instbuf = buffered hs.inst hs.instbuf;
  inst_len = length_of hs.inst;
}

unfoldable pub no_length : {D : Type 0} → M D (Unit {0})
no_length = modify (λ hs. record hs { inst_len = 0 })

unfoldable pub set_inst : {D : Type 0} → ℕ → M D (Unit {0})
set_inst inst = modify (λ hs. record hs { inst = inst })

-- The instruction that was kept, which is an `int16_t`.
unfoldable pub take_buffer : {D : Type 0} → M D (Unit {0})
take_buffer = modify (λ hs. record hs { inst = u32 (sext 16 hs.instbuf); instbuf = 0 })

-- The checks of `fetch` on the word.
unfoldable pub check_inst : {D : Type 0} → M D Flow
check_inst = do
  inst ← gets (λ hs. hs.inst)
  pc ← gets (λ hs. hs.pc)
  if inst == 0 || inst == 0xFFFF_FFFF
      then (do no_length; raise illinst (sext 32 inst))
      else if length_of inst == 0
      then (do no_length; raise imisalign pc)
      else (do modify split; handle_mem_error iafault ipfault pc (pure (stop noexc)))

-- The exception of a flow that stopped.
abbrev pub exception_of : Flow → HartException
exception_of (stop exc) = exc
exception_of (go b) = noexc

-- From the label `cycle_end` on.
unfoldable pub count_cycle : HartState → HartState
count_cycle hs =
    let cycles = u64 (hs.mcycle + 1) in
    record hs { csrs = record hs.csrs { mcycle = cycles; cycle = cycles; instret = hs.minstret } }

unfoldable pub check_interrupts : HartState → HartState
check_interrupts hs =
    if hs.chk_int then (setup_pending_int (record hs { chk_int = false })).0 else hs

unfoldable pub end_cycle : {D : Type 0} → M D Bool
end_cycle = do modify count_cycle; modify check_interrupts; pure true

module _ {D : Type 0} (B : Board D) where
  unfoldable pub load_inst : M D (Unit {0})
  load_inst = do pc ← gets (λ hs. hs.pc); inst ← virt_mem_fetch B 4 pc; set_inst inst

  unfoldable pub fetch : M D HartException
  fetch = do
    set_load false
    instbuf ← gets (λ hs. hs.instbuf)
    if instbuf == 0 then load_inst else take_buffer
    pc ← gets (λ hs. hs.pc)
    flow ← handle_mem_error iafault ipfault pc check_inst
    pure (exception_of flow)

  -- `cycle`: false to halt, which only the signature mode does.
  unfoldable pub cycle : Platform → Bool → M D Bool
  cycle P sig_mode = do
    modify (λ hs. record hs { regs = set hs.regs 0 0 })
    exc ← fetch
    inst ← gets (λ hs. hs.inst)
    if sig_mode && inst == 0xBAD3_3013
        then pure false
        else if is_noexc exc
        then (do exc ← decode_exc B P; end_cycle)
        else end_cycle
