-- ===== src/Exec.antt =====
-- cpu.cpp: `decode_exc`, the decoding and execution of an instruction.
pub mod Control
pub mod Atomic
pub mod Reservations
pub mod Faults
use rv_emu.Base.{
  ℕ, ◌+◌, ◌*◌, ◌/◌, ◌%◌, ◌^◌, Bool, true, false, not, ◌&&◌, ◌||◌, Option, none, some, leb, ltb,
  ◌==◌, if◌then◌else◌, bit, field, clear_bit, u64, sext,
}
use rv_emu.Hart.{
  HartState, HartException, noexc, illinst, bpoint, imisalign, lafault, lpfault, safault, spfault,
  uecall, hsecall, vsecall, mecall,
}
use rv_emu.Platform.{Platform}
use rv_emu.Trap.{mret, sret}
use rv_emu.Csr.{csr_op}
use rv_emu.Tlb.{tlb_clear}
use rv_emu.Alu.{
  Outcome, keep, value, exec_op_imm, exec_op_imm_32, exec_op, exec_op_32, branch_taken,
}
use rv_emu.Alu
use rv_emu.Decode.{Decoded, InstOp32, decode_32}
use rv_emu.Decode.Compressed.{decode_16}
use rv_emu.Memory.{Board, M, ◌>>=◌, ◌>>◌, pure, undefined, gets, modify, get_world}
use rv_emu.Memory.Walk.{virt_mem_fetch, virt_mem_store}
use rv_emu.Exec.Control.{
  Flow, stop, go, raise, handle_mem_error, reg, set_reg, set_pc, set_load, flush, truncated,
}
use rv_emu.Exec.Atomic.{exec_amo}

-- What an arithmetic instruction leaves in `rd`.
unfoldable pub write_back : {D : Type 0} → ℕ → Outcome → M D Flow
write_back rd keep = pure (go false)
write_back rd (value v) = do set_reg rd v; pure (go false)
write_back rd Outcome.undefined = undefined

-- The program counter was set: a misaligned one traps.
unfoldable pub jumped : {D : Type 0} → M D Flow
jumped = do pc ← gets (λ hs. hs.pc); if bit pc 0 then raise imisalign pc else pure (go true)

unfoldable pub exec_jal : {D : Type 0} → Decoded → M D Flow
exec_jal d = do
  link ← gets (λ hs. u64 (hs.pc + hs.inst_len / 8))
  set_reg d.rd link
  target ← gets (λ hs. u64 (hs.pc + d.imm))
  set_pc target
  jumped

unfoldable pub exec_jalr : {D : Type 0} → Decoded → M D Flow
exec_jalr d = do
  swap_tmp ← gets (λ hs. u64 (hs.pc + hs.inst_len / 8))
  target ← gets (λ hs. clear_bit (u64 (reg hs d.rs1 + d.imm)) 0)
  set_pc target
  set_reg d.rd swap_tmp
  jumped

unfoldable pub exec_branch : {D : Type 0} → Decoded → M D Flow
exec_branch d = do
  jflag ← gets (λ hs. branch_taken d.funct3 (reg hs d.rs1) (reg hs d.rs2))
  target ← gets (λ hs. u64 (hs.pc + d.imm))
  if jflag then (do set_pc target; jumped) else pure (go false)

-- `(HartException)(hs.privmode + 8)`.
abbrev pub ecall_of : ℕ → HartException
ecall_of mode =
    if mode == 0
    then uecall
    else if mode == 1
    then hsecall
    else if mode == 2
    then vsecall
    else mecall

module _ {D : Type 0} (B : Board D) where
  -- The value that is loaded has `2 ^ (funct3 & 3)` bytes, with its sign unless bit 2 is set.
  unfoldable pub exec_load : Decoded → M D Flow
  exec_load d = do
    load_addr ← gets (λ hs. u64 (reg hs d.rs1 + d.imm))
    let len = 2 ^ field d.funct3 0 2
    set_load true
    lv ← virt_mem_fetch B len load_addr
    handle_mem_error lafault lpfault load_addr
        (do set_reg d.rd (if bit d.funct3 2 then lv else sext (8 * len) lv); pure (go false))

  unfoldable pub exec_store : Decoded → M D Flow
  exec_store d = do
    store_addr ← gets (λ hs. u64 (reg hs d.rs1 + d.imm))
    v ← gets (λ hs. reg hs d.rs2)
    let len = 2 ^ d.funct3
    set_load false
    if ltb d.funct3 4 then virt_mem_store B len store_addr (truncated len v) else pure tt
    handle_mem_error safault spfault store_addr (pure (go false))

  unfoldable pub exec_csr : Platform → Decoded → M D Flow
  exec_csr P d = do
    time ← get_world (λ w. B.mtime w.devices)
    done ← gets (λ hs. csr_op P hs time (field d.imm 0 12) d.rd d.rs1 d.funct3)
    elim done [ none ↦ undefined | some (hs, exc) ↦ (do modify (λ _. hs); pure (stop exc)) ]

  -- `case inst_op_32::SYSTEM`. MRET, SRET and the CSR instructions include what follows the
  -- `switch`, so that they stop here.
  unfoldable pub exec_system : Platform → Decoded → M D Flow
  exec_system P d = do
    status ← gets (λ hs. hs.mstatus)
    mode ← gets (λ hs. hs.privmode)
    pc ← gets (λ hs. hs.pc)
    let illegal = raise illinst (sext 32 d.inst)
    if d.inst == 0x73
        then raise (ecall_of mode) pc
        else if d.inst == 0x10_0073 || d.cebreak
        then raise bpoint pc
        else if d.inst == 0x3020_0073
        then (do modify mret; pure (stop noexc))
        else if d.inst == 0x1020_0073
        then (if bit status 22 then illegal else (do modify sret; pure (stop noexc)))
        else if d.inst == 0x1050_0073
        then (if bit status 21
            then illegal
            else (do modify (λ hs. record hs { chk_int = true }); pure (go false)))
        else if field d.inst 25 7 == 0b0001001
        then (if bit status 20
            then illegal
            else (do modify (λ hs. record hs { tlb = tlb_clear; instbuf = 0 }); pure (go false)))
        else exec_csr P d

  -- The `switch` over `op_fun`. An opcode that has no case prints a message and goes on.
  unfoldable pub dispatch : Platform → InstOp32 → Decoded → M D Flow
  dispatch P InstOp32.op_imm d = do
    v ← gets (λ hs. exec_op_imm d.funct3 d.inst (reg hs d.rs1) d.imm)
    write_back d.rd v
  dispatch P InstOp32.op_imm_32 d = do
    v ← gets (λ hs. exec_op_imm_32 d.funct3 d.inst (reg hs d.rs1) d.imm)
    write_back d.rd v
  dispatch P InstOp32.lui d = do set_reg d.rd d.imm; pure (go false)
  dispatch P InstOp32.auipc d = do
    v ← gets (λ hs. u64 (d.imm + hs.pc))
    set_reg d.rd v
    pure (go false)
  dispatch P InstOp32.op d = do
    v ← gets (λ hs. exec_op d.funct7 d.funct3 d.inst (reg hs d.rs1) (reg hs d.rs2))
    write_back d.rd v
  dispatch P InstOp32.op_32 d = do
    v ← gets (λ hs. exec_op_32 d.funct7 d.funct3 d.inst (reg hs d.rs1) (reg hs d.rs2))
    write_back d.rd v
  dispatch P InstOp32.jal d = exec_jal d
  dispatch P InstOp32.jalr d = exec_jalr d
  dispatch P InstOp32.branch d = exec_branch d
  dispatch P InstOp32.load d = exec_load d
  dispatch P InstOp32.store d = exec_store d
  dispatch P InstOp32.misc_mem d = do if d.funct3 == 1 then flush else pure tt; pure (go false)
  dispatch P InstOp32.system d = exec_system P d
  dispatch P InstOp32.amo d = exec_amo B d
  dispatch P _ d = pure (go false)

  -- The end of `decode_exc`.
  unfoldable pub finish : Flow → M D HartException
  finish (stop exc) = pure exc
  finish (go true) = do
    flush
    modify (λ hs. record hs { csrs = record hs.csrs { minstret = u64 (hs.minstret + 1) } })
    pure noexc
  finish (go false) = do
    modify (λ hs. record hs {
      pc = u64 (hs.pc + hs.inst_len / 8);
      csrs = record hs.csrs { minstret = u64 (hs.minstret + 1) };
    })
    pure noexc

  unfoldable pub execute : Platform → Decoded → M D Flow
  execute P d = do modify (λ hs. record hs { inst = d.inst }); dispatch P d.op_fun d

  -- The length is 16 or 32 after a fetch; with another the instruction is illegal.
  unfoldable pub decode_exc : Platform → M D HartException
  decode_exc P = do
    inst ← gets (λ hs. hs.inst)
    len ← gets (λ hs. hs.inst_len)
    let illegal = raise illinst (sext 32 inst)
    flow ←
        (if len == 32
          then execute P (decode_32 inst)
          else if len == 16
          then elim (decode_16 inst) [ none ↦ illegal | some d ↦ execute P d ]
          else (do modify (λ hs. record hs { inst_len = 0 }); illegal))
    finish flow
