-- ===== src/Cycle/Reservations.antt =====
-- cpu.cpp: a cycle of a hart leaves at most one hart with a reservation on an address.
use rv_emu.Base.{
  ◌||◌, ◌&&◌, sext, ℕ, Bool, true, false, Option, none, some, Option-cases, inl, inr, field, bit,
  ◌==◌,
}
use rv_emu.Hart.{HartState, is_noexc, illinst, bpoint}
use rv_emu.Platform.{Platform}
use rv_emu.Alu.{Outcome, keep, value}
use rv_emu.Decode.{Decoded, InstOp32}
use rv_emu.Decode.Compressed.{decode_16}
use rv_emu.Memory.{Board, Run, M, pure, gets, modify, get_world, ◌>>=◌, ◌>>◌}
use rv_emu.Memory.Keeps.{
  Holds, Keeps, Keeps-pure, Keeps-undefined, Keeps-gets, Keeps-if, Keeps-bind, keeps_rules,
}
use rv_emu.Memory.Reservations.{modify-Reserves, virt_mem_fetch-Reserves, virt_mem_store-Reserves}
use rv_emu.Csr.{csr_op}
use rv_emu.Exec.{
  write_back, jumped, exec_jal, exec_jalr, exec_branch, ecall_of, exec_load, exec_store, exec_csr,
  exec_system, dispatch, finish, execute, decode_exc,
}
use rv_emu.Exec.Control.{Flow, stop, go, raise, set_pc, flush}
use rv_emu.Exec.Reservations.{IsExclusive}
use rv_emu.Exec.Reservations.Instructions.{
  Exclusive, set_load-Exclusive, set_reg-Exclusive, raise-Exclusive, handle_mem_error-Exclusive,
  exec_amo-Exclusive,
}
use rv_emu.Cycle.{no_length, set_inst, take_buffer, check_inst, end_cycle, load_inst, fetch, cycle}

module _ {D : Type 0} (B : Board D) where
  -- What reaches the hart only.
  on_hart : (f : HartState → HartState) → Keeps (Exclusive B) (modify f)
  on_hart f = modify-Reserves B IsExclusive f

  write_back-Exclusive : (rd : ℕ) (v : Outcome) → Keeps (Exclusive B) (write_back rd v)
  unfolding write_back
  write_back-Exclusive rd keep = Keeps-pure (go false)
  write_back-Exclusive rd (value v) = search (keeps_rules, set_reg-Exclusive B)
  write_back-Exclusive rd Outcome.undefined = Keeps-undefined

  set_pc-Exclusive : (pc : ℕ) → Keeps (Exclusive B) (set_pc pc)
  unfolding set_pc
  set_pc-Exclusive pc = on_hart _

  flush-Exclusive : Keeps (Exclusive B) flush
  unfolding flush
  flush-Exclusive = on_hart _

  jumped-Exclusive : Keeps (Exclusive B) jumped
  unfolding jumped
  jumped-Exclusive = search (keeps_rules, raise-Exclusive B)

  exec_jal-Exclusive : (d : Decoded) → Keeps (Exclusive B) (exec_jal d)
  unfolding exec_jal
  exec_jal-Exclusive d =
      search (keeps_rules, set_reg-Exclusive B, set_pc-Exclusive, jumped-Exclusive) depth 12

  exec_jalr-Exclusive : (d : Decoded) → Keeps (Exclusive B) (exec_jalr d)
  unfolding exec_jalr
  exec_jalr-Exclusive d =
      search (keeps_rules, set_reg-Exclusive B, set_pc-Exclusive, jumped-Exclusive) depth 12

  exec_branch-Exclusive : (d : Decoded) → Keeps (Exclusive B) (exec_branch d)
  unfolding exec_branch
  exec_branch-Exclusive d = search (keeps_rules, set_pc-Exclusive, jumped-Exclusive) depth 12

  exec_load-Exclusive : (d : Decoded) → Keeps (Exclusive B) (exec_load B d)
  unfolding exec_load
  exec_load-Exclusive d =
      search
        (
          keeps_rules,
          set_load-Exclusive B,
          virt_mem_fetch-Reserves B IsExclusive,
          handle_mem_error-Exclusive B,
          set_reg-Exclusive B,
        )
        depth 14

  exec_store-Exclusive : (d : Decoded) → Keeps (Exclusive B) (exec_store B d)
  unfolding exec_store
  exec_store-Exclusive d =
      search
        (
          keeps_rules,
          set_load-Exclusive B,
          virt_mem_store-Reserves B IsExclusive,
          handle_mem_error-Exclusive B,
        )
        depth 14

  exec_csr-Exclusive : (P : Platform) (d : Decoded) → Keeps (Exclusive B) (exec_csr B P d)
  unfolding exec_csr get_world gets modify pure rv_emu.Memory.undefined ◌>>=◌
  exec_csr-Exclusive P d = record {
    at = λ r ex.
        elim (Option-cases
          (csr_op P r.hs (B.mtime r.world.devices) (field d.imm 0 12) d.rd d.rs1 d.funct3)) [
            | inl e ↦ rw (e, Holds) tt
            | inr ((hs, exc), e) ↦ rw (e, Holds) ex
          ];
  }

  exec_system-Exclusive : (P : Platform) (d : Decoded) → Keeps (Exclusive B) (exec_system B P d)
  unfolding exec_system
  exec_system-Exclusive P d =
      let changed = λ (f : HartState → HartState) (x : Flow).
        Keeps-bind {P = Exclusive B} (modify f) (λ _. pure x) (on_hart f) (λ _. Keeps-pure x) in
      let illegal = raise-Exclusive B illinst (sext 32 d.inst) in
      Keeps-bind (gets _) _ (Keeps-gets _) (λ status. Keeps-bind (gets _) _ (Keeps-gets _) (λ mode.
        Keeps-bind (gets _) _ (Keeps-gets _) (λ pc.
          Keeps-if (d.inst == 0x73) _ _ (λ _. raise-Exclusive B (ecall_of mode) pc)
            (λ _.
              Keeps-if (d.inst == 0x10_0073 || d.cebreak) _ _ (λ _. raise-Exclusive B bpoint pc)
                (λ _.
                  Keeps-if (d.inst == 0x3020_0073) _ _ (λ _. changed _ _)
                    (λ _.
                      Keeps-if (d.inst == 0x1020_0073) _ _
                        (λ _. Keeps-if (bit status 22) _ _ (λ _. illegal) (λ _. changed _ _))
                        (λ _.
                          Keeps-if (d.inst == 0x1050_0073) _ _
                            (λ _. Keeps-if (bit status 21) _ _ (λ _. illegal) (λ _. changed _ _))
                            (λ _.
                              Keeps-if (field d.inst 25 7 == 0b0001001) _ _
                                (λ _.
                                  Keeps-if (bit status 20) _ _ (λ _. illegal) (λ _. changed _ _))
                                (λ _. exec_csr-Exclusive P d)))))))))

  dispatch-Exclusive :
      (P : Platform) (f : InstOp32) (d : Decoded) → Keeps (Exclusive B) (dispatch B P f d)
  unfolding dispatch
  dispatch-Exclusive P InstOp32.op_imm d = search (keeps_rules, write_back-Exclusive)
  dispatch-Exclusive P InstOp32.op_imm_32 d = search (keeps_rules, write_back-Exclusive)
  dispatch-Exclusive P InstOp32.lui d = search (keeps_rules, set_reg-Exclusive B)
  dispatch-Exclusive P InstOp32.auipc d = search (keeps_rules, set_reg-Exclusive B)
  dispatch-Exclusive P InstOp32.op d = search (keeps_rules, write_back-Exclusive)
  dispatch-Exclusive P InstOp32.op_32 d = search (keeps_rules, write_back-Exclusive)
  dispatch-Exclusive P InstOp32.jal d = exec_jal-Exclusive d
  dispatch-Exclusive P InstOp32.jalr d = exec_jalr-Exclusive d
  dispatch-Exclusive P InstOp32.branch d = exec_branch-Exclusive d
  dispatch-Exclusive P InstOp32.load d = exec_load-Exclusive d
  dispatch-Exclusive P InstOp32.store d = exec_store-Exclusive d
  dispatch-Exclusive P InstOp32.misc_mem d =
      Keeps-bind _ _ (Keeps-if (d.funct3 == 1) _ _ (λ _. flush-Exclusive) (λ _. Keeps-pure tt))
        (λ _. Keeps-pure (go false))
  dispatch-Exclusive P InstOp32.system d = exec_system-Exclusive P d
  dispatch-Exclusive P InstOp32.amo d = exec_amo-Exclusive B d
  dispatch-Exclusive P _ d = Keeps-pure (go false)

  finish-Exclusive : (flow : Flow) → Keeps (Exclusive B) (finish B flow)
  unfolding finish
  finish-Exclusive (stop exc) = Keeps-pure exc
  finish-Exclusive (go true) =
      Keeps-bind _ _ flush-Exclusive (λ _. Keeps-bind _ _ (on_hart _) (λ _. Keeps-pure _))
  finish-Exclusive (go false) = Keeps-bind _ _ (on_hart _) (λ _. Keeps-pure _)

  execute-Exclusive : (P : Platform) (d : Decoded) → Keeps (Exclusive B) (execute B P d)
  unfolding execute
  execute-Exclusive P d = Keeps-bind _ _ (on_hart _) (λ _. dispatch-Exclusive P d.op_fun d)

  compressed-Exclusive :
      (P : Platform) (inst : ℕ) (o : Option Decoded)
      → Keeps (Exclusive B) (elim o [ none ↦ raise illinst inst | some d ↦ execute B P d ])
  compressed-Exclusive P inst none = raise-Exclusive B illinst inst
  compressed-Exclusive P inst (some d) = execute-Exclusive P d

  decode_exc-Exclusive : (P : Platform) → Keeps (Exclusive B) (decode_exc B P)
  unfolding decode_exc
  decode_exc-Exclusive P = Keeps-bind (gets _) _ (Keeps-gets _) (λ inst.
      Keeps-bind (gets _) _ (Keeps-gets _) (λ len.
        Keeps-bind _ _
          (Keeps-if (len == 32) _ _ (λ _. execute-Exclusive P _)
            (λ _.
              Keeps-if (len == 16) _ _ (λ _. compressed-Exclusive P _ (decode_16 inst))
                (λ _. Keeps-bind _ _ (on_hart _) (λ _. raise-Exclusive B illinst _))))
          finish-Exclusive))

  check_inst-Exclusive : Keeps (Exclusive B) check_inst
  unfolding check_inst no_length
  check_inst-Exclusive =
      search (keeps_rules, on_hart, raise-Exclusive B, handle_mem_error-Exclusive B) depth 16

  load_inst-Exclusive : Keeps (Exclusive B) (load_inst B)
  unfolding load_inst set_inst
  load_inst-Exclusive = search (keeps_rules, virt_mem_fetch-Reserves B IsExclusive, on_hart)

  take_buffer-Exclusive : Keeps (Exclusive B) take_buffer
  unfolding take_buffer
  take_buffer-Exclusive = on_hart _

  fetch-Exclusive : Keeps (Exclusive B) (fetch B)
  unfolding fetch
  fetch-Exclusive =
      search
        (
          keeps_rules,
          set_load-Exclusive B,
          load_inst-Exclusive,
          take_buffer-Exclusive,
          handle_mem_error-Exclusive B,
          check_inst-Exclusive,
        )
        depth 16

  end_cycle-Exclusive : Keeps (Exclusive B) end_cycle
  unfolding end_cycle
  end_cycle-Exclusive =
      Keeps-bind _ _ (on_hart _) (λ _. Keeps-bind _ _ (on_hart _) (λ _. Keeps-pure true))

  pub cycle-Exclusive : (P : Platform) (sig_mode : Bool) → Keeps (Exclusive B) (cycle B P sig_mode)
  unfolding cycle
  cycle-Exclusive P sig_mode = Keeps-bind _ _ (on_hart _) (λ _.
      Keeps-bind _ _ fetch-Exclusive (λ exc. Keeps-bind (gets _) _ (Keeps-gets _) (λ inst.
        Keeps-if (sig_mode && inst == 0xBAD3_3013) _ _ (λ _. Keeps-pure false)
          (λ _.
            Keeps-if (is_noexc exc) _ _
              (λ _. Keeps-bind _ _ (decode_exc-Exclusive P) (λ _. end_cycle-Exclusive))
              (λ _. end_cycle-Exclusive)))))
