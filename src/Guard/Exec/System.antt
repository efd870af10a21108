-- ===== src/Guard/Exec/System.antt =====
-- What SYSTEM and the whole of `decode_exc` of cpu.cpp keep of a hart.
use rv_emu.Base.{
  ◌||◌, sext, ℕ, refl, Bool, true, false, Option, none, some, Option-cases, inl, inr, field, bit,
  ◌==◌,
}
use rv_emu.Hart.{HartState, illinst, bpoint}
use rv_emu.Platform.{Platform}
use rv_emu.Tlb.{tlb_clear}
use rv_emu.Tlb.Count.{tlb_clear-IsCounted}
use rv_emu.Csr.{csr_op}
use rv_emu.Csr.Safety.{csr_op-Guarded}
use rv_emu.Decode.{Decoded, InstOp32}
use rv_emu.Decode.Compressed.{decode_16}
use rv_emu.Memory.{Board, Run, M, pure, gets, modify, get_world, set_world, ◌>>=◌, ◌>>◌}
use rv_emu.Memory.Keeps.{Holds, Keeps, Keeps-pure, Keeps-gets, Keeps-if, Keeps-bind, keeps_rules}
use rv_emu.Memory.Frame.{IsBoard}
use rv_emu.Exec.{ecall_of, exec_csr, exec_system, dispatch, finish, execute, decode_exc}
use rv_emu.Exec.Control.{Flow, stop, go, raise}
use rv_emu.Guard.{same-KeepsLocked, same-Guarded}
use rv_emu.Guard.Traps.{mret-Guarded, sret-Guarded}
use rv_emu.Guard.Exec.{
  Guarded-IsSafe, Safe, raise-Safe, modify-Safe, set_reg-Safe, write_back-Safe, exec_jal-Safe,
  exec_jalr-Safe, exec_branch-Safe, exec_load-Safe, exec_store-Safe, exec_amo-Safe, flush-Safe,
}

module _ {D : Type 0} (B : Board D) (board : IsBoard B) (h0 : HartState) where
  exec_csr-Safe : (P : Platform) (d : Decoded) → Keeps (Safe B board h0) (exec_csr B P d)
  unfolding exec_csr get_world gets modify pure rv_emu.Memory.undefined ◌>>=◌
  exec_csr-Safe P d = record {
    at = λ r s.
        let done = csr_op P r.hs (B.mtime r.world.devices) (field d.imm 0 12) d.rd d.rs1 d.funct3 in
        let g =
          csr_op-Guarded P r.hs (B.mtime r.world.devices) (field d.imm 0 12) d.rd d.rs1 d.funct3
            s.hart.has_config in
        elim (Option-cases done) [
          | inl e ↦ rw (e, Holds) tt
          | inr ((hs, exc), e) ↦ rw (e, Holds) (Guarded-IsSafe h0 r.hs hs (rw e at g) s)
        ];
  }

  exec_system-Safe : (P : Platform) (d : Decoded) → Keeps (Safe B board h0) (exec_system B P d)
  unfolding exec_system
  exec_system-Safe P d =
      let sfence : Keeps (Safe B board h0)
          (modify (λ (hs : HartState). record hs { tlb = tlb_clear; instbuf = 0 })) =
        modify-Safe B board h0 _ (λ hs. record {
          same_hartid = refl;
          keeps_locked = same-KeepsLocked hs.pmp hs.pmp refl;
          keeps_config = λ c. c;
          keeps_tlb = λ _. tlb_clear-IsCounted;
          same_length = refl;
          keeps_mode = λ m. m;
        }) in
      let wait : Keeps (Safe B board h0)
          (modify (λ (hs : HartState). record hs { chk_int = true })) =
        modify-Safe B board h0 _ (λ hs. same-Guarded hs _ refl refl refl refl (λ m. m)) in
      let illegal = raise-Safe B board h0 illinst (sext 32 d.inst) in
      let done = λ (b : Bool). Keeps-pure {P = (Safe B board h0)} (go b) in
      Keeps-bind (gets _) _ (Keeps-gets _) (λ status. Keeps-bind (gets _) _ (Keeps-gets _) (λ mode.
        Keeps-bind (gets _) _ (Keeps-gets _) (λ pc.
          Keeps-if (d.inst == 0x73) _ _ (λ _. raise-Safe B board h0 (ecall_of mode) pc)
            (λ _.
              Keeps-if (d.inst == 0x10_0073 || d.cebreak) _ _ (λ _. raise-Safe B board h0 bpoint pc)
                (λ _.
                  Keeps-if (d.inst == 0x3020_0073) _ _
                    (λ _.
                      Keeps-bind _ _ (modify-Safe B board h0 _ mret-Guarded) (λ _. Keeps-pure _))
                    (λ _.
                      Keeps-if (d.inst == 0x1020_0073) _ _
                        (λ _.
                          Keeps-if (bit status 22) _ _ (λ _. illegal)
                            (λ _.
                              Keeps-bind _ _ (modify-Safe B board h0 _ sret-Guarded)
                                (λ _. Keeps-pure _)))
                        (λ _.
                          Keeps-if (d.inst == 0x1050_0073) _ _
                            (λ _.
                              Keeps-if (bit status 21) _ _ (λ _. illegal)
                                (λ _. Keeps-bind _ _ wait (λ _. Keeps-pure _)))
                            (λ _.
                              Keeps-if (field d.inst 25 7 == 0b0001001) _ _
                                (λ _.
                                  Keeps-if (bit status 20) _ _ (λ _. illegal)
                                    (λ _. Keeps-bind _ _ sfence (λ _. Keeps-pure _)))
                                (λ _. exec_csr-Safe P d)))))))))

  dispatch-Safe :
      (P : Platform) (f : InstOp32) (d : Decoded) → Keeps (Safe B board h0) (dispatch B P f d)
  unfolding dispatch
  dispatch-Safe P InstOp32.op_imm d = search (keeps_rules, write_back-Safe B board h0)
  dispatch-Safe P InstOp32.op_imm_32 d = search (keeps_rules, write_back-Safe B board h0)
  dispatch-Safe P InstOp32.lui d = search (keeps_rules, set_reg-Safe B board h0)
  dispatch-Safe P InstOp32.auipc d = search (keeps_rules, set_reg-Safe B board h0)
  dispatch-Safe P InstOp32.op d = search (keeps_rules, write_back-Safe B board h0)
  dispatch-Safe P InstOp32.op_32 d = search (keeps_rules, write_back-Safe B board h0)
  dispatch-Safe P InstOp32.jal d = exec_jal-Safe B board h0 d
  dispatch-Safe P InstOp32.jalr d = exec_jalr-Safe B board h0 d
  dispatch-Safe P InstOp32.branch d = exec_branch-Safe B board h0 d
  dispatch-Safe P InstOp32.load d = exec_load-Safe B board h0 d
  dispatch-Safe P InstOp32.store d = exec_store-Safe B board h0 d
  dispatch-Safe P InstOp32.misc_mem d =
      Keeps-bind _ _
        (Keeps-if (d.funct3 == 1) _ _ (λ _. flush-Safe B board h0) (λ _. Keeps-pure tt))
        (λ _. Keeps-pure (go false))
  dispatch-Safe P InstOp32.system d = exec_system-Safe P d
  dispatch-Safe P InstOp32.amo d = exec_amo-Safe B board h0 d
  dispatch-Safe P _ d = Keeps-pure (go false)

  finish-Safe : (flow : Flow) → Keeps (Safe B board h0) (finish B flow)
  unfolding finish
  finish-Safe (stop exc) = Keeps-pure exc
  finish-Safe (go true) = Keeps-bind _ _ (flush-Safe B board h0) (λ _.
      Keeps-bind _ _
        (modify-Safe B board h0 _ (λ hs. same-Guarded hs _ refl refl refl refl (λ m. m)))
        (λ _. Keeps-pure _))
  finish-Safe (go false) =
      Keeps-bind _ _
        (modify-Safe B board h0 _ (λ hs. same-Guarded hs _ refl refl refl refl (λ m. m)))
        (λ _. Keeps-pure _)

  execute-Safe : (P : Platform) (d : Decoded) → Keeps (Safe B board h0) (execute B P d)
  unfolding execute
  execute-Safe P d =
      Keeps-bind _ _
        (modify-Safe B board h0 _ (λ hs. same-Guarded hs _ refl refl refl refl (λ m. m)))
        (λ _. dispatch-Safe P d.op_fun d)

  compressed-Safe :
      (P : Platform) (inst : ℕ) (o : Option Decoded)
      → Keeps (Safe B board h0) (elim o [ none ↦ raise illinst inst | some d ↦ execute B P d ])
  compressed-Safe P inst none = raise-Safe B board h0 illinst inst
  compressed-Safe P inst (some d) = execute-Safe P d

  pub decode_exc-Safe : (P : Platform) → Keeps (Safe B board h0) (decode_exc B P)
  unfolding decode_exc
  decode_exc-Safe P = Keeps-bind (gets _) _ (Keeps-gets _) (λ inst.
      Keeps-bind (gets _) _ (Keeps-gets _) (λ len.
        Keeps-bind _ _
          (Keeps-if (len == 32) _ _ (λ _. execute-Safe P _)
            (λ _.
              Keeps-if (len == 16) _ _ (λ _. compressed-Safe P _ (decode_16 inst))
                (λ _.
                  Keeps-bind _ _
                    (modify-Safe B board h0 _
                      (λ hs. same-Guarded hs _ refl refl refl refl (λ m. m)))
                    (λ _. raise-Safe B board h0 illinst _))))
          finish-Safe))
