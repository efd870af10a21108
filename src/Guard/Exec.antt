-- ===== src/Guard/Exec.antt =====
-- What accesses, traps and the instructions of cpu.cpp but SYSTEM keep of a hart.
pub mod System
use rv_emu.Base.{
  ◌∙◌, ◌||◌, sext, ℕ, ◌≡◌, refl, Bool, true, false, Option, none, some, length-set, Option-cases,
  inl, inr, field, bit, ◌==◌,
}
use rv_emu.Hart.{HartState, HartException, illinst, bpoint}
use rv_emu.Platform.{Platform}
use rv_emu.Tlb.{tlb_clear}
use rv_emu.Tlb.Count.{tlb_clear-IsCounted}
use rv_emu.Csr.{csr_op}
use rv_emu.Csr.Safety.{csr_op-Guarded}
use rv_emu.Alu.{Outcome, keep, value}
use rv_emu.Decode.{Decoded, InstOp32}
use rv_emu.Decode.Compressed.{decode_16}
use rv_emu.Memory.{Board, Run, M, pure, gets, modify, get_world, set_world, ◌>>=◌, ◌>>◌}
use rv_emu.Memory.Walk.{virt_mem_fetch, virt_mem_store, page_table_walk}
use rv_emu.Memory.Keeps.{
  Holds, Keeps, Keeps-pure, Keeps-undefined, Keeps-gets, Keeps-modify, Keeps-set_world, Keeps-if,
  Keeps-bind, keeps_rules,
}
use rv_emu.Memory.Frame.{Frame-refl, IsBoard, Framed}
use rv_emu.Memory.Frame.Walks.{virt_mem_fetch-Framed, virt_mem_store-Framed, page_table_walk-Framed}
use rv_emu.Exec.{
  write_back, jumped, exec_jal, exec_jalr, exec_branch, ecall_of, exec_load, exec_store, exec_csr,
  exec_system, dispatch, finish, execute, decode_exc,
}
use rv_emu.Exec.Control.{
  Flow, stop, go, raise, clear_status, clear_fault, handle_mem_error, set_reg, set_pc, set_load,
  flush,
}
use rv_emu.Exec.Atomic.{
  in_reservations, set_reservation, store_conditional, load_reserved, modify_store, exec_amo,
}
use rv_emu.Guard.{
  KeepsLocked, same-KeepsLocked, KeepsLocked-trans, IsHart, Guarded, Guarded-IsHart, same-Guarded,
  Frame-Guarded,
}
use rv_emu.Guard.Traps.{create_exception-Guarded, mret-Guarded, sret-Guarded}

-- The hart is well formed, and what was locked in the state `h0` is as it was.
pub record IsSafe (h0 hs : HartState) : Type 0 where
  pub hart : IsHart hs
  pub locks : KeepsLocked h0.pmp hs.pmp
  pub same_hartid : hs.hartid ≡ h0.hartid

pub Guarded-IsSafe : (h0 old new : HartState) → Guarded old new → IsSafe h0 old → IsSafe h0 new
Guarded-IsSafe h0 old new g s = record {
  hart = Guarded-IsHart old new g s.hart;
  locks = KeepsLocked-trans h0.pmp old.pmp new.pmp s.locks g.keeps_locked;
  same_hartid = g.same_hartid ∙ s.same_hartid;
}

pub Holds-map :
    {D A : Type 0} (P Q : Run D → Type 0) (o : Option (A × Run D))
    → ((r : Run D) → P r → Q r)
    → Holds P o
    → Holds Q o
Holds-map P Q none f h = tt
Holds-map P Q (some (a, r)) f h = f r h

module _ {D : Type 0} (B : Board D) (board : IsBoard B) (h0 : HartState) where
  abbrev pub Safe : Run D → Type 0
  Safe r = IsSafe h0 r.hs

  pub modify-Safe :
      (f : HartState → HartState) → ((hs : HartState) → Guarded hs (f hs)) → Keeps Safe (modify f)
  modify-Safe f g = Keeps-modify f (λ r s. Guarded-IsSafe h0 r.hs (f r.hs) (g r.hs) s)

  -- An access that keeps the frame of every hart is safe.
  access-Safe :
      {A : Type 0} (m : M D A) → ((h : HartState) → Keeps (Framed B board h) m) → Keeps Safe m
  access-Safe m k = record {
    at = λ r s.
        Holds-map (Framed B board r.hs) Safe (m r)
          (λ r' f. Guarded-IsSafe h0 r.hs r'.hs (Frame-Guarded r.hs r'.hs f) s)
          ((k r.hs).at r (Frame-refl r.hs));
  }

  pub virt_mem_fetch-Safe : (len addr : ℕ) → Keeps Safe (virt_mem_fetch B len addr)
  virt_mem_fetch-Safe len addr = access-Safe _ (λ h. virt_mem_fetch-Framed B board h len addr)

  virt_mem_store-Safe : (len addr v : ℕ) → Keeps Safe (virt_mem_store B len addr v)
  virt_mem_store-Safe len addr v = access-Safe _ (λ h. virt_mem_store-Framed B board h len addr v)

  page_table_walk-Safe : (addr : ℕ) (iswrite : Bool) → Keeps Safe (page_table_walk B addr iswrite)
  page_table_walk-Safe addr iswrite =
      access-Safe _ (λ h. page_table_walk-Framed B board h addr iswrite)

  clear_status-Safe : Keeps Safe clear_status
  unfolding clear_status
  clear_status-Safe = modify-Safe _ (λ hs. same-Guarded hs _ refl refl refl refl (λ m. m))

  clear_fault-Safe : Keeps Safe clear_fault
  unfolding clear_fault
  clear_fault-Safe = modify-Safe _ (λ hs. same-Guarded hs _ refl refl refl refl (λ m. m))

  pub set_load-Safe : (b : Bool) → Keeps Safe (set_load b)
  unfolding set_load
  set_load-Safe b = modify-Safe _ (λ hs. same-Guarded hs _ refl refl refl refl (λ m. m))

  pub set_reg-Safe : (rd v : ℕ) → Keeps Safe (set_reg rd v)
  unfolding set_reg
  set_reg-Safe rd v =
      modify-Safe _ (λ hs. same-Guarded hs _ refl refl refl (length-set hs.regs rd v) (λ m. m))

  set_pc-Safe : (pc : ℕ) → Keeps Safe (set_pc pc)
  unfolding set_pc
  set_pc-Safe pc = modify-Safe _ (λ hs. same-Guarded hs _ refl refl refl refl (λ m. m))

  pub flush-Safe : Keeps Safe flush
  unfolding flush
  flush-Safe = modify-Safe _ (λ hs. same-Guarded hs _ refl refl refl refl (λ m. m))

  pub raise-Safe : (he : HartException) (tval : ℕ) → Keeps Safe (raise he tval)
  unfolding raise
  raise-Safe he tval = Keeps-bind (gets _) _ (Keeps-gets _) (λ taken.
      Keeps-bind _ _ (modify-Safe _ (λ hs. create_exception-Guarded hs he tval))
        (λ _. Keeps-pure (stop taken)))

  pub handle_mem_error-Safe :
      (afault pfault : HartException) (tval : ℕ) (rest : M D Flow)
      → Keeps Safe rest
      → Keeps Safe (handle_mem_error afault pfault tval rest)
  unfolding handle_mem_error
  handle_mem_error-Safe afault pfault tval rest k = Keeps-bind (gets _) _ (Keeps-gets _) (λ access.
      Keeps-bind (gets _) _ (Keeps-gets _) (λ page.
        Keeps-if access _ _ (λ _. search (keeps_rules, clear_status-Safe, raise-Safe))
          (λ _.
            Keeps-if page _ _ (λ _. search (keeps_rules, clear_fault-Safe, raise-Safe)) (λ _. k))))

  ruleset safe_rules = (
    keeps_rules, virt_mem_fetch-Safe, virt_mem_store-Safe, page_table_walk-Safe, set_load-Safe,
    set_reg-Safe, set_pc-Safe, flush-Safe, raise-Safe, handle_mem_error-Safe,
  )

  pub write_back-Safe : (rd : ℕ) (v : Outcome) → Keeps Safe (write_back rd v)
  unfolding write_back
  write_back-Safe rd keep = Keeps-pure (go false)
  write_back-Safe rd (value v) = search (keeps_rules, set_reg-Safe)
  write_back-Safe rd Outcome.undefined = Keeps-undefined

  jumped-Safe : Keeps Safe jumped
  unfolding jumped
  jumped-Safe = search (keeps_rules, raise-Safe)

  pub exec_jal-Safe : (d : Decoded) → Keeps Safe (exec_jal d)
  unfolding exec_jal
  exec_jal-Safe d = search (keeps_rules, set_reg-Safe, set_pc-Safe, jumped-Safe) depth 12

  pub exec_jalr-Safe : (d : Decoded) → Keeps Safe (exec_jalr d)
  unfolding exec_jalr
  exec_jalr-Safe d = search (keeps_rules, set_reg-Safe, set_pc-Safe, jumped-Safe) depth 12

  pub exec_branch-Safe : (d : Decoded) → Keeps Safe (exec_branch d)
  unfolding exec_branch
  exec_branch-Safe d = search (keeps_rules, set_pc-Safe, jumped-Safe) depth 12

  pub exec_load-Safe : (d : Decoded) → Keeps Safe (exec_load B d)
  unfolding exec_load
  exec_load-Safe d =
      search (keeps_rules, set_load-Safe, virt_mem_fetch-Safe, handle_mem_error-Safe, set_reg-Safe)
        depth 14

  pub exec_store-Safe : (d : Decoded) → Keeps Safe (exec_store B d)
  unfolding exec_store
  exec_store-Safe d =
      search (keeps_rules, set_load-Safe, virt_mem_store-Safe, handle_mem_error-Safe) depth 14

  in_reservations-Safe :
      {A : Type 0} (k : ℕ → M D A) → ((i : ℕ) → Keeps Safe (k i)) → Keeps Safe (in_reservations k)
  unfolding in_reservations
  in_reservations-Safe k kk = search (keeps_rules, kk)

  set_reservation-Safe : (addr : ℕ) → Keeps Safe (set_reservation addr)
  unfolding set_reservation
  set_reservation-Safe addr = in_reservations-Safe _ (λ i. Keeps-set_world _ (λ r s. s))

  store_conditional-Safe : (amo_w : Bool) (d : Decoded) → Keeps Safe (store_conditional B amo_w d)
  unfolding store_conditional
  store_conditional-Safe amo_w d =
      search (safe_rules, in_reservations-Safe, set_reservation-Safe) depth 16

  load_reserved-Safe : (d : Decoded) → Keeps Safe (load_reserved B d)
  unfolding load_reserved
  load_reserved-Safe d = search (safe_rules, set_reservation-Safe) depth 16

  modify_store-Safe :
      (amo_w : Bool) (funct5 op_addr operand : ℕ) (d : Decoded)
      → Keeps Safe (modify_store B amo_w funct5 op_addr operand d)
  unfolding modify_store
  modify_store-Safe amo_w funct5 op_addr operand d = search safe_rules depth 16

  pub exec_amo-Safe : (d : Decoded) → Keeps Safe (exec_amo B d)
  unfolding exec_amo
  exec_amo-Safe d =
      search (safe_rules, store_conditional-Safe, load_reserved-Safe, modify_store-Safe) depth 16
