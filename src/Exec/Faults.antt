-- ===== src/Exec/Faults.antt =====
-- cpu.cpp: the loads and stores of `decode_exc` that memory protection refuses.
use rv_emu.Base.{
  ℕ, ◌+◌, ◌^◌, ◌<◌, ◌≡◌, refl, true, false, not, ◌&&◌, ◌||◌, Option, some, field, u64, ltb, ◌==◌,
  if◌then◌else◌, arith, subst, sym, ap, ◌∙◌,
}
use rv_emu.Hart.{HartState, HartException, code, lafault, safault}
use rv_emu.Trap.{create_exception}
use rv_emu.Trap.Rule.{Entered}
use rv_emu.Trap.Entry.{create_exception-machine}
use rv_emu.Decode.{Decoded}
use rv_emu.Memory.{Board, Run, M, pure, gets, modify, ◌>>=◌}
use rv_emu.Memory.Access.{fetch_faults, store_faults, outside, mem_fetch, mem_store}
use rv_emu.Memory.Walk.{
  mprv, virt_mem_fetch, virt_mem_store, fetch_translated, store_translated, in_mpp,
}
use rv_emu.Exec.{exec_load, exec_store}
use rv_emu.Exec.Control.{
  Flow, stop, raise, clear_status, handle_mem_error, reg, set_load, truncated,
}
use rv_emu.Memory.Guarded.{denied}
use rv_emu.Memory.Keeps.{run_bind}

-- What the code leaves after an access fault at `addr`.
abbrev faulted : {D : Type 0} → Run D → HartException → ℕ → Option (Flow × Run D)
faulted r he addr =
    let hs = record r.hs { mem_status = false } in
    some (stop (create_exception hs he addr).1, record r { hs = (create_exception hs he addr).0 })

-- An access fault with the number `cause` for an access at `addr` was taken in M-mode: the rest of the
-- machine is as it was, and the hart but for the trap and for `mem_status`.
abbrev pub Faulted : {D : Type 0} → Run D → HartException → ℕ → ℕ → Option (Flow × Run D) → Type 0
Faulted r he cause addr result =
    (new : HartState) × (result ≡ some (stop he, record r { hs = new }))
    × Entered false (record r.hs { mem_status = false }) cause cause addr new

faulted-Faulted :
    {D : Type 0} (r : Run D) (he : HartException) (cause addr : ℕ)
    → r.hs.privmode ≡ 3
    → cause < 2 ^ 63
    → code he ≡ cause
    → Faulted r he cause addr (faulted r he addr)
faulted-Faulted r he cause addr machine small coded =
    let hs = record r.hs { mem_status = false } in
    let q = create_exception-machine hs he addr cause machine small coded in
    (
      (create_exception hs he addr).0,
      ap (λ e. some (stop e, record r { hs = (create_exception hs he addr).0 })) (q.0),
      q.1,
    )

fault_raises :
    {D : Type 0} (r : Run D) (afault pfault : HartException) (tval : ℕ) (rest : M D Flow)
    → handle_mem_error afault pfault tval rest (record r { hs = record r.hs { mem_status = true } })
      ≡ faulted r afault tval
unfolding handle_mem_error clear_status raise gets modify pure ◌>>=◌
fault_raises r afault pfault tval rest = refl

-- In M-mode without MPRV an address is a physical one.
virt_mem_fetch-machine :
    {D : Type 0} (B : Board D) (len addr : ℕ) (r : Run D)
    → r.hs.privmode ≡ 3
    → mprv r.hs ≡ false
    → virt_mem_fetch B len addr r ≡ mem_fetch B len addr r
unfolding virt_mem_fetch gets ◌>>=◌
virt_mem_fetch-machine B len addr r machine off =
    let on : (r.hs.privmode == 3) ≡ true = ground (arith, machine) in
    let direct : (r.hs.mem_status && mprv r.hs) ≡ false = ground (arith, off) in
    ap
      (λ b.
        (if b
            then fetch_translated B len addr
            else if r.hs.mem_status && mprv r.hs
            then in_mpp B (fetch_translated B len addr)
            else mem_fetch B len addr)
          r)
      (ap not on)
    ∙ ap (λ b. (if b then in_mpp B (fetch_translated B len addr) else mem_fetch B len addr) r)
        direct

virt_mem_store-machine :
    {D : Type 0} (B : Board D) (len addr v : ℕ) (r : Run D)
    → r.hs.privmode ≡ 3
    → mprv r.hs ≡ false
    → virt_mem_store B len addr v r ≡ mem_store B len addr v r
unfolding virt_mem_store gets ◌>>=◌
virt_mem_store-machine B len addr v r machine off =
    let on : (r.hs.privmode == 3) ≡ true = ground (arith, machine) in
    ap
      (λ b.
        (if b
            then store_translated B len addr v
            else if mprv r.hs
            then in_mpp B (store_translated B len addr v)
            else mem_store B len addr v)
          r)
      (ap not on)
    ∙ ap (λ b. (if b then in_mpp B (store_translated B len addr v) else mem_store B len addr v) r)
        off

module _ {D : Type 0} (B : Board D) (d : Decoded) (r : Run D) (machine : r.hs.privmode ≡ 3)
    (off : mprv r.hs ≡ false) where
  abbrev pub address : ℕ
  address = u64 (reg r.hs d.rs1 + d.imm)

  exec_load-faulted :
      (outside B address
          || fetch_faults (record r.hs { mem_status = true }) (2 ^ field d.funct3 0 2) address)
        ≡ true
      → exec_load B d r ≡ faulted r lafault address
  unfolding exec_load set_load gets modify
  exec_load-faulted e =
      let start = record r { hs = record r.hs { mem_status = true } } in
      let len = 2 ^ field d.funct3 0 2 in
      let k =
        virt_mem_fetch-machine B len address start machine off
        ∙ (denied B len address 0 start).1 e in
      run_bind _ _ {r' = r} refl
        (run_bind _ _ {r' = start} refl (run_bind _ _ k (fault_raises r lafault _ address _)))

  exec_store-faulted :
      ltb d.funct3 4 ≡ true
      → (outside B address
          || store_faults (record r.hs { mem_status = false }) (2 ^ d.funct3) address)
        ≡ true
      → exec_store B d r ≡ faulted r safault address
  unfolding exec_store set_load gets modify
  exec_store-faulted small e =
      let start = record r { hs = record r.hs { mem_status = false } } in
      let len = 2 ^ d.funct3 in
      let v = truncated len (reg r.hs d.rs2) in
      let k =
        virt_mem_store-machine B len address v start machine off
        ∙ (denied B len address v start).0 e in
      run_bind _ _ {r' = r} refl (
        run_bind _ _ {r' = r} refl (
          run_bind _ _ {r' = start} refl (
            run_bind _ _
              (ap (λ b. (if b then virt_mem_store B len address v else pure tt) start) small ∙ k)
              (fault_raises r safault _ address _))))

  -- In M-mode without MPRV, a load from an address outside of memory or that the checks refuse is
  -- defined and takes a load access fault, cause 5, in M-mode with the address as its value: the mode
  -- and the interrupt enable are stacked in mstatus, the program counter goes to mepc and the vector,
  -- the instruction buffer is emptied and mem_status is cleared; no register, no other part of the
  -- hart, no memory and no device changes.
  pub exec_load-refused :
      (outside B address
          || fetch_faults (record r.hs { mem_status = true }) (2 ^ field d.funct3 0 2) address)
        ≡ true
      → Faulted r lafault 5 address (exec_load B d r)
  unfolding code
  exec_load-refused e =
      subst (Faulted r lafault 5 address) (sym (exec_load-faulted e))
        (faulted-Faulted r lafault 5 address machine (omega arith) refl)

  -- In M-mode without MPRV, a store of 1, 2, 4 or 8 bytes to an address outside of memory or that
  -- the checks refuse is defined and takes a store access fault, cause 7, in M-mode with the address
  -- as its value: the mode and the interrupt enable are stacked in mstatus, the program counter goes
  -- to mepc and the vector, the instruction buffer is emptied and mem_status is cleared; no register,
  -- no other part of the hart, no memory and no device changes.
  pub exec_store-refused :
      ltb d.funct3 4 ≡ true
      → (outside B address
          || store_faults (record r.hs { mem_status = false }) (2 ^ d.funct3) address)
        ≡ true
      → Faulted r safault 7 address (exec_store B d r)
  unfolding code
  exec_store-refused small e =
      subst (Faulted r safault 7 address) (sym (exec_store-faulted small e))
        (faulted-Faulted r safault 7 address machine (omega arith) refl)
