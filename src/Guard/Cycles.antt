-- ===== src/Guard/Cycles.antt =====
-- The cycles of a hart: what `cycle` of cpu.cpp keeps, for any number of them.
use rv_emu.Base.{ℕ, ◌≡◌, refl, Bool, true, false, ◌&&◌, ◌==◌, length-set, if◌then◌else◌}
use rv_emu.Hart.{HartState, is_noexc}
use rv_emu.Platform.{Platform}
use rv_emu.Memory.{Board, Run, gets, modify}
use rv_emu.Memory.Keeps.{Holds, Keeps, Keeps-pure, Keeps-gets, Keeps-if, Keeps-bind, keeps_rules}
use rv_emu.Memory.Frame.{IsBoard}
use rv_emu.Cycle.{
  split, no_length, set_inst, take_buffer, check_inst, count_cycle, check_interrupts, end_cycle,
  load_inst, fetch, cycle,
}
use rv_emu.Guard.{
  KeepsLocked, Guarded, Guarded-refl, Guarded-trans, same-Guarded, same-KeepsLocked, IsHart,
}
use rv_emu.Guard.Traps.{setup_pending_int-Guarded}
use rv_emu.Guard.Exec.System.{decode_exc-Safe}
use rv_emu.Guard.Exec.{
  Holds-map, Safe, modify-Safe, set_load-Safe, raise-Safe, handle_mem_error-Safe,
  virt_mem_fetch-Safe,
}

if-Guarded :
    (hs : HartState) (b : Bool) (on off : HartState)
    → Guarded hs on
    → Guarded hs off
    → Guarded hs (if b then on else off)
if-Guarded hs true on off p q = p
if-Guarded hs false on off p q = q

check_interrupts-Guarded : (hs : HartState) → Guarded hs (check_interrupts hs)
unfolding check_interrupts
check_interrupts-Guarded hs =
    let calm = record hs { chk_int = false } in
    let pending =
      Guarded-trans hs calm _ (same-Guarded hs calm refl refl refl refl (λ m. m))
        (setup_pending_int-Guarded calm) in
    if-Guarded hs hs.chk_int _ hs pending (Guarded-refl hs)

module _ {D : Type 0} (B : Board D) (board : IsBoard B) (h0 : HartState) where
  no_length-Safe : Keeps (Safe B board h0) no_length
  unfolding no_length
  no_length-Safe = modify-Safe B board h0 _ (λ hs. same-Guarded hs _ refl refl refl refl (λ m. m))

  set_inst-Safe : (inst : ℕ) → Keeps (Safe B board h0) (set_inst inst)
  unfolding set_inst
  set_inst-Safe inst =
      modify-Safe B board h0 _ (λ hs. same-Guarded hs _ refl refl refl refl (λ m. m))

  take_buffer-Safe : Keeps (Safe B board h0) take_buffer
  unfolding take_buffer
  take_buffer-Safe = modify-Safe B board h0 _ (λ hs. same-Guarded hs _ refl refl refl refl (λ m. m))

  split-Safe : Keeps (Safe B board h0) (modify split)
  unfolding split
  split-Safe = modify-Safe B board h0 _ (λ hs. same-Guarded hs _ refl refl refl refl (λ m. m))

  check_inst-Safe : Keeps (Safe B board h0) check_inst
  unfolding check_inst
  check_inst-Safe =
      search
        (
          keeps_rules,
          no_length-Safe,
          split-Safe,
          raise-Safe B board h0,
          handle_mem_error-Safe B board h0,
        )
        depth 16

  load_inst-Safe : Keeps (Safe B board h0) (load_inst B)
  unfolding load_inst
  load_inst-Safe = search (keeps_rules, virt_mem_fetch-Safe B board h0, set_inst-Safe)

  fetch-Safe : Keeps (Safe B board h0) (fetch B)
  unfolding fetch
  fetch-Safe =
      search
        (
          keeps_rules,
          set_load-Safe B board h0,
          load_inst-Safe,
          take_buffer-Safe,
          handle_mem_error-Safe B board h0,
          check_inst-Safe,
        )
        depth 16

  end_cycle-Safe : Keeps (Safe B board h0) end_cycle
  unfolding end_cycle count_cycle
  end_cycle-Safe =
      Keeps-bind _ _
        (modify-Safe B board h0 _ (λ hs. same-Guarded hs _ refl refl refl refl (λ m. m)))
        (λ _.
          Keeps-bind _ _ (modify-Safe B board h0 _ check_interrupts-Guarded) (λ _. Keeps-pure true))

  pub cycle-Safe : (P : Platform) (sig_mode : Bool) → Keeps (Safe B board h0) (cycle B P sig_mode)
  unfolding cycle
  cycle-Safe P sig_mode =
      Keeps-bind _ _
        (modify-Safe B board h0 _
          (λ hs. same-Guarded hs _ refl refl refl (length-set hs.regs 0 0) (λ m. m)))
        (λ _. Keeps-bind _ _ fetch-Safe (λ exc. Keeps-bind (gets _) _ (Keeps-gets _) (λ inst.
          Keeps-if (sig_mode && inst == 0xBAD3_3013) _ _ (λ _. Keeps-pure false)
            (λ _.
              Keeps-if (is_noexc exc) _ _
                (λ _. Keeps-bind _ _ (decode_exc-Safe B board h0 P) (λ _. end_cycle-Safe))
                (λ _. end_cycle-Safe)))))

module _ {D : Type 0} (B : Board D) (board : IsBoard B) where
  -- If the handlers of the devices reach no more of the hart than mip, a cycle of a well-formed
  -- hart, where it is defined, leaves it well formed (32 registers, a mode of two bits, locks and
  -- cache in order), with the same number, and with every locked entry, every address with a lock
  -- and every lock as they were.
  pub cycle-IsHart :
      (P : Platform) (sig_mode : Bool) (r : Run D)
      → IsHart r.hs
      → Holds
          (λ r'. IsHart r'.hs × KeepsLocked r.hs.pmp r'.hs.pmp × (r'.hs.hartid ≡ r.hs.hartid))
          (cycle B P sig_mode r)
  cycle-IsHart P sig_mode r hart =
      Holds-map (Safe B board r.hs) _ _ (λ r' s. (s.hart, s.locks, s.same_hartid))
        ((cycle-Safe B board r.hs P sig_mode).at r
          (record { hart = hart; locks = same-KeepsLocked _ _ refl; same_hartid = refl }))
