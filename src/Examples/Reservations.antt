-- ===== src/Examples/Reservations.antt =====
-- Two harts that reserve the same address: hart 0 has done so, hart 1 executes `lr.w x5, (x6)`.
use rv_emu.Base.{
  ℕ, zero, suc, ◌≡◌, refl, Option, none, some, [], ◌∷◌, true, false, get_or, set, arith,
}
use rv_emu.Hart.{HartState}
use rv_emu.Hart.Reset.{hart_init, reset_state}
use rv_emu.Pmp.{chk_pmp_range_exp}
use rv_emu.Memory.{
  Board, World, phy_mem_fetch, read_bytes, modify, gets, get_world, set_world, pure, undefined,
  ◌>>=◌,
}
use rv_emu.Memory.Access.{set_status, mem_fetch, fetch_faults}
use rv_emu.Memory.Walk.{virt_mem_fetch, page_table_walk}
use rv_emu.Exec.{decode_exc, execute, dispatch, finish}
use rv_emu.Exec.Atomic.{exec_amo, load_reserved, steal, in_reservations, set_reservation}
use rv_emu.Exec.Control.{set_load, set_reg, handle_mem_error}
use rv_emu.Exec.Reservations.{IsExclusive}
use rv_emu.Cycle.{
  cycle, fetch, load_inst, set_inst, check_inst, split, end_cycle, count_cycle, check_interrupts,
}
use rv_emu.Decode.{decode_32}
use rv_emu.Machine.{System, turn, start, later, turns_to}
use rv_emu.Machine.Reservations.{Reach-IsExclusive}
use rv_emu.Examples.Protection.{host}

-- No devices.
abbrev board : Board ℕ
board = record {
  mem_size = 4096;
  hart_count = 2;
  mtime = λ d. d;
  device_r = λ i offset len hs d. none;
  device_w = λ i offset len v hs d. none;
}

-- The instruction, at the start of the main memory.
abbrev world : World ℕ
world = record {
  main_mem = λ a. get_or (0xAF ∷ 0x22 ∷ 0x03 ∷ 0x10 ∷ []) a 0;
  dtb_buf = λ a. 0;
  reservations = 0x8000_0010 ∷ 0 ∷ [];
  devices = 0;
}

abbrev reserving : ℕ → HartState
reserving i = record (hart_init 4096 i) {
  pc = 0x8000_0000;
  regs = set (hart_init 4096 i).regs 6 0x8000_0010;
}

abbrev disputed : System ℕ
disputed = record { hartlist = reserving; running = λ i. true; world = world; interrupted = false }

disputed-IsExclusive : IsExclusive disputed.world.reservations
disputed-IsExclusive zero zero ne e = absurd (ne refl)
disputed-IsExclusive zero (suc zero) ne e = absurd (omega (arith, e))
disputed-IsExclusive zero (suc (suc j)) ne e = absurd (omega (arith, e))
disputed-IsExclusive (suc zero) j ne e = refl
disputed-IsExclusive (suc (suc i)) j ne e = refl

abbrev state_of : Option (System ℕ) → System ℕ
state_of none = disputed
state_of (some t) = t

abbrev settled : System ℕ
settled = state_of (turn board host false 1 disputed)

lr_turn : turn board host false 1 disputed ≡ some settled
unfolding turn cycle fetch load_inst virt_mem_fetch mem_fetch fetch_faults phy_mem_fetch read_bytes
    set_status set_load set_inst check_inst split decode_exc execute dispatch finish set_reg
    handle_mem_error end_cycle count_cycle check_interrupts modify gets pure ◌>>=◌ hart_init
    reset_state chk_pmp_range_exp decode_32 exec_amo load_reserved page_table_walk steal
    in_reservations set_reservation get_world set_world undefined
lr_turn = refl

lr_moves : settled.world.reservations ≡ 0 ∷ 0x8000_0010 ∷ []
unfolding turn cycle fetch load_inst virt_mem_fetch mem_fetch fetch_faults phy_mem_fetch read_bytes
    set_status set_load set_inst check_inst split decode_exc execute dispatch finish set_reg
    handle_mem_error end_cycle count_cycle check_interrupts modify gets pure ◌>>=◌ hart_init
    reset_state chk_pmp_range_exp decode_32 exec_amo load_reserved page_table_walk steal
    in_reservations set_reservation get_world set_world undefined
lr_moves = refl

Reach-IsExclusive_example : IsExclusive settled.world.reservations
Reach-IsExclusive_example =
    Reach-IsExclusive board host false {s = disputed} {t = settled} disputed-IsExclusive
      (later start (turns_to 1 lr_turn))
