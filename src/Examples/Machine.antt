-- ===== src/Examples/Machine.antt =====
-- A board with one device register, and two harts just out of reset on it.
use rv_emu.Base.{
  ◌+◌, u64, List, ℕ, ◌^◌, ◌%◌, ◌≡◌, ◌≢◌, refl, true, false, Option, some, none, [], ◌∷◌, set_bit,
  arith, inl, inr, get_or, set, ◌||◌, ◌<◌, ◌==◌, if◌then◌else◌,
}
use rv_emu.Hart.{HartState, lafault, safault}
use rv_emu.Hart.Reset.{hart_init, reset_state}
use rv_emu.Pmp.{chk_pmp_range_exp, sync_exp_pmp}
use rv_emu.Memory.{
  Board, Run, World, phy_mem_fetch, dispatch_r, unmapped_fetch, read_bytes, modify, gets, pure,
  ◌>>◌, ◌>>=◌, fetch_entry,
}
use rv_emu.Memory.Access.{
  set_status, mem_fetch, mem_store, store_faults, fetch_faults, store_denied, fetch_denied, outside,
}
use rv_emu.Memory.Walk.{mprv, page_table_walk, virt_mem_fetch, virt_mem_store}
use rv_emu.Memory.Keeps.{Holds, Keeps}
use rv_emu.Memory.Frame.{IsBoard, Frame}
use rv_emu.Memory.Frame.Walks.{accesses-Framed}
use rv_emu.Memory.Guarded.{stored, mem_fetch-mem_store, mem_store-other, HasByte}
use rv_emu.Trap.Rule.{IsMode}
use rv_emu.Memory.Checks.{byte_checks}
use rv_emu.Exec.Reservations.Instructions.{load_reserved_lem}
use rv_emu.Exec.Atomic.{load_reserved}
use rv_emu.Exec.Faults.{Faulted, exec_load-refused, exec_store-refused}
use rv_emu.Guard.{IsHart, KeepsLocked}
use rv_emu.Guard.Cycles.{cycle-IsHart}
use rv_emu.Guard.Reset.{hart_init-IsHart}
use rv_emu.Cycle.{
  cycle, fetch, load_inst, set_inst, check_inst, split, end_cycle, count_cycle, check_interrupts,
}
use rv_emu.Exec.{
  exec_load, exec_store, decode_exc, execute, dispatch, finish, write_back, exec_jalr, jumped,
}
use rv_emu.Exec.Control.{go, reg, set_load, set_reg, set_pc, flush, handle_mem_error}
use rv_emu.Decode.{decode_32, Decoded, InstOp32}
use rv_emu.Alu.{exec_op_imm}
use rv_emu.Machine.{System, power_on, signalled, turns, Reach, start, later, signals}
use rv_emu.Machine.Safety.{AreSafe, Reach-AreSafe, Result}
use rv_emu.Machine.Stops.{turns-stop}
use rv_emu.Examples.Protection.{host, boot, boot-AreBytes, boot_length}

-- The register can be read and written; a write also raises an external interrupt.
abbrev board : Board ℕ
board = record {
  mem_size = 4096;
  hart_count = 2;
  mtime = λ d. d;
  device_r = λ i offset len hs d. some (d, hs, d);
  device_w = λ i offset len v hs d.
      some (record hs { csrs = record hs.csrs { mip = set_bit hs.mip 9 } }, v);
}

board-IsBoard : IsBoard board
board-IsBoard = record {
  reads = λ i offset len v hs hs' d d' e. (hs.mip, ground (arith, e));
  writes = λ i offset len v hs hs' d d' e. (set_bit hs.mip 9, ground (arith, e));
}

abbrev world : World ℕ
world = record { main_mem = λ a. 0; dtb_buf = λ a. 0; reservations = 0 ∷ 0 ∷ []; devices = 5 }

abbrev first : HartState
first = hart_init 4096 0

abbrev at_reset : Run ℕ
at_reset = record { hs = first; world = world }

cycle-IsHart_example :
    Holds
      (λ r. IsHart r.hs × KeepsLocked first.pmp r.hs.pmp × (r.hs.hartid ≡ first.hartid))
      (cycle board host false at_reset)
cycle-IsHart_example =
    cycle-IsHart board board-IsBoard host false at_reset (hart_init-IsHart 4096 0)

accesses-Framed_example :
    Holds (λ r. Frame first r.hs) (virt_mem_fetch board 4 0x1000_0000 at_reset)
    × Holds (λ r. Frame first r.hs) (virt_mem_store board 4 0x1000_0000 7 at_reset)
accesses-Framed_example = accesses-Framed board board-IsBoard 4 0x1000_0000 7 at_reset

abbrev both : System ℕ
both = power_on 4096 world

abbrev one_signal : Reach board host false both (signalled both 1 128 true)
one_signal = later start (signals 1 128 true)

Reach-AreSafe_example : AreSafe both (signalled both 1 128 true)
Reach-AreSafe_example =
    Reach-AreSafe board board-IsBoard host false (λ i. hart_init-IsHart 4096 i) one_signal

turns-stop_example :
    Result
      (λ t. t.running 1 ≡ false)
      (turns board host false (0 ∷ 1 ∷ []) (record both { interrupted = true }))
turns-stop_example =
    turns-stop board host false (record both { interrupted = true }) (0 ∷ 1 ∷ []) 1 refl refl

stores_there : store_faults first 4 0x8000_0008 ≡ false
unfolding store_faults store_denied hart_init reset_state chk_pmp_range_exp
stores_there = refl

loads_there : fetch_faults (record first { mem_status = true }) 4 0x8000_0008 ≡ false
unfolding fetch_faults fetch_denied hart_init reset_state chk_pmp_range_exp
loads_there = refl

mem_fetch-mem_store_example :
    (do mem_store board 4 0x8000_0008 0x1_2345_6789; set_status true; mem_fetch board 4 0x8000_0008)
      at_reset
    ≡ some (0x1_2345_6789 % 256 ^ 4, stored at_reset 4 0x8000_0008 0x1_2345_6789)
mem_fetch-mem_store_example =
    mem_fetch-mem_store board 4 0x8000_0008 0x1_2345_6789 at_reset
      (omega arith, omega arith, omega arith) stores_there loads_there

mem_store-other_example : Keeps (HasByte board 3 0) (mem_store board 8 0x8000_0004 99)
mem_store-other_example = mem_store-other board 3 0 8 0x8000_0004 99 (λ e. inl (omega arith))

-- A word at address 8, which is outside of memory.
abbrev low_access : Decoded
low_access = record {
  op_fun = InstOp32.load;
  rd = 5;
  rs1 = 0;
  rs2 = 0;
  funct3 = 2;
  funct7 = 0;
  imm = 8;
  cebreak = false;
  inst = 0;
}

first_machine : first.privmode ≡ 3
unfolding hart_init reset_state
first_machine = refl

first_physical : mprv first ≡ false
unfolding hart_init reset_state
first_physical = refl

low_load : (outside board 8 || fetch_faults (record first { mem_status = true }) 4 8) ≡ true
low_load = refl

low_store : (outside board 8 || store_faults (record first { mem_status = false }) 4 8) ≡ true
low_store = refl

first_zero : reg first 0 ≡ 0
unfolding hart_init reset_state
first_zero = refl

exec_load-refused_example :
    Faulted at_reset lafault 5 (u64 (reg first 0 + 8)) (exec_load board low_access at_reset)
exec_load-refused_example =
    exec_load-refused board low_access at_reset first_machine first_physical
      (rw first_zero low_load)

exec_store-refused_example :
    Faulted at_reset safault 7 (u64 (reg first 0 + 8)) (exec_store board low_access at_reset)
exec_store-refused_example =
    exec_store-refused board low_access at_reset first_machine first_physical refl
      (rw first_zero low_store)

boot-IsMode : IsMode boot.privmode
unfolding reset_state
boot-IsMode = inr (inl refl)

byte_checks_example :
    let q = sync_exp_pmp host boot in
    (fetch_faults q 1 0x8000_0000 ≡ fetch_denied q (chk_pmp_range_exp q 0x8000_0000 0x8000_0000))
    × (store_faults q 1 0x8000_0000 ≡ store_denied q (chk_pmp_range_exp q 0x8000_0000 0x8000_0000))
byte_checks_example = byte_checks host boot 0x8000_0000 boot-IsMode boot-AreBytes boot_length

-- `lr.w x5, (x6)` of hart 1, with x6 at 0x80000010.
abbrev reserving : Decoded
reserving = record {
  op_fun = InstOp32.amo;
  rd = 5;
  rs1 = 6;
  rs2 = 0;
  funct3 = 2;
  funct7 = 8;
  imm = 0;
  cebreak = false;
  inst = 0;
}

abbrev second : HartState
second = record (hart_init 4096 1) { regs = set (hart_init 4096 1).regs 6 0x8000_0010 }

-- Hart 0 holds a reservation on the same address.
abbrev contested : Run ℕ
contested = record { hs = second; world = record world { reservations = 0x8000_0010 ∷ 0 ∷ [] } }

at_walk : Run ℕ
at_walk = record contested { hs = record second { mem_status = true } }

second_walk : page_table_walk board (reg second 6) false at_walk ≡ some (0x8000_0010, contested)
unfolding at_walk page_table_walk hart_init reset_state set_status modify gets pure ◌>>=◌
second_walk = refl

second_place : second.hartid < 2
unfolding hart_init reset_state
second_place = omega arith

second_calm : (second.mem_status ≡ false) × (second.page_fault ≡ false)
unfolding hart_init reset_state
second_calm = (refl, refl)

load_reserved_lem_example :
    (l : List ℕ) × (load_reserved board reserving contested
      ≡ some (go false, record contested { world = record contested.world { reservations = l } }))
    × (get_or l second.hartid 0 ≡ 0x8000_0010)
    × ((j : ℕ)
        → second.hartid ≢ j
        → get_or l j 0 ≡ (
            if get_or contested.world.reservations j 0 == 0x8000_0010
            then 0
            else get_or contested.world.reservations j 0))
unfolding at_walk
load_reserved_lem_example =
    load_reserved_lem board reserving contested contested 0x8000_0010 second_walk second_calm.0
      second_calm.1 second_place

-- The boot ROM: ADDI x8, x0, 1; SLLI x8, x8, 31; JALR x0, 0(x8).
abbrev pc_of : Option (System ℕ) → ℕ
pc_of none = 0
pc_of (some t) = (t.hartlist 0).pc

boots : pc_of (turns board host false (0 ∷ 0 ∷ 0 ∷ []) both) ≡ 0x8000_0000
unfolding turns cycle fetch load_inst virt_mem_fetch mem_fetch fetch_faults phy_mem_fetch dispatch_r
    unmapped_fetch read_bytes fetch_entry set_status set_load set_inst check_inst split decode_exc
    execute dispatch finish write_back exec_jalr jumped set_reg set_pc flush handle_mem_error
    end_cycle count_cycle check_interrupts modify gets pure ◌>>=◌ hart_init reset_state
    chk_pmp_range_exp decode_32 exec_op_imm
boots = refl
