-- ===== src/Examples/Soc.antt =====
-- The whole emulator with one hart, just after power-on.
use rv_emu.Base.{
  Option, none, some, ℕ, ◌≡◌, refl, false, none, some, [], ◌∷◌, replicate, arith, ◌⊎◌, ◌≤◌, ◌<◌,
  ◌↔◌,
}
use rv_emu.Memory.{World}
use rv_emu.Console.{Console}
use rv_emu.Machine.{power_on, turn}
use rv_emu.Virtio.{Blk, static_blk, virtio_mmio_blk_r, virtio_mmio_blk_w}
use rv_emu.Virtio.Bounds.{IsBlk, virtio_mmio_blk_w-none}
use rv_emu.Hart.Reset.{hart_init, reset_state}
use rv_emu.Pmp.{chk_pmp_range_exp}
use rv_emu.Plic.{at, plic_init, plic_try_int, try_loop, try_ctx}
use rv_emu.Plic.Registers.{assign, plic_try_int_all, try_all_loop}
use rv_emu.Aclint.{
  hw_perhart_update, aclint_mtimer_chk, aclint_mswi_chk, aclint_mtime_get, aclint_mtimer_init,
  aclint_mtimer_reset, aclint_mswi_init,
}
use rv_emu.Uart.{uart_init, uart_loop, tx_interrupt, uart_sendint}
use rv_emu.Uart.Registers.{uart_chk, receive, count_timeout, check_output}
use rv_emu.Memory.{
  phy_mem_fetch, dispatch_r, unmapped_fetch, read_bytes, modify, gets, pure, ◌>>=◌, fetch_entry,
}
use rv_emu.Memory.Access.{set_status, mem_fetch, fetch_faults}
use rv_emu.Memory.Walk.{virt_mem_fetch}
use rv_emu.Cycle.{
  cycle, fetch, load_inst, set_inst, check_inst, split, end_cycle, count_cycle, check_interrupts,
}
use rv_emu.Exec.{decode_exc, execute, dispatch, finish, write_back, exec_jalr, jumped}
use rv_emu.Exec.Control.{set_load, set_reg, set_pc, flush, handle_mem_error}
use rv_emu.Trap.{setup_pending_int, try_sip}
use rv_emu.Decode.{decode_32}
use rv_emu.Alu.{exec_op_imm}
use rv_emu.Virtio.{virtio_mmio_blk_init}
use rv_emu.Soc.{Devices, hw_init}
use rv_emu.Soc.Run.{
  Soc, happens, happen, run_hart, load, harts_from, deliver, deliver_others, on_devices,
  main_iteration, update_harts, hw_update, hart_thread, main_thread, printing_thread,
}
use rv_emu.Examples.Protection.{host}

unfoldable console : Console
console = record { sig_mode = false; dbg_fallback = false; stdout = []; pty_master_out = [] }

unfoldable devices : Devices
devices = hw_init 1 1000 (0 ∷ []) (replicate 16 0) (0 ∷ []) (0 ∷ 0 ∷ []) console []

unfoldable world : World Devices
world = record { main_mem = λ a. 0; dtb_buf = λ a. 0; reservations = 0 ∷ []; devices = devices }

static_blk-IsBlk : IsBlk static_blk
static_blk-IsBlk = record {
  devcfg_words = refl;
  queue_words = refl;
  vblkcfg_words = refl;
  first_queue = refl;
}

-- The number of entries of the queue.
virtio_mmio_blk_w-none_example :
    ((virtio_mmio_blk_w 0x38 8 static_blk ≡ none)
      ↔ ((0x47 ≤ 0x38) × (0x38 ≤ 0xa4) ⊎ (0x100 ≤ 0x38)))
    × (0x34 ≤ 0x38
        → 0x38 < 0x47
        → (b' : Blk) × (virtio_mmio_blk_w 0x38 8 static_blk ≡ some b')
          × ((o' : ℕ)
              → 0x34 ≤ o'
              → o' < 0x50
              → virtio_mmio_blk_r o' b' ≡ virtio_mmio_blk_r o' static_blk))
virtio_mmio_blk_w-none_example =
    virtio_mmio_blk_w-none static_blk static_blk-IsBlk 0x38 8 (omega arith)

-- The boot ROM, with a key pressed between two instructions.
abbrev view : Option Soc → ℕ × ℕ
view none = (0, 0)
view (some s) = ((s.hartlist 0).pc, s.world.devices.uart.pending_in)

boots_with_devices :
    view (
      happens 1 4096 host false
        (hart_thread 0 ∷ main_thread 3000 65 ∷ hart_thread 0 ∷ printing_thread ∷ hart_thread 0 ∷ [])
        (power_on 4096 world))
    ≡ (0x8000_0000, 1)
unfolding happens happen run_hart load harts_from deliver deliver_others on_devices main_iteration
    update_harts hw_update world devices console hw_init uart_init uart_loop uart_chk receive
    count_timeout check_output tx_interrupt uart_sendint assign plic_try_int_all try_all_loop
    plic_try_int try_loop try_ctx plic_init at hw_perhart_update aclint_mtimer_chk aclint_mswi_chk
    aclint_mtime_get aclint_mtimer_init aclint_mtimer_reset aclint_mswi_init virtio_mmio_blk_init
    turn cycle fetch load_inst virt_mem_fetch mem_fetch fetch_faults phy_mem_fetch dispatch_r
    unmapped_fetch read_bytes fetch_entry set_status set_load set_inst check_inst split decode_exc
    execute dispatch finish write_back exec_jalr jumped set_reg set_pc flush handle_mem_error
    end_cycle count_cycle check_interrupts modify gets pure ◌>>=◌ hart_init reset_state
    chk_pmp_range_exp decode_32 exec_op_imm setup_pending_int try_sip
boots_with_devices = refl
