-- ===== src/Soc.antt =====
-- main.cpp and mem.h: the devices together, behind the memory map. `hartlist` is what the handlers
-- see of the harts. A handler gives a pointer, or is given one: a read of more bytes than the object
-- at it has, and a write of fewer than the handler reads, are undefined, a result `none`.
pub mod Harts
pub mod Frame
pub mod Handlers
pub mod Run
use rv_emu.Base.{
  ℕ, ◌+◌, ◌^◌, ◌%◌, Bool, true, false, ◌&&◌, ◌||◌, List, [], Option, none, some, leb, ltb, ◌==◌,
  if◌then◌else◌, set, u8, u32,
}
use rv_emu.Hart.{HartState}
use rv_emu.Plic.{Plic, at, and_then, plic_init}
use rv_emu.Plic.Registers.{is_prio, is_pend, is_enable, is_thres, is_claim, plic_r, plic_w}
use rv_emu.Aclint.{
  Aclint, aclint_mtime_get, aclint_mtimer_init, aclint_mswi_init, aclint_mtimer_r, aclint_mtimer_w,
  aclint_mswi_r, aclint_mswi_w,
}
use rv_emu.Console.{Console}
use rv_emu.Uart.{Uart, Port, static_uart, uart_init}
use rv_emu.Uart.Registers.{uart_r, uart_w}
use rv_emu.Virtio.{
  Blk, static_blk, virtio_mmio_blk_init, virtio_mmio_blk_r, virtio_mmio_blk_w, is_status, is_queue,
}
use rv_emu.Memory.{Board}

-- `now` is what the clock shows.
pub record Devices : Type 0 where
  pub now : ℕ
  pub aclint : Aclint
  pub plic : Plic
  pub uart : Uart
  pub blk : Blk
  pub hartlist : List HartState

-- `hw_init`, at a time; the arrays are what `new` gives.
unfoldable pub hw_init :
    ℕ → ℕ → List ℕ → List ℕ → List ℕ → List ℕ → Console → List HartState → Devices
hw_init hart_count now mswi prio pend thres console hartlist = record {
  now = now;
  aclint = aclint_mswi_init mswi (
      aclint_mtimer_init hart_count now
        (record { time_start = 0; mtimer_regs = []; mswi_regs = [] }));
  plic = plic_init hart_count prio pend thres;
  uart = uart_init (static_uart console);
  blk = virtio_mmio_blk_init static_blk;
  hartlist = hartlist;
}

abbrev pub port : Devices → Port
port d = record { uart = d.uart; plic = d.plic; hartlist = d.hartlist }

abbrev pub with_port : Devices → Port → Devices
with_port d s = record d { uart = s.uart; plic = s.plic; hartlist = s.hartlist }

-- Whether the pointer that a read of the offset gives leads to a 32-bit register; it leads to ZERO
-- otherwise.
unfoldable pub blk_register : ℕ → Bool
blk_register offset =
    leb offset 0x30 || is_status offset || is_queue offset || offset == 0xfc || leb 0x100 offset

unfoldable pub plic_register : ℕ → ℕ → Bool
plic_register hart_count offset =
    is_prio offset
    || is_pend offset
    || is_enable 128 hart_count offset
    || is_thres offset
    || is_claim offset

-- Whether a write to the offset reads the word at the pointer.
unfoldable pub blk_reads : ℕ → Bool
blk_reads offset = leb offset 0x30 || is_status offset || is_queue offset || leb 0x100 offset

unfoldable pub plic_reads : ℕ → ℕ → Bool
plic_reads hart_count offset =
    is_prio offset || is_pend offset || is_enable 32 hart_count offset || is_thres offset

-- `len` bytes at a pointer to an object of `size` bytes and a value.
unfoldable pub bytes_of : ℕ → ℕ → ℕ → Option ℕ
bytes_of size len v = if leb len size then some (v % 256 ^ len) else none

-- What the handler sees of the hart that makes the access, which is in `hartlist` itself.
unfoldable pub enter : HartState → Devices → Devices
enter hs d = record d { hartlist = set d.hartlist hs.hartid hs }

module _ (hart_count : ℕ) where
  -- The handlers `handler_r` of `mem_map` but for the device tree.
  unfoldable pub read_entry : ℕ → ℕ → ℕ → Devices → Option (ℕ × Devices)
  read_entry i offset len d =
      if i == 0
      then and_then (virtio_mmio_blk_r offset d.blk)
          (λ v. and_then (bytes_of (if blk_register offset then 4 else 8) len v) (λ w. some (w, d)))
      else if i == 1
      then and_then (uart_r offset d.uart)
          (λ u. and_then (bytes_of 8 len u.output_byte) (λ w. some (w, record d { uart = u })))
      else if i == 2
      then and_then (plic_r hart_count offset d.plic) (λ r.
        and_then (bytes_of (if plic_register hart_count offset then 4 else 8) len r.1)
          (λ w. some (w, record d { plic = r.0 })))
      else if i == 3
      then and_then (aclint_mtimer_r d.now offset d.aclint)
          (λ v. and_then (bytes_of 8 len v) (λ w. some (w, d)))
      else if i == 4
      then and_then (aclint_mswi_r offset d.aclint)
          (λ v. and_then (bytes_of 4 len v) (λ w. some (w, d)))
      else none

  -- The handlers `handler_w`; `v` has `len` bytes.
  unfoldable pub write_entry : ℕ → ℕ → ℕ → ℕ → Devices → Option Devices
  write_entry i offset len v d =
      if i == 0
      then if blk_reads offset && ltb len 4
        then none
        else and_then (virtio_mmio_blk_w offset (u32 v) d.blk) (λ b. some (record d { blk = b }))
      else if i == 1
      then and_then (uart_w hart_count offset (u8 v) (port d)) (λ s. some (with_port d s))
      else if i == 2
      then if plic_reads hart_count offset && ltb len 4
        then none
        else and_then (plic_w hart_count offset (u32 v) d.plic d.hartlist)
            (λ r. some (record d { plic = r.0; hartlist = r.1 }))
      else if i == 3
      then if ltb len 8
        then none
        else and_then (aclint_mtimer_w d.now offset v d.aclint d.hartlist)
            (λ r. some (record d { aclint = r.0; hartlist = r.1 }))
      else if i == 4
      then if ltb len 8
        then none
        else and_then (aclint_mswi_w offset v d.aclint) (λ a. some (record d { aclint = a }))
      else none

  unfoldable pub soc_r : ℕ → ℕ → ℕ → HartState → Devices → Option (ℕ × HartState × Devices)
  soc_r i offset len hs d =
      and_then (read_entry i offset len (enter hs d))
        (λ r. and_then (at r.1.hartlist hs.hartid) (λ hs'. some (r.0, hs', r.1)))

  unfoldable pub soc_w : ℕ → ℕ → ℕ → ℕ → HartState → Devices → Option (HartState × Devices)
  soc_w i offset len v hs d =
      and_then (write_entry i offset len v (enter hs d))
        (λ e. and_then (at e.hartlist hs.hartid) (λ hs'. some (hs', e)))

  abbrev pub soc_board : ℕ → Board Devices
  soc_board mem_size = record {
    mem_size = mem_size;
    hart_count = hart_count;
    mtime = λ d. aclint_mtime_get d.now d.aclint;
    device_r = soc_r;
    device_w = soc_w;
  }
