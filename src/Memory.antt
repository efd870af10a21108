-- ===== src/Memory.antt =====
-- mem.h, mem.ipp and mem.cpp: physical memory and the map of the devices. A result `none` is
-- undefined behaviour, an access past an array. The host is little-endian.
pub mod Access
pub mod Walk
pub mod Keeps
pub mod Frame
pub mod Bytes
pub mod Checks
pub mod Guarded
pub mod Reservations
use rv_emu.Base.{
  ℕ, zero, suc, ◌+◌, ◌-◌, ◌*◌, ◌/◌, ◌%◌, ◌^◌, Bool, true, false, not, ◌&&◌, List, [], ◌∷◌, Option,
  none, some, ltb, leb, ◌==◌, if◌then◌else◌, get_or, u8,
}
use rv_emu.Hart.{HartState}

-- The memories, `reservations`, and the state of the devices, of a type that the board chooses.
pub record World (D : Type 0) : Type 0 where
  pub main_mem : ℕ → ℕ
  pub dtb_buf : ℕ → ℕ
  pub reservations : List ℕ
  pub devices : D

-- What the memory map calls: MACH_MEM_SIZE, MACH_HART_COUNT, `aclint_mtime_get`, and the handlers
-- of the devices by their place in `mem_map`, the offset and the length of the access in bytes. A
-- read gives the bytes at the pointer that the handler returns. A handler may reach the hart that
-- makes the access through `hartlist`.
pub record Board (D : Type 0) : Type 0 where
  pub mem_size : ℕ
  pub hart_count : ℕ
  pub mtime : D → ℕ
  pub device_r : ℕ → ℕ → ℕ → HartState → D → Option (ℕ × HartState × D)
  pub device_w : ℕ → ℕ → ℕ → ℕ → HartState → D → Option (HartState × D)

-- A hart that runs, and all else.
pub record Run (D : Type 0) : Type 0 where
  pub hs : HartState
  pub world : World D

abbrev pub M : Type 0 → Type 0 → Type 0
M D A = Run D → Option (A × Run D)

unfoldable pub pure : {D A : Type 0} → A → M D A
pure a r = some (a, r)

infixl 5 ◌>>=◌ ◌>>◌
unfoldable pub ◌>>=◌ : {D A B : Type 0} → M D A → (A → M D B) → M D B
◌>>=◌ m f r = elim (m r) [ none ↦ none | some (a, r') ↦ f a r' ]

abbrev pub ◌>>◌ : {D B : Type 0} → M D (Unit {0}) → M D B → M D B
m >> k = m >>= λ _. k

unfoldable pub undefined : {D A : Type 0} → M D A
undefined r = none

unfoldable pub gets : {D A : Type 0} → (HartState → A) → M D A
gets f r = some (f r.hs, r)

unfoldable pub modify : {D : Type 0} → (HartState → HartState) → M D (Unit {0})
modify f r = some (tt, record r { hs = f r.hs })

unfoldable pub get_world : {D A : Type 0} → (World D → A) → M D A
get_world f r = some (f r.world, r)

unfoldable pub set_world : {D : Type 0} → (World D → World D) → M D (Unit {0})
set_world f r = some (tt, record r { world = f r.world })

-- The bytes from an address on, the lowest first, and a store of them.
unfoldable pub read_bytes : (ℕ → ℕ) → ℕ → ℕ → ℕ
read_bytes m a zero = 0
read_bytes m a (suc len) = m a + 256 * read_bytes m (a + 1) len

abbrev pub write_byte : (ℕ → ℕ) → ℕ → ℕ → ℕ → ℕ
write_byte m a v b = if b == a then v else m b

pub write_bytes : (ℕ → ℕ) → ℕ → ℕ → ℕ → ℕ → ℕ
write_bytes m a zero v = m
write_bytes m a (suc len) v = write_bytes (write_byte m a (u8 v)) (a + 1) len (v / 256)

-- `mem_map`: base and size of the block device, the terminal, the interrupt controller, the timer,
-- the software interrupts and the device tree.
abbrev pub mem_map : List (ℕ × ℕ)
mem_map =
    (0x1000_1000, 0x1000)
    ∷ (0x1000_0000, 16)
    ∷ (0xC00_0000, 0x400_0000)
    ∷ (0x200_4000, 0x8000)
    ∷ (0x200_0000, 0x4000)
    ∷ (0x1100, 32768)
    ∷ []

abbrev pub mem_entries : ℕ
mem_entries = 6

abbrev pub dram_base : ℕ
dram_base = 0x8000_0000

abbrev pub boot_rom_content : List ℕ
boot_rom_content =
    0x13 ∷ 0x04 ∷ 0x10 ∷ 0x00 ∷ 0x13 ∷ 0x14 ∷ 0xF4 ∷ 0x01 ∷ 0x67 ∷ 0x00 ∷ 0x04 ∷ 0x00 ∷ []

-- `0 <= offset && offset < mem_map[i].size`, for an address below the main memory.
abbrev pub in_entry : ℕ → ℕ → Bool
in_entry i addr =
    let entry = get_or mem_map i (0, 0) in leb entry.0 addr && ltb (addr - entry.0) entry.1

-- The loop of `phy_mem_fetch`, from the last entry on, and that of `phy_mem_store`, from the first:
-- the entry of an address and its offset there.
unfoldable pub fetch_entry : ℕ → ℕ → Option (ℕ × ℕ)
fetch_entry zero addr = none
fetch_entry (suc i) addr =
    if in_entry i addr then some (i, addr - (get_or mem_map i (0, 0)).0) else fetch_entry i addr

pub store_entry : ℕ → ℕ → ℕ → Option (ℕ × ℕ)
store_entry zero i addr = none
store_entry (suc left) i addr =
    if in_entry i addr
    then some (i, addr - (get_or mem_map i (0, 0)).0)
    else store_entry left (i + 1) addr

-- `dtb_w`: the cases are lengths in bits, the argument is one in bytes.
unfoldable pub dtb_w : (ℕ → ℕ) → ℕ → ℕ → ℕ → ℕ → ℕ
unfolding write_bytes
dtb_w dtb_buf offset len data_ =
    if len == 8
    then write_bytes dtb_buf offset 1 data_
    else if len == 16
    then write_bytes dtb_buf offset 2 data_
    else if len == 32
    then write_bytes dtb_buf offset 4 data_
    else if len == 64
    then write_bytes dtb_buf offset 8 data_
    else dtb_buf

module _ {D : Type 0} (B : Board D) where
  pub device_fetch : ℕ → ℕ → ℕ → M D ℕ
  device_fetch i offset len r = elim (B.device_r i offset len r.hs r.world.devices) [
    | none ↦ none
    | some (v, hs, d) ↦ some (v, record { hs = hs; world = record r.world { devices = d } })
  ]

  pub device_store : ℕ → ℕ → ℕ → ℕ → M D (Unit {0})
  device_store i offset len data_ r = elim (B.device_w i offset len data_ r.hs r.world.devices) [
    | none ↦ none
    | some (hs, d) ↦ some (tt, record { hs = hs; world = record r.world { devices = d } })
  ]

  -- `*(T*) mem_map[i].handler_r(offset, sizeof(T))`; the last entry is `dtb_r`.
  unfoldable pub handler_r : ℕ → ℕ → ℕ → M D ℕ
  unfolding read_bytes device_fetch
  handler_r i offset len =
      if not (i == 5)
      then device_fetch i offset len
      else if leb (offset + len) 32768
      then get_world (λ w. read_bytes w.dtb_buf offset len)
      else undefined

  unfoldable pub handler_w : ℕ → ℕ → ℕ → ℕ → M D (Unit {0})
  unfolding dtb_w device_store
  handler_w i offset len data_ =
      if not (i == 5)
      then device_store i offset len data_
      else set_world (λ w. record w { dtb_buf = dtb_w w.dtb_buf offset len data_ })

  -- Below the main memory: the boot ROM, and 0xFF where nothing is mapped.
  unfoldable pub unmapped_fetch : ℕ → ℕ → M D ℕ
  unfolding read_bytes
  unmapped_fetch len addr =
      if not (leb 0x1000 addr && ltb addr (0x1000 + 12))
      then pure 0xFF
      else if leb (addr - 0x1000 + len) 12
      then pure (read_bytes (λ a. get_or boot_rom_content a 0) (addr - 0x1000) len)
      else undefined

  -- What the loops over the map end in.
  unfoldable pub dispatch_r : ℕ → ℕ → Option (ℕ × ℕ) → M D ℕ
  unfolding handler_r unmapped_fetch
  dispatch_r len addr (some (i, offset)) = handler_r i offset len
  dispatch_r len addr none = unmapped_fetch len addr

  unfoldable pub dispatch_w : ℕ → ℕ → Option (ℕ × ℕ) → M D (Unit {0})
  unfolding handler_w
  dispatch_w len data_ (some (i, offset)) = handler_w i offset len data_
  dispatch_w len data_ none = pure tt

  -- `sizeof(T)` is `len`.
  unfoldable pub phy_mem_fetch : ℕ → ℕ → M D ℕ
  unfolding dispatch_r read_bytes
  phy_mem_fetch len addr =
      if not (leb dram_base addr)
      then dispatch_r len addr (fetch_entry mem_entries addr)
      else if leb (addr - dram_base + len) B.mem_size
      then get_world (λ w. read_bytes w.main_mem (addr - dram_base) len)
      else undefined

  unfoldable pub phy_mem_store : ℕ → ℕ → ℕ → M D (Unit {0})
  unfolding dispatch_w write_bytes
  phy_mem_store len addr data_ =
      if not (leb dram_base addr)
      then dispatch_w len data_ (store_entry mem_entries 0 addr)
      else if leb (addr - dram_base + len) B.mem_size
      then set_world
          (λ w. record w { main_mem = write_bytes w.main_mem (addr - dram_base) len data_ })
      else undefined
