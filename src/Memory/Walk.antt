-- ===== src/Memory/Walk.antt =====
-- mem.cpp and mem.ipp: `page_table_walk`, `tlb_find`, and the accesses by virtual addresses.
use Prim.Native.Nat.{bit_and, bit_xor}
use rv_emu.Base.{
  ℕ, zero, suc, ◌+◌, ◌-◌, ◌*◌, ◌/◌, ◌%◌, ◌^◌, Bool, true, false, not, ◌&&◌, ◌||◌, Option, none,
  some, ltb, leb, ◌==◌, if◌then◌else◌, bit, field, put, set_bit, u64, get_or,
}
use rv_emu.Hart.{HartState, TlbEntry}
use rv_emu.Tlb.{tlb_add, tlb_hash, no_tlb_entry}
use rv_emu.Memory.{Board, M, pure, gets, modify, ◌>>=◌, ◌>>◌}
use rv_emu.Memory.Access.{mem_fetch, mem_store, set_status}

-- The bits of an address below a page of layer `i`. Layers are below 5 and sizes below 6, so that
-- no shift reaches the width.
abbrev pub page_bits : ℕ → ℕ
page_bits i = 12 + 9 * i

abbrev pub page_base : ℕ → ℕ → ℕ
page_base virt_addr i = virt_addr / 2 ^ page_bits i * 2 ^ page_bits i

-- The number of layers for satp.MODE; 0 is Bare.
abbrev pub layers : ℕ → ℕ
layers satp =
    let mode = satp / 2 ^ 60 in
    if mode == 8 then 3 else if mode == 9 then 4 else if mode == 10 then 5 else 0

-- `pte.ppn` as an address, and the address of the next table.
abbrev pub pte_ppn : ℕ → ℕ
pte_ppn pte = field pte 10 44 * 2 ^ 12

abbrev pub next_table : ℕ → ℕ
next_table pte = u64 (put (pte / 2 ^ 10) 51 3 0 * 2 ^ 12)

-- What the walk finds in an entry: a page fault, a pointer or a leaf.
unfoldable pub pte_invalid : ℕ → Bool
pte_invalid pte = not (bit pte 0) || field pte 1 2 == 2

unfoldable pub is_pointer : ℕ → Bool
is_pointer pte = field pte 1 3 == 0

-- The tests on the permissions of a leaf: `load` is `curr_mem_status`.
unfoldable pub leaf_denied : HartState → Bool → Bool → ℕ → Bool
leaf_denied hs load iswrite pte =
    (if iswrite
      then not (bit pte 2)
      else load && not (bit pte 1) || not load && not (bit pte 3 || bit hs.mstatus 19 && bit pte 1))
    || (if bit pte 4
        then leb 1 hs.privmode && (not (bit hs.mstatus 18) || not load && not iswrite)
        else hs.privmode == 0)

unfoldable pub misaligned : ℕ → ℕ → Bool
misaligned i pte = ltb 0 i && not (pte_ppn pte % 2 ^ page_bits i == 0)

-- The entry with A set, and D for a write.
unfoldable pub touched : Bool → ℕ → ℕ
touched iswrite pte = if iswrite then set_bit (set_bit pte 6) 7 else set_bit pte 6

-- `~(pte | (0b11ULL << 6))` as a test.
abbrev pub needs_write : ℕ → Bool
needs_write pte = not (put pte 6 2 3 == 2 ^ 64 - 1)

-- The translation that a leaf gives.
unfoldable pub leaf_entry : ℕ → ℕ → ℕ → ℕ → TlbEntry
leaf_entry virt_addr i pte_addr pte = record {
  virt_page = page_base virt_addr i;
  phy_page = pte_ppn pte;
  pte_addr = pte_addr;
  size = i;
  permissions = field pte 1 3;
  user = bit pte 4;
}

-- The tests of `tlb_find` on the entry in the slot for layer `i`.
abbrev pub slot : HartState → ℕ → ℕ → TlbEntry
slot hs virt_addr i = get_or hs.tlb.tlb_entries (tlb_hash (page_base virt_addr i)) no_tlb_entry

unfoldable pub hits : HartState → ℕ → ℕ → ℕ → Bool
hits hs virt_addr perms i =
    let curr_entry = slot hs virt_addr i in
    i == curr_entry.size
    && not (curr_entry.permissions == 0)
    && ltb (bit_xor virt_addr curr_entry.virt_page) (2 ^ page_bits i)
    && not (bit_and perms curr_entry.permissions == 0)
    && not (hs.privmode == 0 && not curr_entry.user)
    && not (leb 1 hs.privmode && curr_entry.user && not (bit hs.mstatus 18))

unfoldable pub page_faulted : {D : Type 0} → M D ℕ
page_faulted = do modify (λ hs. record hs { page_fault = true }); pure 0

-- `hs.mstatus & (0b1ULL << 17) && ((hs.mstatus >> 11) & 0b11) != 0b11`.
abbrev pub mprv : HartState → Bool
mprv hs = bit hs.mstatus 17 && not (field hs.mstatus 11 2 == 3)

module _ {D : Type 0} (B : Board D) where
  -- `tlb_add(hs.tlb, new_entry)`.
  unfoldable pub cache : TlbEntry → M D (Unit {0})
  cache entry = modify (λ hs. record hs { tlb = tlb_add hs.tlb entry })

  -- The end of a walk: the translation is cached.
  unfoldable pub finish_walk : ℕ → ℕ → ℕ → ℕ → M D ℕ
  finish_walk virt_addr i pte_addr pte = do
    cache (leaf_entry virt_addr i pte_addr pte)
    set_status false
    pure (virt_addr % 2 ^ page_bits i + pte_ppn pte)

  -- What the walk does at a leaf of layer `i`.
  unfoldable pub walk_leaf : ℕ → Bool → Bool → ℕ → ℕ → ℕ → M D ℕ
  walk_leaf virt_addr iswrite load i pte_addr pte = do
    denied ← gets (λ hs. leaf_denied hs load iswrite pte || misaligned i pte)
    if denied
        then page_faulted
        else if not (needs_write pte)
        then finish_walk virt_addr i pte_addr pte
        else (do
          mem_store B 8 pte_addr (touched iswrite pte)
          fault ← gets (λ hs. hs.mem_status)
          if fault then pure 0 else finish_walk virt_addr i pte_addr (touched iswrite pte))

  -- The loop with `left` layers to go, from the table at `a`.
  unfoldable pub walk_loop : ℕ → Bool → Bool → ℕ → ℕ → M D ℕ
  walk_loop virt_addr iswrite load zero a = page_faulted
  walk_loop virt_addr iswrite load (suc i) a = do
    let pte_addr = u64 (a + 8 * field virt_addr (page_bits i) 9)
    set_status load
    pte ← mem_fetch B 8 pte_addr
    fault ← gets (λ hs. hs.mem_status)
    if fault
        then pure 0
        else if pte_invalid pte
        then page_faulted
        else if is_pointer pte
        then walk_loop virt_addr iswrite load i (next_table pte)
        else walk_leaf virt_addr iswrite load i pte_addr pte

  unfoldable pub page_table_walk : ℕ → Bool → M D ℕ
  page_table_walk virt_addr iswrite = do
    satp ← gets (λ hs. hs.satp)
    load ← gets (λ hs. hs.mem_status)
    if layers satp == 0
        then (do set_status false; pure virt_addr)
        else walk_loop virt_addr iswrite load (layers satp) (field satp 0 44 * 2 ^ 12)

  -- A hit marks the page-table entry.
  unfoldable pub use_entry : ℕ → ℕ → ℕ → TlbEntry → M D ℕ
  use_entry virt_addr perms i entry = do
    let phy_addr = u64 (entry.phy_page + virt_addr % 2 ^ page_bits i)
    pte ← mem_fetch B 8 entry.pte_addr
    if not (needs_write pte) then pure phy_addr else (do
      mem_store B 8 entry.pte_addr (touched (bit perms 1) pte)
      fault ← gets (λ hs. hs.mem_status)
      if fault then (do set_status false; pure 0) else pure phy_addr)

  -- The loop with `left` layers to go.
  unfoldable pub find_loop : ℕ → ℕ → ℕ → M D ℕ
  find_loop virt_addr perms zero = pure 0
  find_loop virt_addr perms (suc i) = do
    entry ← gets (λ hs. slot hs virt_addr i)
    hit ← gets (λ hs. hits hs virt_addr perms i)
    if hit then use_entry virt_addr perms i entry else find_loop virt_addr perms i

  unfoldable pub tlb_find : ℕ → ℕ → M D ℕ
  tlb_find virt_addr perms = do
    satp ← gets (λ hs. hs.satp)
    size ← gets (λ hs. hs.tlb.max_entry_size)
    if satp == 0 then pure virt_addr else find_loop virt_addr perms (size + 1)

  -- The address to access, from the cache or by a walk, and `none` for a fault.
  unfoldable pub translate : ℕ → ℕ → Bool → M D (Option ℕ)
  translate virt_addr perms iswrite = do
    phy_addr ← tlb_find virt_addr perms
    curr_mem_status ← gets (λ hs. hs.mem_status)
    if not (phy_addr == 0) then pure (some phy_addr) else (do
      walked ← page_table_walk virt_addr iswrite
      fault ← gets (λ hs. hs.page_fault || hs.mem_status)
      if fault then pure none else (do set_status curr_mem_status; pure (some walked)))

  -- `mem_fetch<T>(hs, phy_addr)` unless the translation faulted.
  unfoldable pub fetch_at : ℕ → Option ℕ → M D ℕ
  fetch_at len none = pure 0
  fetch_at len (some phy_addr) = mem_fetch B len phy_addr

  unfoldable pub store_at : ℕ → ℕ → Option ℕ → M D (Unit {0})
  store_at len data_ none = pure tt
  store_at len data_ (some phy_addr) = mem_store B len phy_addr data_

  unfoldable pub fetch_translated : ℕ → ℕ → M D ℕ
  fetch_translated len addr = do
    load ← gets (λ hs. hs.mem_status)
    found ← translate addr (if load then 1 else 4) false
    fetch_at len found

  unfoldable pub store_translated : ℕ → ℕ → ℕ → M D (Unit {0})
  store_translated len addr data_ = do found ← translate addr 2 true; store_at len data_ found

  -- An access in the mode MPP, after which the hart is in M-mode again.
  unfoldable pub in_mpp : {A : Type 0} → M D A → M D A
  in_mpp m = do
    modify (λ hs. record hs { privmode = field hs.mstatus 11 2 })
    output ← m
    modify (λ hs. record hs { privmode = 3 })
    pure output

  unfoldable pub virt_mem_fetch : ℕ → ℕ → M D ℕ
  virt_mem_fetch len addr = do
    machine ← gets (λ hs. hs.privmode == 3)
    active ← gets (λ hs. hs.mem_status && mprv hs)
    if not machine
        then fetch_translated len addr
        else if active
        then in_mpp (fetch_translated len addr)
        else mem_fetch B len addr

  unfoldable pub virt_mem_store : ℕ → ℕ → ℕ → M D (Unit {0})
  virt_mem_store len addr data_ = do
    machine ← gets (λ hs. hs.privmode == 3)
    active ← gets (λ hs. mprv hs)
    if not machine
        then store_translated len addr data_
        else if active
        then in_mpp (store_translated len addr data_)
        else mem_store B len addr data_
