-- ===== src/Memory/Guarded.antt =====
-- mem.ipp: what `mem_store` and `mem_fetch` do to main memory, and where the memory map sends an
-- access.
use rv_emu.Base.{
  ℕ, ◌+◌, ◌-◌, ◌^◌, ◌%◌, ◌≤◌, ◌<◌, ◌≡◌, refl, true, false, not, ◌||◌, arith, ◌⊎◌, inl, inr, leb,
  ◌==◌, Option, none, some, Option-cases, subst, sym, ◌∙◌,
}
use rv_emu.Memory.{
  Run, Board, M, pure, gets, modify, get_world, set_world, ◌>>=◌, ◌>>◌, read_bytes, write_bytes,
  dram_base, mem_entries, fetch_entry, store_entry, phy_mem_fetch, phy_mem_store, device_store,
  dispatch_w, handler_w,
}
use rv_emu.Memory.Keeps.{
  Holds, Keeps, Keeps-pure, Keeps-undefined, Keeps-gets, Keeps-modify, Keeps-set_world, Keeps-if,
  Keeps-bind,
}
use rv_emu.Memory.Access.{fetch_faults, store_faults, set_status, outside, mem_fetch, mem_store}
use rv_emu.Memory.Bytes.{read_bytes-write_bytes, write_bytes-other}

-- For every address the loop of phy_mem_fetch, from the last entry, and that of phy_mem_store, from
-- the first, find the same entry and offset.
fetch_entry-eq-store_entry :
    (addr : ℕ) → fetch_entry mem_entries addr ≡ store_entry mem_entries 0 addr
unfolding fetch_entry store_entry
fetch_entry-eq-store_entry addr = ground arith

-- An access of `len` bytes at `addr` lies in main memory.
abbrev pub InMain : {D : Type 0} → Board D → ℕ → ℕ → Type 0
InMain B len addr = (dram_base ≤ addr) × (0 < len) × (addr + len ≤ dram_base + B.mem_size)

after_access :
    {D A : Type 0} (m : M D (Unit {0})) (k : M D A) {r r' : Run D} {o : Option (A × Run D)}
    → m r ≡ some (tt, r')
    → k r' ≡ o
    → (m >> k) r ≡ o
unfolding ◌>>=◌
after_access {D} {A} m k {o} e f =
    subst
      (λ (x : Option (Unit {0} × Run D)).
        elim x as (λ _. Option (A × Run D)) [ none ↦ none | some (a, r') ↦ k r' ] ≡ o)
      (sym e) f

-- The state after a store to main memory.
abbrev pub stored : {D : Type 0} → Run D → ℕ → ℕ → ℕ → Run D
stored r len addr v = record {
  hs = record r.hs { mem_status = false };
  world = record r.world { main_mem = write_bytes r.world.main_mem (addr - dram_base) len v };
}

module _ {D : Type 0} (B : Board D) (len addr : ℕ) where
  mem_store-granted :
      (v : ℕ) (r : Run D)
      → InMain B len addr
      → store_faults r.hs len addr ≡ false
      → mem_store B len addr v r ≡ some (tt, stored r len addr v)
  unfolding mem_store phy_mem_store set_status gets modify set_world pure ◌>>=◌
  mem_store-granted v r there ok =
      let in_ : outside B addr ≡ false = ground (arith, there) in
      let high : leb dram_base addr ≡ true = ground (arith, there) in
      let fits : leb (addr - dram_base + len) B.mem_size ≡ true = ground (arith, there) in
      rw (in_, ok, high, fits) refl

  mem_fetch-granted :
      (r : Run D)
      → InMain B len addr
      → fetch_faults r.hs len addr ≡ false
      → mem_fetch B len addr r
        ≡ some (
          read_bytes r.world.main_mem (addr - dram_base) len,
          record r { hs = record r.hs { mem_status = false } },
        )
  unfolding mem_fetch phy_mem_fetch set_status gets modify get_world pure ◌>>=◌
  mem_fetch-granted r there ok =
      let in_ : outside B addr ≡ false = ground (arith, there) in
      let high : leb dram_base addr ≡ true = ground (arith, there) in
      let fits : leb (addr - dram_base + len) B.mem_size ≡ true = ground (arith, there) in
      rw (in_, ok, high, fits) refl

  -- An access outside of memory or that the checks refuse is defined and changes nothing but
  -- mem_status, which is set; a fetch then gives 0.
  pub denied :
      (v : ℕ) (r : Run D)
      → let refused = record r { hs = record r.hs { mem_status = true } } in
        ((outside B addr || store_faults r.hs len addr) ≡ true
          → mem_store B len addr v r ≡ some (tt, refused))
        × ((outside B addr || fetch_faults r.hs len addr) ≡ true
            → mem_fetch B len addr r ≡ some (0, refused))
  unfolding mem_store mem_fetch set_status gets modify pure ◌>>=◌
  denied v r = (λ e. rw e refl, λ e. rw e refl)

  -- For an access within main memory that the checks let store and then load, a store and a load of
  -- the same bytes are defined and give the value stored modulo 256 ^ len, and leave the state of
  -- the store alone.
  pub mem_fetch-mem_store :
      (v : ℕ) (r : Run D)
      → InMain B len addr
      → store_faults r.hs len addr ≡ false
      → fetch_faults (record r.hs { mem_status = true }) len addr ≡ false
      → (do mem_store B len addr v; set_status true; mem_fetch B len addr) r
        ≡ some (v % 256 ^ len, stored r len addr v)
  unfolding set_status modify
  mem_fetch-mem_store v r there ok readable =
      let after = stored r len addr v in
      let again = record after { hs = record after.hs { mem_status = true } } in
      after_access _ _ (mem_store-granted v r there ok) (
        after_access _ _ {r' = again} refl (
          rw (read_bytes-write_bytes r.world.main_mem (addr - dram_base) len v) at
            (mem_fetch-granted again there readable)))

module _ {D : Type 0} (B : Board D) (b byte : ℕ) where
  -- A byte of main memory is as it was.
  abbrev pub HasByte : Run D → Type 0
  HasByte r = r.world.main_mem b ≡ byte

  device_store-byte : (i offset len v : ℕ) → Keeps HasByte (device_store B i offset len v)
  unfolding device_store
  device_store-byte i offset len v = record {
    at = λ r h. elim (Option-cases (B.device_w i offset len v r.hs r.world.devices)) [
      | inl e ↦ rw (e, Holds) tt
      | inr (result, e) ↦ rw (e, Holds) h
    ];
  }

  dispatch_w-byte : (len v : ℕ) (o : Option (ℕ × ℕ)) → Keeps HasByte (dispatch_w B len v o)
  unfolding dispatch_w handler_w
  dispatch_w-byte len v none = Keeps-pure tt
  dispatch_w-byte len v (some (i, offset)) =
      Keeps-if (not (i == 5)) _ _ (λ _. device_store-byte i offset len v)
        (λ _. Keeps-set_world _ (λ r h. h))

  -- A store, where it is defined, leaves a byte of main memory as it was unless its range is in
  -- main memory and holds that byte.
  pub mem_store-other :
      (len addr v : ℕ)
      → (dram_base ≤ addr → (b < addr - dram_base) ⊎ (addr - dram_base + len ≤ b))
      → Keeps HasByte (mem_store B len addr v)
  unfolding mem_store phy_mem_store set_status
  mem_store-other len addr v apart = Keeps-bind (gets _) _ (Keeps-gets _) (λ faults.
      Keeps-bind _ _ (Keeps-modify _ (λ r h. h)) (λ _.
        Keeps-if faults _ _ (λ _. Keeps-pure tt)
          (λ _.
            Keeps-if (not (leb dram_base addr)) _ _
              (λ _. dispatch_w-byte len v (store_entry mem_entries 0 addr))
              (λ high.
                Keeps-if (leb (addr - dram_base + len) B.mem_size) _ _
                  (λ _. Keeps-set_world _ (λ r h.
                    write_bytes-other r.world.main_mem (addr - dram_base) len v b
                      (apart (ground (arith, high)))
                    ∙ h))
                  (λ _. Keeps-undefined)))))
