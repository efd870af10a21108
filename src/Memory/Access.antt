-- ===== src/Memory/Access.antt =====
-- mem.ipp and mem.cpp: `mem_fetch` and `mem_store`, the accesses that memory protection guards.
use rv_emu.Base.{ℕ, ◌+◌, ◌-◌, Bool, not, ◌&&◌, ◌||◌, ltb, leb, ◌==◌, if◌then◌else◌, bit, u64}
use rv_emu.Hart.{HartState}
use rv_emu.Pmp.{chk_pmp_exp, chk_pmp_range_exp}
use rv_emu.Memory.{
  Board, M, pure, gets, modify, ◌>>=◌, ◌>>◌, dram_base, phy_mem_fetch, phy_mem_store,
}

-- The last address of an access of `len` bytes.
abbrev pub last_of : ℕ → ℕ → ℕ
last_of addr len = u64 (addr + len - 1)

-- The tests of `mem_fetch` on a `pmp_state`: a boundary, no entry outside M-mode, a load without
-- R, a fetch without X.
unfoldable pub fetch_denied : HartState → ℕ → Bool
fetch_denied hs pmp_state =
    pmp_state == 0xF7
    || pmp_state == 0xFF && ltb hs.privmode 3
    || hs.mem_status && not (bit pmp_state 0)
    || not (hs.mem_status || bit pmp_state 2)

unfoldable pub store_denied : HartState → ℕ → Bool
store_denied hs pmp_state =
    pmp_state == 0xF7 || pmp_state == 0xFF && ltb hs.privmode 3 || not (bit pmp_state 1)

-- The tests of the two functions on single bytes.
unfoldable pub fetch_denied_8 : HartState → ℕ → Bool
fetch_denied_8 hs pmp_state =
    pmp_state == 0xFFF0 && leb hs.privmode 1
    || hs.mem_status && not (bit pmp_state 6)
    || not (hs.mem_status || bit pmp_state 8)

unfoldable pub store_denied_8 : HartState → ℕ → Bool
store_denied_8 hs pmp_state = pmp_state == 0xFFF0 && leb hs.privmode 1 || not (bit pmp_state 7)

-- The decision on an access of `len` bytes.
unfoldable pub fetch_faults : HartState → ℕ → ℕ → Bool
unfolding fetch_denied fetch_denied_8
fetch_faults hs len addr =
    if len == 1
    then fetch_denied_8 hs (chk_pmp_exp hs addr)
    else fetch_denied hs (chk_pmp_range_exp hs addr (last_of addr len))

unfoldable pub store_faults : HartState → ℕ → ℕ → Bool
unfolding store_denied store_denied_8
store_faults hs len addr =
    if len == 1
    then store_denied_8 hs (chk_pmp_exp hs addr)
    else store_denied hs (chk_pmp_range_exp hs addr (last_of addr len))

unfoldable pub set_status : {D : Type 0} → Bool → M D (Unit {0})
set_status b = modify (λ hs. record hs { mem_status = b })

module _ {D : Type 0} (B : Board D) where
  abbrev pub outside : ℕ → Bool
  outside addr = ltb addr 0x1000 || leb (dram_base + B.mem_size) addr

  unfoldable pub mem_fetch : ℕ → ℕ → M D ℕ
  unfolding fetch_faults phy_mem_fetch
  mem_fetch len addr = do
    faults ← gets (λ hs. outside addr || fetch_faults hs len addr)
    set_status faults
    if faults then pure 0 else phy_mem_fetch B len addr

  unfoldable pub mem_store : ℕ → ℕ → ℕ → M D (Unit {0})
  unfolding store_faults phy_mem_store
  mem_store len addr data_ = do
    faults ← gets (λ hs. outside addr || store_faults hs len addr)
    set_status faults
    if faults then pure tt else phy_mem_store B len addr data_
