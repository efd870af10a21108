-- ===== src/Pmp.antt =====
-- mem.cpp: physical memory protection, on the raw registers (`chk_pmp`, `chk_pmp_range`) and on the
-- expanded entries (`sync_exp_pmp`, `chk_pmp_exp`, `chk_pmp_range_exp`).
pub mod Sync
pub mod Range
pub mod Napot
pub mod Config
use rv_emu.Base.{
  ℕ, zero, suc, ◌+◌, ◌-◌, ◌*◌, ◌/◌, ◌%◌, ◌^◌, ◌<◌, Bool, true, false, not, ◌&&◌, ◌||◌, ltb, leb,
  ◌==◌, if◌then◌else◌, u8, u16, u64, bit, field, get_or, set,
}
use mathlib.Core.Bool.{xor}
use rv_emu.Hart.{HartState, Pmp, ExpPmp}
use rv_emu.Platform.{Platform, shl64}

abbrev pub pmp_count : ℕ
pmp_count = 16

abbrev pub uint64_all_ones : ℕ
uint64_all_ones = 2 ^ 64 - 1

-- What a read of `pmp_expanded` out of range would give; the loops stay in range.
abbrev pub no_entry : ExpPmp
no_entry = record { enable = false; lock = false; lbound = 0; ubound = 0; lxwr = 0 }

-- `cfg & 0b10000111` of a byte.
abbrev pub lxwr_of : ℕ → ℕ
lxwr_of cfg = field cfg 7 1 * 2 ^ 7 + field cfg 0 3

-- `lower_bound <= addr && addr < upper_bound`.
abbrev pub within : ℕ × ℕ → ℕ → Bool
within (lo, up) addr = leb lo addr && ltb addr up

module _ (P : Platform) where
  -- The bounds of a NAPOT entry, as `chk_pmp_range` computes them.
  unfoldable pub napot_bounds : ℕ → ℕ × ℕ
  napot_bounds pmp_addr =
      let size = u8 (P.ffsll (uint64_all_ones - pmp_addr) - 1) in
      let lower = shl64 P (pmp_addr / 2 ^ size) (size + 2) in
      if not (pmp_addr == uint64_all_ones)
      then (lower, u64 (lower + shl64 P 1 (size + 2)))
      else (0, uint64_all_ones)

  -- The `switch` of `chk_pmp_range`.
  unfoldable pub range_bounds : Pmp → ℕ → ℕ × ℕ
  range_bounds pmp ind =
      let addr = get_or pmp.pmpaddr ind 0 in
      let a = field (get_or pmp.pmpcfg ind 0) 3 2 in
      if a == 1
      then (if ind == 0 then 0 else u64 (get_or pmp.pmpaddr (ind - 1) 0 * 4), u64 (addr * 4))
      else if a == 2
      then (u64 (addr * 4), u64 (u64 (addr * 4) + 4))
      else napot_bounds addr

  -- The loop of `chk_pmp_range` at entry `ind`, with `left` entries to go.
  unfoldable pub range_loop : HartState → ℕ → ℕ → ℕ → ℕ → ℕ
  unfolding xor
  range_loop hs addrl addrh zero ind = 0xFF
  range_loop hs addrl addrh (suc left) ind =
      let rest = range_loop hs addrl addrh left (ind + 1) in
      let cfg = get_or hs.pmpcfg ind 0 in
      let bounds = range_bounds hs.pmp ind in
      let lowchk = within bounds addrl in
      let hichk = within bounds addrh in
      if field cfg 3 2 == 0
      then rest
      else if hs.privmode == 3 && not (bit cfg 7)
      then rest
      else if lowchk && hichk
      then lxwr_of cfg
      else if xor lowchk hichk
      then 0xF7
      else rest

  unfoldable pub chk_pmp_range : HartState → ℕ → ℕ → ℕ
  unfolding range_loop
  chk_pmp_range hs addrl addrh = range_loop hs addrl addrh pmp_count 0

  -- The `switch` of `chk_pmp`, which takes the configuration bytes for addresses in two cases.
  unfoldable pub chk_bounds : Pmp → ℕ → ℕ × ℕ
  chk_bounds pmp ind =
      let cfg = get_or pmp.pmpcfg ind 0 in
      let a = field cfg 3 2 in
      if a == 1
      then (if ind == 0 then 0 else get_or pmp.pmpcfg (ind - 1) 0 * 4, cfg * 4)
      else if a == 2
      then (cfg * 4, cfg * 4 + 4)
      else napot_bounds (get_or pmp.pmpaddr ind 0)

  -- The loop of `chk_pmp`.
  unfoldable pub chk_loop : HartState → ℕ → ℕ → ℕ → ℕ
  chk_loop hs addr zero ind = 0xFFF0
  chk_loop hs addr (suc left) ind =
      let rest = chk_loop hs addr left (ind + 1) in
      let cfg = get_or hs.pmpcfg ind 0 in
      if field cfg 3 2 == 0
      then rest
      else if hs.privmode == 3 && not (bit cfg 7)
      then rest
      else if within (chk_bounds hs.pmp ind) addr
      then u16 (lxwr_of cfg * 2 ^ 6 + ind)
      else rest

  unfoldable pub chk_pmp : HartState → ℕ → ℕ
  unfolding chk_loop
  chk_pmp hs addr = chk_loop hs addr pmp_count 0

  -- The `switch` of `sync_exp_pmp`, a copy of that in `chk_pmp_range`.
  unfoldable pub exp_bounds : Pmp → ℕ → ℕ × ℕ
  exp_bounds pmp i =
      let addr = get_or pmp.pmpaddr i 0 in
      let a = field (get_or pmp.pmpcfg i 0) 3 2 in
      if a == 1
      then (if i == 0 then 0 else u64 (get_or pmp.pmpaddr (i - 1) 0 * 4), u64 (addr * 4))
      else if a == 2
      then (let lbound = u64 (addr * 4) in (lbound, u64 (lbound + 4)))
      else napot_bounds addr

  -- The entry that `sync_exp_pmp` writes for an entry that is not off.
  unfoldable pub exp_entry : Pmp → ℕ → ExpPmp
  exp_entry pmp i =
      let cfg = get_or pmp.pmpcfg i 0 in
      let bounds = exp_bounds pmp i in
      record {
        enable = true;
        lock = cfg / 2 ^ 7 == 1;
        lbound = bounds.0;
        ubound = bounds.1;
        lxwr = lxwr_of cfg;
      }

  -- The body of the loop of `sync_exp_pmp`.
  unfoldable pub sync_step : ℕ → Pmp → Pmp
  sync_step i pmp =
      let old = get_or pmp.pmp_expanded i no_entry in
      let e = exp_entry pmp i in
      let is_rwx = e.lxwr == 7 in
      if field (get_or pmp.pmpcfg i 0) 3 2 == 0
      then record pmp { pmp_expanded = set pmp.pmp_expanded i (record old { enable = false }) }
      else record pmp {
        pmp_expanded = set pmp.pmp_expanded i e;
        min_lbound = if ltb e.lbound pmp.min_lbound && not is_rwx then e.lbound else pmp.min_lbound;
        max_ubound = if ltb pmp.max_ubound e.ubound && not is_rwx then e.ubound else pmp.max_ubound;
        pmp_all_enabled =
            e.lbound == 0 && e.ubound == uint64_all_ones && is_rwx || pmp.pmp_all_enabled;
      }

  unfoldable pub sync_loop : ℕ → ℕ → Pmp → Pmp
  sync_loop zero i pmp = pmp
  sync_loop (suc left) i pmp = sync_loop left (i + 1) (sync_step i pmp)

  unfoldable pub sync_exp_pmp : HartState → HartState
  unfolding sync_loop
  sync_exp_pmp hs = record hs {
    pmp =
        sync_loop pmp_count 0
          (record hs.pmp { pmp_all_enabled = false; min_lbound = uint64_all_ones; max_ubound = 0 });
  }

-- The loop of `chk_pmp_range_exp` at entry `i`, with `left` entries to go.
unfoldable pub range_exp_loop : HartState → ℕ → ℕ → ℕ → ℕ → ℕ
unfolding xor
range_exp_loop hs addrl addrh zero i = 0xFF
range_exp_loop hs addrl addrh (suc left) i =
    let rest = range_exp_loop hs addrl addrh left (i + 1) in
    let thispmp = get_or hs.pmp_expanded i no_entry in
    let lowchk = within (thispmp.lbound, thispmp.ubound) addrl in
    let hichk = within (thispmp.lbound, thispmp.ubound) addrh in
    if not thispmp.enable
    then rest
    else if hs.privmode == 3 && not thispmp.lock
    then rest
    else if lowchk && hichk
    then thispmp.lxwr
    else if xor lowchk hichk
    then 0xF7
    else rest

unfoldable pub chk_pmp_range_exp : HartState → ℕ → ℕ → ℕ
unfolding range_exp_loop
chk_pmp_range_exp hs addrl addrh =
    if hs.pmp_all_enabled && (ltb hs.max_ubound addrl || ltb addrh hs.min_lbound)
    then 7
    else range_exp_loop hs addrl addrh pmp_count 0

-- The loop of `chk_pmp_exp`.
unfoldable pub exp_loop : HartState → ℕ → ℕ → ℕ → ℕ
exp_loop hs addr zero i = 0xFFF0
exp_loop hs addr (suc left) i =
    let rest = exp_loop hs addr left (i + 1) in
    let thispmp = get_or hs.pmp_expanded i no_entry in
    if not thispmp.enable
    then rest
    else if hs.privmode == 3 && not thispmp.lock
    then rest
    else if within (thispmp.lbound, thispmp.ubound) addr
    then u16 (thispmp.lxwr * 2 ^ 6 + i)
    else rest

unfoldable pub chk_pmp_exp : HartState → ℕ → ℕ
unfolding exp_loop
chk_pmp_exp hs addr =
    if hs.pmp_all_enabled && (ltb hs.max_ubound addr || ltb addr hs.min_lbound)
    then 7 * 2 ^ 6
    else exp_loop hs addr pmp_count 0
