-- ===== src/Memory/Checks.antt =====
-- mem.cpp: the checks of accesses to one byte (`chk_pmp_exp`) against those of mem.ipp on a range.
use rv_emu.Base.{
  ℕ, zero, suc, ◌+◌, ◌*◌, ◌^◌, ◌≤◌, ◌<◌, ◌≡◌, refl, Bool, true, false, not, ◌&&◌, ◌||◌, arith, ◌⊎◌,
  inl, inr, ltb, ◌==◌, if◌then◌else◌, u16, get_or, Bool-cases, ◌≢◌, subst, sym, length,
}
use rv_emu.Hart.{HartState}
use rv_emu.Pmp.{
  no_entry, pmp_count, range_exp_loop, chk_pmp_range_exp, exp_loop, chk_pmp_exp, within,
  sync_exp_pmp,
}
use rv_emu.Pmp.Sync.{AreBytes, sync_exp_pmp-IsSynced}
use rv_emu.Trap.Rule.{IsMode}
use rv_emu.Platform.{Platform}
use mathlib.Core.Bool.{xor}
use rv_emu.Memory.Access.{
  fetch_denied, store_denied, fetch_denied_8, store_denied_8, fetch_faults, store_faults,
}

-- A lock bit and the bits XWR, as `sync_exp_pmp` stores them.
abbrev pub IsLxwr : ℕ → Type 0
IsLxwr x = (x < 8) ⊎ ((128 ≤ x) × (x < 136))

abbrev pub HasPerms : HartState → Type 0
HasPerms hs =
    (j : ℕ)
    → j < pmp_count
    → (get_or hs.pmp_expanded j no_entry).enable ≡ true
    → IsLxwr (get_or hs.pmp_expanded j no_entry).lxwr

-- The two answers for one address: no entry, or the entry `i` with its permissions.
abbrev Agrees : ℕ → ℕ → Type 0
Agrees byte range =
    ((byte ≡ 0xFFF0) × (range ≡ 0xFF))
    ⊎ ((i : ℕ) × (i < 16) × IsLxwr range × (byte ≡ range * 2 ^ 6 + i))

step-Agrees :
    (off skipped meets : Bool) (x i byte range : ℕ)
    → (off ≡ false → IsLxwr x)
    → i < 16
    → Agrees byte range
    → Agrees
        (if off
          then byte
          else if skipped
          then byte
          else if meets
          then u16 (x * 2 ^ 6 + i)
          else byte)
        (if off
          then range
          else if skipped
          then range
          else if meets && meets
          then x
          else if xor meets meets
          then 0xF7
          else range)
unfolding xor
step-Agrees true skipped meets x i byte range l b h = h
step-Agrees false true meets x i byte range l b h = h
step-Agrees false false false x i byte range l b h = h
step-Agrees false false true x i byte range l b h = inr (i, b, l refl, ground (arith, l refl, b))

exp_loop-Agrees :
    (hs : HartState) (addr left i : ℕ)
    → i + left ≡ pmp_count
    → HasPerms hs
    → Agrees (exp_loop hs addr left i) (range_exp_loop hs addr addr left i)
unfolding exp_loop range_exp_loop
exp_loop-Agrees hs addr zero i e all = inl (refl, refl)
exp_loop-Agrees hs addr (suc left) i e all =
    let rest = exp_loop-Agrees hs addr left (i + 1) (omega arith) all in
    let here = all i (omega arith) in
    let x = get_or hs.pmp_expanded i no_entry in
    step-Agrees (not x.enable) (hs.privmode == 3 && not x.lock) (within (x.lbound, x.ubound) addr)
      x.lxwr i _ _ (λ on. here (ground (arith, on))) (omega arith) rest

chk_pmp_exp-Agrees :
    (hs : HartState) (addr : ℕ)
    → HasPerms hs
    → Agrees (chk_pmp_exp hs addr) (chk_pmp_range_exp hs addr addr)
unfolding chk_pmp_exp chk_pmp_range_exp
chk_pmp_exp-Agrees hs addr all =
    elim (Bool-cases (hs.pmp_all_enabled && (ltb hs.max_ubound addr || ltb addr hs.min_lbound))) [
      | inl on ↦ rw on (inr (0, omega arith, inl (omega arith), refl))
      | inr off ↦ rw off (exp_loop-Agrees hs addr pmp_count 0 refl all)
    ]

fetch_denied-Agrees :
    (hs : HartState) (byte range : ℕ)
    → hs.privmode ≢ 2
    → hs.privmode < 4
    → Agrees byte range
    → fetch_denied_8 hs byte ≡ fetch_denied hs range
unfolding fetch_denied fetch_denied_8
fetch_denied-Agrees hs byte range m b (inl (eb, er)) = ground (arith, m, b, eb, er)
fetch_denied-Agrees hs byte range m b (inr (i, small, l, e)) = ground (arith, m, b, small, l, e)

store_denied-Agrees :
    (hs : HartState) (byte range : ℕ)
    → hs.privmode ≢ 2
    → hs.privmode < 4
    → Agrees byte range
    → store_denied_8 hs byte ≡ store_denied hs range
unfolding store_denied store_denied_8
store_denied-Agrees hs byte range m b (inl (eb, er)) = ground (arith, m, b, eb, er)
store_denied-Agrees hs byte range m b (inr (i, small, l, e)) = ground (arith, m, b, small, l, e)

synced_mode :
    (P : Platform) (hs : HartState)
    → IsMode hs.privmode
    → ((sync_exp_pmp P hs).privmode ≢ 2) × ((sync_exp_pmp P hs).privmode < 4)
unfolding sync_exp_pmp
synced_mode P hs m = (λ e. ground (arith, m, e), ground (arith, m))

synced-HasPerms :
    (P : Platform) (hs : HartState)
    → AreBytes hs.pmp
    → length hs.pmp_expanded ≡ pmp_count
    → HasPerms (sync_exp_pmp P hs)
synced-HasPerms P hs bytes len j b on =
    let e = ((sync_exp_pmp-IsSynced P hs bytes len).matches j b).perms on in
    subst IsLxwr (sym e) (ground (arith, bytes j))

-- In mode U, S or M, with byte-sized configurations and sixteen expanded entries, after
-- sync_exp_pmp the checks of one-byte fetches and stores decide as those of longer ones do on the
-- range of that one address.
pub byte_checks :
    (P : Platform) (hs : HartState) (addr : ℕ)
    → IsMode hs.privmode
    → AreBytes hs.pmp
    → length hs.pmp_expanded ≡ pmp_count
    → let q = sync_exp_pmp P hs in
      (fetch_faults q 1 addr ≡ fetch_denied q (chk_pmp_range_exp q addr addr))
      × (store_faults q 1 addr ≡ store_denied q (chk_pmp_range_exp q addr addr))
unfolding fetch_faults store_faults
byte_checks P hs addr mode bytes len =
    let q = sync_exp_pmp P hs in
    let m : (q.privmode ≢ 2) × (q.privmode < 4) = synced_mode P hs mode in
    let a = chk_pmp_exp-Agrees q addr (synced-HasPerms P hs bytes len) in
    (fetch_denied-Agrees q _ _ m.0 m.1 a, store_denied-Agrees q _ _ m.0 m.1 a)
