-- ===== src/Examples/Protection.antt =====
-- Memory protection and translation at a hart just out of reset.
use native.Mathlib.Nat.{pow-suc}
use rv_emu.Base.{
  sext, some, none, ◌↔◌, bit, ℕ, zero, suc, ◌/◌, ◌%◌, ◌==◌, ap, lt-pow, replicate, get_or-replicate,
  ◌+◌, ◌-◌, ◌*◌, ◌^◌, ◌≤◌, ◌<◌, ◌≡◌, refl, true, false, arith, ◌⊎◌, length, get_or,
}
use rv_emu.Hart.{HartState, TlbEntry, noexc, illinst}
use rv_emu.Trap.{create_exception}
use rv_emu.Hart.Reset.{reset_state}
use rv_emu.Platform.{Platform, IsFfsll}
use rv_emu.Pmp.{
  chk_pmp_range, chk_pmp_range_exp, sync_exp_pmp, pmp_count, sync_step, exp_entry, exp_bounds,
  napot_bounds, uint64_all_ones,
}
use rv_emu.Pmp.Sync.{AreBytes, IsSynced, sync_exp_pmp-IsSynced}
use rv_emu.Pmp.Range.{chk_pmp_range_exp-sync}
use rv_emu.Pmp.Config.{pmpcfg_rw}
use rv_emu.Pmp.Config.Locks.{IsConfig, Keeps}
use rv_emu.Pmp.Config.Writes.{pmpcfg_rw-Keeps, pmpcfg_rw-none}
use rv_emu.Pmp.Napot.{napot_bounds_half}
use rv_emu.Tlb.{tlb_add, tlb_clear}
use rv_emu.Tlb.Count.{IsCounted, tlb_clear-IsCounted, tlb_add-IsCounted}

-- Trailing zeros of a word, by search: a `Platform` that does what is documented.
count_zeros : ℕ → ℕ → ℕ
count_zeros zero x = 0
count_zeros (suc fuel) x = elim (x % 2 == 1) [ true ↦ 0 | false ↦ suc (count_zeros fuel (x / 2)) ]

mul_le : (p q : ℕ) → p ≤ (2 * q + 1) * p
mul_le p q = omega arith

count_zeros_lem : (fuel q k : ℕ) → k < fuel → count_zeros fuel ((2 * q + 1) * 2 ^ k) ≡ k
unfolding count_zeros
count_zeros_lem zero q k h = absurd (omega arith)
count_zeros_lem (suc fuel) q zero h =
    let odd : (2 * q + 1) * 2 ^ 0 % 2 ≡ 1 = omega arith in rw (count_zeros, odd) refl
count_zeros_lem (suc fuel) q (suc k) h =
    let p = ap (λ (t : ℕ). (2 * q + 1) * t) (pow-suc 2 k) in
    let even : (2 * q + 1) * 2 ^ suc k % 2 ≡ 0 = omega (arith, p) in
    let next : (2 * q + 1) * 2 ^ suc k / 2 ≡ (2 * q + 1) * 2 ^ k = omega (arith, p) in
    rw (count_zeros, even, next, count_zeros_lem fuel q k (omega arith)) refl

pub host : Platform
unfolding count_zeros
host = record { ffsll = λ x. count_zeros x x + 1; shl_over = λ x k. 0; shl_int_over = λ x k. 0 }

host-IsFfsll : IsFfsll host
unfolding host
host-IsFfsll q k h =
    ap (λ (t : ℕ). t + 1)
      (count_zeros_lem ((2 * q + 1) * 2 ^ k) q k (omega (arith, lt-pow k, mul_le (2 ^ k) q)))

-- The first entry of the reset state opens the lower half of the space that it names.
abbrev pub boot : HartState
unfolding reset_state
boot = record (reset_state 0) { privmode = 1 }

pub boot-AreBytes : AreBytes boot.pmp
unfolding reset_state
boot-AreBytes zero = omega arith
boot-AreBytes (suc i) = zero_byte i
  where
    zero_byte : (j : ℕ) → get_or (replicate 15 0) j 0 < 256
    zero_byte j = rw (get_or-replicate {A = ℕ} 15 j 0) (omega arith)

pub boot_length : length boot.pmp_expanded ≡ pmp_count
unfolding reset_state
boot_length = refl

synced_allows : chk_pmp_range_exp (sync_exp_pmp host boot) 0x8000_0000 0x8000_0003 ≡ 7
unfolding reset_state host sync_exp_pmp sync_step exp_entry exp_bounds napot_bounds
    chk_pmp_range_exp
synced_allows = refl

sync_exp_pmp-IsSynced_example : IsSynced host boot.pmp (sync_exp_pmp host boot).pmp pmp_count
sync_exp_pmp-IsSynced_example = sync_exp_pmp-IsSynced host boot boot-AreBytes boot_length

pub boot-IsConfig : IsConfig boot.pmp
unfolding reset_state
boot-IsConfig = record {
  cfgs = refl;
  locks = refl;
  entries = refl;
  bytes = boot-AreBytes;
  addrs = λ i lt on. absurd (boot_unlocked i on);
}
  where
    boot_unlocked : (j : ℕ) → bit (get_or boot.pmpcfg j 0) 7 ≡ true → ⊥
    boot_unlocked zero e = ground arith
    boot_unlocked (suc j) e = ground (arith, get_or-replicate {A = ℕ} 15 j 0, e)

-- CSRRW of pmpcfg0: entry 0 is locked as TOR, and the last byte is shifted out of an `int`.
pmpcfg_rw-Keeps_example :
    (hs' : HartState) × (pmpcfg_rw host boot (0x3A0 + 2 * 0) 5 0x1F00_0000_0000_008F 1
      ≡ some (hs', noexc))
    × IsConfig hs'.pmp
    × Keeps boot.pmp hs'.pmp
    × IsSynced host hs'.pmp hs'.pmp pmp_count
pmpcfg_rw-Keeps_example =
    pmpcfg_rw-Keeps host boot 0 5 0x1F00_0000_0000_008F 1 boot-IsConfig (omega arith)

pmpcfg_rw-none_example :
    ((pmpcfg_rw host boot (0x3A0 + 4) 5 1 1 ≡ none) ↔ ((4 % 2 ≡ 0) × (4 ≤ 4)))
    × (4 % 2 ≡ 1
        → pmpcfg_rw host boot (0x3A0 + 4) 5 1 1
          ≡ some (create_exception boot illinst (sext 32 boot.inst)))
pmpcfg_rw-none_example = pmpcfg_rw-none host boot 4 5 1 1 (omega arith)

chk_pmp_range_exp-sync_example :
    let fast = chk_pmp_range_exp (sync_exp_pmp host boot) 0x8000_0000 0x8000_0003 in
    let slow = chk_pmp_range host boot 0x8000_0000 0x8000_0003 in
    (fast ≡ slow)
    ⊎ (fast ≡ 7)
      × ((slow ≡ 0xF7) × (0x8000_0000 < 0x8000_0003)
          ⊎ (slow ≡ 0xFF) × ((boot.privmode ≡ 3) ⊎ (uint64_all_ones ≤ 0x8000_0003)))
chk_pmp_range_exp-sync_example =
    chk_pmp_range_exp-sync host boot boot-AreBytes boot_length 0x8000_0000 0x8000_0003 (omega arith)

-- The eight bytes from 0x8000_0000 are given four.
napot_bounds_half_example :
    napot_bounds host (0x1000_0000 * 2 ^ (0 + 1) + (2 ^ 0 - 1))
    ≡ (0x1000_0000 * 2 ^ (0 + 3), 0x1000_0000 * 2 ^ (0 + 3) + 2 ^ (0 + 2))
napot_bounds_half_example =
    napot_bounds_half host 0 0x1000_0000 host-IsFfsll (omega arith) (omega arith)

abbrev kernel_page : TlbEntry
kernel_page = record {
  virt_page = 0x4000_0000;
  phy_page = 0x8000_0000;
  pte_addr = 0x8020_0000;
  size = 2;
  permissions = 7;
  user = false;
}

tlb_add-IsCounted_example : IsCounted (tlb_add tlb_clear kernel_page)
tlb_add-IsCounted_example =
    tlb_add-IsCounted tlb_clear kernel_page tlb_clear-IsCounted (omega arith) (λ e. omega arith)

superpages_in_use : (tlb_add tlb_clear kernel_page).max_entry_size ≡ 2
unfolding tlb_add tlb_clear
superpages_in_use = refl
