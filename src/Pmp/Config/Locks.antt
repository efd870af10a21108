-- ===== src/Pmp/Config/Locks.antt =====
-- That the write of one configuration byte respects the locks, for `pmpcfg_rw` of cpu.cpp.
use rv_emu.Base.{
  ℕ, ◌-◌, ◌*◌, ◌<◌, ◌≡◌, refl, true, false, not, ◌&&◌, ◌||◌, ◌==◌, bit, field, get_or, set, length,
  arith, length-set, get_or-set, get_or-set_self, Bool-cases, inl, inr, ◌∙◌, if◌then◌else◌, Bool,
}
use rv_emu.Hart.{Pmp}
use rv_emu.Pmp.{pmp_count}
use rv_emu.Pmp.Sync.{AreBytes}
use rv_emu.Pmp.Config.{written, lock_addrs, cfg_step}

abbrev pub locked : Pmp → ℕ → Bool
locked pmp i = bit (get_or pmp.pmpcfg i 0) 7

-- A locked entry has a locked address, and a locked TOR entry the address before it too.
abbrev pub LocksAddrs : Pmp → Type 0
LocksAddrs pmp =
    (i : ℕ)
    → i < pmp_count
    → locked pmp i ≡ true
    → (get_or pmp.pmp_lockedaddr i false ≡ true)
      × (field (get_or pmp.pmpcfg i 0) 3 2 ≡ 1
          → 0 < i
          → get_or pmp.pmp_lockedaddr (i - 1) false ≡ true)

-- The arrays have their declared sizes and the bytes are bytes.
pub record IsConfig (pmp : Pmp) : Type 0 where
  pub cfgs : length pmp.pmpcfg ≡ pmp_count
  pub locks : length pmp.pmp_lockedaddr ≡ pmp_count
  pub entries : length pmp.pmp_expanded ≡ pmp_count
  pub bytes : AreBytes pmp
  pub addrs : LocksAddrs pmp

-- What no write changes: addresses, and the bytes of locked entries.
pub record Keeps (old new : Pmp) : Type 0 where
  pub same_addr : new.pmpaddr ≡ old.pmpaddr
  pub same_locked_cfg :
      (i : ℕ) → locked old i ≡ true → get_or new.pmpcfg i 0 ≡ get_or old.pmpcfg i 0
  pub same_locked_addr :
      (i : ℕ) → get_or old.pmp_lockedaddr i false ≡ true → get_or new.pmp_lockedaddr i false ≡ true

written-byte : (funct old v : ℕ) → old < 256 → v < 256 → written funct old v < 256
unfolding written
written-byte funct old v o w = ground arith

-- A write and its locks at entry `i`.
module _ (pmp : Pmp) (c : IsConfig pmp) (i : ℕ) (fits : i < pmp_count) (v : ℕ) (byte : v < 256)
    (free : locked pmp i ≡ false) where
  new : Pmp
  unfolding lock_addrs
  new = lock_addrs i (record pmp { pmpcfg = set pmp.pmpcfg i v })

  new_cfg : new.pmpcfg ≡ set pmp.pmpcfg i v
  unfolding new lock_addrs
  new_cfg = ground arith

  new_get : (j : ℕ) → get_or new.pmpcfg j 0 ≡ (if i == j then v else get_or pmp.pmpcfg j 0)
  new_get j = rw new_cfg (get_or-set pmp.pmpcfg i j v 0 (omega (arith, c.cfgs)))

  new_locks :
      (j : ℕ)
      → get_or new.pmp_lockedaddr j false ≡ (
          bit v 7 && (i == j || field v 3 2 == 1 && not (i == 0) && (i - 1 == j))
          || get_or pmp.pmp_lockedaddr j false)
  unfolding new lock_addrs
  new_locks j =
      let own = set pmp.pmp_lockedaddr i true in
      let len = length-set pmp.pmp_lockedaddr i true in
      let here = get_or-set_self pmp.pmpcfg i v 0 (omega (arith, c.cfgs)) in
      ground (
        arith,
        here,
        get_or-set pmp.pmp_lockedaddr i j true false (omega (arith, c.locks)),
        get_or-set own (i - 1) j true false (omega (arith, len, c.locks)),
      )

  new_sizes :
      (length new.pmpcfg ≡ pmp_count)
      × (length new.pmp_lockedaddr ≡ pmp_count)
      × (length new.pmp_expanded ≡ pmp_count)
  unfolding new lock_addrs
  new_sizes =
      let own = set pmp.pmp_lockedaddr i true in
      let len = length-set pmp.pmp_lockedaddr i true in
      (
        rw (new_cfg) (length-set pmp.pmpcfg i v ∙ c.cfgs),
        ground (arith, len, length-set own (i - 1) true, c.locks),
        ground (arith, c.entries),
      )

  new-IsConfig : IsConfig new
  new-IsConfig = record {
    cfgs = new_sizes.0;
    locks = new_sizes.1;
    entries = new_sizes.2;
    bytes = λ j. ground (arith, new_get j, c.bytes j, byte);
    addrs = λ j lt on. (
      ground (arith, new_get j, new_locks j, c.addrs j lt, on),
      λ tor p. ground (arith, new_get j, new_locks (j - 1), c.addrs j lt, on, tor),
    );
  }

  new-Keeps : Keeps pmp new
  unfolding new lock_addrs
  new-Keeps = record {
    same_addr = ground arith;
    same_locked_cfg = λ j on. ground (arith, new_get j, on);
    same_locked_addr = λ j on. ground (arith, new_locks j, on);
  }

-- What a run of writes gives.
abbrev pub Follows : Pmp → Pmp → Type 0
Follows old new = IsConfig new × Keeps old new

pub same-Follows : (pmp : Pmp) → IsConfig pmp → Follows pmp pmp
same-Follows pmp c =
    (c, record { same_addr = refl; same_locked_cfg = λ i on. refl; same_locked_addr = λ i on. on })

pub Keeps-trans : (a b c : Pmp) → Keeps a b → Keeps b c → Keeps a c
Keeps-trans a b c p q = record {
  same_addr = q.same_addr ∙ p.same_addr;
  same_locked_cfg =
      λ i on. let first = p.same_locked_cfg i on in q.same_locked_cfg i (rw first on) ∙ first;
  same_locked_addr = λ i on. q.same_locked_addr i (p.same_locked_addr i on);
}

pub cfg_step-Follows :
    (funct wvalue i b : ℕ) (pmp : Pmp)
    → i < pmp_count
    → IsConfig pmp
    → Follows pmp (cfg_step funct wvalue i b pmp)
unfolding cfg_step new
cfg_step-Follows funct wvalue i b pmp fits c =
    let v = written funct (get_or pmp.pmpcfg i 0) (field wvalue (8 * b) 8) in
    let byte =
      written-byte funct (get_or pmp.pmpcfg i 0) (field wvalue (8 * b) 8) (c.bytes i)
        (omega arith) in
    elim (Bool-cases (bit (get_or pmp.pmpcfg i 0) 7)) [
      | inl on ↦ rw on (same-Follows pmp c)
      | inr free ↦
          rw free (new-IsConfig pmp c i fits v byte free, new-Keeps pmp c i fits v byte free)
    ]
