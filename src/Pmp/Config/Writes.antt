-- ===== src/Pmp/Config/Writes.antt =====
-- What `pmpcfg_rw` of cpu.cpp does to locks and to the expanded entries.
use rv_emu.Base.{
  ℕ, zero, suc, ◌+◌, ◌-◌, ◌*◌, ◌%◌, ◌≤◌, ◌<◌, ◌≡◌, refl, false, leb, bit, u8, set, arith,
  Bool-cases, inl, inr, ◌∙◌, length, length-set, Option, some, none, ◌↔◌, sext,
}
use rv_emu.Hart.{HartState, HartException, Pmp, TlbStruct, noexc, illinst}
use rv_emu.Platform.{Platform}
use rv_emu.Pmp.{pmp_count, sync_exp_pmp, range_bounds}
use rv_emu.Pmp.Sync.{IsSynced, sync_exp_pmp-IsSynced}
use rv_emu.Trap.{create_exception}
use rv_emu.Pmp.Config.{cfg_step, cfg_loop, pmpcfg_rw}
use rv_emu.Pmp.Config.Locks.{IsConfig, Keeps, Follows, same-Follows, Keeps-trans, cfg_step-Follows}

-- What a write keeps beside memory protection.
abbrev beside : HartState → ℕ × TlbStruct × ℕ
beside hs = (hs.hartid, hs.tlb, hs.privmode)

abbrev pub SameRest : HartState → Option (HartState × HartException) → Type 0
SameRest hs none = Unit
SameRest hs (some r) = (beside r.0 ≡ beside hs) × (length r.0.regs ≡ length hs.regs)

module _ (P : Platform) where
  cfg_loop-Follows :
      (funct wvalue start left b readval : ℕ) (pmp : Pmp)
      → start + b + left ≤ pmp_count
      → IsConfig pmp
      → Follows pmp (cfg_loop P funct wvalue start left b (pmp, readval)).0
  unfolding cfg_loop
  cfg_loop-Follows funct wvalue start zero b readval pmp fits c = same-Follows pmp c
  cfg_loop-Follows funct wvalue start (suc left) b readval pmp fits c =
      let one = cfg_step-Follows funct wvalue (start + b) b pmp (omega arith) c in
      let rest =
        cfg_loop-Follows funct wvalue start left (b + 1) _ (cfg_step funct wvalue (start + b) b pmp)
          (omega arith) one.0 in
      (rest.0, Keeps-trans _ _ _ one.1 rest.1)

  -- Entries in step with some raw registers are in step with their own.
  IsSynced-self : (raw pmp : Pmp) → IsSynced P raw pmp pmp_count → IsSynced P pmp pmp pmp_count
  unfolding range_bounds
  IsSynced-self raw pmp s = record {
    same_cfg = refl;
    same_addr = refl;
    same_locked = refl;
    same_length = refl;
    matches = λ i lt.
        let m = s.matches i lt in
        record {
          enabled = rw (s.same_cfg) m.enabled;
          locked = λ on. rw (s.same_cfg) (m.locked on);
          lower = λ on. rw (range_bounds, s.same_cfg, s.same_addr) (m.lower on);
          upper = λ on. rw (range_bounds, s.same_cfg, s.same_addr) (m.upper on);
          perms = λ on. rw (s.same_cfg) (m.perms on);
        };
    window = s.window;
    covered = s.covered;
  }

  synced-IsConfig : (raw pmp : Pmp) → IsSynced P raw pmp pmp_count → IsConfig raw → IsConfig pmp
  synced-IsConfig raw pmp s c = record {
    cfgs = rw (s.same_cfg) c.cfgs;
    locks = rw (s.same_locked) c.locks;
    entries = s.same_length ∙ c.entries;
    bytes = λ i. rw (s.same_cfg) (c.bytes i);
    addrs = λ i lt. rw (s.same_cfg, s.same_locked) (c.addrs i lt);
  }

  synced-Keeps : (raw pmp : Pmp) → IsSynced P raw pmp pmp_count → Keeps raw pmp
  synced-Keeps raw pmp s = record {
    same_addr = s.same_addr;
    same_locked_cfg = λ i on. rw (s.same_cfg) refl;
    same_locked_addr = λ i on. rw (s.same_locked) on;
  }

  -- With arrays of their sizes and locks in order, a write of 0x3A0 or 0x3A2 raises no exception,
  -- keeps addresses, locked bytes and locks, keeps the locks in order, and leaves the expanded
  -- entries in step with the registers.
  pub pmpcfg_rw-Keeps :
      (hs : HartState) (n rd wvalue funct : ℕ)
      → IsConfig hs.pmp
      → n < 2
      → (hs' : HartState) × (pmpcfg_rw P hs (0x3A0 + 2 * n) rd wvalue funct ≡ some (hs', noexc))
        × IsConfig hs'.pmp
        × Keeps hs.pmp hs'.pmp
        × IsSynced P hs'.pmp hs'.pmp pmp_count
  unfolding pmpcfg_rw
  pmpcfg_rw-Keeps hs n rd wvalue funct c lt =
      let start = u8 (4 * ((0x3A0 + 2 * n) - 0x3A0)) in
      let result = cfg_loop P funct wvalue start 8 0 (hs.pmp, 0) in
      let even : bit (0x3A0 + 2 * n) 0 ≡ false = ground arith in
      let there : leb pmp_count start ≡ false = ground arith in
      let new = cfg_loop-Follows funct wvalue start 8 0 0 hs.pmp (omega arith) c in
      let mid = record hs { pmp = result.0; regs = set hs.regs rd result.1 } in
      let s = sync_exp_pmp-IsSynced P mid (new.0).bytes (new.0).entries in
      let final = (sync_exp_pmp P mid).pmp in
      (
        sync_exp_pmp P mid,
        rw (even, there) refl,
        synced-IsConfig result.0 final s new.0,
        Keeps-trans hs.pmp result.0 final new.1 (synced-Keeps result.0 final s),
        IsSynced-self result.0 final s,
      )

  pub pmpcfg_rw-same :
      (hs : HartState) (n rd wvalue funct : ℕ)
      → n < 2
      → SameRest hs (pmpcfg_rw P hs (0x3A0 + 2 * n) rd wvalue funct)
  unfolding pmpcfg_rw sync_exp_pmp
  pmpcfg_rw-same hs n rd wvalue funct lt =
      let even : bit (0x3A0 + 2 * n) 0 ≡ false = ground arith in
      let there : leb pmp_count (u8 (4 * ((0x3A0 + 2 * n) - 0x3A0))) ≡ false = ground arith in
      rw (even, there) (refl, length-set hs.regs rd _)

  -- For the numbers from 0x3A0 to 0x3AF, pmpcfg_rw leaves the arrays exactly for the even ones from
  -- 0x3A4 on, and raises an illegal instruction for the odd ones.
  pub pmpcfg_rw-none :
      (hs : HartState) (n rd wvalue funct : ℕ)
      → n < 16
      → ((pmpcfg_rw P hs (0x3A0 + n) rd wvalue funct ≡ none) ↔ ((n % 2 ≡ 0) × (4 ≤ n)))
        × (n % 2 ≡ 1
            → pmpcfg_rw P hs (0x3A0 + n) rd wvalue funct
              ≡ some (create_exception hs illinst (sext 32 hs.inst)))
  unfolding pmpcfg_rw
  pmpcfg_rw-none hs n rd wvalue funct lt = elim (Bool-cases (bit (0x3A0 + n) 0)) [
    | inl odd ↦ rw odd ((λ e. cc, λ c. absurd (ground arith)), λ e. refl)
    | inr even ↦ rw even (elim (Bool-cases (leb pmp_count (u8 (4 * ((0x3A0 + n) - 0x3A0))))) [
      | inl past ↦ rw past ((λ e. ground arith, λ c. refl), λ e. absurd (ground arith))
      | inr there ↦ rw there ((λ e. cc, λ c. absurd (ground arith)), λ e. absurd (ground arith))
    ])
  ]
