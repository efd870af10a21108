-- ===== src/Pmp/Range.antt =====
-- `chk_pmp_range_exp` of mem.cpp against `chk_pmp_range`, which reads the raw registers.
use rv_emu.Base.{
  ℕ, zero, suc, ◌+◌, ◌≤◌, ◌<◌, ◌≡◌, refl, true, ◌&&◌, ◌||◌, ltb, get_or, length, arith, ◌≢◌,
  Bool-cases, inl, inr, subst, ◌⊎◌,
}
use native.Mathlib.Decide.{ℕ_discrete}
use rv_emu.Hart.{HartState, ExpPmp}
use rv_emu.Platform.{Platform}
use rv_emu.Pmp.{
  no_entry, pmp_count, range_loop, range_exp_loop, chk_pmp_range, chk_pmp_range_exp, sync_exp_pmp,
  uint64_all_ones,
}
use rv_emu.Pmp.Sync.{Matches, IsSynced, CoversAll, AreBytes, sync_exp_pmp-IsSynced}

module _ (P : Platform) where
  -- The expanded entries of `q` say what the raw registers of `hs` say.
  abbrev pub AllMatch : HartState → HartState → Type 0
  AllMatch hs q =
      (q.privmode ≡ hs.privmode)
      × ((i : ℕ) → i < pmp_count → Matches P hs.pmp i (get_or q.pmp_expanded i no_entry))

  loop-eq-range_loop :
      (hs q : HartState) (l h left i : ℕ)
      → i + left ≡ pmp_count
      → AllMatch hs q
      → range_exp_loop q l h left i ≡ range_loop P hs l h left i
  unfolding range_loop range_exp_loop
  loop-eq-range_loop hs q l h zero i e all = refl
  loop-eq-range_loop hs q l h (suc left) i e all =
      let m = all.1 i (omega arith) in
      ground (
        arith,
        all.0,
        m.enabled,
        m.locked,
        m.lower,
        m.upper,
        m.perms,
        loop-eq-range_loop hs q l h left (i + 1) (omega arith) all,
      )

-- What a pass over the entries can return for a range outside the window: no entry in use but
-- plain RWX ones can meet the range.
abbrev Outside : HartState → ℕ → ℕ → ℕ → ℕ → ℕ → Type 0
Outside q l h c i result =
    (result ≡ 7)
    ⊎ ((result ≡ 0xF7) × (l < h)
        ⊎ (result ≡ 0xFF) × ((q.privmode ≡ 3) ⊎ ((uint64_all_ones ≤ h) ⊎ (c < i))))

-- The range does not meet the entry, unless that is plain RWX.
abbrev Misses : ℕ → ℕ → ExpPmp → Type 0
Misses l h e = e.enable ≡ true → e.lxwr ≢ 7 → (e.ubound < l) ⊎ (h < e.lbound)

range_exp_loop-Outside :
    (q : HartState) (l h c left i : ℕ)
    → i + left ≡ pmp_count
    → l ≤ h
    → c < pmp_count
    → CoversAll (get_or q.pmp_expanded c no_entry)
    → ((j : ℕ) → j < pmp_count → Misses l h (get_or q.pmp_expanded j no_entry))
    → Outside q l h c i (range_exp_loop q l h left i)
unfolding range_exp_loop
range_exp_loop-Outside q l h c zero i e lh cb cov miss = inr (inr (refl, inr (inr (omega arith))))
range_exp_loop-Outside q l h c (suc left) i e lh cb cov miss =
    let here = miss i (omega arith) in
    let rest = range_exp_loop-Outside q l h c left (i + 1) (omega arith) lh cb cov miss in
    elim (ℕ_discrete c i) [
      | yes same ↦
          let covers = subst (λ j. CoversAll (get_or q.pmp_expanded j no_entry)) same cov in
          ground (arith, covers.0, covers.1, covers.2, covers.3, rest)
      | no other ↦ ground (arith, here, rest)
    ]

window_misses :
    (q : HartState) (l h : ℕ) (e : ExpPmp)
    → (q.pmp_all_enabled && (ltb q.max_ubound l || ltb h q.min_lbound)) ≡ true
    → e.enable ≡ true
    → (q.min_lbound ≤ e.lbound) × (e.ubound ≤ q.max_ubound)
    → (e.ubound < l) ⊎ (h < e.lbound)
window_misses q l h e on en w = ground arith

module _ (P : Platform) (hs : HartState) (bytes : AreBytes hs.pmp)
    (len : length hs.pmp_expanded ≡ pmp_count) where
  synced : IsSynced P hs.pmp (sync_exp_pmp P hs).pmp pmp_count
  synced = sync_exp_pmp-IsSynced P hs bytes len

  sync-AllMatch : AllMatch P hs (sync_exp_pmp P hs)
  unfolding sync_exp_pmp
  sync-AllMatch = (refl, synced.matches)

  -- With byte-sized configurations and sixteen expanded entries, for a range from l to h with l ≤
  -- h, the check on the synchronised entries gives what the check on the raw registers gives, or
  -- answers RWX by its short cut where the raw check finds no entry (in M-mode or up to the last
  -- byte) or, for more than one byte, a crossed boundary.
  pub chk_pmp_range_exp-sync :
      (l h : ℕ)
      → l ≤ h
      → let fast = chk_pmp_range_exp (sync_exp_pmp P hs) l h in
        let slow = chk_pmp_range P hs l h in
        (fast ≡ slow)
        ⊎ (fast ≡ 7)
          × ((slow ≡ 0xF7) × (l < h) ⊎ (slow ≡ 0xFF) × ((hs.privmode ≡ 3) ⊎ (uint64_all_ones ≤ h)))
  unfolding chk_pmp_range chk_pmp_range_exp
  chk_pmp_range_exp-sync l h lh =
      let q = sync_exp_pmp P hs in
      let eq = loop-eq-range_loop P hs q l h pmp_count 0 refl sync-AllMatch in
      elim (Bool-cases (q.pmp_all_enabled && (ltb q.max_ubound l || ltb h q.min_lbound))) [
        | inr off ↦ rw off (inl eq)
        | inl on ↦
            let (c, below, cov) = synced.covered (ground arith) in
            let out = range_exp_loop-Outside q l h c pmp_count 0 refl lh below cov (λ j lt en rwx.
              window_misses q l h (get_or q.pmp_expanded j no_entry) on en
                (synced.window j lt en rwx)) in
            rw on (ground (arith, eq, out, sync-AllMatch.0))
      ]
