-- ===== src/Pmp/Sync.antt =====
-- What `sync_exp_pmp` of mem.cpp leaves in the expanded entries.
use rv_emu.Base.{
  ℕ, zero, suc, ◌+◌, ◌≤◌, ◌<◌, ◌≡◌, refl, true, false, not, ◌&&◌, ◌||◌, ◌==◌, bit, field, get_or,
  set, length, arith, ◌≢◌, length-set, ap, set_extends, get_or-set_self, get_or-set_ne, ◌⊎◌, subst,
  Bool-cases, inl, inr, ◌∙◌,
}
use rv_emu.Hart.{HartState, Pmp, ExpPmp}
use rv_emu.Platform.{Platform}
use rv_emu.Pmp.{
  no_entry, lxwr_of, range_bounds, exp_bounds, exp_entry, sync_step, sync_loop, sync_exp_pmp,
  uint64_all_ones, pmp_count,
}

-- An entry that opens the whole address space without a lock.
abbrev pub CoversAll : ExpPmp → Type 0
CoversAll e = (e.enable ≡ true) × (e.lbound ≡ 0) × (e.ubound ≡ uint64_all_ones) × (e.lxwr ≡ 7)

-- Every configuration byte is a byte.
abbrev pub AreBytes : Pmp → Type 0
AreBytes raw = (i : ℕ) → get_or raw.pmpcfg i 0 < 256

module _ (P : Platform) where
  -- The two copies of the address computation agree.
  exp_bounds-eq-range_bounds : (pmp : Pmp) (i : ℕ) → exp_bounds P pmp i ≡ range_bounds P pmp i
  unfolding exp_bounds range_bounds
  exp_bounds-eq-range_bounds pmp i = refl

  -- Entry `i` in its expanded form says what the raw registers say.
  pub record Matches (pmp : Pmp) (i : ℕ) (e : ExpPmp) : Type 0 where
    pub enabled : e.enable ≡ not (field (get_or pmp.pmpcfg i 0) 3 2 == 0)
    pub locked : e.enable ≡ true → e.lock ≡ bit (get_or pmp.pmpcfg i 0) 7
    pub lower : e.enable ≡ true → e.lbound ≡ (range_bounds P pmp i).0
    pub upper : e.enable ≡ true → e.ubound ≡ (range_bounds P pmp i).1
    pub perms : e.enable ≡ true → e.lxwr ≡ lxwr_of (get_or pmp.pmpcfg i 0)

  -- The first `n` entries are in step, and the window holds each of them that is not plain RWX.
  pub record IsSynced (raw pmp : Pmp) (n : ℕ) : Type 0 where
    pub same_cfg : pmp.pmpcfg ≡ raw.pmpcfg
    pub same_addr : pmp.pmpaddr ≡ raw.pmpaddr
    pub same_locked : pmp.pmp_lockedaddr ≡ raw.pmp_lockedaddr
    pub same_length : length pmp.pmp_expanded ≡ length raw.pmp_expanded
    pub matches : (i : ℕ) → i < n → Matches raw i (get_or pmp.pmp_expanded i no_entry)
    pub window :
        (i : ℕ)
        → i < n
        → let e = get_or pmp.pmp_expanded i no_entry in
          e.enable ≡ true → e.lxwr ≢ 7 → (pmp.min_lbound ≤ e.lbound) × (e.ubound ≤ pmp.max_ubound)
    pub covered :
        pmp.pmp_all_enabled ≡ true
        → (i : ℕ) × (i < n) × CoversAll (get_or pmp.pmp_expanded i no_entry)

  exp_entry-Matches :
      (raw pmp : Pmp) (i : ℕ)
      → get_or raw.pmpcfg i 0 < 256
      → field (get_or raw.pmpcfg i 0) 3 2 ≢ 0
      → pmp.pmpcfg ≡ raw.pmpcfg
      → pmp.pmpaddr ≡ raw.pmpaddr
      → Matches raw i (exp_entry P pmp i)
  unfolding exp_entry exp_bounds range_bounds
  exp_entry-Matches raw pmp i byte on c a =
      rw (c, a)
        (record {
          enabled = ground arith;
          locked = λ _. ground arith;
          lower = λ _. refl;
          upper = λ _. refl;
          perms = λ _. refl;
        })

  off_entry-Matches :
      (raw pmp : Pmp) (i : ℕ)
      → field (get_or raw.pmpcfg i 0) 3 2 ≡ 0
      → Matches raw i (record (get_or pmp.pmp_expanded i no_entry) { enable = false })
  off_entry-Matches raw pmp i off = record {
    enabled = ground arith;
    locked = λ e. cc;
    lower = λ e. cc;
    upper = λ e. cc;
    perms = λ e. cc;
  }

  module _ (raw pmp : Pmp) (n : ℕ) (inside : n < length raw.pmp_expanded)
      (s : IsSynced raw pmp n) where
    abbrev old : ExpPmp
    old = get_or pmp.pmp_expanded n no_entry

    abbrev InWindow : Pmp → ExpPmp → Type 0
    InWindow q e =
        e.enable ≡ true → e.lxwr ≢ 7 → (q.min_lbound ≤ e.lbound) × (e.ubound ≤ q.max_ubound)

    -- An earlier entry is still there.
    still_covered :
        (v : ExpPmp)
        → ((i : ℕ) × (i < n) × CoversAll (get_or pmp.pmp_expanded i no_entry))
        → (i : ℕ) × (i < n + 1) × CoversAll (get_or (set pmp.pmp_expanded n v) i no_entry)
    still_covered v (i, lt, c) =
        (i, omega arith, rw (get_or-set_ne pmp.pmp_expanded n i v no_entry (λ e. omega arith)) c)

    step_off :
        field (get_or raw.pmpcfg n 0) 3 2 ≡ 0
        → IsSynced raw
            (record pmp { pmp_expanded = set pmp.pmp_expanded n (record old { enable = false }) })
            (n + 1)
    step_off off = record {
      same_cfg = s.same_cfg;
      same_addr = s.same_addr;
      same_locked = s.same_locked;
      same_length = length-set pmp.pmp_expanded n (record old { enable = false }) ∙ s.same_length;
      matches =
          set_extends (Matches raw) pmp.pmp_expanded n (record old { enable = false }) no_entry
            (rw s.same_length inside) s.matches (off_entry-Matches raw pmp n off);
      window =
          set_extends (λ i e. InWindow pmp e) pmp.pmp_expanded n (record old { enable = false })
            no_entry (rw s.same_length inside) s.window (λ e. cc);
      covered = λ e. still_covered _ (s.covered e);
    }

    step_on :
        get_or raw.pmpcfg n 0 < 256
        → field (get_or raw.pmpcfg n 0) 3 2 ≢ 0
        → (q : Pmp) → q.pmpcfg ≡ pmp.pmpcfg
        → q.pmpaddr ≡ pmp.pmpaddr
        → q.pmp_lockedaddr ≡ pmp.pmp_lockedaddr
        → q.pmp_expanded ≡ set pmp.pmp_expanded n (exp_entry P pmp n)
        → q.min_lbound ≤ pmp.min_lbound
        → pmp.max_ubound ≤ q.max_ubound
        → InWindow q (exp_entry P pmp n)
        → (q.pmp_all_enabled ≡ true → CoversAll (exp_entry P pmp n) ⊎ (pmp.pmp_all_enabled ≡ true))
        → IsSynced raw q (n + 1)
    step_on byte on q qc qa ql qe lo hi new cover = record {
      same_cfg = qc ∙ s.same_cfg;
      same_addr = qa ∙ s.same_addr;
      same_locked = ql ∙ s.same_locked;
      same_length =
          ap length qe ∙ length-set pmp.pmp_expanded n (exp_entry P pmp n) ∙ s.same_length;
      matches = rw qe (
          set_extends (Matches raw) pmp.pmp_expanded n (exp_entry P pmp n) no_entry
            (rw s.same_length inside) s.matches
            (exp_entry-Matches raw pmp n byte on s.same_cfg s.same_addr));
      window = rw qe (
          set_extends (λ i e. InWindow q e) pmp.pmp_expanded n (exp_entry P pmp n) no_entry
            (rw s.same_length inside) (λ i lt en rwx. omega (arith, s.window i lt en rwx)) new);
      covered = λ e. rw qe (elim (cover e) [
        | inl here ↦ (
          n,
          omega arith,
          rw
              (get_or-set_self pmp.pmp_expanded n (exp_entry P pmp n) no_entry
                (rw s.same_length inside))
              here,
        )
        | inr before ↦ still_covered _ (s.covered before)
      ]);
    }

    pub step-IsSynced : get_or raw.pmpcfg n 0 < 256 → IsSynced raw (sync_step P n pmp) (n + 1)
    unfolding sync_step
    step-IsSynced byte = elim (Bool-cases (field (get_or pmp.pmpcfg n 0) 3 2 == 0)) [
      | inl off ↦
          let zeroed : field (get_or pmp.pmpcfg n 0) 3 2 ≡ 0 = ground arith in
          rw (off, sync_step) (step_off (rw s.same_cfg at zeroed))
      | inr on ↦
          let nonzero : field (get_or pmp.pmpcfg n 0) 3 2 ≢ 0 = ground arith in
          rw (on, sync_step)
            (step_on byte (rw s.same_cfg at nonzero) _ refl refl refl refl (ground arith)
              (ground arith) (λ en rwx. ground arith) (λ all. covers all))
    ]
      where
        covers :
            ((exp_entry P pmp n).lbound == 0
                  && (exp_entry P pmp n).ubound == uint64_all_ones
                  && (exp_entry P pmp n).lxwr == 7
                || pmp.pmp_all_enabled)
              ≡ true
            → CoversAll (exp_entry P pmp n) ⊎ (pmp.pmp_all_enabled ≡ true)
        covers all = unfold exp_entry in ground arith

  loop-IsSynced :
      (raw : Pmp) (left n m : ℕ) (pmp : Pmp)
      → n + left ≡ m
      → m ≤ length raw.pmp_expanded
      → AreBytes raw
      → IsSynced raw pmp n
      → IsSynced raw (sync_loop P left n pmp) m
  unfolding sync_loop
  loop-IsSynced raw zero n m pmp e fits bytes s =
      let same : n ≡ m = omega arith in subst (IsSynced raw pmp) same s
  loop-IsSynced raw (suc left) n m pmp e fits bytes s =
      loop-IsSynced raw left (n + 1) m (sync_step P n pmp) (omega arith) fits bytes
        (step-IsSynced raw pmp n (omega arith) s (bytes n))

  -- With byte-sized configurations and sixteen expanded entries, sync_exp_pmp keeps the raw
  -- registers, makes the sixteen entries say what these say, and makes the window hold every entry
  -- in use that is not plain RWX.
  pub sync_exp_pmp-IsSynced :
      (hs : HartState)
      → AreBytes hs.pmp
      → length hs.pmp_expanded ≡ pmp_count
      → IsSynced hs.pmp (sync_exp_pmp P hs).pmp pmp_count
  unfolding sync_exp_pmp
  sync_exp_pmp-IsSynced hs bytes len =
      loop-IsSynced hs.pmp pmp_count 0 pmp_count _ refl (omega arith) bytes (record {
        same_cfg = refl;
        same_addr = refl;
        same_locked = refl;
        same_length = refl;
        matches = λ i lt. absurd (omega arith);
        window = λ i lt. absurd (omega arith);
        covered = λ e. cc;
      })
