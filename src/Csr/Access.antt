-- ===== src/Csr/Access.antt =====
-- What the access to a CSR by an instruction of cpu.cpp keeps of a hart.
use rv_emu.Base.{
  ℕ, ◌+◌, ◌-◌, ◌<◌, ◌≡◌, refl, Bool, true, false, not, ◌&&◌, ◌||◌, ◌==◌, leb, ltb, if◌then◌else◌,
  field, get_or, Option, none, some, arith, ap, subst, Bool-cases, inl, inr, get_or-set_ne, length,
  length-set, set, sym,
}
use rv_emu.Hart.{HartState, Pmp, TlbStruct, illinst}
use rv_emu.Pmp.{pmp_count}
use rv_emu.Guard.{Guarded, Guarded-trans, same-Guarded}
use rv_emu.Guard.Traps.{create_exception-Guarded}
use rv_emu.Csr.{
  CsrAddr, csr, pmp_addr, csr_from_addr, store_csr, fetch_csr, csr_access, mirror, is_pmpaddr,
  csr_table, csr_lookup, csr_value,
}

abbrev pub beyond : HartState → ℕ × Pmp × TlbStruct × ℕ
beyond hs = (hs.hartid, hs.pmp, hs.tlb, hs.privmode)

-- A step that reaches no further than the registers, the CSRs and what only `fetch` reads.
pub quiet-Guarded :
    (old new : HartState)
    → beyond new ≡ beyond old
    → length new.regs ≡ length old.regs
    → Guarded old new
quiet-Guarded old new e r =
    same-Guarded old new (ap (λ t. t.0) e) (ap (λ t. t.1) e) (ap (λ t. t.2) e) r
      (λ m. subst (λ n. n < 4) (sym (ap (λ t. t.3) e)) m)

to_rd-length :
    (hs : HartState) (rd v : ℕ)
    → length (if rd == 0 then hs.regs else set hs.regs rd v) ≡ length hs.regs
to_rd-length hs rd v = elim (Bool-cases (rd == 0)) [
  | inl z ↦ rw z refl
  | inr n ↦ rw n (length-set hs.regs rd v)
]

-- A pointer into `pmpaddr` comes from one of its numbers.
abbrev pub PtrFor : ℕ → CsrAddr → Type 0
PtrFor addr (csr p) = Unit
PtrFor addr (pmp_addr i) = (is_pmpaddr addr ≡ true) × (i ≡ addr - 0x3B0)

abbrev pub FromAddr : ℕ → Option CsrAddr → Type 0
FromAddr addr none = Unit
FromAddr addr (some p) = PtrFor addr p

pub csr_from_addr-FromAddr : (addr : ℕ) → FromAddr addr (csr_from_addr addr)
unfolding csr_from_addr
csr_from_addr-FromAddr addr =
    elim (csr_lookup csr_table addr)
      as (λ o. FromAddr addr (elim o [
        | some p ↦ some (csr p)
        | none ↦
            if leb 0x3B0 addr && ltb addr (0x3B0 + pmp_count)
            then some (pmp_addr (addr - 0x3B0))
            else none
      ])) [
        | some p ↦ tt
        | none ↦ elim (Bool-cases (is_pmpaddr addr)) [ inl e ↦ rw e (e, refl) | inr e ↦ rw e tt ]
      ]

store-Guarded :
    (hs : HartState) (addr v : ℕ) (ptr : CsrAddr)
    → PtrFor addr ptr
    → (is_pmpaddr addr && get_or hs.pmp_lockedaddr (addr - 0x3B0) false) ≡ false
    → Guarded hs (store_csr hs ptr v)
store-Guarded hs addr v (csr p) h open_ = quiet-Guarded hs _ refl refl
store-Guarded hs addr v (pmp_addr i) h open_ = record {
  same_hartid = refl;
  keeps_locked = record {
    cfgs = λ j on. refl;
    addrs = λ j on. get_or-set_ne hs.pmpaddr i j v 0 (λ e. ground (arith, h.0, h.1, e, on, open_));
    locks = λ j on. on;
  };
  keeps_config = λ c. record {
    cfgs = c.cfgs;
    locks = c.locks;
    entries = c.entries;
    bytes = c.bytes;
    addrs = c.addrs;
  };
  keeps_tlb = λ c. c;
  same_length = refl;
  keeps_mode = λ m. m;
}

pub csr_access-Guarded :
    (hs : HartState) (imm : ℕ) (sstatus sie sip : Bool) (rd rs1 funct wvalue : ℕ) (ptr : CsrAddr)
    → PtrFor imm ptr
    → Guarded hs (csr_access hs imm sstatus sie sip rd rs1 funct wvalue ptr).0
unfolding csr_access mirror
csr_access-Guarded hs imm sstatus sie sip rd rs1 funct wvalue ptr h =
    let loaded = record hs {
      regs = if rd == 0 then hs.regs else set hs.regs rd (fetch_csr hs ptr);
    } in
    let flagged = record loaded {
      chk_int =
          imm == 0x300
          || imm == 0x302
          || imm == 0x303
          || imm == 0x304
          || imm == 0x344
          || hs.chk_int;
    } in
    let new = csr_value funct sip (fetch_csr hs ptr) wvalue in
    let start = quiet-Guarded hs loaded refl (to_rd-length hs rd (fetch_csr hs ptr)) in
    let quiet =
      λ (new : HartState) (e : beyond new ≡ beyond loaded)
          (r : length new.regs ≡ length loaded.regs).
        Guarded-trans hs loaded new start (quiet-Guarded loaded new e r) in
    elim (Bool-cases (is_pmpaddr imm && get_or hs.pmp_lockedaddr (imm - 0x3B0) false)) [
      | inl shut ↦ rw shut (quiet _ refl refl)
      | inr free ↦ rw free (elim (Bool-cases (funct == 1 || not (wvalue == 0) && not (rs1 == 0))) [
        | inr idle ↦ rw idle (quiet _ refl refl)
        | inl asked ↦
            rw asked (elim (Bool-cases (field imm 10 2 == 3 && not (sstatus || sie || sip))) [
              | inl ro ↦
                  rw ro
                    (Guarded-trans hs loaded _ start (create_exception-Guarded loaded illinst _))
              | inr rw_ ↦ rw rw_ (elim (Bool-cases (imm == 0x301)) [
                | inl misa ↦ rw misa (quiet _ refl refl)
                | inr other ↦ rw other (
                    Guarded-trans hs loaded _ start (
                      Guarded-trans loaded flagged _ (quiet-Guarded loaded flagged refl refl) (
                        Guarded-trans flagged (store_csr flagged ptr new) _
                          (store-Guarded flagged imm new ptr h free)
                          (quiet-Guarded _ _ refl refl))))
              ])
            ])
      ])
    ]
