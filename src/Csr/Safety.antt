-- ===== src/Csr/Safety.antt =====
-- That the CSR instructions of cpu.cpp respect the locks of memory protection, and what S-mode can
-- do through `sstatus`.
use rv_emu.Base.{
  ℕ, ◌+◌, ◌-◌, ◌*◌, ◌/◌, ◌%◌, ◌≤◌, ◌<◌, ◌≡◌, refl, Bool, ◌&&◌, ◌||◌, ◌==◌, leb, ltb, if◌then◌else◌,
  bit, field, get_or, Option, none, some, arith, ap, subst, Bool-cases, inl, inr, length-set, set,
  sym,
}
use rv_emu.Hart.{HartState, HartException, noexc, illinst}
use rv_emu.Platform.{Platform}
use rv_emu.Pmp.Config.{pmpcfg_rw}
use rv_emu.Pmp.Config.Locks.{IsConfig, Keeps}
use rv_emu.Pmp.Config.Writes.{pmpcfg_rw-Keeps, pmpcfg_rw-same, pmpcfg_rw-none, SameRest}
use rv_emu.Tlb.Count.{IsCounted}
use rv_emu.Guard.{KeepsLocked, Keeps-KeepsLocked, Guarded, Guarded-trans}
use rv_emu.Guard.Traps.{create_exception-Guarded}
use rv_emu.Csr.{CsrAddr, csr_from_addr, csr_access, csr_op, rest_op, next, illegal, chk_ro0_csr}
use rv_emu.Csr.Access.{FromAddr, quiet-Guarded, csr_access-Guarded, csr_from_addr-FromAddr}

-- What a CSR instruction with number `imm` may leave of memory protection: it is undefined only for
-- a configuration register that is not there.
abbrev pub LocksHold : HartState → ℕ → Option (HartState × HartException) → Type 0
LocksHold hs imm none = (imm % 2 ≡ 0) × (0x3A4 ≤ imm) × (imm < 0x3B0)
LocksHold hs imm (some r) = KeepsLocked hs.pmp r.0.pmp

-- The same for all that a step keeps.
abbrev pub CsrHolds : HartState → ℕ → Option (HartState × HartException) → Type 0
CsrHolds hs imm none = (imm % 2 ≡ 0) × (0x3A4 ≤ imm) × (imm < 0x3B0)
CsrHolds hs imm (some r) = Guarded hs r.0

CsrHolds-LocksHold :
    (hs : HartState) (imm : ℕ) (o : Option (HartState × HartException))
    → CsrHolds hs imm o
    → LocksHold hs imm o
CsrHolds-LocksHold hs imm none h = h
CsrHolds-LocksHold hs imm (some r) h = h.keeps_locked

illegal-Guarded : (hs : HartState) → Guarded hs (illegal hs).0
illegal-Guarded hs = create_exception-Guarded hs illinst _

access-CsrHolds :
    (hs : HartState) (imm addr : ℕ) (sstatus sie sip : Bool) (rd rs1 funct wvalue : ℕ)
    (o : Option CsrAddr)
    → FromAddr addr o
    → CsrHolds hs imm (elim o [
      | none ↦ some (illegal hs)
      | some ptr ↦ some (csr_access hs addr sstatus sie sip rd rs1 funct wvalue ptr)
    ])
access-CsrHolds hs imm addr sstatus sie sip rd rs1 funct wvalue none h = illegal-Guarded hs
access-CsrHolds hs imm addr sstatus sie sip rd rs1 funct wvalue (some ptr) h =
    csr_access-Guarded hs addr sstatus sie sip rd rs1 funct wvalue ptr h

-- A write of the configuration bytes.
written-CsrHolds :
    (hs new : HartState) (imm : ℕ) (o : Option (HartState × HartException))
    → o ≡ some (new, noexc)
    → SameRest hs o
    → IsConfig new.pmp
    → Keeps hs.pmp new.pmp
    → CsrHolds hs imm o
written-CsrHolds hs new imm o e same c k =
    let s = rw e at same in
    rw e (record {
      same_hartid = ap (λ t. t.0) s.0;
      keeps_locked = Keeps-KeepsLocked hs.pmp new.pmp k;
      keeps_config = λ _. c;
      keeps_tlb = λ t. subst (λ x. IsCounted x) (sym (ap (λ t. t.1) s.0)) t;
      same_length = s.1;
      keeps_mode = λ m. subst (λ n. n < 4) (sym (ap (λ t. t.2) s.0)) m;
    })

module _ (P : Platform) where
  pmpcfg_rw-CsrHolds :
      (hs : HartState) (n rd wvalue funct : ℕ)
      → IsConfig hs.pmp
      → n < 16
      → CsrHolds hs (0x3A0 + n) (pmpcfg_rw P (next hs) (0x3A0 + n) rd wvalue funct)
  pmpcfg_rw-CsrHolds hs n rd wvalue funct c lt =
      let q = pmpcfg_rw-none P (next hs) n rd wvalue funct lt in
      elim (Bool-cases (n % 2 == 0)) [
        | inr odd ↦ rw (q.1 (ground arith)) (
            Guarded-trans hs (next hs) _ (quiet-Guarded hs (next hs) refl refl)
              (illegal-Guarded (next hs)))
        | inl even ↦ elim (Bool-cases (ltb n 4)) [
          | inr past ↦
              rw (q.0.1 (ground arith, ground arith)) (ground arith, ground arith, omega arith)
          | inl there ↦
              let half : 2 * (n / 2) ≡ n = ground arith in
              let k = pmpcfg_rw-Keeps P (next hs) (n / 2) rd wvalue funct c (ground arith) in
              subst
                (λ m. CsrHolds hs (0x3A0 + m) (pmpcfg_rw P (next hs) (0x3A0 + m) rd wvalue funct))
                half
                (written-CsrHolds hs k.0 (0x3A0 + 2 * (n / 2)) _ k.1
                  (pmpcfg_rw-same P (next hs) (n / 2) rd wvalue funct (ground arith)) k.2 k.3)
        ]
      ]

  csr_op_rest :
      (hs : HartState) (imm rd rs1 funct3 : ℕ)
      → IsConfig hs.pmp
      → CsrHolds hs imm (rest_op P hs imm rd rs1 funct3)
  unfolding rest_op
  csr_op_rest hs imm rd rs1 funct3 c =
      let addr =
        if imm == 0x100
        then 0x300
        else if imm == 0x104
        then 0x304
        else if imm == 0x144
        then 0x344
        else imm in
      let wvalue = if bit funct3 2 then rs1 else get_or hs.regs rs1 0 in
      elim (Bool-cases (leb 0x3A0 imm && ltb imm 0x3B0)) [
        | inl cfg ↦
            let split : 0x3A0 + (imm - 0x3A0) ≡ imm = ground arith in
            rw cfg (
              subst (λ m. CsrHolds hs m (pmpcfg_rw P (next hs) m rd wvalue (field funct3 0 2)))
                split
                (pmpcfg_rw-CsrHolds hs (imm - 0x3A0) rd wvalue (field funct3 0 2) c (ground arith)))
        | inr f ↦ rw f (elim (Bool-cases (addr == 0x180 && bit hs.mstatus 20)) [
          | inl t ↦ rw t (illegal-Guarded hs)
          | inr f ↦ rw f (
              access-CsrHolds hs imm addr (imm == 0x100) (imm == 0x104) (imm == 0x144) rd rs1
                (field funct3 0 2) wvalue (csr_from_addr addr) (csr_from_addr-FromAddr addr))
        ])
      ]

  pub csr_op-Guarded :
      (hs : HartState) (time imm rd rs1 funct3 : ℕ)
      → IsConfig hs.pmp
      → CsrHolds hs imm (csr_op P hs time imm rd rs1 funct3)
  unfolding csr_op
  csr_op-Guarded hs time imm rd rs1 funct3 c =
      let to_rd = λ (v : ℕ).
        quiet-Guarded hs (next (record hs { regs = set hs.regs rd v })) refl
          (length-set hs.regs rd v) in
      elim (Bool-cases (ltb hs.privmode (field imm 8 2))) [
        | inl low ↦ rw low (illegal-Guarded hs)
        | inr high ↦ rw high (elim (Bool-cases (imm == 0xC01)) [
          | inl t ↦ rw t (to_rd time)
          | inr f ↦ rw f (elim (Bool-cases (chk_ro0_csr imm)) [
            | inl t ↦ rw t (to_rd 0)
            | inr f ↦ rw f (elim (Bool-cases (imm == 0x306 || imm == 0x106 || imm == 0x320)) [
              | inl t ↦ rw t (to_rd 5)
              | inr f ↦ rw f (csr_op_rest hs imm rd rs1 funct3 c)
            ])
          ])
        ])
      ]

  -- With arrays of their sizes and locks in order, a CSR instruction leaves every locked entry,
  -- every address with a lock and every lock as they were; it is undefined only for the even
  -- numbers from 0x3A4 to 0x3AE.
  pub csr_op-LocksHold :
      (hs : HartState) (time imm rd rs1 funct3 : ℕ)
      → IsConfig hs.pmp
      → LocksHold hs imm (csr_op P hs time imm rd rs1 funct3)
  csr_op-LocksHold hs time imm rd rs1 funct3 c =
      CsrHolds-LocksHold hs imm _ (csr_op-Guarded hs time imm rd rs1 funct3 c)
