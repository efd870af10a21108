-- ===== src/Csr.antt =====
-- cpu.cpp: the CSR instructions of `decode_exc`, `csr_from_addr` and `chk_ro0_csr`.
pub mod Safety
pub mod Access
use Prim.Native.Nat.{bit_and, bit_or}
use rv_emu.Base.{
  ℕ, zero, suc, ◌+◌, ◌-◌, ◌*◌, ◌/◌, ◌%◌, ◌^◌, Bool, true, false, not, ◌&&◌, ◌||◌, leb, ltb, ◌==◌,
  if◌then◌else◌, u64, bit, field, put, clear_bit, sext, get_or, set, Option, none, some, List, [],
  ◌∷◌,
}
use rv_emu.Hart.{HartState, HartException, Csrs, noexc, illinst}
use rv_emu.Platform.{Platform}
use rv_emu.Pmp.{pmp_count}
use rv_emu.Pmp.Config.{pmpcfg_rw}
use rv_emu.Trap.{create_exception}

-- A pointer to a register of the hart.
pub record CsrPtr : Type 0 where
  pub get : Csrs → ℕ
  pub put : Csrs → ℕ → Csrs

-- The `switch` of `csr_from_addr`. The three identification registers are globals that are 0: their
-- numbers are read-only, so nothing is stored to them.
abbrev pub csr_table : List (ℕ × CsrPtr)
csr_table =
    (0x300, record { get = λ c. c.mstatus; put = λ c v. record c { mstatus = v } })
    ∷ (0x301, record { get = λ c. c.misa; put = λ c v. record c { misa = v } })
    ∷ (0x302, record { get = λ c. c.medeleg; put = λ c v. record c { medeleg = v } })
    ∷ (0x303, record { get = λ c. c.mideleg; put = λ c v. record c { mideleg = v } })
    ∷ (0x304, record { get = λ c. c.mie; put = λ c v. record c { mie = v } })
    ∷ (0x305, record { get = λ c. c.mtvec; put = λ c v. record c { mtvec = v } })
    ∷ (0x340, record { get = λ c. c.mscratch; put = λ c v. record c { mscratch = v } })
    ∷ (0x341, record { get = λ c. c.mepc; put = λ c v. record c { mepc = v } })
    ∷ (0x342, record { get = λ c. c.mcause; put = λ c v. record c { mcause = v } })
    ∷ (0x343, record { get = λ c. c.mtval; put = λ c v. record c { mtval = v } })
    ∷ (0x344, record { get = λ c. c.mip; put = λ c v. record c { mip = v } })
    ∷ (0x100, record { get = λ c. c.sstatus; put = λ c v. record c { sstatus = v } })
    ∷ (0x104, record { get = λ c. c.sie; put = λ c v. record c { sie = v } })
    ∷ (0x105, record { get = λ c. c.stvec; put = λ c v. record c { stvec = v } })
    ∷ (0x140, record { get = λ c. c.sscratch; put = λ c v. record c { sscratch = v } })
    ∷ (0x141, record { get = λ c. c.sepc; put = λ c v. record c { sepc = v } })
    ∷ (0x142, record { get = λ c. c.scause; put = λ c v. record c { scause = v } })
    ∷ (0x143, record { get = λ c. c.stval; put = λ c v. record c { stval = v } })
    ∷ (0x180, record { get = λ c. c.satp; put = λ c v. record c { satp = v } })
    ∷ (0xF11, record { get = λ c. 0; put = λ c v. c })
    ∷ (0xF12, record { get = λ c. 0; put = λ c v. c })
    ∷ (0xF13, record { get = λ c. 0; put = λ c v. c })
    ∷ (0xF14, record { get = λ c. c.mhartid; put = λ c v. record c { mhartid = v } })
    ∷ []

-- What `csr_from_addr` points to.
pub data CsrAddr : Type 0 where
  csr : CsrPtr → CsrAddr
  pmp_addr : ℕ → CsrAddr

unfoldable pub csr_lookup : List (ℕ × CsrPtr) → ℕ → Option CsrPtr
csr_lookup [] addr = none
csr_lookup ((n, p) ∷ rest) addr = if n == addr then some p else csr_lookup rest addr

unfoldable pub csr_from_addr : ℕ → Option CsrAddr
unfolding csr_lookup
csr_from_addr addr = elim (csr_lookup csr_table addr) [
  | some p ↦ some (csr p)
  | none ↦
      if leb 0x3B0 addr && ltb addr (0x3B0 + pmp_count)
      then some (pmp_addr (addr - 0x3B0))
      else none
]

-- `*csr_addr`, read and assigned.
abbrev pub fetch_csr : HartState → CsrAddr → ℕ
fetch_csr hs (csr p) = p.get hs.csrs
fetch_csr hs (pmp_addr i) = get_or hs.pmpaddr i 0

abbrev pub store_csr : HartState → CsrAddr → ℕ → HartState
store_csr hs (csr p) v = record hs { csrs = p.put hs.csrs v }
store_csr hs (pmp_addr i) v = record hs { pmp = record hs.pmp { pmpaddr = set hs.pmpaddr i v } }

unfoldable pub chk_ro0_csr : ℕ → Bool
chk_ro0_csr csrno =
    leb 0xB03 csrno && leb csrno 0xB1F || leb 0x323 csrno && leb csrno 0x33F || csrno == 0x30A

-- `~(0b100010001000)` as 64 bits.
abbrev pub not_machine : ℕ
not_machine = 2 ^ 64 - 1 - 0b100010001000

-- `x & ~(0b100010001000)`.
abbrev pub mask_machine : ℕ → ℕ
mask_machine x = clear_bit (clear_bit (clear_bit x 3) 7) 11

-- The `switch` on a write: the value that `*csr_addr` gets.
unfoldable pub csr_value : ℕ → Bool → ℕ → ℕ → ℕ
csr_value funct sip old wvalue =
    let kept = if sip then mask_machine wvalue else wvalue in
    let cleared = if sip then bit_or wvalue 0b100010001000 else wvalue in
    if funct == 1
    then kept
    else if funct == 2
    then (if kept == 0 then old else bit_or old kept)
    else if funct == 3
    then (if cleared == 0 then old else bit_and old (2 ^ 64 - 1 - cleared))
    else old

-- The bits of `mstatus` that do not hold what is written.
unfoldable pub legal_status : ℕ → ℕ
legal_status x = put (clear_bit (clear_bit (clear_bit x 0) 2) 4) 32 4 0b1010

-- What follows a write: `mstatus` is made legal, `sstatus` and `sie` mirror it and `mie`.
unfoldable pub mirror : ℕ → Bool → Bool → HartState → HartState
unfolding legal_status
mirror imm sstatus sie hs₀ =
    let hs = record hs₀ {
      csrs = record hs₀.csrs {
        mstatus = if imm == 0x300 then legal_status hs₀.mstatus else hs₀.mstatus;
      };
    } in
    record hs {
      csrs = record hs.csrs {
        sstatus = if sstatus then put hs.mstatus 34 2 0 else hs.sstatus;
        sie = if sie then mask_machine hs.mie else hs.sie;
      };
    }

-- The end of `decode_exc`: the next instruction, counted.
abbrev pub next : HartState → HartState
next hs = record hs {
  pc = u64 (hs.pc + hs.inst_len / 8);
  csrs = record hs.csrs { minstret = u64 (hs.minstret + 1) };
}

abbrev pub illegal : HartState → HartState × HartException
illegal hs = create_exception hs illinst (sext 32 hs.inst)

abbrev pub is_pmpaddr : ℕ → Bool
is_pmpaddr imm = leb 0x3B0 imm && ltb imm (0x3B0 + pmp_count)

-- From the translation of the address on, for the address `imm` after the mirrors.
unfoldable pub csr_access :
    HartState → ℕ → Bool → Bool → Bool → ℕ → ℕ → ℕ → ℕ → CsrAddr → HartState × HartException
unfolding csr_value mirror
csr_access hs₀ imm sstatus sie sip rd rs1 funct wvalue ptr =
    let hs = record hs₀ {
      regs = if rd == 0 then hs₀.regs else set hs₀.regs rd (fetch_csr hs₀ ptr);
    } in
    let asked = funct == 1 || not (wvalue == 0) && not (rs1 == 0) in
    let flagged = record hs {
      chk_int =
          imm == 0x300
          || imm == 0x302
          || imm == 0x303
          || imm == 0x304
          || imm == 0x344
          || hs.chk_int;
    } in
    let stored = store_csr flagged ptr (csr_value funct sip (fetch_csr hs₀ ptr) wvalue) in
    if is_pmpaddr imm && get_or hs.pmp_lockedaddr (imm - 0x3B0) false
    then (next hs, noexc)
    else if not asked
    then (next (mirror imm sstatus sie hs), noexc)
    else if field imm 10 2 == 3 && not (sstatus || sie || sip)
    then illegal hs
    else if imm == 0x301
    then (next hs, noexc)
    else (next (mirror imm sstatus sie stored), noexc)

module _ (P : Platform) where
  -- A CSR instruction from the test for the configuration bytes on.
  unfoldable pub rest_op : HartState → ℕ → ℕ → ℕ → ℕ → Option (HartState × HartException)
  unfolding csr_access
  rest_op hs imm rd rs1 funct3 =
      let wvalue = if bit funct3 2 then rs1 else get_or hs.regs rs1 0 in
      let sstatus = imm == 0x100 in
      let sie = imm == 0x104 in
      let sip = imm == 0x144 in
      let addr = if sstatus then 0x300 else if sie then 0x304 else if sip then 0x344 else imm in
      if leb 0x3A0 imm && ltb imm 0x3B0
      then pmpcfg_rw P (next hs) imm rd wvalue (field funct3 0 2)
      else if addr == 0x180 && bit hs.mstatus 20
      then some (illegal hs)
      else elim (csr_from_addr addr) [
        | none ↦ some (illegal hs)
        | some ptr ↦ some (csr_access hs addr sstatus sie sip rd rs1 (field funct3 0 2) wvalue ptr)
      ]

  -- A CSR instruction with number `imm`; `time` is what `aclint_mtime_get` returns. `none` is
  -- undefined behaviour.
  unfoldable pub csr_op : HartState → ℕ → ℕ → ℕ → ℕ → ℕ → Option (HartState × HartException)
  unfolding chk_ro0_csr rest_op
  csr_op hs time imm rd rs1 funct3 =
      let to_rd : ℕ → HartState = λ v. next (record hs { regs = set hs.regs rd v }) in
      if ltb hs.privmode (field imm 8 2)
      then some (illegal hs)
      else if imm == 0xC01
      then some (to_rd time, noexc)
      else if chk_ro0_csr imm
      then some (to_rd 0, noexc)
      else if imm == 0x306 || imm == 0x106 || imm == 0x320
      then some (to_rd 5, noexc)
      else rest_op hs imm rd rs1 funct3
