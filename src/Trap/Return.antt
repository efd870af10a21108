-- ===== src/Trap/Return.antt =====
-- MRET and SRET of `decode_exc` undo the entry to a trap by `create_exception`.
use rv_emu.Base.{
  ℕ, ◌<◌, ◌^◌, ◌/◌, ◌≡◌, refl, arith, ◌∙◌, ◌==◌, inl, inr, Bool-cases, field, clear_bit,
}
use rv_emu.Hart.{HartState, HartException}
use rv_emu.Trap.{enter_m, mret, trap_m_status, mret_status}

-- Two values of `mstatus` agree but in MIE, MPIE, MPP and MPRV, which a trap to M-mode and MRET
-- change.
abbrev pub SameRestM : ℕ → ℕ → Type 0
SameRestM x y =
    (field x 0 3 ≡ field y 0 3)
    × (field x 4 3 ≡ field y 4 3)
    × (field x 8 3 ≡ field y 8 3)
    × (field x 13 4 ≡ field y 13 4)
    × (x / 2 ^ 18 ≡ y / 2 ^ 18)

-- The same for S-mode: SIE, SPIE, SPP with the bit above it, and MPRV.
abbrev pub SameRestS : ℕ → ℕ → Type 0
SameRestS x y =
    (field x 0 1 ≡ field y 0 1)
    × (field x 2 3 ≡ field y 2 3)
    × (field x 6 2 ≡ field y 6 2)
    × (field x 10 7 ≡ field y 10 7)
    × (x / 2 ^ 18 ≡ y / 2 ^ 18)

trap_m_status_fields :
    (x m : ℕ)
    → m < 4
    → let s = trap_m_status x m in
      (field s 11 2 ≡ m) × (field s 7 1 ≡ field x 3 1) × (field s 3 1 ≡ 0) × SameRestM s x
unfolding trap_m_status
trap_m_status_fields x m h = omega arith

mret_status_fields :
    (x m : ℕ)
    → let s = mret_status x m in
      (field s 11 2 ≡ 0) × (field s 7 1 ≡ 1) × (field s 3 1 ≡ field x 7 1) × SameRestM s x
unfolding mret_status
mret_status_fields x m = elim (Bool-cases (m == 3)) [
  | inl e ↦ rw e (omega arith)
  | inr e ↦ rw e (omega arith)
]

-- From a mode below 4, MRET after an entry to M-mode restores the mode, the program counter without
-- its lowest bit, MIE, the registers and every bit of mstatus but MIE, MPIE, MPP and MPRV, and
-- leaves MPIE set and MPP cleared.
pub mret-enter_m :
    (hs : HartState) (he : HartException) (tval : ℕ)
    → hs.privmode < 4
    → let back = mret (enter_m hs he tval) in
      (back.privmode ≡ hs.privmode)
      × (back.pc ≡ clear_bit hs.pc 0)
      × (field back.mstatus 3 1 ≡ field hs.mstatus 3 1)
      × (field back.mstatus 7 1 ≡ 1)
      × (field back.mstatus 11 2 ≡ 0)
      × SameRestM back.mstatus hs.mstatus
      × (back.regs ≡ hs.regs)
unfolding enter_m mret
mret-enter_m hs he tval m =
    let s = trap_m_status hs.mstatus hs.privmode in
    let t = trap_m_status_fields hs.mstatus hs.privmode m in
    let r = mret_status_fields s (field s 11 2) in
    (t.0, refl, r.2 ∙ t.1, r.1, r.0, (omega (arith, r.3, t.3)), refl)
