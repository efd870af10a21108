-- ===== src/Trap.antt =====
-- hartexc.cpp: `create_exception` and `setup_pending_int`, and the returns MRET and SRET of
-- `decode_exc` in cpu.cpp.
pub mod Rule
pub mod Entry
pub mod Return
pub mod Pending
use rv_emu.Base.{
  ℕ, ◌+◌, ◌*◌, ◌/◌, ◌%◌, ◌^◌, Bool, true, false, not, ◌&&◌, ◌||◌, List, [], ◌∷◌, bit, field, put,
  set_bit, clear_bit, u64, leb, ltb, ◌==◌, if◌then◌else◌,
}
use rv_emu.Hart.{
  HartState, HartException, code, is_noexc, noexc, ssoftint, msoftint, stimeint, mtimeint, sextint,
  mextint,
}

-- The locals `interrupt` and `cause`.
unfoldable pub is_interrupt : HartException → Bool
unfolding code
is_interrupt he = leb (2 ^ 63) (code he)

unfoldable pub cause_of : HartException → ℕ
unfolding code
cause_of he = code he % 2 ^ 63

-- The jump to a trap vector: its base, and in vectored mode four bytes for each cause.
abbrev pub vector : ℕ → ℕ → ℕ
vector tvec cause =
    if field tvec 0 2 == 1 then u64 (clear_bit tvec 0 + 4 * cause) else clear_bit tvec 0

-- `mstatus` on entry to S-mode: the mode goes to SPP, SIE to SPIE, and SIE is cleared.
unfoldable pub trap_s_status : ℕ → ℕ → ℕ
trap_s_status mstatus mode =
    let spp = put mstatus 8 2 mode in let spie = put spp 5 1 (field spp 1 1) in clear_bit spie 1

-- The branch that is delegated to S-mode.
unfoldable pub enter_s : HartState → HartException → ℕ → HartState
enter_s hs he tval = record hs {
  privmode = 1;
  csrs = record hs.csrs {
    mstatus = trap_s_status hs.mstatus hs.privmode;
    scause = code he;
    sepc = hs.pc;
    stval = tval;
  };
  pc = vector hs.stvec (cause_of he);
}

-- `mstatus` on entry to M-mode: the mode goes to MPP, MIE to MPIE, and MIE is cleared.
unfoldable pub trap_m_status : ℕ → ℕ → ℕ
trap_m_status mstatus mode =
    let mpp = put mstatus 11 2 mode in let mpie = put mpp 7 1 (field mpp 3 1) in clear_bit mpie 3

-- The branch to M-mode.
unfoldable pub enter_m : HartState → HartException → ℕ → HartState
enter_m hs he tval = record hs {
  privmode = 3;
  csrs = record hs.csrs {
    mstatus = trap_m_status hs.mstatus hs.privmode;
    mcause = code he;
    mepc = hs.pc;
    mtval = tval;
  };
  pc = vector hs.mtvec (cause_of he);
}

-- The two tests that send an interrupt of the current mode to `disabled`.
unfoldable pub is_masked : HartState → HartException → Bool
is_masked hs he =
    let cause = cause_of he in
    is_interrupt he
    && (hs.privmode == 3 && not (bit hs.mstatus 3)
        || hs.privmode == 1
          && not (bit hs.mstatus 1)
          && not (cause == 3)
          && not (cause == 7)
          && not (cause == 11))

unfoldable pub is_delegated : HartState → HartException → Bool
is_delegated hs he =
    bit (if is_interrupt he then hs.mideleg else hs.medeleg) (cause_of he) && leb hs.privmode 1

-- The new state, and the exception taken or `noexc`.
unfoldable pub create_exception : HartState → HartException → ℕ → HartState × HartException
create_exception hs₀ he tval =
    let hs = record hs₀ { instbuf = 0 } in
    if is_masked hs he
    then (hs, noexc)
    else if is_delegated hs he
    then if is_interrupt he && not (bit hs.sie (cause_of he))
      then (hs, noexc)
      else (enter_s hs he tval, he)
    else if is_interrupt he && not (bit hs.mie (cause_of he))
    then (hs, noexc)
    else (enter_m hs he tval, he)

-- A run of `if (hs.mip & (1 << b)) { TRY_SETINT(e); }`; true if one was taken.
unfoldable pub try_setints : List (ℕ × HartException) → HartState → HartState × Bool
try_setints [] hs = (hs, false)
try_setints ((b, e) ∷ rest) hs = elim (bit hs.mip b) [
  | false ↦ try_setints rest hs
  | true ↦
      let (hs', taken) = create_exception hs e 0 in
      elim (is_noexc taken) [ true ↦ try_setints rest hs' | false ↦ (hs', true) ]
]

abbrev pub supervisor_ints : List (ℕ × HartException)
supervisor_ints = (9, sextint) ∷ (1, ssoftint) ∷ (5, stimeint) ∷ []

abbrev pub machine_ints : List (ℕ × HartException)
machine_ints = (11, mextint) ∷ (3, msoftint) ∷ (7, mtimeint) ∷ supervisor_ints

-- The block that handles sip.
unfoldable pub try_sip : HartState → HartState × Bool
try_sip hs =
    if bit hs.mstatus 1 && not (hs.mip == 0) then try_setints supervisor_ints hs else (hs, false)

unfoldable pub setup_pending_int : HartState → HartState × Bool
setup_pending_int hs =
    if (bit hs.mstatus 3 || ltb hs.privmode 3) && not (hs.mip == 0)
    then (let (hs', taken) = try_setints machine_ints hs in
        if taken then (hs', true) else try_sip hs')
    else try_sip hs

-- `mstatus` after MRET, which goes back to the mode `mode`.
unfoldable pub mret_status : ℕ → ℕ → ℕ
mret_status mstatus mode =
    let mie = put mstatus 3 1 (field mstatus 7 1) in
    let mpp = put (set_bit mie 7) 11 2 0 in if mode == 3 then mpp else clear_bit mpp 17

-- MRET, and what `decode_exc` does after it: the program counter was changed, so the instruction
-- buffer is dropped, and the instruction is counted. MPP is read after MIE and MPIE were written,
-- which are other bits.
unfoldable pub mret : HartState → HartState
mret hs =
    let mode = field hs.mstatus 11 2 in
    record hs {
      pc = clear_bit hs.mepc 0;
      privmode = mode;
      csrs = record hs.csrs {
        mstatus = mret_status hs.mstatus mode;
        minstret = u64 (hs.minstret + 1);
      };
      chk_int = true;
      instbuf = 0;
    }

-- `mstatus` after SRET, which goes back to the mode `mode`.
unfoldable pub sret_status : ℕ → ℕ → ℕ
sret_status mstatus mode =
    let sie = put mstatus 1 1 (field mstatus 5 1) in
    let spp = clear_bit (set_bit sie 5) 8 in if mode == 3 then spp else clear_bit spp 17

-- SRET without its TSR test, likewise.
unfoldable pub sret : HartState → HartState
sret hs =
    let mode = field hs.mstatus 8 1 in
    record hs {
      pc = clear_bit hs.sepc 0;
      privmode = mode;
      csrs = record hs.csrs {
        mstatus = sret_status hs.mstatus mode;
        minstret = u64 (hs.minstret + 1);
      };
      chk_int = true;
      instbuf = 0;
    }
