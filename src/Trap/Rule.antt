-- ===== src/Trap/Rule.antt =====
-- The rule by which a trap is taken or refused, and what it does to a hart, in the terms of the
-- privileged architecture: causes, the mode a trap is taken in, and the bits of mstatus.
use rv_emu.Base.{
  ℕ, ◌+◌, ◌-◌, ◌*◌, ◌/◌, ◌%◌, ◌^◌, ◌≡◌, Bool, true, false, not, ◌&&◌, ◌||◌, ◌⊎◌, ltb, ◌==◌,
  if◌then◌else◌, field, bit,
}
use rv_emu.Hart.{HartState, HartException, code, noexc}

-- The modes that a hart can be in: U, S and M.
abbrev pub IsMode : ℕ → Type 0
IsMode m = (m ≡ 0) ⊎ ((m ≡ 1) ⊎ (m ≡ 3))

abbrev pub flushed : HartState → HartState
flushed hs = record hs { instbuf = 0 }

-- A trap is taken in S-mode if its bit is set in the delegation register and the mode is U or S.
abbrev pub delegated : ℕ → ℕ → ℕ → Bool
delegated deleg mode c = bit deleg c && ltb mode 2

-- The architecture's rule: the bit of the cause is set in the enable register of the mode that takes
-- it, and that mode is above the current one, or is the current one and its xIE in mstatus is set.
abbrev pub admits : HartState → ℕ → Bool
admits hs c =
    if delegated hs.mideleg hs.privmode c
    then bit hs.sie c && (hs.privmode == 0 || bit hs.mstatus 1)
    else bit hs.mie c && (ltb hs.privmode 3 || bit hs.mstatus 3)

-- The code's: in S-mode with SIE clear it looks at the cause instead of the mode that takes it.
abbrev pub accepts : HartState → ℕ → Bool
accepts hs c =
    if hs.privmode == 1 && not (bit hs.mstatus 1)
    then (c == 3 || c == 7 || c == 11)
      && (if delegated hs.mideleg hs.privmode c then bit hs.sie c else bit hs.mie c)
    else admits hs c

-- The base of a vector register, and in vectored mode four bytes more for each cause.
abbrev pub entry_pc : ℕ → ℕ → ℕ
entry_pc tvec c = if tvec % 4 == 1 then (tvec - 1 + 4 * c) % 2 ^ 64 else tvec / 2 * 2

-- `s` is mstatus `x` after a trap from the mode `m` to S-mode: bits 8 and 9 hold the mode, SPIE has
-- SIE, SIE is clear, and all other bits are as they were.
abbrev pub StatusS : ℕ → ℕ → ℕ → Type 0
StatusS x m s =
    (field s 8 2 ≡ m)
    × (field s 5 1 ≡ field x 1 1)
    × (field s 1 1 ≡ 0)
    × (field s 0 1 ≡ field x 0 1)
    × (field s 2 3 ≡ field x 2 3)
    × (field s 6 2 ≡ field x 6 2)
    × (s / 2 ^ 10 ≡ x / 2 ^ 10)

-- The same for M-mode: MPP holds the mode, MPIE has MIE, MIE is clear.
abbrev pub StatusM : ℕ → ℕ → ℕ → Type 0
StatusM x m s =
    (field s 11 2 ≡ m)
    × (field s 7 1 ≡ field x 3 1)
    × (field s 3 1 ≡ 0)
    × (field s 0 3 ≡ field x 0 3)
    × (field s 4 3 ≡ field x 4 3)
    × (field s 8 3 ≡ field x 8 3)
    × (s / 2 ^ 13 ≡ x / 2 ^ 13)

-- A hart after a trap of a cause to S-mode, if the first argument is true, or else to M-mode: `value`
-- is what the cause register gets, and what is not named is as it was.
abbrev pub Entered : Bool → HartState → ℕ → ℕ → ℕ → HartState → Type 0
Entered true hs value c tval new =
    (s : ℕ) × (new ≡ record hs {
      privmode = 1;
      csrs = record hs.csrs { mstatus = s; scause = value; sepc = hs.pc; stval = tval };
      pc = entry_pc hs.stvec c;
      instbuf = 0;
    })
    × StatusS hs.mstatus hs.privmode s
Entered false hs value c tval new =
    (s : ℕ) × (new ≡ record hs {
      privmode = 3;
      csrs = record hs.csrs { mstatus = s; mcause = value; mepc = hs.pc; mtval = tval };
      pc = entry_pc hs.mtvec c;
      instbuf = 0;
    })
    × StatusM hs.mstatus hs.privmode s

-- A trap that is taken, if the first argument is true, and one that is refused.
abbrev pub Ends :
    Bool → Bool → HartState → HartException → ℕ → ℕ → HartState × HartException → Type 0
Ends true to_s hs he c tval result = (result.1 ≡ he) × Entered to_s hs (code he) c tval result.0
Ends false to_s hs he c tval result = result ≡ (flushed hs, noexc)

-- The 64-bit pattern of a cause.
abbrev pub pattern_of : Bool → ℕ → ℕ
pattern_of interrupt c = if interrupt then 2 ^ 63 + c else c
