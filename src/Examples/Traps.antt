-- ===== src/Examples/Traps.antt =====
-- The trap theorems at harts just out of reset, with interrupts pending.
use rv_emu.Base.{[], ◌∷◌, ◌≤◌, ◌≡◌, refl, true, inl, some, arith, field, clear_bit}
use rv_emu.Hart.{HartState, mtimeint, uecall}
use rv_emu.Hart.Reset.{reset_state}
use rv_emu.Trap.{
  create_exception, try_setints, enter_m, enter_s, mret, setup_pending_int, is_interrupt, is_masked,
  is_delegated, cause_of,
}
use rv_emu.Trap.Rule.{IsMode}
use rv_emu.Trap.Return.{mret-enter_m, SameRestM}
use rv_emu.Trap.Pending.{Taken, first_accepted, setup_pending_int-Taken}

-- In U-mode, with MTIP and SSIP set and user calls delegated.
abbrev user : HartState
unfolding reset_state
user = record (reset_state 0) {
  privmode = 0;
  pc = 0x8000_0010;
  csrs = record (reset_state 0).csrs { mip = 0b10000010; mtvec = 0x8000_1000; medeleg = 0x100 };
}

user-IsMode : IsMode user.privmode
unfolding reset_state
user-IsMode = inl refl

taken_timer : (setup_pending_int user).1 ≡ true
unfolding reset_state setup_pending_int try_setints create_exception is_masked is_delegated
    is_interrupt cause_of
taken_timer = refl

first_timer : first_accepted (11 ∷ 3 ∷ 7 ∷ 9 ∷ 1 ∷ 5 ∷ []) user ≡ some 7
unfolding reset_state
first_timer = refl

setup_pending_int-Taken_example :
    Taken user (first_accepted (11 ∷ 3 ∷ 7 ∷ 9 ∷ 1 ∷ 5 ∷ []) user) (setup_pending_int user)
setup_pending_int-Taken_example = setup_pending_int-Taken user user-IsMode

delegated_call : (create_exception user uecall 0).0.privmode ≡ 1
unfolding reset_state enter_s create_exception is_masked is_delegated is_interrupt cause_of
delegated_call = refl

user_below : user.privmode ≤ 0
unfolding reset_state
user_below = omega arith

mret-enter_m_example :
    let back = mret (enter_m user mtimeint 0) in
    (back.privmode ≡ user.privmode)
    × (back.pc ≡ clear_bit user.pc 0)
    × (field back.mstatus 3 1 ≡ field user.mstatus 3 1)
    × (field back.mstatus 7 1 ≡ 1)
    × (field back.mstatus 11 2 ≡ 0)
    × SameRestM back.mstatus user.mstatus
    × (back.regs ≡ user.regs)
mret-enter_m_example = mret-enter_m user mtimeint 0 (omega (arith, user_below))
