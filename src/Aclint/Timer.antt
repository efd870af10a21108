-- ===== src/Aclint/Timer.antt =====
-- aclint.cpp: the timer interrupt of a hart, and which registers are there.
use rv_emu.Base.{
  some-ne-none, ℕ, ◌*◌, ◌/◌, ◌^◌, ◌≤◌, ◌≡◌, ◌≢◌, refl, List, none, some, arith, bit, leb, set,
  length, ◌↔◌, field, Bool-cases, Option-cases, Bool, false, inl, inr, ◌==◌,
}
use rv_emu.Hart.{HartState}
use rv_emu.Plic.{at}
use rv_emu.Plic.Places.{at-set_self, at-none}
use rv_emu.Aclint.{Aclint, aclint_mtime_get, aclint_mtimer_chk, aclint_mtimer_w}

-- Bit 7 alone follows the comparison.
abbrev pub Follows : ℕ → ℕ → Bool → Type 0
Follows old new pending =
    (bit new 7 ≡ pending) × (field old 0 7 ≡ field new 0 7) × (old / 2 ^ 8 ≡ new / 2 ^ 8)

chk-Follows :
    (now : ℕ) (a : Aclint) (hs : HartState) (cmp : ℕ)
    → at a.mtimer_regs hs.hartid ≡ some cmp
    → (hs' : HartState) × (aclint_mtimer_chk now a hs ≡ some hs')
      × Follows hs.mip hs'.mip (leb cmp (aclint_mtime_get now a))
unfolding aclint_mtimer_chk
chk-Follows now a hs cmp e = elim (Bool-cases (leb cmp (aclint_mtime_get now a))) [
  | inl on ↦ rw (e, on) (_, refl, (ground arith, ground arith, ground arith))
  | inr off ↦ rw (e, off) (_, refl, (ground arith, ground arith, ground arith))
]

-- A write to the register at an offset that has a register and a hart of that number, other than
-- that of the time, stores the value; the hart's MTIP is then set exactly if the time has reached
-- it, and so it is after a check of that hart in any state at any other time; no other bit of mip
-- changes.
pub aclint_mtimer_w-chk :
    (now later offset cmp old : ℕ) (a : Aclint) (hartlist : List HartState) (hs after : HartState)
    → offset ≢ 0x7ff8
    → at a.mtimer_regs offset ≡ some old
    → at hartlist offset ≡ some hs
    → hs.hartid ≡ offset
    → after.hartid ≡ offset
    → let written = record a { mtimer_regs = set a.mtimer_regs offset cmp } in
      ((hs' : HartState) × (aclint_mtimer_w now offset cmp a hartlist
          ≡ some (written, set hartlist offset hs'))
        × Follows hs.mip hs'.mip (leb cmp (aclint_mtime_get now written)))
      × ((hs' : HartState) × (aclint_mtimer_chk later written after ≡ some hs')
          × Follows after.mip hs'.mip (leb cmp (aclint_mtime_get later written)))
unfolding aclint_mtimer_w
aclint_mtimer_w-chk now later offset cmp old a hartlist hs after other there hart own still =
    let written = record a { mtimer_regs = set a.mtimer_regs offset cmp } in
    let self = at-set_self a.mtimer_regs offset old cmp there in
    let k = chk-Follows now written hs cmp (rw own self) in
    let ne : (offset == 0x7ff8) ≡ false = ground (arith, other) in
    (
      (k.0, rw (ne, there, hart, k.1) refl, k.2),
      chk-Follows later written after cmp (rw still self),
    )

-- For harts in the order of their numbers and as many registers, a write to the place of the
-- register of hart i, byte 8 * i, other than that of the time, is undefined exactly if there are at
-- most 8 * i harts.
pub aclint_mtimer_w-none :
    (now i data_ hart_count : ℕ) (a : Aclint) (hartlist : List HartState)
    → 8 * i ≢ 0x7ff8
    → length a.mtimer_regs ≡ hart_count
    → length hartlist ≡ hart_count
    → ((k : ℕ) (hs : HartState) → at hartlist k ≡ some hs → hs.hartid ≡ k)
    → (aclint_mtimer_w now (8 * i) data_ a hartlist ≡ none) ↔ (hart_count ≤ 8 * i)
unfolding aclint_mtimer_w
aclint_mtimer_w-none now i data_ hart_count a hartlist other n m numbered =
    let ne : (8 * i == 0x7ff8) ≡ false = ground (arith, other) in
    elim (Option-cases (at a.mtimer_regs (8 * i))) [
      | inl gone ↦
          rw (ne, gone) (λ e. omega (arith, (at-none a.mtimer_regs (8 * i)).0 gone), λ h. refl)
      | inr (old, there) ↦ elim (Option-cases (at hartlist (8 * i))) [
        | inl gone ↦
            rw (ne, there, gone) (λ e. omega (arith, (at-none hartlist (8 * i)).0 gone), λ h. refl)
        | inr (hs, hart) ↦
            let k =
              aclint_mtimer_w-chk now now (8 * i) data_ old a hartlist hs hs other there hart
                (numbered (8 * i) hs hart) (numbered (8 * i) hs hart) in
            (
              λ e. absurd (some-ne-none _ _ k.0.1 e),
              λ h. absurd (
                  some-ne-none _ _ there ((at-none a.mtimer_regs (8 * i)).1 (omega (arith, n, h)))),
            )
      ]
    ]
