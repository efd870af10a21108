-- ===== src/Aclint.antt =====
-- aclint.cpp: the timer and the software interrupts. The clock is not under the program's control:
-- each operation takes `now`, what `readtime` returns. A result `none` is undefined behaviour, an
-- access past an array.
pub mod Time
pub mod Timer
use rv_emu.Base.{
  ℕ, ◌+◌, ◌-◌, ◌*◌, ◌/◌, ◌%◌, ◌^◌, Bool, true, false, not, List, Option, none, some, leb, ◌==◌,
  if◌then◌else◌, set, replicate, set_bit, clear_bit, u32, u64,
}
use rv_emu.Hart.{HartState}
use rv_emu.Plic.{at, and_then}

pub record Aclint : Type 0 where
  pub time_start : ℕ
  pub mtimer_regs : List ℕ
  pub mswi_regs : List ℕ

unfoldable pub aclint_mtimer_reset : ℕ → Aclint → Aclint
aclint_mtimer_reset now a = record a { time_start = now }

unfoldable pub aclint_mtimer_init : ℕ → ℕ → Aclint → Aclint
unfolding aclint_mtimer_reset
aclint_mtimer_init hart_count now a = record (aclint_mtimer_reset now a) {
  mtimer_regs = replicate hart_count (2 ^ 64 - 1);
}

-- `new` leaves the array as it finds it.
unfoldable pub aclint_mswi_init : List ℕ → Aclint → Aclint
aclint_mswi_init fresh a = record a { mswi_regs = fresh }

unfoldable pub aclint_mtime_get : ℕ → Aclint → ℕ
aclint_mtime_get now a = u64 (now + (2 ^ 64 - a.time_start)) / 100

-- MTIP of a hart.
unfoldable pub aclint_mtimer_chk : ℕ → Aclint → HartState → Option HartState
unfolding at aclint_mtime_get
aclint_mtimer_chk now a hs = and_then (at a.mtimer_regs hs.hartid) (λ cmp. some (record hs {
  csrs = record hs.csrs {
    mip = if leb cmp (aclint_mtime_get now a) then set_bit hs.mip 7 else clear_bit hs.mip 7;
  };
}))

-- MSIP of a hart; it is never cleared here.
unfoldable pub aclint_mswi_chk : Aclint → HartState → Option HartState
unfolding at
aclint_mswi_chk a hs = and_then (at a.mswi_regs hs.hartid) (λ v. some (record hs {
  csrs = record hs.csrs { mip = if not (v == 0) then set_bit hs.mip 3 else hs.mip };
}))

-- `hw_perhart_update` of main.cpp.
unfoldable pub hw_perhart_update : ℕ → Aclint → HartState → Option HartState
unfolding aclint_mtimer_chk aclint_mswi_chk
hw_perhart_update now a hs = and_then (aclint_mtimer_chk now a hs) (aclint_mswi_chk a)

-- The value that the pointer leads to.
unfoldable pub aclint_mtimer_r : ℕ → ℕ → Aclint → Option ℕ
unfolding at aclint_mtime_get
aclint_mtimer_r now offset a =
    if offset == 0x7ff8 then some (aclint_mtime_get now a) else at a.mtimer_regs offset

-- `data_` is the eight bytes at the pointer, whatever the length of the access.
unfoldable pub aclint_mtimer_w :
    ℕ → ℕ → ℕ → Aclint → List HartState → Option (Aclint × List HartState)
unfolding at aclint_mtimer_chk
aclint_mtimer_w now offset data_ a hartlist =
    let written = record a { mtimer_regs = set a.mtimer_regs offset data_ } in
    if offset == 0x7ff8
    then some (record a { time_start = u64 (now + (2 ^ 64 - u64 (data_ * 100))) }, hartlist)
    else and_then (at a.mtimer_regs offset) (λ _. and_then (at hartlist offset) (λ hs.
      and_then (aclint_mtimer_chk now written hs)
        (λ checked. some (written, set hartlist offset checked))))

unfoldable pub aclint_mswi_r : ℕ → Aclint → Option ℕ
unfolding at
aclint_mswi_r offset a = at a.mswi_regs offset

unfoldable pub aclint_mswi_w : ℕ → ℕ → Aclint → Option Aclint
unfolding at
aclint_mswi_w offset data_ a =
    and_then (at a.mswi_regs offset)
      (λ _. some (record a { mswi_regs = set a.mswi_regs offset (data_ % 2) }))
