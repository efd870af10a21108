-- ===== src/Aclint/Time.antt =====
-- aclint.cpp: that the time runs on from what is written to it.
use rv_emu.Base.{ℕ, ◌+◌, ◌-◌, ◌*◌, ◌/◌, ◌^◌, ◌<◌, ◌≡◌, refl, List, some, u64, arith}
use rv_emu.Hart.{HartState}
use rv_emu.Plic.{and_then}
use rv_emu.Aclint.{Aclint, aclint_mtime_get, aclint_mtimer_r, aclint_mtimer_w}

time_arith :
    (now dt v : ℕ)
    → now < 2 ^ 64
    → v * 100 + dt < 2 ^ 64
    → u64 (u64 (now + dt) + (2 ^ 64 - u64 (now + (2 ^ 64 - u64 (v * 100))))) / 100 ≡ v + dt / 100
time_arith now dt v a b = omega arith

-- If the clock is below 2 ^ 64 and the value times 100 and the ticks that pass fit in 64 bits, a
-- read of the time dt ticks after a write gives the value written plus dt / 100.
pub aclint_mtimer_r-aclint_mtimer_w :
    (now dt v : ℕ) (a : Aclint) (hartlist : List HartState)
    → now < 2 ^ 64
    → v * 100 + dt < 2 ^ 64
    → and_then
        (aclint_mtimer_w now 0x7ff8 v a hartlist)
        (λ s. aclint_mtimer_r (u64 (now + dt)) 0x7ff8 s.0)
      ≡ some (v + dt / 100)
unfolding aclint_mtimer_w aclint_mtimer_r aclint_mtime_get
aclint_mtimer_r-aclint_mtimer_w now dt v a hartlist lt small =
    rw (time_arith now dt v lt small) refl
