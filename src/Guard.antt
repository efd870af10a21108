-- ===== src/Guard.antt =====
-- What a step of a hart may change: the well-formed states of cpu.h's `HartState`, and the relation
-- of the state before a step to the one after it.
pub mod Traps
pub mod Exec
pub mod Cycles
pub mod Reset
use rv_emu.Base.{ℕ, ◌≡◌, ◌<◌, refl, true, false, ◌∙◌, length, length-set, get_or, set, ap, arith}
use rv_emu.Hart.{HartState, Pmp}
use rv_emu.Pmp.Config.Locks.{IsConfig, Keeps, locked}
use rv_emu.Tlb.Count.{IsCounted}
use rv_emu.Memory.Frame.{Frame}

-- Locked entries and the locked addresses stay as they are.
pub record KeepsLocked (old new : Pmp) : Type 0 where
  pub cfgs : (i : ℕ) → locked old i ≡ true → get_or new.pmpcfg i 0 ≡ get_or old.pmpcfg i 0
  pub addrs :
      (i : ℕ)
      → get_or old.pmp_lockedaddr i false ≡ true
      → get_or new.pmpaddr i 0 ≡ get_or old.pmpaddr i 0
  pub locks :
      (i : ℕ) → get_or old.pmp_lockedaddr i false ≡ true → get_or new.pmp_lockedaddr i false ≡ true

pub same-KeepsLocked : (old new : Pmp) → new ≡ old → KeepsLocked old new
same-KeepsLocked old new e =
    rw e (record { cfgs = λ i on. refl; addrs = λ i on. refl; locks = λ i on. on })

pub Keeps-KeepsLocked : (old new : Pmp) → Keeps old new → KeepsLocked old new
Keeps-KeepsLocked old new k = record {
  cfgs = k.same_locked_cfg;
  addrs = λ i on. ap (λ a. get_or a i 0) k.same_addr;
  locks = k.same_locked_addr;
}

pub KeepsLocked-trans : (a b c : Pmp) → KeepsLocked a b → KeepsLocked b c → KeepsLocked a c
KeepsLocked-trans a b c p q = record {
  cfgs = λ i on. let e = p.cfgs i on in q.cfgs i (rw e on) ∙ e;
  addrs = λ i on. q.addrs i (p.locks i on) ∙ p.addrs i on;
  locks = λ i on. q.locks i (p.locks i on);
}

-- The arrays have their sizes, the locks and the cache are in order, and the mode is one of two
-- bits.
pub record IsHart (hs : HartState) : Type 0 where
  pub has_regs : length hs.regs ≡ 32
  pub has_config : IsConfig hs.pmp
  pub has_tlb : IsCounted hs.tlb
  pub has_mode : hs.privmode < 4

-- What every step keeps: the identity, the locked part of memory protection, and what `IsHart` asks.
pub record Guarded (old new : HartState) : Type 0 where
  pub same_hartid : new.hartid ≡ old.hartid
  pub keeps_locked : KeepsLocked old.pmp new.pmp
  pub keeps_config : IsConfig old.pmp → IsConfig new.pmp
  pub keeps_tlb : IsCounted old.tlb → IsCounted new.tlb
  pub same_length : length new.regs ≡ length old.regs
  pub keeps_mode : old.privmode < 4 → new.privmode < 4

pub Guarded-trans : (a b c : HartState) → Guarded a b → Guarded b c → Guarded a c
Guarded-trans a b c p q = record {
  same_hartid = q.same_hartid ∙ p.same_hartid;
  keeps_locked = KeepsLocked-trans a.pmp b.pmp c.pmp p.keeps_locked q.keeps_locked;
  keeps_config = λ i. q.keeps_config (p.keeps_config i);
  keeps_tlb = λ i. q.keeps_tlb (p.keeps_tlb i);
  same_length = q.same_length ∙ p.same_length;
  keeps_mode = λ i. q.keeps_mode (p.keeps_mode i);
}

pub Guarded-refl : (hs : HartState) → Guarded hs hs
Guarded-refl hs = record {
  same_hartid = refl;
  keeps_locked = same-KeepsLocked hs.pmp hs.pmp refl;
  keeps_config = λ c. c;
  keeps_tlb = λ c. c;
  same_length = refl;
  keeps_mode = λ m. m;
}

-- A step that leaves memory protection and the cache alone.
pub same-Guarded :
    (old new : HartState)
    → new.hartid ≡ old.hartid
    → new.pmp ≡ old.pmp
    → new.tlb ≡ old.tlb
    → length new.regs ≡ length old.regs
    → (old.privmode < 4 → new.privmode < 4)
    → Guarded old new
same-Guarded old new i p t r m = record {
  same_hartid = i;
  keeps_locked = same-KeepsLocked old.pmp new.pmp p;
  keeps_config = λ c. rw p c;
  keeps_tlb = λ c. rw t c;
  same_length = r;
  keeps_mode = m;
}

pub Frame-Guarded : (old new : HartState) → Frame old new → Guarded old new
Frame-Guarded old new f = record {
  same_hartid = f.same_hartid;
  keeps_locked = same-KeepsLocked old.pmp new.pmp f.same_pmp;
  keeps_config = λ c. rw (f.same_pmp) c;
  keeps_tlb = f.keeps_tlb;
  same_length = ap length f.same_regs;
  keeps_mode = λ m. rw (f.same_privmode) m;
}

pub Guarded-IsHart : (old new : HartState) → Guarded old new → IsHart old → IsHart new
Guarded-IsHart old new g i = record {
  has_regs = g.same_length ∙ i.has_regs;
  has_config = g.keeps_config i.has_config;
  has_tlb = g.keeps_tlb i.has_tlb;
  has_mode = g.keeps_mode i.has_mode;
}
