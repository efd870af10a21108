-- ===== src/Hart.antt =====
-- cpu.h: the state of a hart and the exceptions that it raises. Words are bit patterns: a field of
-- w bits, signed or not, is a number below 2 ^ w.
pub mod Reset
use rv_emu.Base.{ℕ, ◌+◌, ◌^◌, Bool, true, false, List}

pub record TlbEntry : Type 0 where
  pub virt_page : ℕ
  pub phy_page : ℕ
  pub pte_addr : ℕ
  pub size : ℕ
  pub permissions : ℕ
  pub user : Bool

pub record TlbStruct : Type 0 where
  pub max_entry_size : ℕ
  pub size_count : List ℕ
  pub tlb_entries : List TlbEntry

pub record ExpPmp : Type 0 where
  pub enable : Bool
  pub lock : Bool
  pub lbound : ℕ
  pub ubound : ℕ
  pub lxwr : ℕ

-- The CSRs of `HartState`.
pub record Csrs : Type 0 where
  pub mstatus : ℕ
  pub sstatus : ℕ
  pub medeleg : ℕ
  pub mideleg : ℕ
  pub mie : ℕ
  pub sie : ℕ
  pub mtvec : ℕ
  pub stvec : ℕ
  pub mscratch : ℕ
  pub sscratch : ℕ
  pub mepc : ℕ
  pub sepc : ℕ
  pub mcause : ℕ
  pub scause : ℕ
  pub mtval : ℕ
  pub stval : ℕ
  pub mip : ℕ
  pub mcycle : ℕ
  pub minstret : ℕ
  pub satp : ℕ
  pub misa : ℕ
  pub mhartid : ℕ
  pub cycle : ℕ
  pub instret : ℕ

-- The PMP registers of `HartState`, raw and expanded.
pub record Pmp : Type 0 where
  pub pmpcfg : List ℕ
  pub pmpaddr : List ℕ
  pub pmp_lockedaddr : List Bool
  pub pmp_expanded : List ExpPmp
  pub pmp_all_enabled : Bool
  pub min_lbound : ℕ
  pub max_ubound : ℕ

pub record HartState : Type 0 where
  pub hartid : ℕ
  pub regs : List ℕ
  pub pc : ℕ
  pub inst : ℕ
  pub instbuf : ℕ
  pub inst_len : ℕ
  pub privmode : ℕ
  pub mem_status : Bool
  pub page_fault : Bool
  pub tlb : TlbStruct
  pub csrs : Csrs
  pub open csrs use *
  pub pmp : Pmp
  pub open pmp use *
  pub chk_int : Bool

pub data HartException : Type 0 where
  imisalign iafault illinst bpoint lmisalign lafault smisalign safault : HartException
  uecall hsecall vsecall mecall ipfault lpfault res2 spfault : HartException
  noexc : HartException
  res3 ssoftint res4 msoftint res5 stimeint res6 mtimeint res7 sextint res8 mextint : HartException

-- The enumerators' values as 64-bit patterns; those of interrupts have the top bit set.
unfoldable pub code : HartException → ℕ
code imisalign = 0
code iafault = 1
code illinst = 2
code bpoint = 3
code lmisalign = 4
code lafault = 5
code smisalign = 6
code safault = 7
code uecall = 8
code hsecall = 9
code vsecall = 10
code mecall = 11
code ipfault = 12
code lpfault = 13
code res2 = 14
code spfault = 15
code noexc = 2 ^ 63 + 16
code res3 = 2 ^ 63
code ssoftint = 2 ^ 63 + 1
code res4 = 2 ^ 63 + 2
code msoftint = 2 ^ 63 + 3
code res5 = 2 ^ 63 + 4
code stimeint = 2 ^ 63 + 5
code res6 = 2 ^ 63 + 6
code mtimeint = 2 ^ 63 + 7
code res7 = 2 ^ 63 + 8
code sextint = 2 ^ 63 + 9
code res8 = 2 ^ 63 + 10
code mextint = 2 ^ 63 + 11

abbrev pub is_noexc : HartException → Bool
is_noexc noexc = true
is_noexc _ = false
