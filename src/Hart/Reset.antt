-- ===== src/Hart/Reset.antt =====
-- `reset_state` of cpu.cpp and `hart_init` of main.cpp, with the constants MISA and MSTATUS.
use rv_emu.Base.{ℕ, ◌+◌, ◌-◌, ◌*◌, ◌^◌, false, ◌∷◌, replicate, set}
use rv_emu.Hart.{HartState, Csrs, Pmp, ExpPmp, TlbEntry, TlbStruct}

abbrev pub misa_value : ℕ
misa_value = 0b10 * 2 ^ 62 + 0b00000101000001000100000101

abbrev pub mstatus_value : ℕ
mstatus_value = 0b1010_00000000_00101100_00001000_10101010

-- `csrs` of a hart that is all zero but for what `reset_state` sets.
abbrev pub reset_csrs : Csrs
reset_csrs = record {
  mstatus = mstatus_value;
  sstatus = mstatus_value;
  medeleg = 0;
  mideleg = 0;
  mie = 0b101010101010;
  sie = 0b001000100010;
  mtvec = 0;
  stvec = 0;
  mscratch = 0;
  sscratch = 0;
  mepc = 0;
  sepc = 0;
  mcause = 0;
  scause = 0;
  mtval = 0;
  stval = 0;
  mip = 0;
  mcycle = 0;
  minstret = 0;
  satp = 0;
  misa = misa_value;
  mhartid = 0;
  cycle = 0;
  instret = 0;
}

abbrev pub zero_exp_pmp : ExpPmp
zero_exp_pmp = record { enable = false; lock = false; lbound = 0; ubound = 0; lxwr = 0 }

-- The zeroth entry is set to allow all accesses; the expanded entries stay zero.
abbrev pub reset_pmp : Pmp
reset_pmp = record {
  pmpcfg = 0b00011111 ∷ replicate 15 0;
  pmpaddr = 0x003fffffffffffff ∷ replicate 15 0;
  pmp_lockedaddr = replicate 16 false;
  pmp_expanded = replicate 16 zero_exp_pmp;
  pmp_all_enabled = false;
  min_lbound = 0;
  max_ubound = 0;
}

abbrev pub zero_tlb_entry : TlbEntry
zero_tlb_entry = record {
  virt_page = 0;
  phy_page = 0;
  pte_addr = 0;
  size = 0;
  permissions = 0;
  user = false;
}

abbrev pub zero_tlb : TlbStruct
zero_tlb = record {
  max_entry_size = 0;
  size_count = replicate 6 0;
  tlb_entries = replicate 64 zero_tlb_entry;
}

unfoldable pub reset_state : ℕ → HartState
reset_state hartid = record {
  hartid = hartid;
  regs = replicate 32 0;
  pc = 0;
  inst = 0;
  instbuf = 0;
  inst_len = 0;
  privmode = 3;
  mem_status = false;
  page_fault = false;
  tlb = zero_tlb;
  csrs = reset_csrs;
  pmp = reset_pmp;
  chk_int = false;
}

-- The registers that the boot code finds, for a memory of `mem_size` bytes.
unfoldable pub hart_init : ℕ → ℕ → HartState
unfolding reset_state
hart_init mem_size hartid =
    let hs = reset_state hartid in
    let stack = set hs.regs 2 (0x8000_0000 + mem_size - 1) in
    let return = set stack 1 0x8100_0000 in
    record hs { pc = 0x1000; regs = set (set return 10 hartid) 11 0x1100 }
