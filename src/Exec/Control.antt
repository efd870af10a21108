-- ===== src/Exec/Control.antt =====
-- cpu.cpp: how an instruction of `decode_exc` ends, its faults, and the registers.
use rv_emu.Base.{ℕ, ◌*◌, Bool, false, get_or, set, if◌then◌else◌, field}
use rv_emu.Hart.{HartState, HartException}
use rv_emu.Trap.{create_exception}
use rv_emu.Memory.{M, ◌>>=◌, ◌>>◌, pure, gets, modify}

-- A `return` of `decode_exc`, or the end of its `switch` with `pc_chgd`.
pub data Flow : Type 0 where
  stop : HartException → Flow
  go : Bool → Flow

-- `return create_exception(hs, he, tval)`.
unfoldable pub raise : {D : Type 0} → HartException → ℕ → M D Flow
raise he tval = do
  taken ← gets (λ hs. (create_exception hs he tval).1)
  modify (λ hs. (create_exception hs he tval).0)
  pure (stop taken)

unfoldable pub clear_status : {D : Type 0} → M D (Unit {0})
clear_status = modify (λ hs. record hs { mem_status = false })

unfoldable pub clear_fault : {D : Type 0} → M D (Unit {0})
clear_fault = modify (λ hs. record hs { page_fault = false })

-- HANDLE_MEM_ERROR, and the code that follows it.
unfoldable pub handle_mem_error :
    {D : Type 0} → HartException → HartException → ℕ → M D Flow → M D Flow
handle_mem_error afault pfault tval rest = do
  access ← gets (λ hs. hs.mem_status)
  page ← gets (λ hs. hs.page_fault)
  if access
      then (do clear_status; raise afault tval)
      else if page
      then (do clear_fault; raise pfault tval)
      else rest

abbrev pub reg : HartState → ℕ → ℕ
reg hs n = get_or hs.regs n 0

unfoldable pub set_reg : {D : Type 0} → ℕ → ℕ → M D (Unit {0})
set_reg rd v = modify (λ hs. record hs { regs = set hs.regs rd v })

unfoldable pub set_pc : {D : Type 0} → ℕ → M D (Unit {0})
set_pc pc = modify (λ hs. record hs { pc = pc })

unfoldable pub set_load : {D : Type 0} → Bool → M D (Unit {0})
set_load b = modify (λ hs. record hs { mem_status = b })

unfoldable pub flush : {D : Type 0} → M D (Unit {0})
flush = modify (λ hs. record hs { instbuf = 0 })

-- What is stored of a register by an access of `len` bytes.
abbrev pub truncated : ℕ → ℕ → ℕ
truncated len v = field v 0 (8 * len)
