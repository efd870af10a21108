-- ===== src/Lib.antt =====
-- rv-emu: an emulator of 64-bit RISC-V harts, and a model of its core.
--
-- The emulator runs harts over a physical memory with devices. `hart_loop` of main.cpp calls `cycle`
-- of cpu.cpp, which takes pending interrupts (hartexc.cpp), fetches and decodes an instruction and
-- executes it (cpu.cpp); every access goes through translation and physical memory protection
-- (mem.cpp). The files model these parts:
--
--   Base       words: `u8` to `u64`, bits and fields, sign extension; lists, integers, powers
--   Hart       cpu.h: `HartState` and its parts, `HartException`; Hart.Reset: `reset_state` of
--              cpu.cpp, `hart_init` of main.cpp
--   Platform   the C library's `ffsll`, and shifts past the width, which C++ leaves undefined
--   Trap       hartexc.cpp: `create_exception`, `setup_pending_int`; MRET and SRET of cpu.cpp
--              Trap.Rule: when a trap is taken and what it does, by causes and bits of mstatus
--   Pmp        mem.cpp: `chk_pmp`, `chk_pmp_range`, `sync_exp_pmp`, `chk_pmp_exp`,
--              `chk_pmp_range_exp`; Pmp.Config: `pmpcfg_rw` of cpu.cpp
--   Tlb        mem.cpp: `tlb_clear`, `tlb_hash`, `tlb_add`
--   Memory     mem.h, mem.ipp, mem.cpp: the memories and the map of the devices, `phy_mem_fetch`,
--              `phy_mem_store`; Memory.Access: `mem_fetch`, `mem_store`; Memory.Walk:
--              `page_table_walk`, `tlb_find`, `virt_mem_fetch`, `virt_mem_store`
--   Exec       cpu.cpp: the other instructions of `decode_exc`; Exec.Atomic: AMO, LR and SC
--   Cycle      cpu.cpp: `fetch`, `cycle`
--   Machine    main.cpp: `hart_loop`, the threads of the harts over one memory
--   Guard      which states of a hart are well formed, and what a step may change
--   Csr        cpu.cpp: `csr_from_addr`, `chk_ro0_csr`, the CSR instructions of `decode_exc`
--   Plic       plic.cpp: `plic_init`, `plic_send_int`, `plic_try_int`, the claim and completion;
--              Plic.Registers: `plic_r`, `plic_w`, `plic_try_int_all`
--   Aclint     aclint.cpp: the timer and the software interrupts; the clock is an argument
--   Console    io.cpp: where the terminal's characters are printed
--   Uart       uart.cpp: the serial terminal, with its printing thread; Uart.Registers: `uart_r`,
--              `uart_w`, `uart_chk`; Uart.Terminal: what it promises
--   Virtio     virtio_mmio_blk.cpp, virtio_common.h: the registers of the block device
--   Soc        mem.h, main.cpp: the devices together behind the memory map, `hw_init`; Soc.Run: the
--              main loop, the printing thread and the harts as events
--   Elf        elf.cpp: `load_elf`, with libelf's answers as the record `File`
--   Options    main.cpp: the arguments and the files loaded at the start
--   Signature  main.cpp: the dump of the signature
--   Decode     cpu.cpp, `decode_exc`: 32-bit instructions; Decode.Compressed: 16-bit instructions
--   Alu        cpu.cpp, `decode_exc`: OP_IMM, OP_IMM_32, OP, OP_32, the comparison of BRANCH
--   Examples   the theorems at concrete inputs, with tests
--
-- Names are those of the source, in snake case. A word of w bits is a natural number below 2 ^ w and
-- wraps round where the source's type does. Signed arithmetic that overflows wraps as the compilers
-- in use make it do; a host division that overflows is `undefined`, an access past an array is
-- `none`, and a shift by the width or more is a parameter. The fields of `HartState` that are CSRs or
-- belong to memory protection are the records `Csrs` and `Pmp`, opened in it. Loops over the 16
-- entries, the 8 bytes of a register, the 16 interrupt sources, the contexts and the 6 page sizes are
-- recursion on the number of rounds, so nothing there runs out of fuel.
--
-- An access or an instruction is a function from a hart that runs and the rest of the machine (`Run`)
-- to a result and the state after it, or `none`; `Memory` has the operations that build one, and
-- `Memory.Keeps` a rule for the invariants of each. What the memory map calls of the devices is the
-- record `Board`, an argument; that its handlers reach of the hart that makes the access no more than
-- `mip` is the hypothesis `IsBoard`. In `Machine` a cycle of a hart is one step, and what devices and
-- other threads do to the `mip` and `chk_int` of a hart, and to themselves, is a step between cycles.
-- `Soc` puts the interrupt controller, the interruptor, the terminal and the block device behind the
-- memory map: a handler works on the list of the harts, with the hart that makes the access in its
-- place, and `Soc.Run` hands what it did to the other harts to them after the cycle. The hypothesis
-- `IsBoard` is a theorem there. A wait for the printing thread is a round of that thread. The walk has
-- at most 5 layers and the cache 6 sizes, which are the rounds of their loops.
--
-- The loop of the dump of the signature runs on fuel; more rounds than it has lines are enough.
--
-- Not modelled: the set-up of the host's terminals and the reading of a key (io.cpp), the dump of the
-- memory and of a hart's state, the thread of the block device, which is not started, and the
-- interleaving of the threads within a cycle or an operation of a device. libelf, getopt and the calls
-- of the system are parameters.
pub mod Base
pub mod Hart
pub mod Platform
pub mod Trap
pub mod Pmp
pub mod Csr
pub mod Plic
pub mod Aclint
pub mod Console
pub mod Uart
pub mod Virtio
pub mod Soc
pub mod Elf
pub mod Options
pub mod Signature
pub mod Memory
pub mod Exec
pub mod Cycle
pub mod Machine
pub mod Guard
pub mod Tlb
pub mod Decode
pub mod Alu
pub mod Examples
