-- ===== src/Uart.antt =====
-- uart.cpp: the serial terminal. An operation is one step: what the printing thread, the harts'
-- threads and the main thread interleave within one is not modelled. A result `none` is undefined
-- behaviour, an access past an array, or a wait that does not end.
pub mod Registers
pub mod Cells
pub mod Signals
pub mod Terminal
pub mod State
pub mod Output
pub mod Input
pub mod Checks
pub mod Refine
use rv_emu.Base.{
  ℕ, ◌+◌, ◌*◌, ◌/◌, ◌%◌, Bool, true, false, not, ◌&&◌, ◌||◌, List, [], ◌∷◌, Option, none, some, ltb,
  ◌==◌, if◌then◌else◌, get_or, set, replicate, bit, put, u8,
}
use rv_emu.Hart.{HartState}
use rv_emu.Plic.{Plic, at, and_then, plic_send_int}
use rv_emu.Console.{Console, pty_print, pty_endl}

abbrev pub ibuf_size : ℕ
ibuf_size = 16

-- The pointers are indices of `input_buffer`; a character is a byte.
pub record Uart : Type 0 where
  pub input_buffer : List ℕ
  pub read_ptr : ℕ
  pub write_ptr : ℕ
  pub output_byte : ℕ
  pub dlab : Bool
  pub pending_in : ℕ
  pub ls : ℕ
  pub ms : ℕ
  pub fifo_trigger_lvl : ℕ
  pub regs : List ℕ
  pub tx_required : Bool
  pub uart_end : Bool
  pub output : List ℕ
  pub tx_offset : ℕ
  pub uart_timeout : ℕ
  pub console : Console

-- A terminal and what its interrupts reach.
pub record Port : Type 0 where
  pub uart : Uart
  pub plic : Plic
  pub hartlist : List HartState

abbrev pub uart_reg : Uart → ℕ → ℕ
uart_reg u i = get_or u.regs i 0

abbrev pub with_reg : Uart → ℕ → ℕ → Uart
with_reg u i v = record u { regs = set u.regs i v }

-- The initial values of the variables.
abbrev pub static_uart : Console → Uart
static_uart console = record {
  input_buffer = replicate ibuf_size 0;
  read_ptr = 0;
  write_ptr = 0;
  output_byte = 0;
  dlab = false;
  pending_in = 0;
  ls = 0;
  ms = 0;
  fifo_trigger_lvl = 1;
  regs = replicate 8 0;
  tx_required = false;
  uart_end = false;
  output = replicate ibuf_size 0;
  tx_offset = 0;
  uart_timeout = 0;
  console = console;
}

unfoldable pub uart_init : Uart → Uart
uart_init u = with_reg (with_reg (record u { read_ptr = 0; write_ptr = 0 }) 2 0b01) 5 0b0110_0000

unfoldable pub uart_uninit : Uart → Uart
uart_uninit u = record u { uart_end = true }

unfoldable pub uart_clearint : Uart → Uart
uart_clearint u = with_reg u 2 (uart_reg u 2 / 16 * 16 + 1)

abbrev pub uart_int_prio : List ℕ
uart_int_prio = 4 ∷ 3 ∷ 2 ∷ 1 ∷ 0 ∷ 6 ∷ 2 ∷ 5 ∷ []

-- `regs[5] |= 0b1100000`: the transmitter is empty.
abbrev pub tx_empty : Uart → Uart
tx_empty u = with_reg u 5 (put (uart_reg u 5) 5 2 3)

module _ (hart_count : ℕ) where
  unfoldable pub uart_sendint : ℕ → Port → Option Port
  uart_sendint code s =
      let iir = uart_reg s.uart 2 in
      if not (iir % 16 == 1)
        && ltb (get_or uart_int_prio (code / 2) 0) (get_or uart_int_prio (iir / 2 % 8) 0)
      then some s
      else and_then (plic_send_int hart_count s.plic 10 s.hartlist) (λ r. some (record {
        uart = with_reg s.uart 2 (iir / 16 * 16 + code % 16);
        plic = r.0;
        hartlist = r.1;
      }))

  -- The interrupt of an empty transmitter, if it is enabled.
  unfoldable pub tx_interrupt : Port → Option Port
  tx_interrupt s = if bit (uart_reg s.uart 1) 1 then uart_sendint 0b0010 s else some s

  -- What the printing thread does in a round of its loop after the wait.
  unfoldable pub print_output : Port → Option Port
  print_output s =
      let u = s.uart in
      and_then (at u.output u.tx_offset) (λ last.
        and_then
          (if last == 0xa
            then and_then (pty_print (set u.output u.tx_offset 0) u.console) pty_endl
            else pty_print u.output u.console)
          (λ console.
            let cleared = record u {
              console = console;
              tx_offset = 0;
              output = replicate ibuf_size 0;
            } in
            and_then (tx_interrupt (record s { uart = tx_empty cleared }))
              (λ t. some (record t { uart = record t.uart { tx_required = false } }))))

  -- The printing thread from one wait to the next; with `uart_end` it is gone.
  unfoldable pub uart_loop : Port → Option Port
  uart_loop s = if not s.uart.tx_required || s.uart.uart_end then some s else print_output s

  -- `while (tx_required);`, during which the printing thread runs.
  unfoldable pub await_output : Port → Option Port
  await_output s =
      if not s.uart.tx_required
      then some s
      else and_then (uart_loop s) (λ t. if t.uart.tx_required then none else some t)
