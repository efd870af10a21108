-- ===== src/Uart/Registers.antt =====
-- uart.cpp: `uart_r` and `uart_w`, the registers of the serial terminal, and `uart_chk`.
use rv_emu.Base.{
  ℕ, ◌+◌, ◌-◌, ◌/◌, ◌%◌, true, not, ◌&&◌, ◌||◌, Option, some, ltb, leb, ◌==◌, if◌then◌else◌,
  set_bit, clear_bit, bit, u16, sext,
}
use rv_emu.Plic.{at, and_then}
use rv_emu.Plic.Registers.{assign}
use rv_emu.Uart.{
  Uart, Port, uart_reg, with_reg, ibuf_size, uart_clearint, uart_sendint, tx_interrupt, tx_empty,
  await_output,
}

-- A character, which is signed, from the buffer. The comparison is made after the step.
unfoldable pub take_char : Uart → Option Uart
take_char u = and_then (at u.input_buffer u.read_ptr) (λ c. some (record u {
  output_byte = sext 8 c;
  read_ptr = if ltb ibuf_size (u.read_ptr + 1) then 0 else u.read_ptr + 1;
  pending_in = u.pending_in - 1;
}))

unfoldable pub uart_value : ℕ → Uart → Option Uart
uart_value offset u =
    if offset == 0
    then if u.dlab
      then some (record u { output_byte = u.ls })
      else if ltb 0 u.pending_in
      then take_char u
      else some (record u { output_byte = 0 })
    else if offset == 1
    then some (record u { output_byte = if u.dlab then uart_reg u 1 else u.ms })
    else and_then (at u.regs offset) (λ v. some (record u { output_byte = v }))

-- The interrupt of an empty transmitter is cleared.
abbrev pub clear_tx : Uart → Uart
clear_tx u = if uart_reg u 2 % 16 == 2 then uart_clearint u else u

abbrev pub data_ready : Uart → Uart
data_ready u =
    with_reg u 5
      (if ltb 0 u.pending_in then set_bit (uart_reg u 5) 0 else clear_bit (uart_reg u 5) 0)

-- The pointer returned is that of `output_byte`.
unfoldable pub uart_r : ℕ → Uart → Option Uart
uart_r offset u =
    and_then (uart_value offset u) (λ v. some (data_ready (if offset == 2 then clear_tx v else v)))

unfoldable pub trigger_level : ℕ → ℕ
trigger_level code = if code == 0 then 1 else if code == 1 then 4 else if code == 2 then 8 else 14

-- A character into `output`; the thread is told if it is full or a line has ended.
unfoldable pub put_char : ℕ → Uart → Option Uart
put_char data_char u = and_then (assign u.output u.tx_offset data_char) (λ output.
    let v = record u { output = output; tx_offset = u.tx_offset + 1 } in
    let not_empty = with_reg v 5 (clear_bit (uart_reg v 5) 6) in
    some (
      if leb (ibuf_size - 1) not_empty.tx_offset || data_char == 0xa
      then record (with_reg not_empty 5 (clear_bit (uart_reg not_empty 5) 5)) { tx_required = true }
      else not_empty))

module _ (hart_count : ℕ) where
  unfoldable pub transmit : ℕ → Port → Option Port
  transmit data_char s =
      and_then (await_output hart_count (record s { uart = clear_tx s.uart }))
        (λ t. and_then (put_char data_char t.uart) (λ u. some (record t { uart = u })))

  -- `data_` is the byte at the pointer.
  unfoldable pub uart_w : ℕ → ℕ → Port → Option Port
  uart_w offset data_ s = and_then (at s.uart.regs offset) (λ _.
      let u = with_reg s.uart offset data_ in
      let latched = (if offset == 3 then record u { dlab = bit (uart_reg u 3) 7 } else u) in
      let t = record s { uart = latched } in
      if offset == 0
      then transmit data_ t
      else if offset == 2
      then some (record t {
        uart = record latched { fifo_trigger_lvl = trigger_level (uart_reg latched 2 / 64) };
      })
      else some t)

  -- What `uart_chk` does with a character: `ch != -1`.
  unfoldable pub receive : ℕ → Port → Option Port
  receive ch s =
      if ch == 255
      then some s
      else and_then (assign s.uart.input_buffer s.uart.write_ptr ch) (λ input_buffer.
        let u = record s.uart {
          input_buffer = input_buffer;
          write_ptr = s.uart.write_ptr + 1;
          pending_in = u16 (s.uart.pending_in + 1);
        } in
        let t = record s { uart = u } in
        and_then
          (if ltb (u.read_ptr + u.fifo_trigger_lvl) u.write_ptr && bit (uart_reg u 1) 0
            then uart_sendint hart_count 0b0100 t
            else some t)
          (λ r. some (record r {
            uart = record r.uart {
              write_ptr = if ltb ibuf_size r.uart.write_ptr then 0 else r.uart.write_ptr;
            };
          })))

  -- The receiver timeout.
  unfoldable pub count_timeout : Port → Option Port
  count_timeout s =
      let rounds =
        (if ltb 0 s.uart.pending_in then u16 (s.uart.uart_timeout + 1) else s.uart.uart_timeout) in
      let t = record s { uart = record s.uart { uart_timeout = rounds } } in
      if ltb 4 rounds
      then and_then (uart_sendint hart_count 0b0100 t)
          (λ r. some (record r { uart = record r.uart { uart_timeout = 0 } }))
      else some t

  unfoldable pub check_output : Port → Option Port
  check_output s =
      if s.uart.tx_offset == 0
      then tx_interrupt hart_count (record s { uart = tx_empty s.uart })
      else if not s.uart.tx_required
      then some (record s { uart = record s.uart { tx_required = true } })
      else some s

  -- `ch` is what `pty_getc` returns.
  unfoldable pub uart_chk : ℕ → Port → Option Port
  uart_chk ch s = and_then (receive ch s) (λ t. and_then (count_timeout t) check_output)
