-- ===== src/Uart/State.antt =====
-- When the state of uart.cpp's terminal stands for an abstract one.
use rv_emu.Base.{
  ℕ, suc, ◌+◌, ◌≤◌, ◌<◌, ◌≡◌, Bool, false, ◌&&◌, List, ◌++◌, some, length, get_or, replicate,
  if◌then◌else◌,
}
use rv_emu.Hart.{HartState}
use rv_emu.Plic.{Plic, at}
use rv_emu.Console.{Console}
use rv_emu.Uart.{Port}
use rv_emu.Uart.Cells.{IsText}
use rv_emu.Uart.Signals.{Answers}
use rv_emu.Uart.Terminal.{Terminal}

abbrev pub shown : Console → List ℕ
shown c = if c.dbg_fallback then c.stdout else c.pty_master_out

-- What is printed is not dropped.
abbrev pub IsAudible : Console → Type 0
IsAudible c = (c.dbg_fallback && c.sig_mode) ≡ false

-- The text is what was printed and what waits in `output`, with a NUL behind.
pub record IsOutput (cells : List ℕ) (offset : ℕ) (required : Bool) (c : Console) (text : List ℕ)
    : Type 0 where
  pub waiting : List ℕ
  pub left : ℕ
  pub fits : length waiting + left ≡ 15
  pub holds : cells ≡ waiting ++ replicate (suc left) 0
  pub place : offset ≡ length waiting
  pub room : required ≡ false → 0 < left
  pub is_text : IsText waiting
  pub audible : IsAudible c
  pub said : shown c ++ waiting ≡ text

-- The buffer between the pointers is what is typed and not read.
pub record IsInput (cells : List ℕ) (read write pending : ℕ) (inbox : List ℕ) (received : ℕ)
    : Type 0 where
  pub size : length cells ≡ 16
  pub between : read + length inbox ≡ write
  pub total : write ≡ received
  pub fits : write ≤ 16
  pub count : pending ≡ length inbox
  pub chars : (k : ℕ) → k < length inbox → at cells (read + k) ≡ some (get_or inbox k 0)

pub record Represents (n : ℕ) (s : Port) (a : Terminal) : Type 0 where
  pub eight : length s.uart.regs ≡ 8
  pub answers : Answers n s.plic s.hartlist
  pub running : s.uart.uart_end ≡ false
  pub plain : s.uart.dlab ≡ false
  pub input :
      IsInput s.uart.input_buffer s.uart.read_ptr s.uart.write_ptr s.uart.pending_in a.inbox
        a.received
  pub output : IsOutput s.uart.output s.uart.tx_offset s.uart.tx_required s.uart.console a.text

-- What sending an interrupt leaves of it.
pub sent-Represents :
    (n : ℕ) (s : Port) (a : Terminal) (regs : List ℕ) (plic : Plic) (harts : List HartState)
    → length regs ≡ 8
    → Answers n plic harts
    → Represents n s a
    → Represents n
        (record { uart = record s.uart { regs = regs }; plic = plic; hartlist = harts })
        a
sent-Represents n s a regs plic harts size alive r = record {
  eight = size;
  answers = alive;
  running = r.running;
  plain = r.plain;
  input = r.input;
  output = r.output;
}
