-- ===== src/Uart/Checks.antt =====
-- uart.cpp: that the main thread's check keeps what a terminal stands for, and receives.
use rv_emu.Base.{
  ℕ, ◌+◌, ◌≡◌, refl, true, false, not, [], ◌∷◌, ◌++◌, none, some, length-set, arith, ◌==◌, ltb, leb,
  if◌then◌else◌, ◌∙◌, Bool-cases, inl, inr, if_true, if_false, u16,
}
use rv_emu.Plic.{and_then}
use rv_emu.Uart.{Port, tx_empty}
use rv_emu.Uart.Registers.{receive, count_timeout, check_output, uart_chk}
use rv_emu.Uart.Signals.{uart_sendint-Sent, tx_interrupt-Sent}
use rv_emu.Uart.Terminal.{Terminal}
use rv_emu.Uart.State.{IsOutput, Represents}
use rv_emu.Uart.Input.{receive-Represents, receive-none}

module _ (n : ℕ) (s : Port) (a : Terminal) (r : Represents n s a) where
  count_timeout-Represents : (t : Port) × (count_timeout n s ≡ some t) × Represents n t a
  unfolding count_timeout
  count_timeout-Represents =
      let rounds =
        (if ltb 0 s.uart.pending_in then u16 (s.uart.uart_timeout + 1) else s.uart.uart_timeout) in
      let t : Port = record s { uart = record s.uart { uart_timeout = rounds } } in
      let sent = uart_sendint-Sent n t r.eight r.answers 0b0100 in
      elim (Bool-cases (ltb 4 rounds)) [
        | inr few ↦ (
          t,
          rw few refl,
          record {
            eight = r.eight;
            answers = r.answers;
            running = r.running;
            plain = r.plain;
            input = r.input;
            output = r.output;
          },
        )
        | inl many ↦ (
          record {
            uart = record t.uart { regs = sent.regs; uart_timeout = 0 };
            plic = sent.plic;
            hartlist = sent.harts;
          },
          rw (many, sent.result) refl,
          record {
            eight = sent.eight;
            answers = sent.answers;
            running = r.running;
            plain = r.plain;
            input = r.input;
            output = r.output;
          },
        )
      ]

  required-IsOutput : IsOutput s.uart.output s.uart.tx_offset true s.uart.console a.text
  required-IsOutput =
      let o = r.output in
      record {
        waiting = o.waiting;
        left = o.left;
        fits = o.fits;
        holds = o.holds;
        place = o.place;
        room = λ e. absurd (cc);
        is_text = o.is_text;
        audible = o.audible;
        said = o.said;
      }

  check_output-Represents : (t : Port) × (check_output n s ≡ some t) × Represents n t a
  unfolding check_output
  check_output-Represents =
      let emptied : Port = record s { uart = tx_empty s.uart } in
      let sent = tx_interrupt-Sent n emptied (length-set s.uart.regs 5 _ ∙ r.eight) r.answers in
      elim (Bool-cases (s.uart.tx_offset == 0)) [
        | inl empty ↦ (
          record {
            uart = record s.uart { regs = sent.regs };
            plic = sent.plic;
            hartlist = sent.harts;
          },
          if_true _ _ _ empty ∙ sent.result,
          record {
            eight = sent.eight;
            answers = sent.answers;
            running = r.running;
            plain = r.plain;
            input = r.input;
            output = r.output;
          },
        )
        | inr busy ↦ elim (Bool-cases s.uart.tx_required) [
          | inl on ↦ (
            s,
            if_false _ _ _ busy ∙ if_false (not s.uart.tx_required) _ (some s) (ground (arith, on)),
            r,
          )
          | inr off ↦ (
            record s { uart = record s.uart { tx_required = true } },
            if_false _ _ _ busy ∙ if_true (not s.uart.tx_required) _ (some s) (ground (arith, off)),
            record {
              eight = r.eight;
              answers = r.answers;
              running = r.running;
              plain = r.plain;
              input = r.input;
              output = required-IsOutput;
            },
          )
        ]
      ]

-- The rest of a check, after a character.
rest_of_check :
    (n : ℕ) (t : Port) (a : Terminal)
    → Represents n t a
    → (u : Port) × (and_then (count_timeout n t) (check_output n) ≡ some u) × Represents n u a
rest_of_check n t a r =
    let p = count_timeout-Represents n t a r in
    let q = check_output-Represents n p.0 a p.2 in (q.0, rw (p.1) (q.1), q.2)

module _ (n : ℕ) (s : Port) (a : Terminal) (r : Represents n s a) (ch : ℕ) where
  pub uart_chk-idle :
      (ch == 255) ≡ true → (t : Port) × (uart_chk n ch s ≡ some t) × Represents n t a
  unfolding uart_chk receive
  uart_chk-idle char = let p = rest_of_check n s a r in (p.0, rw char (p.1), p.2)

  pub uart_chk-received :
      (ch == 255) ≡ false
      → leb 16 a.received ≡ false
      → (t : Port) × (uart_chk n ch s ≡ some t)
        × Represents n t (record a { inbox = a.inbox ++ (ch ∷ []); received = a.received + 1 })
  unfolding uart_chk
  uart_chk-received char room =
      let p = receive-Represents n s a r ch char room in
      let q = rest_of_check n p.0 _ p.2 in (q.0, rw (p.1) (q.1), q.2)

  pub uart_chk-none : (ch == 255) ≡ false → leb 16 a.received ≡ true → uart_chk n ch s ≡ none
  unfolding uart_chk
  uart_chk-none char full = rw (receive-none n s a r ch char full) refl
