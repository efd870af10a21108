-- ===== src/Uart/Output.antt =====
-- uart.cpp: that a print shows what waits, and that a character is put behind it.
use rv_emu.Base.{
  ℕ, suc, ◌+◌, ◌-◌, ◌<◌, ◌≡◌, ◌≢◌, refl, Bool, true, false, not, ◌||◌, List, [], ◌∷◌, ◌++◌, none,
  some, length, set, replicate, get_or, clear_bit, length-set, arith, ◌==◌, leb, if◌then◌else◌, ◌∙◌,
  ap, sym, Bool-cases, inl, inr, if_true, if_false,
}
use mathlib.Core.List.{append-nil, append_assoc}
use rv_emu.Plic.{at, and_then}
use rv_emu.Plic.Places.{assign-at}
use rv_emu.Console.{Console, c_string, dbg_print, pty_print}
use rv_emu.Uart.{Uart, Port, uart_reg, tx_empty, ibuf_size, print_output, uart_loop, await_output}
use rv_emu.Uart.Registers.{put_char}
use rv_emu.Uart.Cells.{at-after, set-after, c_string-text, append-IsText, length-snoc}
use rv_emu.Uart.Signals.{tx_interrupt-Sent}
use rv_emu.Uart.Terminal.{Terminal}
use rv_emu.Uart.State.{shown, IsAudible, IsOutput, Represents}

pub pty_print-shown :
    (msg w : List ℕ) (c : Console)
    → c_string msg ≡ some w
    → IsAudible c
    → (c' : Console) × (pty_print msg c ≡ some c') × IsAudible c' × (shown c' ≡ shown c ++ w)
unfolding pty_print dbg_print
pty_print-shown msg w c e loud = elim (Bool-cases c.dbg_fallback) [
  | inr off ↦ rw (e, off) (_, refl, refl, refl)
  | inl on ↦
      let quiet : c.sig_mode ≡ false = rw on at loud in rw (e, on, quiet) (_, refl, refl, refl)
]

module _ (n : ℕ) (s : Port) (a : Terminal) (r : Represents n s a) where
  print_output-Represents :
      (t : Port) × (print_output n s ≡ some t) × Represents n t a × (t.uart.tx_required ≡ false)
  unfolding print_output
  print_output-Represents =
      let o = r.output in
      let w = o.waiting in
      let last : at s.uart.output s.uart.tx_offset ≡ some 0 =
        rw (o.holds, o.place) (at-after w 0 (replicate o.left 0)) in
      let text : c_string s.uart.output ≡ some w =
        rw (o.holds) (c_string-text w (replicate o.left 0) o.is_text) in
      let p = pty_print-shown s.uart.output w s.uart.console text o.audible in
      let cleared : Uart =
        tx_empty (record s.uart { console = p.0; tx_offset = 0; output = replicate ibuf_size 0 }) in
      let sent =
        tx_interrupt-Sent n (record s { uart = cleared }) (length-set s.uart.regs 5 _ ∙ r.eight)
          r.answers in
      let t : Port = record {
        uart = record cleared { regs = sent.regs; tx_required = false };
        plic = sent.plic;
        hartlist = sent.harts;
      } in
      (
        t,
        rw (last, p.1, sent.result) refl,
        record {
          eight = sent.eight;
          answers = sent.answers;
          running = r.running;
          plain = r.plain;
          input = r.input;
          output = record {
            waiting = [];
            left = 15;
            fits = refl;
            holds = refl;
            place = refl;
            room = λ e. omega arith;
            is_text = tt;
            audible = p.2;
            said = rw (append-nil, p.3) o.said;
          };
        },
        refl,
      )

  loop_prints : s.uart.tx_required ≡ true → uart_loop n s ≡ print_output n s
  unfolding uart_loop
  loop_prints on = if_false _ (some s) (print_output n s) (ground (arith, on, r.running))

  pub uart_loop-Represents : (t : Port) × (uart_loop n s ≡ some t) × Represents n t a
  unfolding uart_loop
  uart_loop-Represents = elim (Bool-cases s.uart.tx_required) [
    | inr off ↦ (s, if_true _ (some s) (print_output n s) (ground (arith, off)), r)
    | inl on ↦ let p = print_output-Represents in (p.0, loop_prints on ∙ p.1, p.2)
  ]

  loop_waits :
      s.uart.tx_required ≡ true
      → await_output n s
        ≡ and_then (uart_loop n s) (λ t. if t.uart.tx_required then none else some t)
  unfolding await_output
  loop_waits on = if_false (not s.uart.tx_required) (some s) _ (ground (arith, on))

  -- The wait ends.
  pub await_output-Represents :
      (t : Port) × (await_output n s ≡ some t) × Represents n t a × (t.uart.tx_required ≡ false)
  unfolding await_output
  await_output-Represents = elim (Bool-cases s.uart.tx_required) [
    | inr off ↦ (s, if_true (not s.uart.tx_required) (some s) _ (ground (arith, off)), r, off)
    | inl on ↦
        let p = print_output-Represents in
        let printed : uart_loop n s ≡ some p.0 = loop_prints on ∙ p.1 in
        (
          p.0,
          loop_waits on ∙ rw printed (if_false p.0.uart.tx_required none (some p.0) p.3),
          p.2,
          p.3,
        )
  ]

  -- The text with a character put behind it, in a state that needs a print if there is no room.
  put-IsOutput :
      (c : ℕ) (required : Bool)
      → s.uart.tx_required ≡ false
      → c ≢ 0
      → (required ≡ false → s.uart.tx_offset + 1 < 15)
      → IsOutput
          (set s.uart.output s.uart.tx_offset c)
          (s.uart.tx_offset + 1)
          required
          s.uart.console
          (a.text ++ (c ∷ []))
  put-IsOutput c required free ne short =
      let o = r.output in
      let w = o.waiting in
      let room = o.room free in
      let more : suc (o.left - 1) ≡ o.left = omega arith in
      record {
        waiting = w ++ (c ∷ []);
        left = o.left - 1;
        fits = rw (length-snoc w c) (omega (arith, o.fits));
        holds =
            rw (o.holds, o.place, set-after w 0 c (replicate o.left 0))
              (ap (λ k. (w ++ (c ∷ [])) ++ replicate k 0) (sym more));
        place = rw (length-snoc w c) (ap (λ k. k + 1) o.place);
        room = λ e. omega (arith, short e, o.place, o.fits);
        is_text = append-IsText w c o.is_text ne;
        audible = o.audible;
        said =
            sym (append_assoc (shown s.uart.console) w (c ∷ [])) ∙ ap (λ l. l ++ (c ∷ [])) o.said;
      }

  put-Represents :
      (c : ℕ) (regs : List ℕ) (required : Bool)
      → length regs ≡ 8
      → s.uart.tx_required ≡ false
      → c ≢ 0
      → (required ≡ false → s.uart.tx_offset + 1 < 15)
      → Represents n
          (record s {
            uart = record s.uart {
              output = set s.uart.output s.uart.tx_offset c;
              tx_offset = s.uart.tx_offset + 1;
              regs = regs;
              tx_required = required;
            };
          })
          (record a { text = a.text ++ (c ∷ []) })
  put-Represents c regs required size free ne short = record {
    eight = size;
    answers = r.answers;
    running = r.running;
    plain = r.plain;
    input = r.input;
    output = put-IsOutput c required free ne short;
  }

  pub put_char-Represents :
      (c : ℕ)
      → s.uart.tx_required ≡ false
      → c ≢ 0
      → (u : Uart) × (put_char c s.uart ≡ some u)
        × Represents n (record s { uart = u }) (record a { text = a.text ++ (c ∷ []) })
  unfolding put_char
  put_char-Represents c free ne =
      let o = r.output in
      let there : at s.uart.output s.uart.tx_offset ≡ some 0 =
        rw (o.holds, o.place) (at-after o.waiting 0 (replicate o.left 0)) in
      let assigned = assign-at s.uart.output s.uart.tx_offset 0 c there in
      let first = set s.uart.regs 5 (clear_bit (uart_reg s.uart 5) 6) in
      let second = set first 5 (clear_bit (get_or first 5 0) 5) in
      let eight = length-set s.uart.regs 5 (clear_bit (uart_reg s.uart 5) 6) ∙ r.eight in
      let state = λ (regs : List ℕ) (required : Bool). record s.uart {
        output = set s.uart.output s.uart.tx_offset c;
        tx_offset = s.uart.tx_offset + 1;
        regs = regs;
        tx_required = required;
      } in
      elim (Bool-cases (leb 15 (s.uart.tx_offset + 1) || c == 0xa)) [
        | inl full ↦ (
          state second true,
          rw (assigned, full) refl,
          put-Represents c second true (length-set first 5 _ ∙ eight) free ne
              (λ e. absurd (ground (arith, e))),
        )
        | inr short ↦ (
          state first s.uart.tx_required,
          rw (assigned, short) refl,
          put-Represents c first s.uart.tx_required eight free ne (λ e. ground (arith, short)),
        )
      ]
