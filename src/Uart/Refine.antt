-- ===== src/Uart/Refine.antt =====
-- uart.cpp keeps the promise of a terminal.
use rv_emu.Base.{
  ℕ, ◌≡◌, ◌≢◌, refl, Bool, true, false, List, [], ◌∷◌, ◌++◌, Option, none, some, length, set,
  length-set, arith, ◌==◌, leb, if◌then◌else◌, ◌∙◌, Bool-cases, inl, inr,
}
use mathlib.Core.List.{append-nil}
use rv_emu.Hart.{HartState}
use rv_emu.Plic.{Plic, and_then}
use rv_emu.Plic.Places.{at-some}
use rv_emu.Console.{Console}
use rv_emu.Uart.{Port, static_uart, uart_init, with_reg, uart_clearint}
use rv_emu.Uart.Registers.{uart_w, transmit, clear_tx}
use rv_emu.Uart.Signals.{Answers}
use rv_emu.Uart.Terminal.{
  Terminal, Access, checks, prints, reads, sends, next_char, promised, performed, run, IsSent,
  AreSent,
}
use rv_emu.Uart.State.{Represents, IsAudible, shown}
use rv_emu.Uart.Output.{uart_loop-Represents, await_output-Represents, put_char-Represents}
use rv_emu.Uart.Input.{uart_r-Represents}
use rv_emu.Uart.Checks.{uart_chk-idle, uart_chk-received, uart_chk-none}

-- Both are undefined, or both give the same and the states still agree.
pub data Agrees (n : ℕ) {A : Type 0} : Option (A × Port) → Option (A × Terminal) → Type 0 where
  undefined_both : Agrees n none none
  same : (x : A) (s : Port) (a : Terminal) → Represents n s a → Agrees n (some (x, s)) (some (x, a))

either {ℓ} : {A : Type ℓ} (Q : A → Type 0) (b : Bool) (x y : A) → Q x → Q y → Q (if b then x else y)
either Q true x y h k = h
either Q false x y h k = k

module _ (n : ℕ) (s : Port) (a : Terminal) (r : Represents n s a) where
  with_regs-Represents :
      (regs : List ℕ)
      → length regs ≡ 8
      → Represents n (record s { uart = record s.uart { regs = regs } }) a
  with_regs-Represents regs size = record {
    eight = size;
    answers = r.answers;
    running = r.running;
    plain = r.plain;
    input = r.input;
    output = r.output;
  }

  clear_tx-Represents : Represents n (record s { uart = clear_tx s.uart }) a
  unfolding uart_clearint
  clear_tx-Represents =
      either (λ u. Represents n (record s { uart = u }) a) _ (uart_clearint s.uart) s.uart
        (with_regs-Represents _ (length-set s.uart.regs 2 _ ∙ r.eight)) r

  transmit-Represents :
      (c : ℕ)
      → c ≢ 0
      → (t : Port) × (transmit n c s ≡ some t)
        × Represents n t (record a { text = a.text ++ (c ∷ []) })
  unfolding transmit
  transmit-Represents c ne =
      let p =
        await_output-Represents n (record s { uart = clear_tx s.uart }) a clear_tx-Represents in
      let q = put_char-Represents n p.0 a p.2 c p.3 ne in
      (record p.0 { uart = q.0 }, rw (p.1, q.1) refl, q.2)

-- A character sent.
sends-Represents :
    (n : ℕ) (s : Port) (a : Terminal) (c : ℕ)
    → Represents n s a
    → c ≢ 0
    → (t : Port) × (uart_w n 0 c s ≡ some t)
      × Represents n t (record a { text = a.text ++ (c ∷ []) })
unfolding uart_w
sends-Represents n s a c r ne =
    let there = at-some s.uart.regs 0 (omega (arith, r.eight)) in
    let first : Port = record s { uart = with_reg s.uart 0 c } in
    let p =
      transmit-Represents n first a
        (with_regs-Represents n s a r (set s.uart.regs 0 c) (length-set s.uart.regs 0 c ∙ r.eight))
        c ne in
    (p.0, rw (there.1) (p.1), p.2)

agree :
    (n : ℕ) (x y : ℕ) (t : Port) (a : Terminal) (o : Option (ℕ × Port)) (q : Option (ℕ × Terminal))
    → o ≡ some (x, t)
    → q ≡ some (y, a)
    → x ≡ y
    → Represents n t a
    → Agrees n o q
agree n x y t a o q e f g r = rw (e, f, g) (same y t a r)

-- An access.
performed-Agrees :
    (n : ℕ) (op : Access) (s : Port) (a : Terminal)
    → IsSent op
    → Represents n s a
    → Agrees n (performed n op s) (promised op a)
unfolding performed promised
performed-Agrees n (checks ch) s a sent r = elim (Bool-cases (ch == 255)) [
  | inl char ↦
      let p = uart_chk-idle n s a r ch char in
      agree n 0 0 p.0 a _ _ (rw (p.1) refl) (rw char refl) refl p.2
  | inr char ↦ elim (Bool-cases (leb 16 a.received)) [
    | inl full ↦ rw (uart_chk-none n s a r ch char full, char, full) undefined_both
    | inr room ↦
        let p = uart_chk-received n s a r ch char room in
        agree n 0 0 p.0 _ _ _ (rw (p.1) refl) (rw (char, room) refl) refl p.2
  ]
]
performed-Agrees n prints s a sent r =
    let p = uart_loop-Represents n s a r in agree n 0 0 p.0 a _ _ (rw (p.1) refl) refl refl p.2
performed-Agrees n reads s a sent r =
    let p = uart_r-Represents n s a.inbox a.text a.received r in
    agree n p.0.output_byte (next_char a.inbox).0 (record s { uart = p.0 }) _ _ _ (rw (p.1) refl)
      refl p.2 p.3
performed-Agrees n (sends c) s a sent r =
    let p = sends-Represents n s a c r sent in agree n 0 0 p.0 _ _ _ (rw (p.1) refl) refl refl p.2

and_then-Agrees :
    (n : ℕ) {A B : Type 0} (o : Option (A × Port)) (q : Option (A × Terminal))
    (f : A × Port → Option (B × Port)) (g : A × Terminal → Option (B × Terminal))
    → Agrees n o q
    → ((x : A) (s : Port) (a : Terminal) → Represents n s a → Agrees n (f (x, s)) (g (x, a)))
    → Agrees n (and_then o f) (and_then q g)
and_then-Agrees n _ _ f g undefined_both k = undefined_both
and_then-Agrees n _ _ f g (same x s a r) k = k x s a r

run-Agrees :
    (n : ℕ) (ops : List Access) (s : Port) (a : Terminal)
    → AreSent ops
    → Represents n s a
    → Agrees n (run (performed n) ops s) (run promised ops a)
run-Agrees n [] s a sent r = same [] s a r
run-Agrees n (op ∷ rest) s a sent r =
    and_then-Agrees n _ _ _ _ (performed-Agrees n op s a sent.0 r) (λ x t b k.
      and_then-Agrees n _ _ _ _ (run-Agrees n rest t b sent.1 k) (λ y u c h. same (x ∷ y) u c h))

-- The terminal after uart_init.
abbrev pub port_init : Console → Plic → List HartState → Port
port_init console plic hartlist = record {
  uart = uart_init (static_uart console);
  plic = plic;
  hartlist = hartlist;
}

abbrev pub terminal_init : Console → Terminal
terminal_init console = record { inbox = []; received = 0; text = shown console }

init-Represents :
    (n : ℕ) (console : Console) (plic : Plic) (harts : List HartState)
    → IsAudible console
    → Answers n plic harts
    → Represents n (port_init console plic harts) (terminal_init console)
unfolding uart_init
init-Represents n console plic harts loud alive = record {
  eight = refl;
  answers = alive;
  running = refl;
  plain = refl;
  input = record {
    size = refl;
    between = refl;
    total = refl;
    fits = omega arith;
    count = refl;
    chars = λ k lt. absurd (omega (arith, lt));
  };
  output = record {
    waiting = [];
    left = 15;
    fits = refl;
    holds = refl;
    place = refl;
    room = λ e. omega arith;
    is_text = tt;
    audible = loud;
    said = append-nil (shown console);
  };
}

-- If prints are not dropped and the interrupt controller takes the terminal's interrupt, then after
-- uart_init every sequence of checks with or without a character, rounds of the printing thread,
-- reads of the first register and writes of characters other than NUL to it is undefined exactly if
-- a seventeenth character comes in it; otherwise the reads give the characters in the order in
-- which they came, 0 where there is none, and what is printed, with what waits to be, is what was
-- written, in its order.
pub run_refines :
    (n : ℕ) (console : Console) (plic : Plic) (harts : List HartState) (ops : List Access)
    → IsAudible console
    → Answers n plic harts
    → AreSent ops
    → Agrees n
        (run (performed n) ops (port_init console plic harts))
        (run promised ops (terminal_init console))
run_refines n console plic harts ops loud alive sent =
    run-Agrees n ops _ _ sent (init-Represents n console plic harts loud alive)
