-- ===== src/Uart/Signals.antt =====
-- uart.cpp: what sending an interrupt leaves of a terminal.
use rv_emu.Base.{
  some_eq, ℕ, ◌+◌, ◌*◌, ◌/◌, ◌%◌, ◌≡◌, refl, Bool, true, false, List, Option, none, some, length,
  set, length-set, arith, bit, set_bit, Bool-cases, Option-cases, inl, inr, subst, if◌then◌else◌,
  ◌∙◌,
}
use rv_emu.Hart.{HartState}
use rv_emu.Plic.{Plic, at, and_then, plic_send_int, plic_try_int}
use rv_emu.Plic.Places.{at-set_self}
use rv_emu.Uart.{Port, uart_reg, with_reg, uart_sendint, tx_interrupt}

-- The interrupt controller takes the terminal's interrupt.
abbrev pub Answers : ℕ → Plic → List HartState → Type 0
Answers n p harts = (r : Plic × List HartState) × (plic_send_int n p 10 harts ≡ some r)

none-ne-some {ℓ} : {A : Type ℓ} (a : A) → none ≡ some a → ⊥
none-ne-some a e = cc

-- A source that is pending is not sent again.
pending-Answers :
    (n : ℕ) (p : Plic) (harts : List HartState) (w : ℕ)
    → at p.int_pend_regs (10 / 32) ≡ some w
    → bit w (10 % 32) ≡ true
    → Answers n p harts
unfolding plic_send_int
pending-Answers n p harts w there pending = ((p, harts), rw (there, pending) refl)

abbrev pend : Plic → ℕ → Plic
pend p w = record p { int_pend_regs = set p.int_pend_regs (10 / 32) (set_bit w (10 % 32)) }

pend-Answers :
    (n : ℕ) (p : Plic) (harts : List HartState) (w : ℕ)
    → at p.int_pend_regs (10 / 32) ≡ some w
    → Answers n (pend p w) harts
pend-Answers n p harts w there =
    pending-Answers n (pend p w) harts (set_bit w (10 % 32))
      (at-set_self p.int_pend_regs (10 / 32) w (set_bit w (10 % 32)) there) (ground arith)

tried-Answers :
    (n w : ℕ) (p : Plic) (harts : List HartState) (o : Option (List HartState))
    (r : Plic × List HartState)
    → at p.int_pend_regs (10 / 32) ≡ some w
    → and_then o (λ ys. some (pend p w, ys)) ≡ some r
    → Answers n r.0 r.1
tried-Answers n w p harts none r there e = absurd (none-ne-some r e)
tried-Answers n w p harts (some ys) r there e =
    subst (λ q. Answers n q.0 q.1) (some_eq (pend p w, ys) r e) (pend-Answers n p ys w there)

-- Once it has taken the interrupt, it takes it again.
pub send_again :
    (n : ℕ) (p : Plic) (harts : List HartState) (r : Plic × List HartState)
    → plic_send_int n p 10 harts ≡ some r
    → Answers n r.0 r.1
unfolding plic_send_int
send_again n p harts r e = elim (Option-cases (at p.int_pend_regs (10 / 32))) [
  | inl gone ↦ absurd (none-ne-some r (rw gone at e))
  | inr (w, there) ↦ elim (Bool-cases (bit w (10 % 32))) [
    | inl pending ↦
        subst (λ q. Answers n q.0 q.1) (some_eq (p, harts) r (rw (there, pending) at e))
          (pending-Answers n p harts w there pending)
    | inr clear ↦
        tried-Answers n w p harts (plic_try_int n (pend p w) 10 harts) r there
          (rw (there, clear) at e)
  ]
]

-- A result that differs in the registers of the terminal, in the controller and in the harts.
pub record Sent (n : ℕ) (s : Port) (o : Option Port) : Type 0 where
  pub regs : List ℕ
  pub plic : Plic
  pub harts : List HartState
  pub result :
      o ≡ some (record { uart = record s.uart { regs = regs }; plic = plic; hartlist = harts })
  pub eight : length regs ≡ 8
  pub answers : Answers n plic harts

module _ (n : ℕ) (s : Port) (size : length s.uart.regs ≡ 8)
    (alive : Answers n s.plic s.hartlist) where
  pub none-Sent : Sent n s (some s)
  none-Sent = record {
    regs = s.uart.regs;
    plic = s.plic;
    harts = s.hartlist;
    result = refl;
    eight = size;
    answers = alive;
  }

  pub if-Sent :
      (b : Bool) (o p : Option Port) → Sent n s o → Sent n s p → Sent n s (if b then o else p)
  if-Sent true o p h k = h
  if-Sent false o p h k = k

  taken-Sent :
      (v : ℕ)
      → Sent n s (
          and_then
            (plic_send_int n s.plic 10 s.hartlist)
            (λ r. some (record { uart = with_reg s.uart 2 v; plic = r.0; hartlist = r.1 })))
  taken-Sent v = record {
    regs = set s.uart.regs 2 v;
    plic = alive.0.0;
    harts = alive.0.1;
    result = rw (alive.1) refl;
    eight = length-set s.uart.regs 2 v ∙ size;
    answers = send_again n s.plic s.hartlist alive.0 alive.1;
  }

  pub uart_sendint-Sent : (code : ℕ) → Sent n s (uart_sendint n code s)
  unfolding uart_sendint
  uart_sendint-Sent code =
      let iir = uart_reg s.uart 2 in
      if-Sent _ (some s) _ none-Sent (taken-Sent (iir / 16 * 16 + code % 16))

  pub tx_interrupt-Sent : Sent n s (tx_interrupt n s)
  unfolding tx_interrupt
  tx_interrupt-Sent = if-Sent _ _ (some s) (uart_sendint-Sent 0b0010) none-Sent
