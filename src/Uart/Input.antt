-- ===== src/Uart/Input.antt =====
-- uart.cpp: that the buffer between the pointers is a queue until sixteen characters have come.
use rv_emu.Base.{
  ℕ, suc, ◌+◌, ◌-◌, ◌<◌, ◌≡◌, refl, true, false, ◌&&◌, List, [], ◌∷◌, ◌++◌, none, some, length,
  get_or, set, length-set, arith, ◌==◌, ltb, leb, if◌then◌else◌, ◌∙◌, subst, if_false, u16, bit,
  sext,
}
use native.Mathlib.Decide.{ℕ_discrete}
use rv_emu.Plic.{at}
use rv_emu.Plic.Places.{assign-in, assign-past, at-set_self, at-set_ne, at-some}
use rv_emu.Uart.{Uart, Port, uart_reg, uart_sendint}
use rv_emu.Uart.Registers.{receive, take_char, uart_value, uart_r, data_ready}
use rv_emu.Uart.Cells.{length-snoc, get_or-snoc_old, get_or-snoc_new}
use rv_emu.Uart.Signals.{uart_sendint-Sent, if-Sent, none-Sent}
use rv_emu.Uart.Terminal.{Terminal, next_char}
use rv_emu.Uart.State.{IsInput, Represents}

module _ (cells : List ℕ) (read write pending : ℕ) (inbox : List ℕ) (received : ℕ) where
  -- A character behind the others.
  receive-IsInput :
      (ch : ℕ)
      → IsInput cells read write pending inbox received
      → received < 16
      → IsInput
          (set cells write ch)
          read
          (if ltb 16 (write + 1) then 0 else write + 1)
          (u16 (pending + 1))
          (inbox ++ (ch ∷ []))
          (received + 1)
  receive-IsInput ch i few =
      let stays : (if ltb 16 (write + 1) then 0 else write + 1) ≡ write + 1 =
        if_false _ 0 (write + 1) (ground (arith, i.total)) in
      let there = at-some cells write (omega (arith, i.size, i.total, few)) in
      rw stays (record {
        size = length-set cells write ch ∙ i.size;
        between = rw (length-snoc inbox ch) (omega (arith, i.between));
        total = omega (arith, i.total);
        fits = omega (arith, i.total);
        count = rw (length-snoc inbox ch) (omega (arith, i.count, i.between, i.fits));
        chars = λ k lt. elim (ℕ_discrete k (length inbox)) [
          | yes last ↦
              rw
                (
                  last,
                  i.between,
                  at-set_self cells write there.0 ch there.1,
                  get_or-snoc_new inbox ch 0,
                )
                refl
          | no old ↦
              let lt' : k < length inbox = omega (arith, old, lt, length-snoc inbox ch) in
              rw
                (
                  at-set_ne cells write (read + k) ch (omega (arith, i.between, lt')),
                  get_or-snoc_old inbox ch k 0 lt',
                )
                (i.chars k lt')
        ];
      })

-- The first character taken.
take-IsInput :
    (cells : List ℕ) (read write pending c : ℕ) (rest : List ℕ) (received : ℕ)
    → IsInput cells read write pending (c ∷ rest) received
    → (at cells read ≡ some c)
      × IsInput cells (if ltb 16 (read + 1) then 0 else read + 1) write (pending - 1) rest received
take-IsInput cells read write pending c rest received i =
    let stays : (if ltb 16 (read + 1) then 0 else read + 1) ≡ read + 1 =
      if_false _ 0 (read + 1) (ground (arith, i.between, i.fits)) in
    (
      subst (λ k. at cells k ≡ some c) (omega arith) (i.chars 0 (omega arith)),
      rw stays (record {
        size = i.size;
        between = omega (arith, i.between);
        total = i.total;
        fits = i.fits;
        count = omega (arith, i.count);
        chars = λ k lt.
            subst (λ j. at cells j ≡ some (get_or rest k 0)) (omega arith)
              (i.chars (suc k) (omega (arith, lt)));
      }),
    )

module _ (n : ℕ) (s : Port) (a : Terminal) (r : Represents n s a) where
  pub receive-none :
      (ch : ℕ) → (ch == 255) ≡ false → leb 16 a.received ≡ true → receive n ch s ≡ none
  unfolding receive
  receive-none ch char full =
      let i = r.input in
      let past =
        assign-past s.uart.input_buffer s.uart.write_ptr ch
          (ground (arith, i.size, i.total, full)) in
      rw (char, past) refl

  pub receive-Represents :
      (ch : ℕ)
      → (ch == 255) ≡ false
      → leb 16 a.received ≡ false
      → (t : Port) × (receive n ch s ≡ some t)
        × Represents n t (record a { inbox = a.inbox ++ (ch ∷ []); received = a.received + 1 })
  unfolding receive
  receive-Represents ch char room =
      let u = s.uart in
      let few : a.received < 16 = ground (arith, room) in
      let i =
        receive-IsInput u.input_buffer u.read_ptr u.write_ptr u.pending_in a.inbox a.received ch
          r.input few in
      let put =
        assign-in u.input_buffer u.write_ptr ch (omega (arith, r.input.size, r.input.total, few)) in
      let got : Uart = record u {
        input_buffer = set u.input_buffer u.write_ptr ch;
        write_ptr = u.write_ptr + 1;
        pending_in = u16 (u.pending_in + 1);
      } in
      let t : Port = record s { uart = got } in
      let ready =
        ltb (got.read_ptr + got.fifo_trigger_lvl) got.write_ptr && bit (uart_reg got 1) 0 in
      let sent =
        if-Sent n t r.eight r.answers ready (uart_sendint n 0b0100 t) (some t)
          (uart_sendint-Sent n t r.eight r.answers 0b0100) (none-Sent n t r.eight r.answers) in
      let after : Port = record {
        uart = record got {
          regs = sent.regs;
          write_ptr = if ltb 16 (u.write_ptr + 1) then 0 else u.write_ptr + 1;
        };
        plic = sent.plic;
        hartlist = sent.harts;
      } in
      (
        after,
        rw (char, put, sent.result) refl,
        record {
          eight = sent.eight;
          answers = sent.answers;
          running = r.running;
          plain = r.plain;
          input = i;
          output = r.output;
        },
      )

-- A read of the first register.
module _ (n : ℕ) (s : Port) (read_ptr pending_in value : ℕ) (inbox : List ℕ) (a : Terminal) where
  read_state : Uart
  read_state = record s.uart { output_byte = value; read_ptr = read_ptr; pending_in = pending_in }

  value-Represents :
      Represents n s a
      → IsInput s.uart.input_buffer read_ptr s.uart.write_ptr pending_in inbox a.received
      → uart_value 0 s.uart ≡ some read_state
      → (u : Uart) × (uart_r 0 s.uart ≡ some u)
        × (u.output_byte ≡ value)
        × Represents n (record s { uart = u }) (record a { inbox = inbox })
  unfolding uart_r read_state
  value-Represents r i e = (
    data_ready read_state,
    rw e refl,
    refl,
    record {
      eight = length-set s.uart.regs 5 _ ∙ r.eight;
      answers = r.answers;
      running = r.running;
      plain = r.plain;
      input = i;
      output = r.output;
    },
  )

pub uart_r-Represents :
    (n : ℕ) (s : Port) (inbox text : List ℕ) (received : ℕ)
    → Represents n s (record { inbox = inbox; received = received; text = text })
    → (u : Uart) × (uart_r 0 s.uart ≡ some u)
      × (u.output_byte ≡ (next_char inbox).0)
      × Represents n
          (record s { uart = u })
          (record { inbox = (next_char inbox).1; received = received; text = text })
unfolding uart_value take_char read_state
uart_r-Represents n s [] text received r =
    let empty : ltb 0 s.uart.pending_in ≡ false = ground (arith, r.input.count) in
    value-Represents n s s.uart.read_ptr s.uart.pending_in 0 [] _ r r.input
      (rw (r.plain, empty) refl)
uart_r-Represents n s (c ∷ rest) text received r =
    let u = s.uart in
    let some_ : ltb 0 u.pending_in ≡ true = ground (arith, r.input.count) in
    let i =
      take-IsInput u.input_buffer u.read_ptr u.write_ptr u.pending_in c rest received r.input in
    value-Represents n s (if ltb 16 (u.read_ptr + 1) then 0 else u.read_ptr + 1) (u.pending_in - 1)
      (sext 8 c) rest _ r i.1 (rw (r.plain, some_, i.0) refl)
