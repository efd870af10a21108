-- ===== src/Soc/Handlers.antt =====
-- That the devices of the emulator are a board whose handlers reach no more of a hart than `mip`.
use rv_emu.Base.{
  ℕ, ◌≡◌, false, List, none, some, set, subst, length-set, arith, Option-cases, inl, inr,
}
use rv_emu.Hart.{HartState}
use rv_emu.Memory.Frame.{MipOnly, IsBoard}
use rv_emu.Plic.{at, and_then}
use rv_emu.Plic.Places.{at-set_self, at-none}
use rv_emu.Uart.{Uart, Port, uart_sendint, tx_interrupt, print_output, uart_loop, await_output}
use rv_emu.Uart.Registers.{transmit, uart_w, put_char, clear_tx}
use rv_emu.Soc.Harts.{
  Ensures, Ensures-some, Ensures-bind, Ensures-look, Ensures-found, Ensures-if, ensures_rules,
  SameHarts, SameHarts-refl, SamePlace,
}
use rv_emu.Aclint.{aclint_mtimer_w}
use rv_emu.Plic.Registers.{plic_w}
use rv_emu.Soc.Frame.{KeptWith, send-Kept, plic_w-Kept, mtimer_w-Kept}
use rv_emu.Soc.{Devices, port, with_port, enter, read_entry, write_entry, soc_r, soc_w, soc_board}

module _ (n : ℕ) (start : List HartState) where
  abbrev pub KeptPort : Port → Type 0
  KeptPort s = SameHarts start s.hartlist

  sendint-Kept : (code : ℕ) (s : Port) → KeptPort s → Ensures KeptPort (uart_sendint n code s)
  unfolding uart_sendint
  sendint-Kept code s h = Ensures-if KeptPort _ _ _ (Ensures-some KeptPort s h) (
      Ensures-bind KeptPort (KeptWith start) _ _ (send-Kept start n s.plic 10 s.hartlist h)
        (λ r k. Ensures-some KeptPort _ k))

  tx_interrupt-Kept : (s : Port) → KeptPort s → Ensures KeptPort (tx_interrupt n s)
  unfolding tx_interrupt
  tx_interrupt-Kept s h =
      Ensures-if KeptPort _ _ _ (sendint-Kept 0b0010 s h) (Ensures-some KeptPort s h)

  printed-Kept :
      (u : Uart) (s : Port)
      → KeptPort s
      → Ensures KeptPort (
          and_then
            (tx_interrupt n (record s { uart = u }))
            (λ t. some (record t { uart = record t.uart { tx_required = false } })))
  printed-Kept u s h =
      Ensures-bind KeptPort KeptPort _ _ (tx_interrupt-Kept (record s { uart = u }) h)
        (λ t k. Ensures-some KeptPort (record t { uart = record t.uart { tx_required = false } }) k)

  print_output-Kept : (s : Port) → KeptPort s → Ensures KeptPort (print_output n s)
  unfolding print_output
  print_output-Kept s h = search (ensures_rules, printed-Kept) depth 12

  pub uart_loop-Kept : (s : Port) → KeptPort s → Ensures KeptPort (uart_loop n s)
  unfolding uart_loop
  uart_loop-Kept s h = Ensures-if KeptPort _ _ _ (Ensures-some KeptPort s h) (print_output-Kept s h)

  await-Kept : (s : Port) → KeptPort s → Ensures KeptPort (await_output n s)
  unfolding await_output
  await-Kept s h =
      Ensures-if KeptPort _ _ _ (Ensures-some KeptPort s h)
        (Ensures-bind KeptPort KeptPort _ _ (uart_loop-Kept s h) (λ t k. search ensures_rules))

  put-Kept :
      (c : ℕ) (t : Port)
      → KeptPort t
      → Ensures KeptPort (and_then (put_char c t.uart) (λ u. some (record t { uart = u })))
  put-Kept c t k =
      Ensures-look KeptPort (put_char c t.uart) _
        (λ u. Ensures-some KeptPort (record t { uart = u }) k)

  transmit-Kept : (c : ℕ) (s : Port) → KeptPort s → Ensures KeptPort (transmit n c s)
  unfolding transmit
  transmit-Kept c s h =
      Ensures-bind KeptPort KeptPort _ _ (await-Kept (record s { uart = clear_tx s.uart }) h)
        (put-Kept c)

  pub uart_w-Kept : (offset v : ℕ) (s : Port) → KeptPort s → Ensures KeptPort (uart_w n offset v s)
  unfolding uart_w
  uart_w-Kept offset v s h = search (ensures_rules, transmit-Kept) depth 12

module _ (n : ℕ) (start : List HartState) where
  abbrev KeptDevices : Devices → Type 0
  KeptDevices d = SameHarts start d.hartlist

  abbrev KeptReading : ℕ × Devices → Type 0
  KeptReading r = SameHarts start r.1.hartlist

  read_entry-Kept :
      (i offset len : ℕ) (d : Devices)
      → KeptDevices d
      → Ensures KeptReading (read_entry n i offset len d)
  unfolding read_entry
  read_entry-Kept i offset len d h = search ensures_rules depth 20

  write_plic-Kept :
      (offset v : ℕ) (d : Devices)
      → KeptDevices d
      → Ensures KeptDevices (
          and_then
            (plic_w n offset v d.plic d.hartlist)
            (λ r. some (record d { plic = r.0; hartlist = r.1 })))
  write_plic-Kept offset v d h =
      Ensures-bind KeptDevices (KeptWith start) _ _
        (plic_w-Kept start n offset v d.plic d.hartlist h) (λ r k. Ensures-some KeptDevices _ k)

  write_uart-Kept :
      (offset v : ℕ) (d : Devices)
      → KeptDevices d
      → Ensures KeptDevices (and_then (uart_w n offset v (port d)) (λ s. some (with_port d s)))
  write_uart-Kept offset v d h =
      Ensures-bind KeptDevices (KeptPort n start) _ _ (uart_w-Kept n start offset v (port d) h)
        (λ s k. Ensures-some KeptDevices _ k)

  write_mtimer-Kept :
      (offset v : ℕ) (d : Devices)
      → KeptDevices d
      → Ensures KeptDevices (
          and_then
            (aclint_mtimer_w d.now offset v d.aclint d.hartlist)
            (λ r. some (record d { aclint = r.0; hartlist = r.1 })))
  write_mtimer-Kept offset v d h =
      Ensures-bind KeptDevices (KeptWith start) _ _
        (mtimer_w-Kept start d.now offset v d.aclint d.hartlist h)
        (λ r k. Ensures-some KeptDevices _ k)

  write_entry-Kept :
      (i offset len v : ℕ) (d : Devices)
      → KeptDevices d
      → Ensures KeptDevices (write_entry n i offset len v d)
  unfolding write_entry
  write_entry-Kept i offset len v d h =
      search (ensures_rules, write_plic-Kept, write_uart-Kept, write_mtimer-Kept) depth 20

at-set_gone : {A : Type 0} (xs : List A) (i : ℕ) (v : A) → at xs i ≡ none → at (set xs i v) i ≡ none
at-set_gone xs i v e =
    (at-none (set xs i v) i).1 (omega (arith, (at-none xs i).0 e, length-set xs i v))

-- The hart that made the access, as the list has it after the access.
own_hart :
    (hs hs' : HartState) (d e : Devices)
    → SameHarts (enter hs d).hartlist e.hartlist
    → at e.hartlist hs.hartid ≡ some hs'
    → MipOnly hs hs'
unfolding enter
own_hart hs hs' d e h there =
    let place =
      subst (SamePlace (at (set d.hartlist hs.hartid hs) hs.hartid)) there (h hs.hartid) in
    elim (Option-cases (at d.hartlist hs.hartid)) [
      | inl gone ↦
          absurd
            (subst (λ o. SamePlace o (some hs')) (at-set_gone d.hartlist hs.hartid hs gone) place)
      | inr (old, e0) ↦
          subst (λ o. SamePlace o (some hs')) (at-set_self d.hartlist hs.hartid old hs e0) place
    ]

module _ (n i offset len : ℕ) (hs : HartState) (d : Devices) where
  soc_r-MipOnly : Ensures (λ r. MipOnly hs r.1) (soc_r n i offset len hs d)
  unfolding soc_r
  soc_r-MipOnly =
      Ensures-bind _ (KeptReading n (enter hs d).hartlist) _ _
        (read_entry-Kept n (enter hs d).hartlist i offset len (enter hs d) (SameHarts-refl _))
        (λ r k. Ensures-found _ _ _ (λ hs' e. Ensures-some _ _ (own_hart hs hs' d r.1 k e)))

  soc_w-MipOnly : (v : ℕ) → Ensures (λ r. MipOnly hs r.0) (soc_w n i offset len v hs d)
  unfolding soc_w
  soc_w-MipOnly v =
      Ensures-bind _ (KeptDevices n (enter hs d).hartlist) _ _
        (write_entry-Kept n (enter hs d).hartlist i offset len v (enter hs d) (SameHarts-refl _))
        (λ e k. Ensures-found _ _ _ (λ hs' found. Ensures-some _ _ (own_hart hs hs' d e k found)))

-- The handlers of all the devices reach no more of the hart that makes the access than its mip.
pub soc_board-IsBoard : (n mem_size : ℕ) → IsBoard (soc_board n mem_size)
soc_board-IsBoard n mem_size = record {
  reads = λ i offset len v hs hs' d d' e. (soc_r-MipOnly n i offset len hs d).gives (v, hs', d') e;
  writes = λ i offset len v hs hs' d d' e. (soc_w-MipOnly n i offset len hs d v).gives (hs', d') e;
}
