-- ===== src/Exec/Reservations/Instructions.antt =====
-- cpu.cpp: what LR, SC and the other instructions of `case inst_op_32::AMO` do to `reservations`.
use rv_emu.Base.{
  ℕ, ◌<◌, ◌≡◌, ◌≢◌, inl, inr, refl, Bool, true, false, List, Option, none, some, ltb, if_false,
  ◌==◌, if◌then◌else◌, get_or, set, length, arith, ◌∙◌, sym, subst, ap, Bool-cases,
}
use rv_emu.Hart.{HartException}
use rv_emu.Decode.{Decoded}
use rv_emu.Memory.{Board, Run, M, pure, undefined, gets, modify, get_world, set_world, ◌>>=◌, ◌>>◌}
use rv_emu.Memory.Walk.{page_table_walk}
use rv_emu.Memory.Keeps.{
  Holds, Keeps, Keeps-pure, Keeps-gets, Keeps-bind, Keeps-if, keeps_rules, run_bind,
}
use rv_emu.Memory.Reservations.{
  Reserves, modify-Reserves, page_table_walk-Reserves, virt_mem_fetch-Reserves,
  virt_mem_store-Reserves,
}
use rv_emu.Exec.Control.{
  Flow, stop, go, raise, clear_status, clear_fault, handle_mem_error, reg, set_reg, set_load,
}
use rv_emu.Exec.Atomic.{
  steal, in_reservations, set_reservation, store_conditional, load_reserved, modify_store, exec_amo,
}
use rv_emu.Exec.Reservations.{
  IsExclusive, length-steal, reserved, reserved-own, reserved-other, reserved-IsExclusive,
  set_zero-IsExclusive,
}

module _ {D : Type 0} where
  in_reservations_there :
      {A : Type 0} (k : ℕ → M D A) (r : Run D)
      → ltb r.hs.hartid (length r.world.reservations) ≡ true
      → in_reservations k r ≡ k r.hs.hartid r
  unfolding in_reservations ◌>>=◌ gets get_world
  in_reservations_there k r e = ap (λ b. (if b then k r.hs.hartid else undefined) r) e

  in_reservations_outside :
      {A : Type 0} (k : ℕ → M D A) (r : Run D)
      → ltb r.hs.hartid (length r.world.reservations) ≡ false
      → in_reservations k r ≡ none
  unfolding in_reservations ◌>>=◌ gets get_world undefined
  in_reservations_outside k r e = ap (λ b. (if b then k r.hs.hartid else undefined) r) e

  -- The end of LR: the reservations of the others on the address go, and the hart has its own.
  abbrev reserve : ℕ → M D Flow
  reserve addr = do
    hartid ← gets (λ hs. hs.hartid)
    set_world (λ w. record w { reservations = steal hartid addr 0 w.reservations })
    set_reservation addr
    pure (go false)

  reserve_lem :
      (addr : ℕ) (q : Run D)
      → q.hs.hartid < length q.world.reservations
      → reserve addr q
        ≡ some (
          go false,
          record q {
            world = record q.world {
              reservations = set (steal q.hs.hartid addr 0 q.world.reservations) q.hs.hartid addr;
            };
          },
        )
  unfolding gets set_world set_reservation pure
  reserve_lem addr q there =
      let l = steal q.hs.hartid addr 0 q.world.reservations in
      let gone = record q { world = record q.world { reservations = l } } in
      let inside : ltb q.hs.hartid (length l) ≡ true =
        ground (arith, there, length-steal q.hs.hartid addr 0 q.world.reservations) in
      run_bind _ _ {r' = q} refl
        (run_bind _ _ {r' = gone} refl (run_bind _ _ (in_reservations_there _ gone inside) refl))

  reserve_outside :
      (addr : ℕ) (q : Run D)
      → ltb q.hs.hartid (length q.world.reservations) ≡ false
      → reserve addr q ≡ none
  unfolding gets set_world set_reservation ◌>>=◌
  reserve_outside addr q out =
      let l = steal q.hs.hartid addr 0 q.world.reservations in
      let gone = record q { world = record q.world { reservations = l } } in
      let still : ltb q.hs.hartid (length l) ≡ false =
        rw (length-steal q.hs.hartid addr 0 q.world.reservations) out in
      ap
        (λ o. elim o as (λ _. Option (Flow × Run D)) [
          | none ↦ none
          | some (b, q') ↦ pure (go false) q'
        ])
        (in_reservations_outside
          (λ hartid. set_world (λ w. record w { reservations = set w.reservations hartid addr }))
          gone still)

module _ {D : Type 0} (B : Board D) where
  -- At most one hart has a reservation on an address.
  abbrev pub Exclusive : Run D → Type 0
  Exclusive = Reserves B IsExclusive

  reserve-Exclusive : (addr : ℕ) → Keeps Exclusive (reserve addr)
  unfolding set_reservation
  reserve-Exclusive addr = record {
    at = λ r ex.
        let h = r.hs.hartid in
        let l = r.world.reservations in
        elim (Bool-cases (ltb h (length l))) [
          | inl e ↦
              let there : h < length l = ground (arith, e) in
              subst (Holds Exclusive) (sym (reserve_lem addr r there))
                (reserved-IsExclusive h addr l there ex)
          | inr e ↦ subst (Holds Exclusive) (sym (reserve_outside addr r e)) tt
        ];
  }

  set_reservation-Exclusive : Keeps Exclusive (set_reservation 0)
  unfolding set_reservation set_world
  set_reservation-Exclusive = record {
    at = λ r ex. elim (Bool-cases (ltb r.hs.hartid (length r.world.reservations))) [
      | inl e ↦
          subst (Holds Exclusive) (sym (in_reservations_there _ r e))
            (set_zero-IsExclusive r.world.reservations r.hs.hartid ex)
      | inr e ↦ subst (Holds Exclusive) (sym (in_reservations_outside _ r e)) tt
    ];
  }

  pub set_load-Exclusive : (b : Bool) → Keeps Exclusive (set_load b)
  unfolding set_load
  set_load-Exclusive b = modify-Reserves B IsExclusive _

  pub set_reg-Exclusive : (rd v : ℕ) → Keeps Exclusive (set_reg rd v)
  unfolding set_reg
  set_reg-Exclusive rd v = modify-Reserves B IsExclusive _

  pub raise-Exclusive : (he : HartException) (tval : ℕ) → Keeps Exclusive (raise he tval)
  unfolding raise
  raise-Exclusive he tval =
      Keeps-bind (gets _) _ (Keeps-gets _)
        (λ taken. Keeps-bind _ _ (modify-Reserves B IsExclusive _) (λ _. Keeps-pure (stop taken)))

  pub handle_mem_error-Exclusive :
      (afault pfault : HartException) (tval : ℕ) (rest : M D Flow)
      → Keeps Exclusive rest
      → Keeps Exclusive (handle_mem_error afault pfault tval rest)
  unfolding handle_mem_error clear_status clear_fault
  handle_mem_error-Exclusive afault pfault tval rest k =
      Keeps-bind (gets _) _ (Keeps-gets _) (λ access. Keeps-bind (gets _) _ (Keeps-gets _) (λ page.
        Keeps-if access _ _
          (λ _. Keeps-bind _ _ (modify-Reserves B IsExclusive _) (λ _. raise-Exclusive afault tval))
          (λ _.
            Keeps-if page _ _
              (λ _.
                Keeps-bind _ _ (modify-Reserves B IsExclusive _) (λ _. raise-Exclusive pfault tval))
              (λ _. k))))

  ruleset exclusive_rules = (
    keeps_rules, virt_mem_fetch-Reserves, virt_mem_store-Reserves, page_table_walk-Reserves,
    set_load-Exclusive, set_reg-Exclusive, handle_mem_error-Exclusive,
  )

  in_reservations-Exclusive :
      {A : Type 0} (k : ℕ → M D A)
      → ((i : ℕ) → Keeps Exclusive (k i))
      → Keeps Exclusive (in_reservations k)
  unfolding in_reservations
  in_reservations-Exclusive k kk = search (keeps_rules, kk)

  store_conditional-Exclusive :
      (amo_w : Bool) (d : Decoded) → Keeps Exclusive (store_conditional B amo_w d)
  unfolding store_conditional
  store_conditional-Exclusive amo_w d =
      search (exclusive_rules, in_reservations-Exclusive, set_reservation-Exclusive) depth 16

  load_reserved-Exclusive : (d : Decoded) → Keeps Exclusive (load_reserved B d)
  unfolding load_reserved
  load_reserved-Exclusive d = Keeps-bind _ _ (set_load-Exclusive true) (λ _.
      Keeps-bind (gets _) _ (Keeps-gets _) (λ walked.
        Keeps-bind _ _ (page_table_walk-Reserves B IsExclusive walked false)
          (λ addr. handle_mem_error-Exclusive _ _ walked _ (reserve-Exclusive addr))))

  modify_store-Exclusive :
      (amo_w : Bool) (funct5 op_addr operand : ℕ) (d : Decoded)
      → Keeps Exclusive (modify_store B amo_w funct5 op_addr operand d)
  unfolding modify_store
  modify_store-Exclusive amo_w funct5 op_addr operand d = search exclusive_rules depth 16

  pub exec_amo-Exclusive : (d : Decoded) → Keeps Exclusive (exec_amo B d)
  unfolding exec_amo
  exec_amo-Exclusive d =
      search
        (
          exclusive_rules, store_conditional-Exclusive, load_reserved-Exclusive,
          modify_store-Exclusive,
        )
        depth 16

  -- If the walk that LR makes for the address in rs1 is defined and does not fault, and the hart has a
  -- place in reservations, LR is defined and goes on to the next instruction; the hart then holds a
  -- reservation on the address that the walk gives, the others have lost theirs on that address and
  -- kept those on other addresses, and all else is as the walk left it.
  pub load_reserved_lem :
      (d : Decoded) (r q : Run D) (addr : ℕ)
      → page_table_walk B
          (reg r.hs d.rs1)
          false
          (record r { hs = record r.hs { mem_status = true } })
        ≡ some (addr, q)
      → q.hs.mem_status ≡ false
      → q.hs.page_fault ≡ false
      → q.hs.hartid < length q.world.reservations
      → (l : List ℕ) × (load_reserved B d r
          ≡ some (go false, record q { world = record q.world { reservations = l } }))
        × (get_or l q.hs.hartid 0 ≡ addr)
        × ((j : ℕ)
            → q.hs.hartid ≢ j
            → get_or l j 0 ≡ (
                if get_or q.world.reservations j 0 == addr
                then 0
                else get_or q.world.reservations j 0))
  unfolding load_reserved set_load handle_mem_error gets modify
  load_reserved_lem d r q addr walked no_access no_page there =
      let start = record r { hs = record r.hs { mem_status = true } } in
      let h = q.hs.hartid in
      let old = q.world.reservations in
      (
        reserved h addr old there,
        run_bind _ _ {r' = start} refl (
            run_bind _ _ {r' = start} refl (
              run_bind _ _ walked (
                run_bind _ _ {r' = q} refl (
                  run_bind _ _ {r' = q} refl (
                    ap (λ (m : M D Flow). m q) (if_false _ _ _ no_access ∙ if_false _ _ _ no_page)
                    ∙ reserve_lem addr q there))))),
        reserved-own h addr old there,
        reserved-other h addr old there,
      )
