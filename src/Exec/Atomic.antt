-- ===== src/Exec/Atomic.antt =====
-- cpu.cpp: `case inst_op_32::AMO` of `decode_exc`. The mutex makes each of these instructions one
-- step with respect to the others.
use Prim.Native.Nat.{bit_and, bit_or, bit_xor}
use rv_emu.Base.{
  ℕ, ◌+◌, ◌/◌, Bool, true, false, not, ◌&&◌, List, [], ◌∷◌, ltb, ◌==◌, if◌then◌else◌, u32, u64,
  sext, get_or, set, length,
}
use rv_emu.Hart.{safault, spfault}
use rv_emu.Alu.{slt}
use rv_emu.Decode.{Decoded}
use rv_emu.Memory.{Board, M, ◌>>=◌, ◌>>◌, pure, undefined, gets, get_world, set_world}
use rv_emu.Memory.Walk.{page_table_walk, virt_mem_fetch, virt_mem_store}
use rv_emu.Exec.Control.{Flow, go, handle_mem_error, reg, set_reg, set_load, truncated}

-- The `switch` over `funct5`, on the signed and the unsigned values.
unfoldable pub amo_value : ℕ → ℕ → ℕ → ℕ → ℕ → ℕ
unfolding slt
amo_value funct5 ovalue src uovalue usrc =
    if funct5 == 0b00001
    then src
    else if funct5 == 0b00000
    then u64 (ovalue + src)
    else if funct5 == 0b00100
    then bit_xor ovalue src
    else if funct5 == 0b01100
    then bit_and ovalue src
    else if funct5 == 0b01000
    then bit_or ovalue src
    else if funct5 == 0b10000
    then (if slt ovalue src then ovalue else src)
    else if funct5 == 0b10100
    then (if slt src ovalue then ovalue else src)
    else if funct5 == 0b11000
    then (if ltb uovalue usrc then uovalue else usrc)
    else if funct5 == 0b11100
    then (if ltb usrc uovalue then uovalue else usrc)
    else ovalue

-- The loop of LR: the reservations of the other harts on the address are removed.
unfoldable pub steal : ℕ → ℕ → ℕ → List ℕ → List ℕ
steal hartid addr i [] = []
steal hartid addr i (x ∷ xs) =
    (if not (hartid == i) && x == addr then 0 else x) ∷ steal hartid addr (i + 1) xs

abbrev pub signed_of : Bool → ℕ → ℕ
signed_of amo_w v = if amo_w then sext 32 v else v

abbrev pub unsigned_of : Bool → ℕ → ℕ
unsigned_of amo_w v = if amo_w then u32 v else v

abbrev pub amo_len : Bool → ℕ
amo_len amo_w = if amo_w then 4 else 8

-- An access to `reservations[hs.hartid]`.
unfoldable pub in_reservations : {D A : Type 0} → (ℕ → M D A) → M D A
in_reservations k = do
  hartid ← gets (λ hs. hs.hartid)
  there ← get_world (λ w. ltb hartid (length w.reservations))
  if there then k hartid else undefined

unfoldable pub set_reservation : {D : Type 0} → ℕ → M D (Unit {0})
set_reservation addr =
    in_reservations
      (λ hartid. set_world (λ w. record w { reservations = set w.reservations hartid addr }))

module _ {D : Type 0} (B : Board D) where
  unfoldable pub store_conditional : Bool → Decoded → M D Flow
  store_conditional amo_w d = do
    store_addr ← gets (λ hs. reg hs d.rs1)
    sc_phy_addr ← page_table_walk B store_addr true
    handle_mem_error safault spfault store_addr (do
      holds ←
          in_reservations (λ hartid. get_world (λ w. get_or w.reservations hartid 0 == sc_phy_addr))
      if holds
          then (do
            set_load true
            v ← gets (λ hs. reg hs d.rs2)
            virt_mem_store B (amo_len amo_w) store_addr (truncated (amo_len amo_w) v)
            handle_mem_error safault spfault store_addr
                (do set_reg d.rd 0; set_reservation 0; pure (go false)))
          else (do set_reg d.rd 1; set_reservation 0; pure (go false)))

  -- What LR does after its load. The address is read from the register again.
  unfoldable pub load_reserved : Decoded → M D Flow
  load_reserved d = do
    set_load true
    walked ← gets (λ hs. reg hs d.rs1)
    lr_phy_addr ← page_table_walk B walked false
    handle_mem_error safault spfault walked (do
      hartid ← gets (λ hs. hs.hartid)
      set_world (λ w. record w { reservations = steal hartid lr_phy_addr 0 w.reservations })
      set_reservation lr_phy_addr
      pure (go false))

  -- What the other instructions do after their load.
  unfoldable pub modify_store : Bool → ℕ → ℕ → ℕ → Decoded → M D Flow
  modify_store amo_w funct5 op_addr operand d = do
    loaded ← gets (λ hs. reg hs d.rd)
    let ovalue =
        amo_value funct5 (signed_of amo_w loaded) (signed_of amo_w operand)
          (unsigned_of amo_w loaded) (unsigned_of amo_w operand)
    set_load false
    virt_mem_store B (amo_len amo_w) op_addr (truncated (amo_len amo_w) ovalue)
    handle_mem_error safault spfault op_addr (pure (go false))

  unfoldable pub exec_amo : Decoded → M D Flow
  exec_amo d = do
    let amo_w = d.funct3 == 2
    let funct5 = d.funct7 / 4
    if funct5 == 0b00011 then store_conditional amo_w d else (do
      operand ← gets (λ hs. reg hs d.rs2)
      op_addr ← gets (λ hs. reg hs d.rs1)
      set_load true
      v ← virt_mem_fetch B (amo_len amo_w) op_addr
      set_reg d.rd v
      handle_mem_error safault spfault op_addr (do
        set_reg d.rd (signed_of amo_w v)
        if funct5 == 0b00010 then load_reserved d else modify_store amo_w funct5 op_addr operand d))
