-- ===== src/Plic/Registers.antt =====
-- plic.cpp: `plic_r` and `plic_w`, the registers of the interrupt controller, and
-- `plic_try_int_all`.
pub mod Access
use rv_emu.Base.{
  ℕ, zero, suc, ◌+◌, ◌-◌, ◌*◌, ◌/◌, ◌%◌, ◌≤◌, ◌<◌, ◌≡◌, Bool, true, false, ◌&&◌, List, Option, none,
  some, ltb, leb, ◌==◌, if◌then◌else◌, set, clear_bit,
}
use rv_emu.Hart.{HartState}
use rv_emu.Plic.{Plic, at, and_then, claim, complete, plic_source_count, plic_try_int}

-- The loop of `plic_try_int_all`, with `left` sources to go.
unfoldable pub try_all_loop : ℕ → Plic → ℕ → ℕ → List HartState → Option (List HartState)
unfolding plic_try_int
try_all_loop hart_count p zero i hartlist = some hartlist
try_all_loop hart_count p (suc left) i hartlist =
    and_then (plic_try_int hart_count p i hartlist) (try_all_loop hart_count p left (i + 1))

unfoldable pub plic_try_int_all : ℕ → Plic → List HartState → Option (List HartState)
unfolding try_all_loop
plic_try_int_all hart_count p hartlist = try_all_loop hart_count p plic_source_count 0 hartlist

-- The tests on an offset: the priorities, the pending words, the enable words (with `per_ctx`
-- registers for a context, which are more for a read than for a write), the thresholds and the
-- claims.
unfoldable pub is_prio : ℕ → Bool
is_prio offset = ltb (offset / 4) plic_source_count

unfoldable pub is_pend : ℕ → Bool
is_pend offset = leb 0x400 (offset / 4) && ltb (offset / 4) 0x401

unfoldable pub is_enable : ℕ → ℕ → ℕ → Bool
is_enable per_ctx hart_count offset =
    leb 0x800 (offset / 4) && ltb (offset / 4) (0x800 + 2 * hart_count * per_ctx)

unfoldable pub is_thres : ℕ → Bool
is_thres offset = leb 0x20_0000 offset && offset % 0x1000 == 0

unfoldable pub is_claim : ℕ → Bool
is_claim offset = leb 0x20_0000 offset && offset % 0x1000 == 4

-- OFFSET_TO_CTX.
unfoldable pub offset_to_ctx : ℕ → ℕ
offset_to_ctx offset = offset / 0x1000 - 0x200

abbrev pub reading : Plic → Option ℕ → Option (Plic × ℕ)
reading p o = and_then o (λ v. some (p, v))

-- The state and the word at the pointer.
unfoldable pub plic_r : ℕ → ℕ → Plic → Option (Plic × ℕ)
plic_r hart_count offset p =
    if is_prio offset
    then reading p (at p.int_prio_regs (offset / 4))
    else if is_pend offset
    then reading p (at p.int_pend_regs (offset / 4 - 0x400))
    else if is_enable 128 hart_count offset
    then reading p (at p.int_en_regs (offset / 4 - 0x800))
    else if is_thres offset
    then reading p (at p.int_prio_thres (offset_to_ctx offset))
    else if is_claim offset
    then and_then (claim p (offset_to_ctx offset)) (λ q. some (q, q.highest_source))
    else some (p, 0)

-- An assignment to an element of an array.
unfoldable pub assign : List ℕ → ℕ → ℕ → Option (List ℕ)
unfolding at
assign xs i v = and_then (at xs i) (λ _. some (set xs i v))

-- `data_` is the 32-bit word at the pointer. The tests are made one after the other.
unfoldable pub plic_w : ℕ → ℕ → ℕ → Plic → List HartState → Option (Plic × List HartState)
plic_w hart_count offset data_ p hartlist =
    let prio =
      (if is_prio offset
        then assign p.int_prio_regs (offset / 4) data_
        else some p.int_prio_regs) in
    let pend =
      (if is_pend offset
        then assign p.int_pend_regs (offset / 4 - 0x400) data_
        else some p.int_pend_regs) in
    let en =
      (if is_enable 32 hart_count offset
        then assign p.int_en_regs (offset / 4 - 0x800) (clear_bit data_ 0)
        else some p.int_en_regs) in
    let thres =
      (if is_thres offset
        then assign p.int_prio_thres (offset_to_ctx offset) data_
        else some p.int_prio_thres) in
    and_then prio (λ prios. and_then pend (λ pends. and_then en (λ ens. and_then thres (λ thress.
      let q = record p {
        int_prio_regs = prios;
        int_pend_regs = pends;
        int_en_regs = ens;
        int_prio_thres = thress;
      } in
      if is_claim offset then complete q (offset_to_ctx offset) hartlist else some (q, hartlist)))))
