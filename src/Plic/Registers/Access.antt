-- ===== src/Plic/Registers/Access.antt =====
-- plic.cpp: that a register of the interrupt controller holds what was written to it.
use rv_emu.Base.{
  ℕ, ◌+◌, ◌*◌, ◌/◌, ◌≤◌, ◌<◌, ◌≡◌, refl, true, false, List, Option, some, set, arith, length,
  length-set, get_or-set_self,
}
use rv_emu.Hart.{HartState}
use rv_emu.Plic.{Plic, at, and_then, plic_source_count}
use rv_emu.Plic.Claim.{at-get_or}
use rv_emu.Plic.Registers.{
  is_prio, is_pend, is_enable, is_thres, is_claim, offset_to_ctx, plic_r, plic_w, assign,
}

assign-there :
    (xs : List ℕ) (i v : ℕ)
    → i < length xs
    → (assign xs i v ≡ some (set xs i v)) × (at (set xs i v) i ≡ some v)
unfolding assign
assign-there xs i v h = (
  rw (at-get_or xs i 0 h) refl,
  rw (at-get_or (set xs i v) i 0 (omega (arith, length-set xs i v)), get_or-set_self xs i v 0 h)
      refl,
)

-- A read after a write, in the state that the write leaves.
abbrev pub write_read : ℕ → ℕ → ℕ → Plic → List HartState → Option ℕ
write_read hart_count offset data_ p hartlist =
    and_then (plic_w hart_count offset data_ p hartlist)
      (λ s. and_then (plic_r hart_count offset s.0) (λ t. some t.1))

-- Which tests an offset passes.
tests_prio :
    (hart_count s : ℕ)
    → s < plic_source_count
    → (is_prio (4 * s) ≡ true)
      × (is_pend (4 * s) ≡ false)
      × (is_enable 32 hart_count (4 * s) ≡ false)
      × (is_thres (4 * s) ≡ false)
      × (is_claim (4 * s) ≡ false)
unfolding is_prio is_pend is_enable is_thres is_claim
tests_prio hart_count s lt = (ground arith, ground arith, ground arith, ground arith, ground arith)

tests_thres :
    (hart_count ctx : ℕ)
    → hart_count ≤ 1024
    → let offset = 0x20_0000 + 0x1000 * ctx in
      (is_prio offset ≡ false)
      × (is_pend offset ≡ false)
      × (is_enable 32 hart_count offset ≡ false)
      × (is_enable 128 hart_count offset ≡ false)
      × (is_thres offset ≡ true)
      × (is_claim offset ≡ false)
      × (offset_to_ctx offset ≡ ctx)
unfolding is_prio is_pend is_enable is_thres is_claim offset_to_ctx
tests_thres hart_count ctx few = (
  ground arith,
  ground arith,
  ground arith,
  ground arith,
  ground arith,
  ground arith,
  ground arith,
)

module _ (hart_count o data_ : ℕ) (p : Plic) (hartlist : List HartState) where
  plic_w-prio :
      (prios : List ℕ)
      → is_prio o ≡ true
      → is_pend o ≡ false
      → is_enable 32 hart_count o ≡ false
      → is_thres o ≡ false
      → is_claim o ≡ false
      → assign p.int_prio_regs (o / 4) data_ ≡ some prios
      → plic_w hart_count o data_ p hartlist ≡ some (record p { int_prio_regs = prios }, hartlist)
  unfolding plic_w
  plic_w-prio prios a b c d e f = rw (a, b, c, d, e, f) refl

  plic_w-thres :
      (thress : List ℕ)
      → is_prio o ≡ false
      → is_pend o ≡ false
      → is_enable 32 hart_count o ≡ false
      → is_thres o ≡ true
      → is_claim o ≡ false
      → assign p.int_prio_thres (offset_to_ctx o) data_ ≡ some thress
      → plic_w hart_count o data_ p hartlist ≡ some (record p { int_prio_thres = thress }, hartlist)
  unfolding plic_w
  plic_w-thres thress a b c d e f = rw (a, b, c, d, e, f) refl

  plic_r-prio :
      (v : ℕ)
      → is_prio o ≡ true
      → at p.int_prio_regs (o / 4) ≡ some v
      → plic_r hart_count o p ≡ some (p, v)
  unfolding plic_r
  plic_r-prio v a e = rw (a, e) refl

  plic_r-thres :
      (v : ℕ)
      → is_prio o ≡ false
      → is_pend o ≡ false
      → is_enable 128 hart_count o ≡ false
      → is_thres o ≡ true
      → at p.int_prio_thres (offset_to_ctx o) ≡ some v
      → plic_r hart_count o p ≡ some (p, v)
  unfolding plic_r
  plic_r-thres v a b c d e = rw (a, b, c, d, e) refl

module _ (hart_count data_ : ℕ) (p : Plic) (hartlist : List HartState) where
  round_trip :
      (o : ℕ) (q : Plic)
      → plic_w hart_count o data_ p hartlist ≡ some (q, hartlist)
      → plic_r hart_count o q ≡ some (q, data_)
      → write_read hart_count o data_ p hartlist ≡ some data_
  round_trip o q e f = rw (e, f) refl

  write_read-prio :
      (s : ℕ)
      → s < plic_source_count
      → s < length p.int_prio_regs
      → write_read hart_count (4 * s) data_ p hartlist ≡ some data_
  write_read-prio s lt len =
      let a = assign-there p.int_prio_regs s data_ len in
      let slot : 4 * s / 4 ≡ s = omega arith in
      let new = set p.int_prio_regs s data_ in
      let t = tests_prio hart_count s lt in
      round_trip (4 * s) (record p { int_prio_regs = new })
        (plic_w-prio hart_count (4 * s) data_ p hartlist new t.0 t.1 t.2 t.3 t.4 (rw slot (a.0)))
        (plic_r-prio hart_count (4 * s) data_ (record p { int_prio_regs = new }) hartlist data_ t.0
          (rw slot (a.1)))

  write_read-thres :
      (ctx : ℕ)
      → hart_count ≤ 1024
      → ctx < length p.int_prio_thres
      → write_read hart_count (0x20_0000 + 0x1000 * ctx) data_ p hartlist ≡ some data_
  write_read-thres ctx few len =
      let o = 0x20_0000 + 0x1000 * ctx in
      let a = assign-there p.int_prio_thres ctx data_ len in
      let new = set p.int_prio_thres ctx data_ in
      let t = tests_thres hart_count ctx few in
      let q = record p { int_prio_thres = new } in
      round_trip o q
        (plic_w-thres hart_count o data_ p hartlist new t.0 t.1 t.2 t.4 t.5 (rw (t.6) (a.0)))
        (plic_r-thres hart_count o data_ q hartlist data_ t.0 t.1 t.3 t.4 (rw (t.6) (a.1)))

  -- For at most 1024 harts, a source and a context whose registers are there, a read of the
  -- priority of the source after a write of it gives the value written, and so does one of the
  -- threshold of the context.
  pub plic_r-plic_w :
      (s ctx : ℕ)
      → s < plic_source_count
      → s < length p.int_prio_regs
      → hart_count ≤ 1024
      → ctx < length p.int_prio_thres
      → (write_read hart_count (4 * s) data_ p hartlist ≡ some data_)
        × (write_read hart_count (0x20_0000 + 0x1000 * ctx) data_ p hartlist ≡ some data_)
  plic_r-plic_w s ctx lt len few there = (write_read-prio s lt len, write_read-thres ctx few there)
