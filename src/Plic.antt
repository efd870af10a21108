-- ===== src/Plic.antt =====
-- plic.cpp: the interrupt controller. A result `none` is undefined behaviour, an access past an
-- array.
pub mod Places
pub mod Claim
pub mod Notify
pub mod Enables
pub mod Registers
use rv_emu.Base.{
  ℕ, zero, suc, ◌+◌, ◌*◌, ◌/◌, ◌%◌, ◌^◌, Bool, true, false, not, ◌&&◌, List, [], ◌∷◌, Option, none,
  some, ltb, ◌==◌, if◌then◌else◌, bit, field, set, replicate, set_bit, clear_bit,
}
use rv_emu.Hart.{HartState}

abbrev pub plic_source_count : ℕ
plic_source_count = 16

pub record Plic : Type 0 where
  pub int_prio_regs : List ℕ
  pub int_pend_regs : List ℕ
  pub int_en_regs : List ℕ
  pub int_prio_thres : List ℕ
  pub int_handling : List Bool
  pub highest_source : ℕ

-- `new` leaves three of the arrays as it finds them: `prio`, `pend` and `thres`. Of the enable
-- registers the first is all ones and the others are 0; there is one for each context.
unfoldable pub plic_init : ℕ → List ℕ → List ℕ → List ℕ → Plic
plic_init hart_count prio pend thres = record {
  int_prio_regs = prio;
  int_pend_regs = pend;
  int_en_regs = set (replicate (2 * hart_count) 0) 0 0xFFFF_FFFF;
  int_prio_thres = thres;
  int_handling = replicate (2 * hart_count) false;
  highest_source = 0;
}

-- An element of an array.
unfoldable pub at {ℓ} : {A : Type ℓ} → List A → ℕ → Option A
at [] i = none
at (x ∷ xs) zero = some x
at (x ∷ xs) (suc i) = at xs i

abbrev pub and_then {ℓ κ} : {A : Type ℓ} {B : Type κ} → Option A → (A → Option B) → Option B
and_then none f = none
and_then (some a) f = f a

-- `plic_find_en` on the enable registers.
unfoldable pub plic_find_en : List ℕ → ℕ → ℕ → Option Bool
unfolding at
plic_find_en int_en_regs ctx source =
    and_then (at int_en_regs (0x20 * ctx + source / 32)) (λ w. some (bit w (source % 32)))

-- `plic_notify_ctx` and `plic_notify_finish_ctx` on the hart of the context.
unfoldable pub notified : ℕ → HartState → HartState
notified ctx hs = record hs {
  csrs = record hs.csrs { mip = if bit ctx 0 then set_bit hs.mip 9 else set_bit hs.mip 11 };
}

unfoldable pub finished : ℕ → HartState → HartState
finished ctx hs = record hs {
  csrs = record hs.csrs { mip = if bit ctx 0 then clear_bit hs.mip 9 else clear_bit hs.mip 11 };
}

unfoldable pub plic_notify_ctx : List HartState → ℕ → Option (List HartState)
unfolding at notified
plic_notify_ctx hartlist ctx =
    and_then (at hartlist (ctx / 2)) (λ hs. some (set hartlist (ctx / 2) (notified ctx hs)))

unfoldable pub plic_notify_finish_ctx : List HartState → ℕ → Option (List HartState)
unfolding at finished
plic_notify_finish_ctx hartlist ctx =
    and_then (at hartlist (ctx / 2)) (λ hs. some (set hartlist (ctx / 2) (finished ctx hs)))

-- The body of the loop of `plic_try_int` for a context, and the loop with `left` contexts to go.
unfoldable pub try_ctx : Plic → ℕ → ℕ → ℕ → List HartState → Option (List HartState)
unfolding at plic_find_en plic_notify_ctx
try_ctx p int_prio source i hartlist = and_then (at p.int_handling i) (λ handling.
    if handling
    then some hartlist
    else and_then (at p.int_prio_thres i) (λ thres.
      if not (ltb thres int_prio)
      then some hartlist
      else and_then (plic_find_en p.int_en_regs i source)
          (λ enabled. if enabled then plic_notify_ctx hartlist i else some hartlist)))

unfoldable pub try_loop : Plic → ℕ → ℕ → ℕ → ℕ → List HartState → Option (List HartState)
unfolding try_ctx
try_loop p int_prio source zero i hartlist = some hartlist
try_loop p int_prio source (suc left) i hartlist =
    and_then (try_ctx p int_prio source i hartlist) (try_loop p int_prio source left (i + 1))

-- `hart_count` is MACH_HART_COUNT; each hart has two contexts.
unfoldable pub plic_try_int : ℕ → Plic → ℕ → List HartState → Option (List HartState)
unfolding at try_loop
plic_try_int hart_count p source hartlist = and_then (at p.int_pend_regs (source / 32)) (λ w.
    if not (bit w (source % 32))
    then some hartlist
    else and_then (at p.int_prio_regs source)
        (λ int_prio. try_loop p int_prio source (2 * hart_count) 0 hartlist))

unfoldable pub plic_send_int : ℕ → Plic → ℕ → List HartState → Option (Plic × List HartState)
unfolding at plic_try_int
plic_send_int hart_count p source hartlist = and_then (at p.int_pend_regs (source / 32)) (λ w.
    let pending = record p {
      int_pend_regs = set p.int_pend_regs (source / 32) (set_bit w (source % 32));
    } in
    if bit w (source % 32)
    then some (p, hartlist)
    else and_then (plic_try_int hart_count pending source hartlist)
        (λ harts. some (pending, harts)))

-- The loop of a claim, with `left` sources to go: the highest priority so far and its source.
unfoldable pub claim_loop : Plic → ℕ → ℕ → ℕ → ℕ × ℕ → Option (ℕ × ℕ)
unfolding at plic_find_en
claim_loop p ctx zero i best = some best
claim_loop p ctx (suc left) i best = and_then (at p.int_prio_regs i) (λ prio.
    if not (ltb (best.0) prio)
    then claim_loop p ctx left (i + 1) best
    else and_then (plic_find_en p.int_en_regs ctx i)
        (λ enabled. claim_loop p ctx left (i + 1) (if enabled then (prio, i) else best)))

-- The read of `plic_r` that claims an interrupt for a context.
unfoldable pub claim : Plic → ℕ → Option Plic
unfolding at claim_loop
claim p ctx = and_then (claim_loop p ctx plic_source_count 0 (0, 0)) (λ best.
    let source = best.1 in
    if source == 0
    then some (record p { highest_source = source })
    else and_then (at p.int_handling ctx) (λ _. and_then (at p.int_pend_regs (source / 32)) (λ w.
      some (record p {
        int_handling = set p.int_handling ctx true;
        int_pend_regs = set p.int_pend_regs (source / 32) (clear_bit w (source % 32));
        highest_source = source;
      }))))

-- The write of `plic_w` that completes one.
unfoldable pub complete : Plic → ℕ → List HartState → Option (Plic × List HartState)
unfolding at plic_notify_finish_ctx
complete p ctx hartlist = and_then (at p.int_handling ctx) (λ _.
    and_then (plic_notify_finish_ctx hartlist ctx)
      (λ harts. some (record p { int_handling = set p.int_handling ctx false }, harts)))
