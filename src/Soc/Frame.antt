-- ===== src/Soc/Frame.antt =====
-- What the operations of the interrupt controller and the timer leave of the harts: all but `mip`.
use rv_emu.Base.{ℕ, zero, suc, ◌+◌, ◌/◌, ◌≡◌, refl, List, some, set}
use rv_emu.Hart.{HartState}
use rv_emu.Memory.Frame.{MipOnly}
use rv_emu.Plic.{
  Plic, at, and_then, plic_notify_ctx, plic_notify_finish_ctx, notified, finished, try_ctx,
  try_loop, plic_try_int, plic_send_int, complete, plic_source_count,
}
use rv_emu.Plic.Registers.{plic_w, plic_try_int_all, try_all_loop}
use rv_emu.Aclint.{Aclint, aclint_mtimer_chk, aclint_mtimer_w}
use rv_emu.Soc.Harts.{
  Ensures, Ensures-some, Ensures-bind, Ensures-look, Ensures-found, Ensures-if, ensures_rules,
  SameHarts, SameHarts-trans, SameHarts-set,
}

module _ (start : List HartState) where
  abbrev Kept : List HartState → Type 0
  Kept harts = SameHarts start harts

  abbrev pub KeptWith : {A : Type 0} → A × List HartState → Type 0
  KeptWith r = SameHarts start r.1

  set-Kept :
      (harts : List HartState) (i : ℕ) (hs hs' : HartState)
      → at harts i ≡ some hs
      → MipOnly hs hs'
      → Kept harts
      → Kept (set harts i hs')
  set-Kept harts i hs hs' e m h =
      SameHarts-trans start harts (set harts i hs') h (SameHarts-set harts i hs hs' e m)

  update-Kept :
      (harts : List HartState) (i : ℕ) (f : HartState → HartState)
      → ((hs : HartState) → MipOnly hs (f hs))
      → Kept harts
      → Ensures Kept (and_then (at harts i) (λ hs. some (set harts i (f hs))))
  update-Kept harts i f m h =
      Ensures-found Kept (at harts i) _
        (λ hs e. Ensures-some Kept _ (set-Kept harts i hs (f hs) e (m hs) h))

  notify-Kept :
      (harts : List HartState) (ctx : ℕ) → Kept harts → Ensures Kept (plic_notify_ctx harts ctx)
  unfolding plic_notify_ctx notified
  notify-Kept harts ctx h = update-Kept harts (ctx / 2) (notified ctx) (λ hs. (_, refl)) h

  finish-Kept :
      (harts : List HartState) (ctx : ℕ)
      → Kept harts
      → Ensures Kept (plic_notify_finish_ctx harts ctx)
  unfolding plic_notify_finish_ctx finished
  finish-Kept harts ctx h = update-Kept harts (ctx / 2) (finished ctx) (λ hs. (_, refl)) h

  module _ (p : Plic) where
    try_ctx-Kept :
        (prio source i : ℕ) (harts : List HartState)
        → Kept harts
        → Ensures Kept (try_ctx p prio source i harts)
    unfolding try_ctx
    try_ctx-Kept prio source i harts h = search (ensures_rules, notify-Kept) depth 12

    try_loop-Kept :
        (prio source left i : ℕ) (harts : List HartState)
        → Kept harts
        → Ensures Kept (try_loop p prio source left i harts)
    unfolding try_loop
    try_loop-Kept prio source zero i harts h = Ensures-some Kept harts h
    try_loop-Kept prio source (suc left) i harts h =
        Ensures-bind Kept Kept _ _ (try_ctx-Kept prio source i harts h)
          (try_loop-Kept prio source left (i + 1))

    try_int-Kept :
        (n source : ℕ) (harts : List HartState)
        → Kept harts
        → Ensures Kept (plic_try_int n p source harts)
    unfolding plic_try_int
    try_int-Kept n source harts h = search (ensures_rules, try_loop-Kept) depth 12

    try_all_loop-Kept :
        (n left i : ℕ) (harts : List HartState)
        → Kept harts
        → Ensures Kept (try_all_loop n p left i harts)
    unfolding try_all_loop
    try_all_loop-Kept n zero i harts h = Ensures-some Kept harts h
    try_all_loop-Kept n (suc left) i harts h =
        Ensures-bind Kept Kept _ _ (try_int-Kept n i harts h) (try_all_loop-Kept n left (i + 1))

    pub try_all-Kept :
        (n : ℕ) (harts : List HartState) → Kept harts → Ensures Kept (plic_try_int_all n p harts)
    unfolding plic_try_int_all
    try_all-Kept n harts h = try_all_loop-Kept n plic_source_count 0 harts h

  sent-Kept :
      (n source : ℕ) (p : Plic) (harts : List HartState)
      → Kept harts
      → Ensures
          (KeptWith {A = Plic})
          (and_then (plic_try_int n p source harts) (λ ys. some (p, ys)))
  sent-Kept n source p harts h =
      Ensures-bind (KeptWith {A = Plic}) Kept _ _ (try_int-Kept p n source harts h)
        (λ ys k. Ensures-some (KeptWith {A = Plic}) (p, ys) k)

  pub send-Kept :
      (n : ℕ) (p : Plic) (source : ℕ) (harts : List HartState)
      → Kept harts
      → Ensures KeptWith (plic_send_int n p source harts)
  unfolding plic_send_int
  send-Kept n p source harts h = search (ensures_rules, sent-Kept) depth 12

  complete-Kept :
      (p : Plic) (ctx : ℕ) (harts : List HartState)
      → Kept harts
      → Ensures KeptWith (complete p ctx harts)
  unfolding complete
  complete-Kept p ctx harts h = Ensures-look KeptWith _ _ (λ w.
      Ensures-bind KeptWith Kept _ _ (finish-Kept harts ctx h) (λ ys k. Ensures-some KeptWith _ k))

  pub plic_w-Kept :
      (n offset v : ℕ) (p : Plic) (harts : List HartState)
      → Kept harts
      → Ensures KeptWith (plic_w n offset v p harts)
  unfolding plic_w
  plic_w-Kept n offset v p harts h = search (ensures_rules, complete-Kept) depth 12

  pub mtimer_chk-MipOnly :
      (now : ℕ) (a : Aclint) (hs : HartState) → Ensures (MipOnly hs) (aclint_mtimer_chk now a hs)
  unfolding aclint_mtimer_chk
  mtimer_chk-MipOnly now a hs =
      Ensures-look (MipOnly hs) _ _ (λ cmp. Ensures-some (MipOnly hs) _ (_, refl))

  pub mtimer_w-Kept :
      (now offset v : ℕ) (a : Aclint) (harts : List HartState)
      → Kept harts
      → Ensures KeptWith (aclint_mtimer_w now offset v a harts)
  unfolding aclint_mtimer_w
  mtimer_w-Kept now offset v a harts h = Ensures-if KeptWith _ _ _ (Ensures-some KeptWith _ h) (
      Ensures-look KeptWith _ _ (λ old. Ensures-found KeptWith _ _ (λ hs e.
        Ensures-bind KeptWith (MipOnly hs) _ _
          (mtimer_chk-MipOnly now (record a { mtimer_regs = set a.mtimer_regs offset v }) hs)
          (λ new m. Ensures-some KeptWith _ (set-Kept harts offset hs new e m h)))))
