-- ===== src/Plic/Notify/Loop.antt =====
-- plic.cpp: that the loop of `plic_try_int` signals to exactly the open contexts.
use rv_emu.Base.{
  some_eq, ℕ, zero, suc, ◌+◌, ◌*◌, ◌/◌, ◌%◌, ◌≤◌, ◌<◌, ◌≡◌, refl, true, List, some, bit, length,
  set, arith, Bool-cases, inl, inr, ◌∙◌, subst, sym, ap, if_true, if_false,
}
use native.Mathlib.Decide.{ℕ_discrete}
use rv_emu.Hart.{HartState}
use rv_emu.Plic.{Plic, at, try_ctx, try_loop, plic_try_int, notified, plic_notify_ctx}
use rv_emu.Plic.Places.{at-set_self, at-set_ne, at-some}
use rv_emu.Plic.Notify.{
  is_open, is_tried, raised, mark, mark-later, mark-before, mark-other, mark-closed, notified-even,
  notified-odd, try_ctx_lem,
}

-- For two contexts of each hart the flags and the thresholds are there, and the enable word where
-- the loop reads it.
pub record HasContexts (p : Plic) (n prio source : ℕ) : Type 0 where
  pub handling : 2 * n ≤ length p.int_handling
  pub thresholds : 2 * n ≤ length p.int_prio_thres
  pub enables :
      (ctx : ℕ)
      → ctx < 2 * n
      → is_tried p prio ctx ≡ true
      → 0x20 * ctx + source / 32 < length p.int_en_regs

module _ (p : Plic) (prio source n : ℕ) (start : List HartState) where
  marked : ℕ → ℕ → HartState → HartState
  marked k i hs = raised (mark p prio source (2 * k) i) (mark p prio source (2 * k + 1) i) hs

  -- The contexts below `i` have been signalled to.
  Signalled : ℕ → List HartState → Type 0
  Signalled i harts =
      (k : ℕ) (hs : HartState) → at start k ≡ some hs → at harts k ≡ some (marked k i hs)

  marked-eq :
      (k i j : ℕ) (hs : HartState)
      → mark p prio source (2 * k) i ≡ mark p prio source (2 * k) j
      → mark p prio source (2 * k + 1) i ≡ mark p prio source (2 * k + 1) j
      → marked k i hs ≡ marked k j hs
  unfolding marked
  marked-eq k i j hs e f = rw (e, f) refl

  notified-marked :
      (i : ℕ) (hs : HartState)
      → is_open p prio source i ≡ true
      → notified i (marked (i / 2) i hs) ≡ marked (i / 2) (i + 1) hs
  unfolding marked
  notified-marked i hs on = elim (Bool-cases (bit i 0)) [
    | inr even ↦
        let here : 2 * (i / 2) ≡ i = ground arith in
        let a = mark-later p prio source (2 * (i / 2)) i (omega (arith, here)) in
        let b = mark-later p prio source (2 * (i / 2) + 1) i (omega (arith, here)) in
        let c =
          mark-before p prio source (2 * (i / 2)) (i + 1) (omega (arith, here))
          ∙ ap (is_open p prio source) here
          ∙ on in
        let d = mark-later p prio source (2 * (i / 2) + 1) (i + 1) (omega (arith, here)) in
        rw (a, b, c, d) (notified-even i hs even)
    | inl odd ↦
        let here : 2 * (i / 2) + 1 ≡ i = ground arith in
        let b = mark-later p prio source (2 * (i / 2) + 1) i (omega (arith, here)) in
        let c = mark-other p prio source (2 * (i / 2)) i (omega (arith, here)) in
        let d =
          mark-before p prio source (2 * (i / 2) + 1) (i + 1) (omega (arith, here))
          ∙ ap (is_open p prio source) here
          ∙ on in
        rw (b, c, d) (notified-odd i (mark p prio source (2 * (i / 2)) i) hs odd)
  ]

  own_hart :
      (i k : ℕ) (g hs : HartState) (harts : List HartState)
      → at start (i / 2) ≡ some g
      → is_open p prio source i ≡ true
      → at harts (i / 2) ≡ some (marked (i / 2) i g)
      → i / 2 ≡ k
      → at start k ≡ some hs
      → at (set harts (i / 2) (notified i (marked (i / 2) i g))) k ≡ some (marked k (i + 1) hs)
  own_hart i k g hs harts own on there same e =
      let new = notified i (marked (i / 2) i g) in
      subst (λ j. at start j ≡ some hs → at (set harts (i / 2) new) j ≡ some (marked j (i + 1) hs))
        same
        (λ h.
          at-set_self harts (i / 2) (marked (i / 2) i g) new there
          ∙ ap some (notified-marked i g on)
          ∙ ap (λ x. some (marked (i / 2) (i + 1) x)) (some_eq g hs (sym own ∙ h)))
        e

  module _ (size : length start ≡ n) (contexts : HasContexts p n prio source) where
    notify-Signalled :
        (i : ℕ) (harts : List HartState)
        → i < 2 * n
        → is_open p prio source i ≡ true
        → Signalled i harts
        → (after : List HartState) × (plic_notify_ctx harts i ≡ some after)
          × Signalled (i + 1) after
    unfolding plic_notify_ctx Signalled
    notify-Signalled i harts lt on inv =
        let own = at-some start (i / 2) (omega (arith, size, lt)) in
        let there = inv (i / 2) own.0 own.1 in
        (
          set harts (i / 2) (notified i (marked (i / 2) i own.0)),
          rw there refl,
          λ k hs e. elim (ℕ_discrete (i / 2) k) [
            | no ne ↦
                at-set_ne harts (i / 2) k _ ne
                ∙ inv k hs e
                ∙ ap some (
                    marked-eq k i (i + 1) hs
                      (sym (mark-other p prio source (2 * k) i (omega (arith, ne))))
                      (sym (mark-other p prio source (2 * k + 1) i (omega (arith, ne)))))
            | yes same ↦ own_hart i k own.0 hs harts own.1 on there same e
          ],
        )

    step-Signalled :
        (i : ℕ) (harts : List HartState)
        → i < 2 * n
        → Signalled i harts
        → (after : List HartState) × (try_ctx p prio source i harts ≡ some after)
          × Signalled (i + 1) after
    unfolding Signalled
    step-Signalled i harts lt inv =
        let c = contexts in
        let run =
          try_ctx_lem p prio source i (omega (arith, c.handling)) (omega (arith, c.thresholds))
            (c.enables i lt) harts in
        elim (Bool-cases (is_open p prio source i)) [
          | inr off ↦ (
            harts,
            run ∙ if_false _ _ _ off,
            λ k hs e.
                inv k hs e
                ∙ ap some (
                    marked-eq k i (i + 1) hs (sym (mark-closed p prio source (2 * k) i off))
                      (sym (mark-closed p prio source (2 * k + 1) i off))),
          )
          | inl on ↦
              let q = notify-Signalled i harts lt on inv in (q.0, run ∙ if_true _ _ _ on ∙ q.1, q.2)
        ]

    loop-Signalled :
        (left i : ℕ) (harts : List HartState)
        → i + left ≡ 2 * n
        → Signalled i harts
        → (after : List HartState) × (try_loop p prio source left i harts ≡ some after)
          × Signalled (2 * n) after
    unfolding try_loop
    loop-Signalled zero i harts e inv =
        let all : i ≡ 2 * n = omega (arith, e) in
        (harts, refl, subst (λ j. Signalled j harts) all inv)
    loop-Signalled (suc left) i harts e inv =
        let q = step-Signalled i harts (omega (arith, e)) inv in
        let rest = loop-Signalled left (i + 1) q.0 (omega (arith, e)) q.2 in
        (rest.0, rw (q.1) (rest.1), rest.2)

    start-Signalled : Signalled 0 start
    unfolding Signalled marked
    start-Signalled k hs e =
        let a = mark-later p prio source (2 * k) 0 (omega arith) in
        let b = mark-later p prio source (2 * k + 1) 0 (omega arith) in e ∙ rw (a, b) refl

-- For a pending source with a priority, and two contexts for each hart with their registers,
-- plic_try_int gives harts of which each has MEIP set in addition if its first context is open, and
-- SEIP if its second is, and is as before in all else: a context is open if it is not handling an
-- interrupt, its threshold is below the priority, and the source is enabled for it.
pub plic_try_int-raised :
    (n source prio w : ℕ) (p : Plic) (harts : List HartState)
    → length harts ≡ n
    → HasContexts p n prio source
    → at p.int_pend_regs (source / 32) ≡ some w
    → bit w (source % 32) ≡ true
    → at p.int_prio_regs source ≡ some prio
    → (after : List HartState) × (plic_try_int n p source harts ≡ some after)
      × ((k : ℕ) (hs : HartState)
          → k < n
          → at harts k ≡ some hs
          → at after k
            ≡ some (raised (is_open p prio source (2 * k)) (is_open p prio source (2 * k + 1)) hs))
unfolding plic_try_int Signalled marked
plic_try_int-raised n source prio w p harts size contexts pends pending priority =
    let q =
      loop-Signalled p prio source n harts size contexts (2 * n) 0 harts (omega arith)
        (start-Signalled p prio source n harts size contexts) in
    (
      q.0,
      rw (pends, pending, priority) (q.1),
      λ k hs lt e.
          let a = mark-before p prio source (2 * k) (2 * n) (omega arith) in
          let b = mark-before p prio source (2 * k + 1) (2 * n) (omega arith) in
          rw (← a, ← b) (q.2 k hs e),
    )
