-- ===== src/Virtio/Bounds.antt =====
-- virtio_mmio_blk.cpp: which writes of the block device's registers stay in their structs.
use rv_emu.Base.{
  some-ne-none, ℕ, ◌+◌, ◌-◌, ◌*◌, ◌/◌, ◌≤◌, ◌<◌, ◌≡◌, ◌⊎◌, ◌↔◌, inl, inr, refl, ap, true, false,
  none, some, leb, length, set, arith, Bool-cases,
}
use rv_emu.Plic.Places.{at-set_ne, assign-in, assign-past}
use rv_emu.Plic.Registers.{assign}
use rv_emu.Virtio.{
  Blk, virtqueue_words, queuesel, virtio_mmio_blk_w, virtio_mmio_blk_r, is_status, is_queue,
  sao_diff,
}

-- The structs have their sizes and the first queue is selected.
pub record IsBlk (b : Blk) : Type 0 where
  pub devcfg_words : length b.devcfg ≡ 59
  pub queue_words : length b.queues ≡ 58
  pub vblkcfg_words : length b.vblkcfg ≡ 2
  pub first_queue : queuesel b ≡ 0

pub status_out : (o : ℕ) → (o < 0x50) ⊎ (0x70 < o) → is_status o ≡ false
unfolding is_status
status_out o h = ground (arith, h)

queue_out : (o : ℕ) → (o < 0x34) ⊎ (0xa4 < o) → is_queue o ≡ false
unfolding is_queue
queue_out o h = ground (arith, h)

pub queue_in : (o : ℕ) → 0x34 ≤ o → o ≤ 0xa4 → is_queue o ≡ true
unfolding is_queue
queue_in o h k = ground arith

pub past : (n o : ℕ) → n < o → leb o n ≡ false
past n o h = ground arith

config_in : (o : ℕ) → 0x100 ≤ o → leb 0x100 o ≡ true
config_in o h = ground arith

module _ (b : Blk) (k : IsBlk b) (o v : ℕ) where
  write_outside : 0x30 < o → (o < 0x34) ⊎ (0xa4 < o) → o < 0x100 → virtio_mmio_blk_w o v b ≡ some b
  unfolding virtio_mmio_blk_w
  write_outside h out lt =
      let no_status = status_out o (ground (arith, out)) in
      rw (past 0x30 o h, no_status, queue_out o out, past o 0x100 lt) refl

  pub write_queue :
      0x34 ≤ o
      → o < 0x47
      → virtio_mmio_blk_w o v b ≡ some (record b { queues = set b.queues (sao_diff o 0x34) v })
  unfolding virtio_mmio_blk_w
  write_queue h lt =
      let there : virtqueue_words * 0 + sao_diff o 0x34 < length b.queues =
        omega (arith, k.queue_words) in
      rw
        (
          past 0x30 o (omega arith),
          status_out o (inl (omega arith)),
          queue_in o h (omega arith),
          past o 0x100 (omega arith),
          k.first_queue,
          assign-in b.queues (virtqueue_words * 0 + sao_diff o 0x34) v there,
        )
        (ap (λ n. some (record b { queues = set b.queues n v })) (omega arith))

  queue_past : (q : ℕ) → 0x47 ≤ o → assign b.queues (virtqueue_words * q + sao_diff o 0x34) v ≡ none
  queue_past q h =
      assign-past b.queues (virtqueue_words * q + sao_diff o 0x34) v (omega (arith, k.queue_words))

  write_past_queue : 0x47 ≤ o → o ≤ 0xa4 → virtio_mmio_blk_w o v b ≡ none
  unfolding virtio_mmio_blk_w
  write_past_queue h le = elim (Bool-cases (is_status o)) [
    | inl on ↦
        let there : o / 4 < length b.devcfg = omega (arith, k.devcfg_words) in
        rw
          (
            past 0x30 o (omega arith),
            on,
            assign-in b.devcfg (o / 4) v there,
            queue_in o (omega arith) le,
            queue_past _ h,
          )
          refl
    | inr off ↦
        rw (past 0x30 o (omega arith), off, queue_in o (omega arith) le, queue_past _ h) refl
  ]

  write_config : 0x100 ≤ o → virtio_mmio_blk_w o v b ≡ none
  unfolding virtio_mmio_blk_w
  write_config h =
      rw
        (
          past 0x30 o (omega arith),
          status_out o (inr (omega arith)),
          queue_out o (inr (omega arith)),
          config_in o h,
          assign-past b.vblkcfg (sao_diff o 0x100) v (omega (arith, k.vblkcfg_words)),
        )
        refl

  -- Which writes past the first registers are undefined.
  write_undefined :
      0x30 < o → (virtio_mmio_blk_w o v b ≡ none) ↔ ((0x47 ≤ o) × (o ≤ 0xa4) ⊎ (0x100 ≤ o))
  write_undefined h = (
    λ e. elim (Bool-cases (leb o 0x33)) [
      | inl low ↦ absurd (some-ne-none _ _ (write_outside h (inl (ground arith)) (ground arith)) e)
      | inr high0 ↦ elim (Bool-cases (leb o 0x46)) [
        | inl low ↦ absurd (some-ne-none _ _ (write_queue (ground arith) (ground arith)) e)
        | inr high1 ↦ elim (Bool-cases (leb o 0xa4)) [
          | inl low ↦ inl (ground arith, ground arith)
          | inr high2 ↦ elim (Bool-cases (leb o 0xff)) [
            | inl low ↦
                absurd (some-ne-none _ _ (write_outside h (inr (ground arith)) (ground arith)) e)
            | inr high3 ↦ inr (ground arith)
          ]
        ]
      ]
    ],
    λ w. elim w [ inl q ↦ write_past_queue (q.0) (q.1) | inr c ↦ write_config c ],
  )

  unread :
      (o' : ℕ)
      → 0x34 ≤ o
      → o < 0x47
      → 0x34 ≤ o'
      → o' < 0x50
      → virtio_mmio_blk_r o' (record b { queues = set b.queues (sao_diff o 0x34) v })
        ≡ virtio_mmio_blk_r o' b
  unfolding virtio_mmio_blk_r
  unread o' h lt h' lt' =
      rw
        (
          past 0x30 o' (omega arith),
          status_out o' (inl lt'),
          queue_in o' h' (omega arith),
          k.first_queue,
          at-set_ne b.queues (sao_diff o 0x34) (virtqueue_words * 0 + (o' - 0x34) / 4) v
              (omega arith),
        )
        refl

  -- For structs of their sizes and the first queue selected, a write past offset 0x30 is undefined
  -- exactly from 0x47 to 0xa4, where the status and most registers of the queue are, and from 0x100
  -- on; a write to a register of the queue before that is defined, and no read of a register at
  -- 0x34 to 0x4f sees it.
  pub virtio_mmio_blk_w-none :
      0x30 < o
      → ((virtio_mmio_blk_w o v b ≡ none) ↔ ((0x47 ≤ o) × (o ≤ 0xa4) ⊎ (0x100 ≤ o)))
        × (0x34 ≤ o
            → o < 0x47
            → (b' : Blk) × (virtio_mmio_blk_w o v b ≡ some b')
              × ((o' : ℕ)
                  → 0x34 ≤ o'
                  → o' < 0x50
                  → virtio_mmio_blk_r o' b' ≡ virtio_mmio_blk_r o' b))
  virtio_mmio_blk_w-none h =
      (write_undefined h, λ low lt. (_, write_queue low lt, λ o' a c. unread o' low lt a c))
