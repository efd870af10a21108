-- ===== src/Virtio.antt =====
-- virtio_mmio_blk.cpp: the registers of the block device. The structs of virtio_common.h are packed
-- and are reached as arrays of 32-bit words. A result `none` is undefined behaviour, an access past
-- a struct.
pub mod Bounds
use rv_emu.Base.{
  ℕ, ◌+◌, ◌-◌, ◌*◌, ◌/◌, ◌%◌, Bool, true, false, ◌&&◌, ◌||◌, List, [], ◌∷◌, ◌++◌, Option, none,
  some, leb, ◌==◌, if◌then◌else◌, get_or, set, replicate,
}
use rv_emu.Plic.{at, and_then}
use rv_emu.Plic.Registers.{assign}

-- The words of `virtio_mmio_blk_devcfg`, of the one queue and of `vblkcfg`, and the flag.
pub record Blk : Type 0 where
  pub devcfg : List ℕ
  pub queues : List ℕ
  pub vblkcfg : List ℕ
  pub configgen : ℕ
  pub blk_end : Bool

-- magic, version, deviceid, vendorid, devfeat, devfeatsel, devfeathi, _res0[1], drifeat,
-- drifeatsel, drifeathi, _res1[1], queuesel, _res2[41], intstatus, intack, _res3[2], status.
abbrev pub virtio_dev_cfg : List ℕ
virtio_dev_cfg = 0x7472_6976 ∷ 0x2 ∷ replicate (11 + 41 + 5) 0

-- queuesel, queuenummax, queuenum, _res0[2], queueready, _res1[2], queuenotify, _res2[41],
-- queuedesc, _res3[1], queuedri, _res4[1], queuedev; three of them of two words.
abbrev pub virtqueue_words : ℕ
virtqueue_words = 9 + 41 + 3 * 2 + 2

abbrev pub static_blk : Blk
static_blk = record {
  devcfg = virtio_dev_cfg;
  queues = replicate virtqueue_words 0;
  vblkcfg = 0 ∷ 0 ∷ [];
  configgen = 0;
  blk_end = false;
}

unfoldable pub virtio_mmio_blk_init : Blk → Blk
virtio_mmio_blk_init b = record b { devcfg = set (set (set b.devcfg 2 2) 3 0x554d_4551) 4 0 }

unfoldable pub virtio_mmio_blk_uninit : Blk → Blk
virtio_mmio_blk_uninit b = record b { blk_end = true }

-- Words 5, 9 and 12 of the configuration.
abbrev pub devfeatsel : Blk → ℕ
devfeatsel b = get_or b.devcfg 5 0

abbrev pub drifeatsel : Blk → ℕ
drifeatsel b = get_or b.devcfg 9 0

abbrev pub queuesel : Blk → ℕ
queuesel b = get_or b.devcfg 12 0

-- The offsets of the two feature words depend on their selectors, one test after the other.
unfoldable pub feature_offset : Blk → ℕ → ℕ
feature_offset b offset =
    let dev = (if offset == 0x010 then offset + 2 * 4 * devfeatsel b else offset) in
    if dev == 0x020 then dev + 2 * 4 * drifeatsel b else dev

unfoldable pub is_status : ℕ → Bool
is_status offset = leb 0x50 offset && leb offset 0x70

unfoldable pub is_queue : ℕ → Bool
is_queue offset = leb 0x34 offset && leb offset 0xa4

-- The word at the pointer; the index of a queue is not tested.
unfoldable pub virtio_mmio_blk_r : ℕ → Blk → Option ℕ
virtio_mmio_blk_r offset b =
    if leb offset 0x30
    then at b.devcfg (feature_offset b offset / 4)
    else if is_status offset
    then at b.devcfg (offset / 4)
    else if is_queue offset
    then at b.queues (virtqueue_words * queuesel b + (offset - 0x34) / 4)
    else if offset == 0xfc
    then some b.configgen
    else if leb 0x100 offset
    then at b.vblkcfg ((offset - 0x100) / 4)
    else some 0

-- `SAO(st, off - base)`: the macro does not parenthesise its argument, so the division is that of
-- the constant, `off - base / 4`, in words.
abbrev pub sao_diff : ℕ → ℕ → ℕ
sao_diff off base = off - base / 4

-- `data_` is the 32-bit word at the pointer. The tests are made one after the other, with the
-- offset as the first leaves it.
unfoldable pub virtio_mmio_blk_w : ℕ → ℕ → Blk → Option Blk
virtio_mmio_blk_w offset data_ b =
    let off = (if leb offset 0x30 then feature_offset b offset else offset) in
    let config = (if leb offset 0x30 then assign b.devcfg (off / 4) data_ else some b.devcfg) in
    and_then config (λ c.
      and_then (if is_status off then assign c (off / 4) data_ else some c) (λ devcfg.
        let written = record b { devcfg = devcfg } in
        let queue_word = virtqueue_words * queuesel written + sao_diff off 0x34 in
        and_then (if is_queue off then assign b.queues queue_word data_ else some b.queues)
          (λ queues.
            and_then
              (if leb 0x100 off
                then assign b.vblkcfg (sao_diff off 0x100) data_
                else some b.vblkcfg)
              (λ vblkcfg. some (record written { queues = queues; vblkcfg = vblkcfg })))))
