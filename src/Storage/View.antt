-- ===== src/Storage/View.antt =====
-- What the host sees of the region: the flash, under the dirty sector of the cache.
use rpi_pico_card_reader.Prelude.{
  ℕ, ◌+◌, ◌-◌, ◌*◌, ◌/◌, ◌%◌, ◌≤◌, ◌<◌, ◌≡◌, ◌⊎◌, ap, ◌∙◌, Bool, false, ◌&&◌, some, if◌then◌else◌,
  if_intro, ◌==◌, u32, window, window_ext, window_shift, arith,
}
use rpi_pico_card_reader.Storage.{
  Storage, fat_flash_offset, fat_flash_size, sector_size, no_sector, overlay, storage_read_blocks,
  storage_flush, storage_poll, storage_init,
}

-- Byte a of the region.
abbrev pub view : Storage → ℕ → ℕ
view s a =
    if s.dirty && (a / sector_size == s.sector)
    then s.cached (a % sector_size)
    else s.flash (fat_flash_offset + a)

-- The cached sector is one of the region, and holds what the flash holds until it is written.
pub record IsStorage (s : Storage) : Type 0 where
  pub in_region : (s.sector < 768) ⊎ ((s.sector ≡ no_sector) × (s.dirty ≡ false))
  pub clean :
      s.dirty ≡ false
      → s.sector < 768
      → (i : ℕ) → i < sector_size
      → s.cached i ≡ s.flash (fat_flash_offset + s.sector * sector_size + i)

-- A byte of the buffer, after the overlay.
overlay_at :
    (s : Storage)
    → IsStorage s
    → (off len j : ℕ) → off + len ≤ fat_flash_size
    → j < len
    → overlay s off len (λ i. s.flash (u32 (fat_flash_offset + off + i))) j ≡ view s (off + j)
unfolding overlay
overlay_at s h off len j le lt = ground (
  arith,
  ap s.cached {x = (off + j) - s.sector * 4096} {y = (off + j) % 4096},
  ap s.flash {x = u32 (fat_flash_offset + off + j)} {y = fat_flash_offset + (off + j)}
      (omega arith),
)

read_window :
    (s : Storage)
    → IsStorage s
    → (off len : ℕ) → off + len ≤ fat_flash_size
    → window (overlay s off len (λ i. s.flash (u32 (fat_flash_offset + off + i)))) 0 len
      ≡ window (view s) off len
read_window s h off len le =
    window_ext _ (λ j. view s (off + j)) 0 len (λ j p q. overlay_at s h off len j le (omega arith))
    ∙ window_shift (view s) off 0 len
    ∙ ap (λ i. window (view s) i len) {x = off + 0} {y = off} (omega arith)

-- A read of blocks of the region succeeds, and gives what the host is to see.
pub storage_read_blocks_lem :
    (s : Storage)
    → IsStorage s
    → (lba count : ℕ) → lba + count ≤ 6144
    → storage_read_blocks s lba count ≡ some (window (view s) (lba * 512) (count * 512))
unfolding storage_read_blocks
storage_read_blocks_lem s h lba count le =
    let off = lba * 512 in
    let len = count * 512 in ground (arith, read_window s h off len (omega arith))

-- A flush, done or failed, changes nothing that the host sees.
pub view-storage_flush :
    (ok : Bool) (s : Storage)
    → IsStorage s
    → (a : ℕ) → a < fat_flash_size
    → view (storage_flush ok s).0 a ≡ view s a
unfolding storage_flush
view-storage_flush ok s h a lt = ground (
  arith,
  ap s.cached {x = 0 + (fat_flash_offset + a - u32 (fat_flash_offset + s.sector * sector_size))}
      {y = a % sector_size},
)

pub storage_flush-IsStorage :
    (ok : Bool) (s : Storage) → IsStorage s → IsStorage (storage_flush ok s).0
unfolding storage_flush
storage_flush-IsStorage ok s h = record {
  in_region = ground arith;
  clean = λ d lt i li. ground (
    arith,
    λ (e : s.dirty ≡ false) (k : s.sector < 768). h.clean e k i li,
    ap s.cached {x = i}
        {y = 0
          + (fat_flash_offset
              + s.sector * sector_size
              + i
              - u32 (fat_flash_offset + s.sector * sector_size))},
  );
}

pub storage_init-IsStorage : (s : Storage) → IsStorage (storage_init s)
unfolding storage_init
storage_init-IsStorage s = ground arith

pub storage_poll-IsStorage :
    (ok : Bool) (now : ℕ) (s : Storage) → IsStorage s → IsStorage (storage_poll ok now s)
unfolding storage_poll
storage_poll-IsStorage ok now s h =
    if_intro IsStorage _ (λ p. storage_flush-IsStorage ok s h) (λ p. h)
