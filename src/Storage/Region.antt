-- ===== src/Storage/Region.antt =====
-- The rest of the flash (the firmware and the configuration sector), and what a restart finds.
use rpi_pico_card_reader.Prelude.{
  ℕ, zero, suc, ◌+◌, ◌-◌, ◌*◌, ◌/◌, ◌≤◌, ◌<◌, ◌≡◌, ◌⊎◌, refl, sym, ap, ◌∙◌, Bool, true, false, some,
  if_intro, ltb, ◌==◌, u32, Array, window, window_ext, window_shift, arith,
}
use rpi_pico_card_reader.Storage.{
  Storage, fat_flash_offset, fat_flash_size, blocks_per_sector, storage_init, storage_read_blocks,
  storage_flush, cache_load, put_block, write_rounds, storage_write_blocks,
}
use rpi_pico_card_reader.Storage.View.{
  view, IsStorage, view-storage_flush, storage_init-IsStorage, storage_read_blocks_lem,
}
use rpi_pico_card_reader.Storage.Sector.{cache_load_lem, put_block-IsStorage}
use rpi_pico_card_reader.Storage.Blocks.{storage_write_blocks_lem, with_blocks}

-- An offset outside the FAT region.
abbrev pub IsOutside : ℕ → Type 0
IsOutside a = (a < fat_flash_offset) ⊎ (fat_flash_offset + fat_flash_size ≤ a)

flash-storage_flush :
    (ok : Bool) (s : Storage)
    → IsStorage s
    → (a : ℕ) → IsOutside a
    → (storage_flush ok s).0.flash a ≡ s.flash a
unfolding storage_flush
flash-storage_flush ok s h a out = ground arith

flash-cache_load :
    (ok : Bool) (sector : ℕ) (s : Storage)
    → IsStorage s
    → (a : ℕ) → IsOutside a
    → (cache_load ok sector s).0.flash a ≡ s.flash a
unfolding cache_load
flash-cache_load ok sector s h a out =
    let keeps : Storage × Bool → Type 0 = λ r. r.0.flash a ≡ s.flash a in
    if_intro keeps (s.sector == sector) (λ p. refl)
      (λ p.
        if_intro keeps (storage_flush ok s).1 (λ q. flash-storage_flush ok s h a out)
          (λ q. flash-storage_flush ok s h a out))

flash-write_rounds :
    (ok : ℕ → Bool) (now : ℕ → ℕ) (count lba : ℕ) (src : Array ℕ) (s : Storage)
    → IsStorage s
    → lba + count ≤ 6144
    → (a : ℕ) → IsOutside a
    → (write_rounds ok now count lba src s).0.flash a ≡ s.flash a
unfolding write_rounds
flash-write_rounds ok now zero lba src s h le a out = refl
flash-write_rounds ok now (suc count) lba src s h le a out =
    let r = cache_load (ok count) (lba / blocks_per_sector) s in
    let l = cache_load_lem (ok count) (lba / blocks_per_sector) s h (omega arith) in
    let before = flash-cache_load (ok count) (lba / blocks_per_sector) s h a out in
    if_intro (λ (q : Storage × Bool). q.0.flash a ≡ s.flash a) r.1
      (λ p.
        flash-write_rounds ok now count (u32 (lba + 1)) (λ j. src (512 + j))
          (put_block (now count) lba src r.0)
          (put_block-IsStorage (now count) lba src r.0 l.storage (l.at_sector p) (omega arith))
          (omega arith) a out
        ∙ before)
      (λ p. before)

-- Whatever is written to blocks of the region, and flushed or not, no byte of the flash outside the
-- region changes: neither the firmware nor the configuration sector.
pub flash-storage_write_blocks :
    (s : Storage) (ok : ℕ → Bool) (now : ℕ → ℕ) (lba count : ℕ) (src : Array ℕ) (last : Bool)
    → IsStorage s
    → lba + count ≤ 6144
    → (a : ℕ) → IsOutside a
    → (storage_flush last (storage_write_blocks ok now lba count src s).0).0.flash a ≡ s.flash a
unfolding storage_write_blocks
flash-storage_write_blocks s ok now lba count src last h le a out =
    flash-storage_flush last (storage_write_blocks ok now lba count src s).0
      (storage_write_blocks_lem s ok now lba count src h le).0 a out
    ∙ if_intro (λ (q : Storage × Bool). q.0.flash a ≡ s.flash a)
        (ltb fat_flash_size (u32 (u32 (lba + count) * 512))) (λ p. refl)
        (λ p. flash-write_rounds ok now count lba src s h le a out)

init_view : (s : Storage) (a : ℕ) → s.dirty ≡ false → view (storage_init s) a ≡ view s a
unfolding storage_init
init_view s a d = ground arith

flushed_clean : (s : Storage) → (storage_flush true s).0.dirty ≡ false
unfolding storage_flush
flushed_clean s = ground arith

written_byte :
    (before : ℕ → ℕ) (lba n count : ℕ) (src : Array ℕ) (j : ℕ)
    → n ≡ count
    → j < count * 512
    → with_blocks before lba n src (lba * 512 + j) ≡ src j
written_byte before lba n count src j e lt =
    ground (arith, ap src {x = lba * 512 + j - lba * 512} {y = j})

-- A write that succeeds and a flush that succeeds survive a restart: the restarted device reads the
-- blocks that were written.
pub storage_durable :
    (s : Storage) (ok : ℕ → Bool) (now : ℕ → ℕ) (lba count : ℕ) (src : Array ℕ)
    → IsStorage s
    → lba + count ≤ 6144
    → (storage_write_blocks ok now lba count src s).1 ≡ true
    → storage_read_blocks
        (storage_init (storage_flush true (storage_write_blocks ok now lba count src s).0).0)
        lba
        count
      ≡ some (window src 0 (count * 512))
storage_durable s ok now lba count src h le done =
    let t = (storage_write_blocks ok now lba count src s).0 in
    let (kept, (n, at_most, complete, succeeds, seen)) =
      storage_write_blocks_lem s ok now lba count src h le in
    let u = (storage_flush true t).0 in
    let f = view (storage_init u) in
    let k = lba * 512 in
    storage_read_blocks_lem (storage_init u) (storage_init-IsStorage u) lba count le
    ∙ ap some (
        ap (λ i. window f i (count * 512)) {x = k} {y = k + 0} (omega arith)
        ∙ sym (window_shift f k 0 (count * 512))
        ∙ window_ext (λ j. f (k + j)) src 0 (count * 512)
            (λ j p q.
              init_view u (k + j) (flushed_clean t)
              ∙ view-storage_flush true t kept (k + j) (omega arith)
              ∙ seen (k + j) (omega arith)
              ∙ written_byte (view s) lba n count src j (complete done) (omega arith)))
