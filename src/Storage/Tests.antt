-- ===== src/Storage/Tests.antt =====
-- Two blocks across a sector's end, written to a device that is just started.
use rpi_pico_card_reader.Prelude.{
  ℕ, ◌*◌, ◌%◌, ◌≤◌, ◌<◌, ◌≡◌, inl, refl, Bool, true, some, not, ◌==◌, Array, window, arith,
}
use rpi_pico_card_reader.Storage.{
  Storage, fat_flash_size, storage_init, storage_read_blocks, storage_flush, storage_write_blocks,
}
use rpi_pico_card_reader.Storage.View.{view, IsStorage, storage_init-IsStorage}
use rpi_pico_card_reader.Storage.Blocks.{storage_write_blocks_lem, with_blocks}
use rpi_pico_card_reader.Storage.Region.{flash-storage_write_blocks, storage_durable}

abbrev off : Storage
off = record { flash = λ i. 255; cached = λ i. 0; sector = 0; dirty = true; last_write_us = 0 }

abbrev fresh : Storage
fresh = storage_init off

fresh-IsStorage : IsStorage fresh
fresh-IsStorage = storage_init-IsStorage off

abbrev src : Array ℕ
src i = i % 256

-- Blocks 7 and 8, the second of which cannot be loaded: the flush of the first one fails.
abbrev ok : ℕ → Bool
ok i = not (i == 0)

storage_write_blocks_lem_example :
    let (t, done) = storage_write_blocks ok (λ i. 0) 7 2 src fresh in
    IsStorage t
    × ((n : ℕ) × (n ≤ 2)
        × (done ≡ true → n ≡ 2)
        × (((i : ℕ) → i < 2 → ok i ≡ true) → done ≡ true)
        × ((a : ℕ) → a < fat_flash_size → view t a ≡ with_blocks (view fresh) 7 n src a))
storage_write_blocks_lem_example =
    storage_write_blocks_lem fresh ok (λ i. 0) 7 2 src fresh-IsStorage (omega arith)

flash-storage_write_blocks_example :
    (storage_flush true (storage_write_blocks (λ i. true) (λ i. 0) 7 2 src fresh).0).0.flash
      0x0f0000
    ≡ fresh.flash 0x0f0000
flash-storage_write_blocks_example =
    flash-storage_write_blocks fresh (λ i. true) (λ i. 0) 7 2 src true fresh-IsStorage (omega arith)
      0x0f0000 (inl (omega arith))

storage_durable_example :
    storage_read_blocks
      (storage_init
        (storage_flush true (storage_write_blocks (λ i. true) (λ i. 0) 7 2 src fresh).0).0)
      7
      2
    ≡ some (window src 0 (2 * 512))
unfolding storage_write_blocks storage_init
storage_durable_example =
    storage_durable fresh (λ i. true) (λ i. 0) 7 2 src fresh-IsStorage (omega arith) refl
