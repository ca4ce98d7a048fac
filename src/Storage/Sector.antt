-- ===== src/Storage/Sector.antt =====
-- The cache changes its sector (cache_load), and takes a block.
use rpi_pico_card_reader.Prelude.{
  ℕ, ◌+◌, ◌-◌, ◌*◌, ◌/◌, ◌%◌, ◌<◌, ◌≡◌, inl, refl, ap, ◌∙◌, Bool, true, false, ◌&&◌, if◌then◌else◌,
  if_intro, ltb, leb, ◌==◌, u32, Array, arith,
}
use rpi_pico_card_reader.Storage.{
  Storage, fat_flash_offset, fat_flash_size, sector_size, blocks_per_sector, storage_flush,
  loaded_sector, cache_load, put_block,
}
use rpi_pico_card_reader.Storage.View.{view, IsStorage, view-storage_flush, storage_flush-IsStorage}

-- A load leaves the host's view as it is, whether its flush succeeds or not; if it succeeds, the
-- sector is in the cache.
pub record IsLoaded (sector : ℕ) (s : Storage) (r : Storage × Bool) : Type 0 where
  pub storage : IsStorage r.0
  pub same : (a : ℕ) → a < fat_flash_size → view r.0 a ≡ view s a
  pub at_sector : r.1 ≡ true → r.0.sector ≡ sector

module _ (s : Storage) (h : IsStorage s) (sector : ℕ) (lt : sector < 768) where
  loaded_sector-IsStorage : s.dirty ≡ false → IsStorage (loaded_sector sector s)
  loaded_sector-IsStorage d = record {
    in_region = inl lt;
    clean = λ e k i li.
        ap s.flash {x = u32 (fat_flash_offset + sector * sector_size + i)}
          {y = fat_flash_offset + sector * sector_size + i} (omega arith);
  }

  view-loaded_sector : s.dirty ≡ false → (a : ℕ) → view (loaded_sector sector s) a ≡ view s a
  view-loaded_sector d a = ground arith

flush_clean :
    (ok : Bool) (s : Storage) → (storage_flush ok s).1 ≡ true → (storage_flush ok s).0.dirty ≡ false
unfolding storage_flush
flush_clean ok s e = ground arith

pub cache_load_lem :
    (ok : Bool) (sector : ℕ) (s : Storage)
    → IsStorage s
    → sector < 768
    → IsLoaded sector s (cache_load ok sector s)
unfolding cache_load
cache_load_lem ok sector s h lt =
    let t = (storage_flush ok s).0 in
    let kept = storage_flush-IsStorage ok s h in
    if_intro (IsLoaded sector s) (s.sector == sector)
      (λ p. record { storage = h; same = λ a l. refl; at_sector = λ q. ground arith })
      (λ p.
        if_intro (IsLoaded sector s) (storage_flush ok s).1
          (λ q. record {
            storage = loaded_sector-IsStorage t kept sector lt (flush_clean ok s q);
            same = λ a l.
                view-loaded_sector t kept sector lt (flush_clean ok s q) a
                ∙ view-storage_flush ok s h a l;
            at_sector = λ r. refl;
          })
          (λ q. record {
            storage = kept;
            same = view-storage_flush ok s h;
            at_sector = λ r. ground arith;
          }))

module _ (now lba : ℕ) (src : Array ℕ) (s : Storage) (h : IsStorage s)
    (at : s.sector ≡ lba / blocks_per_sector) (lt : lba < 6144) where
  pub put_block-IsStorage : IsStorage (put_block now lba src s)
  put_block-IsStorage = ground arith

  pub view-put_block :
      (a : ℕ)
      → a < fat_flash_size
      → view (put_block now lba src s) a
        ≡ (if leb (lba * 512) a && ltb a (lba * 512 + 512) then src (a - lba * 512) else view s a)
  view-put_block a l =
      let i = a % sector_size in
      let i_fits : i < sector_size = omega arith in
      let sector_fits : s.sector < 768 = omega arith in
      ground (
        arith,
        λ (e : s.dirty ≡ false). h.clean e sector_fits i i_fits,
        ap s.flash {x = fat_flash_offset + s.sector * sector_size + i} {y = fat_flash_offset + a},
        ap src {x = 0 + (i - lba % blocks_per_sector * 512)} {y = a - lba * 512},
      )
