-- ===== src/Storage.antt =====
-- src/storage.c: the blocks of the FAT region over the flash, behind a write cache of one sector.
-- `flash` is the whole flash, by offset; a flash_safe_execute that succeeds erases and programs
-- the sector that it is given, and `ok` says whether it succeeds. The clock is an argument.
pub mod View
pub mod Sector
pub mod Blocks
pub mod Region
mod Tests
use rpi_pico_card_reader.Prelude.{
  ℕ, zero, suc, ◌+◌, ◌-◌, ◌*◌, ◌/◌, ◌%◌, ◌^◌, List, Bool, true, false, not, ◌&&◌, Option, none,
  some, if◌then◌else◌, ltb, leb, ◌==◌, u32, Array, window,
}

abbrev pub fat_flash_offset : ℕ
fat_flash_offset = 0x100000

abbrev pub fat_flash_size : ℕ
fat_flash_size = 0x300000

abbrev pub sector_size : ℕ
sector_size = 4096

abbrev pub blocks_per_sector : ℕ
blocks_per_sector = 8

abbrev pub flush_idle_us : ℕ
flush_idle_us = 500000

-- UINT32_MAX
abbrev pub no_sector : ℕ
no_sector = 4294967295

-- The static `cache`, and the flash.
pub record Storage : Type 0 where
  pub flash : Array ℕ
  pub cached : Array ℕ
  pub sector : ℕ
  pub dirty : Bool
  pub last_write_us : ℕ

-- memcpy(&dst[to], &src[from], n)
abbrev pub copy : Array ℕ → ℕ → Array ℕ → ℕ → ℕ → Array ℕ
copy dst to src from n j = if leb to j && ltb j (to + n) then src (from + (j - to)) else dst j

unfoldable pub storage_init : Storage → Storage
storage_init s = record s { sector = no_sector; dirty = false }

-- The overlay of the dirty sector on the bytes [off, off + len) that were read into buf.
unfoldable pub overlay : Storage → ℕ → ℕ → Array ℕ → Array ℕ
overlay s off len buf =
    let coff = u32 (s.sector * sector_size) in
    let lo = if ltb coff off then off else coff in
    let hi =
      if ltb (u32 (off + len)) (u32 (coff + sector_size))
      then u32 (off + len)
      else u32 (coff + sector_size) in
    if s.dirty && ltb lo hi then copy buf (lo - off) s.cached (lo - coff) (hi - lo) else buf

unfoldable pub storage_read_blocks : Storage → ℕ → ℕ → Option (List ℕ)
unfolding overlay
storage_read_blocks s lba count =
    let off = u32 (lba * 512) in
    let len = u32 (count * 512) in
    if ltb fat_flash_size (u32 (off + len))
    then none
    else some (window (overlay s off len (λ j. s.flash (u32 (fat_flash_offset + off + j)))) 0 len)

-- The Boolean is false for the result -1.
unfoldable pub storage_flush : Bool → Storage → Storage × Bool
storage_flush ok s =
    if s.dirty
    then (if ok
        then (
          record s {
            flash =
                copy s.flash (u32 (fat_flash_offset + s.sector * sector_size)) s.cached 0
                  sector_size;
            dirty = false;
          },
          true,
        )
        else (s, false))
    else (s, true)

-- cache_load, after its flush
abbrev pub loaded_sector : ℕ → Storage → Storage
loaded_sector sector s = record s {
  cached = λ i. s.flash (u32 (fat_flash_offset + sector * sector_size + i));
  sector = sector;
}

unfoldable pub cache_load : Bool → ℕ → Storage → Storage × Bool
unfolding storage_flush
cache_load ok sector s =
    let (t, done) = storage_flush ok s in
    if s.sector == sector
    then (s, true)
    else if done
    then (loaded_sector sector t, true)
    else (t, false)

-- The body of the loop of storage_write_blocks, once the sector is loaded.
abbrev pub put_block : ℕ → ℕ → Array ℕ → Storage → Storage
put_block now lba src s = record s {
  cached = copy s.cached (lba % blocks_per_sector * 512) src 0 512;
  dirty = true;
  last_write_us = now;
}

-- The loop with `count` rounds left; `ok` and `now` are those of each round.
unfoldable pub write_rounds : (ℕ → Bool) → (ℕ → ℕ) → ℕ → ℕ → Array ℕ → Storage → Storage × Bool
unfolding cache_load
write_rounds ok now zero lba src s = (s, true)
write_rounds ok now (suc count) lba src s =
    let (t, done) = cache_load (ok count) (lba / blocks_per_sector) s in
    let rest =
      write_rounds ok now count (u32 (lba + 1)) (λ j. src (512 + j))
        (put_block (now count) lba src t) in
    if done then rest else (t, false)

unfoldable pub storage_write_blocks :
    (ℕ → Bool) → (ℕ → ℕ) → ℕ → ℕ → Array ℕ → Storage → Storage × Bool
unfolding write_rounds
storage_write_blocks ok now lba count src s =
    if ltb fat_flash_size (u32 (u32 (lba + count) * 512))
    then (s, false)
    else write_rounds ok now count lba src s

unfoldable pub storage_poll : Bool → ℕ → Storage → Storage
unfolding storage_flush
storage_poll ok now s =
    if s.dirty && ltb flush_idle_us ((now + 2 ^ 64 - s.last_write_us) % 2 ^ 64)
    then (storage_flush ok s).0
    else s
