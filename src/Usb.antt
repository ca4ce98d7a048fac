-- ===== src/Usb.antt =====
-- src/usb_composite.c: the callbacks of the USB drive. `none` is the result -1.
pub mod Drive
pub mod Descriptors
mod Tests
use rpi_pico_card_reader.Prelude.{
  ℕ, ◌+◌, ◌/◌, ◌%◌, List, Bool, true, false, not, ◌||◌, Option, none, some, if◌then◌else◌,
  with_option, ◌==◌, u32, Array,
}
use rpi_pico_card_reader.Storage.{
  Storage, fat_flash_size, storage_read_blocks, storage_flush, storage_write_blocks,
}
use rpi_pico_card_reader.Feeder.Types.{FeederState}
use rpi_pico_card_reader.Config.{is_disarmed}

-- The number of blocks and their size.
abbrev pub tud_msc_capacity_cb : ℕ × ℕ
tud_msc_capacity_cb = (fat_flash_size / 512, 512)

abbrev pub tud_msc_is_writable_cb : FeederState → Bool
tud_msc_is_writable_cb state = is_disarmed state

-- offset % 512 || bufsize % 512
abbrev pub is_unaligned : ℕ → ℕ → Bool
is_unaligned offset bufsize = not (offset % 512 == 0) || not (bufsize % 512 == 0)

-- The bytes that are put into the buffer.
unfoldable pub tud_msc_read10_cb : Storage → ℕ → ℕ → ℕ → Option (List ℕ)
tud_msc_read10_cb s lba offset bufsize =
    if is_unaligned offset bufsize
    then none
    else storage_read_blocks s (u32 (lba + offset / 512)) (bufsize / 512)

unfoldable pub tud_msc_write10_cb :
    FeederState → (ℕ → Bool) → (ℕ → ℕ) → ℕ → ℕ → Array ℕ → ℕ → Storage → Storage × Option ℕ
tud_msc_write10_cb state ok now lba offset buffer bufsize s =
    let (t, done) =
      storage_write_blocks ok now (u32 (lba + offset / 512)) (bufsize / 512) buffer s in
    if not (is_disarmed state)
    then (s, none)
    else if is_unaligned offset bufsize
    then (s, none)
    else (t, if done then some bufsize else none)

unfoldable pub tud_msc_start_stop_cb : Bool → Bool → Storage → Storage
tud_msc_start_stop_cb ok load_eject s = if load_eject then (storage_flush ok s).0 else s

-- SYNCHRONIZE CACHE, PREVENT/ALLOW MEDIUM REMOVAL, and the commands that are not supported.
unfoldable pub tud_msc_scsi_cb : Bool → ℕ → Storage → Storage × Option ℕ
tud_msc_scsi_cb ok op s =
    if op == 0x35
    then ((storage_flush ok s).0, some 0)
    else if op == 0x1E
    then (s, some 0)
    else (s, none)
