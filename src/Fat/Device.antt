-- ===== src/Fat/Device.antt =====
-- The flash storage as the block device of the FAT reader: storage_read_blocks(lba, b, 1).
use rpi_pico_card_reader.Prelude.{
  ℕ, zero, suc, ◌+◌, ◌-◌, ◌*◌, ◌<◌, ◌≡◌, subst, List, Option, none, some, if◌then◌else◌, if_intro,
  with_option, ltb, length, length-window, u32, Array, window, arith,
}
use rpi_pico_card_reader.Storage.{
  Storage, fat_flash_offset, sector_size, overlay, storage_read_blocks,
}
use rpi_pico_card_reader.Fat.Volume.{Disk, block_size}
use rpi_pico_card_reader.Fat.Entry.{IsDisk}
use rpi_pico_card_reader.Fat.Listing.{IsBytes}

abbrev pub storage_disk : Storage → Disk
storage_disk s lba = storage_read_blocks s lba 1

-- What a read that succeeds gives.
abbrev pub IsBlock : Option (List ℕ) → Type 0
IsBlock o = (b : List ℕ) → o ≡ some b → (length b ≡ block_size) × IsBytes b

pub some-IsBlock : (x : List ℕ) → length x ≡ block_size → IsBytes x → IsBlock (some x)
some-IsBlock x n h b e =
    subst
      (λ o.
        with_option o ((length x ≡ block_size) × IsBytes x)
          (λ y. (length y ≡ block_size) × IsBytes y))
      e (n, h)

pub none-IsBlock : IsBlock none
none-IsBlock b e = absurd (ground (arith, e))

window-IsBytes : (a : Array ℕ) (k n : ℕ) → ((j : ℕ) → a j < 256) → IsBytes (window a k n)
window-IsBytes a k zero h i = ground arith
window-IsBytes a k (suc n) h zero = h k
window-IsBytes a k (suc n) h (suc i) = window-IsBytes a (k + 1) n h i

module _ (s : Storage) (flash : (i : ℕ) → s.flash i < 256)
    (cached : (i : ℕ) → s.cached i < 256) where
  overlay-lt :
      (off len j : ℕ) (buf : Array ℕ) → ((i : ℕ) → buf i < 256) → overlay s off len buf j < 256
  unfolding overlay
  overlay-lt off len j buf h =
      let coff = u32 (s.sector * sector_size) in
      let lo = if ltb coff off then off else coff in
      ground (arith, h j, cached (lo - coff + (j - (lo - off))))

  -- Every block that the storage gives, of the region or not, is a block of 512 bytes.
  pub storage_disk-IsDisk : IsDisk (storage_disk s)
  unfolding storage_read_blocks
  storage_disk-IsDisk =
      let all : (lba : ℕ) → IsBlock (storage_disk s lba) = λ lba.
        let off = u32 (lba * 512) in
        let buf = overlay s off 512 (λ j. s.flash (u32 (fat_flash_offset + off + j))) in
        if_intro IsBlock _ (λ p. none-IsBlock)
          (λ p. some-IsBlock (window buf 0 512) (length-window buf 0 512) (
            window-IsBytes buf 0 512
              (λ j. overlay-lt off 512 j _ (λ i. flash (u32 (fat_flash_offset + off + i)))))) in
      record { sized = λ lba b e. (all lba b e).0; bytes = λ lba b e. (all lba b e).1 }
