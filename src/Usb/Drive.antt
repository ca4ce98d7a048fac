-- ===== src/Usb/Drive.antt =====
-- The drive as the host sees it.
use rpi_pico_card_reader.Prelude.{
  ℕ, ◌+◌, ◌-◌, ◌*◌, ◌/◌, ◌%◌, ◌≤◌, ◌<◌, ◌≡◌, refl, sym, ap, ◌∙◌, Bool, true, false, none, some, u32,
  Array, window, window_ext, window_shift, arith,
}
use rpi_pico_card_reader.Feeder.Types.{FeederState}
use rpi_pico_card_reader.Config.{is_disarmed}
use rpi_pico_card_reader.Storage.{Storage, storage_read_blocks, storage_flush, storage_write_blocks}
use rpi_pico_card_reader.Storage.View.{
  view, IsStorage, view-storage_flush, storage_flush-IsStorage, storage_read_blocks_lem,
}
use rpi_pico_card_reader.Storage.Blocks.{with_blocks, storage_write_blocks_lem}
use rpi_pico_card_reader.Usb.{is_unaligned, tud_msc_read10_cb, tud_msc_write10_cb, tud_msc_scsi_cb}

-- A request in whole blocks of the drive.
pub record IsRequest (lba offset bufsize : ℕ) : Type 0 where
  pub offset_blocks : offset % 512 ≡ 0
  pub size_blocks : bufsize % 512 ≡ 0
  pub inside : lba + offset / 512 + bufsize / 512 ≤ 6144

written_byte :
    (before : ℕ → ℕ) (lba n : ℕ) (src : Array ℕ) (j : ℕ)
    → j < n * 512
    → with_blocks before lba n src (lba * 512 + j) ≡ src j
written_byte before lba n src j lt = ground (arith, ap src {x = lba * 512 + j - lba * 512} {y = j})

-- What the host writes while the feeder is DISARMED, it reads back, before and after it asks for
-- the cache to be synchronised, if the flash operations of the write succeed; and in any other state
-- of the feeder a write is refused and changes nothing.
pub tud_msc_read10_cb-tud_msc_write10_cb :
    (state : FeederState) (s : Storage) (ok : ℕ → Bool) (now : ℕ → ℕ) (last : Bool)
    (lba offset bufsize : ℕ) (buffer : Array ℕ)
    → IsStorage s
    → IsRequest lba offset bufsize
    → ((i : ℕ) → ok i ≡ true)
    → let (t, result) = tud_msc_write10_cb state ok now lba offset buffer bufsize s in
      (is_disarmed state ≡ true
        → (result ≡ some bufsize)
          × (tud_msc_read10_cb t lba offset bufsize ≡ some (window buffer 0 bufsize))
          × (tud_msc_read10_cb (tud_msc_scsi_cb last 0x35 t).0 lba offset bufsize
              ≡ some (window buffer 0 bufsize)))
      × (is_disarmed state ≡ false → (result ≡ none) × (t ≡ s))
unfolding tud_msc_read10_cb tud_msc_write10_cb tud_msc_scsi_cb
tud_msc_read10_cb-tud_msc_write10_cb state s ok now last lba offset bufsize buffer h r good =
    let first = u32 (lba + offset / 512) in
    let count = bufsize / 512 in
    let w = storage_write_blocks ok now first count buffer s in
    let (kept, (n, at_most, complete, succeeds, seen)) =
      storage_write_blocks_lem s ok now first count buffer h (omega (arith, r.inside)) in
    let done = succeeds (λ i lt. good i) in
    let read : (u : Storage)
        → IsStorage u
        → ((a : ℕ) → a < 3145728 → view u a ≡ view w.0 a)
        → storage_read_blocks u first count ≡ some (window buffer 0 bufsize) =
      λ u k same.
        let f = view u in
        let k' = first * 512 in
        storage_read_blocks_lem u k first count (omega (arith, r.inside))
        ∙ ap some (
            ap (λ i. window f i (count * 512)) {x = k'} {y = k' + 0} (omega arith)
            ∙ sym (window_shift f k' 0 (count * 512))
            ∙ window_ext (λ j. f (k' + j)) buffer 0 (count * 512)
                (λ j p q.
                  same (k' + j) (omega (arith, r.inside, q))
                  ∙ seen (k' + j) (omega (arith, r.inside, q))
                  ∙ written_byte (view s) first n buffer j (omega (arith, complete done, q)))
            ∙ ap (window buffer 0) {x = count * 512} {y = bufsize}
                (omega (arith, r.size_blocks))) in
    let aligned : is_unaligned offset bufsize ≡ false =
      ground (arith, r.offset_blocks, r.size_blocks) in
    (
      λ d. (
        ground (arith, d, aligned, done),
        ground (arith, d, aligned, read w.0 kept (λ a lt. refl)),
        ground (
          arith,
          d,
          aligned,
          read (storage_flush last w.0).0 (storage_flush-IsStorage last w.0 kept)
              (view-storage_flush last w.0 kept),
        ),
      ),
      λ d. (ground (arith, d), ground (arith, d)),
    )
