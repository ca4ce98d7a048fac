-- ===== src/Usb/Tests.antt =====
-- Blocks 7 and 8 written by the host, and read back.
use rpi_pico_card_reader.Prelude.{◌<◌}
use rpi_pico_card_reader.Deckload.{chars}
use rpi_pico_card_reader.Usb.Descriptors.{
  IsDescriptor, put_string, with_header, tud_descriptor_string_cb, string_descriptor,
}
use rpi_pico_card_reader.Prelude.{◌≡◌, refl, true, false, none, some, window, arith}
use rpi_pico_card_reader.Feeder.Types.{disarmed}
use rpi_pico_card_reader.Config.{is_disarmed}
use rpi_pico_card_reader.Storage.{Storage, storage_init}
use rpi_pico_card_reader.Storage.View.{storage_init-IsStorage}
use rpi_pico_card_reader.Usb.{tud_msc_read10_cb, tud_msc_write10_cb, tud_msc_scsi_cb}
use rpi_pico_card_reader.Usb.Drive.{tud_msc_read10_cb-tud_msc_write10_cb}

abbrev off : Storage
off = record { flash = λ i. 255; cached = λ i. 0; sector = 0; dirty = true; last_write_us = 0 }

abbrev fresh : Storage
fresh = storage_init off

tud_msc_read10_cb-tud_msc_write10_cb_example :
    let (t, result) = tud_msc_write10_cb disarmed (λ i. true) (λ i. 0) 6 512 (λ i. 1) 1024 fresh in
    (is_disarmed disarmed ≡ true
      → (result ≡ some 1024)
        × (tud_msc_read10_cb t 6 512 1024 ≡ some (window (λ i. 1) 0 1024))
        × (tud_msc_read10_cb (tud_msc_scsi_cb true 0x35 t).0 6 512 1024
            ≡ some (window (λ i. 1) 0 1024)))
    × (is_disarmed disarmed ≡ false → (result ≡ none) × (t ≡ fresh))
tud_msc_read10_cb-tud_msc_write10_cb_example =
    tud_msc_read10_cb-tud_msc_write10_cb disarmed fresh (λ i. true) (λ i. 0) true 6 512 1024
      (λ i. 1) (storage_init-IsStorage off)
      (record { offset_blocks = refl; size_blocks = refl; inside = omega arith }) (λ i. refl)

-- The name of the console.
string_descriptor_example :
    (4 < 6)
    × IsDescriptor 3
        (chars "GE-120 console")
        (λ i. 0)
        (with_header 3 14 (put_string (chars "GE-120 console") (λ i. 0)))
unfolding tud_descriptor_string_cb
string_descriptor_example = string_descriptor 3 (chars "E660") 4 (λ i. 0)
