-- ===== src/Config/Tests.antt =====
-- The default settings, saved.
use rpi_pico_card_reader.Prelude.{
  ℕ, ◌+◌, ◌≤◌, ◌<◌, ◌≡◌, ◌≢◌, ◌↔◌, ◌⊎◌, refl, [], ◌∷◌, true, Array, arith,
}
use rpi_pico_card_reader.Storage.{Storage, storage_init}
use rpi_pico_card_reader.Feeder.Types.{disarmed}
use rpi_pico_card_reader.Config.{
  cfg_defaults, cfg_flash_offset, cfg_load, saved, is_disarmed, cfg_save, crc32,
}
use rpi_pico_card_reader.Config.Layout.{IsCfg}
use rpi_pico_card_reader.Config.Saved.{cfg_load-cfg_save, cfg_save_lem}

-- The check value of CRC-32.
crc32_check : crc32 (b'1' ∷ b'2' ∷ b'3' ∷ b'4' ∷ b'5' ∷ b'6' ∷ b'7' ∷ b'8' ∷ b'9' ∷ []) ≡ 0xCBF43926
unfolding crc32
crc32_check = refl

abbrev flash : Array ℕ
flash i = 255

defaults-IsCfg : IsCfg cfg_defaults
defaults-IsCfg = record {
  magic = refl;
  w_ticks = omega arith;
  g_ticks = omega arith;
  s_ticks = omega arith;
  d_us = omega arith;
  finin_to_us = omega arith;
  last_deck = refl;
  padding = omega arith;
  crc = omega arith;
}

cfg_load-cfg_save_example :
    let (c', flash', result) = cfg_save true disarmed cfg_defaults flash in
    (result ≡ saved) × (cfg_load flash' ≡ c')
cfg_load-cfg_save_example = cfg_load-cfg_save cfg_defaults flash defaults-IsCfg

cfg_save_lem_example :
    let (c', flash', result) = cfg_save true disarmed cfg_defaults flash in
    ((result ≡ saved) ↔ ((is_disarmed disarmed ≡ true) × (true ≡ true)))
    × (result ≢ saved → flash' ≡ flash)
    × ((a : ℕ) → (a < cfg_flash_offset) ⊎ (cfg_flash_offset + 4096 ≤ a) → flash' a ≡ flash a)
cfg_save_lem_example = cfg_save_lem true disarmed cfg_defaults flash

abbrev fresh : Storage
fresh =
    storage_init
      (record { flash = flash; cached = flash; sector = 0; dirty = true; last_write_us = 0 })
