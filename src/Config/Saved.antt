-- ===== src/Config/Saved.antt =====
-- What a save puts into the flash, and what the next start, or anything else, finds there.
use rpi_pico_card_reader.Prelude.{
  ℕ, ◌+◌, ◌-◌, ◌≤◌, ◌<◌, ◌≡◌, ◌≢◌, ◌↔◌, ◌⊎◌, inl, refl, sym, ap, ap₂, ◌∙◌, List, Bool, true, ◌&&◌,
  if◌then◌else◌, if_intro, ◌==◌, get_or, take, length, length-append, take-length-append, Array,
  window, window_ext, window-get_or, arith,
}
use rpi_pico_card_reader.Storage.{Storage, storage_flush, storage_write_blocks}
use rpi_pico_card_reader.Storage.View.{IsStorage}
use rpi_pico_card_reader.Storage.Region.{flash-storage_write_blocks}
use rpi_pico_card_reader.Feeder.Types.{FeederState, disarmed}
use rpi_pico_card_reader.Config.{
  Cfg, cfg_flash_offset, cfg_magic, cfg_size, crc_offset, crc32, le32, cfg_bytes, cfg_image, cfg_of,
  cfg_defaults, cfg_load, do_save, SaveResult, saved, is_disarmed, cfg_save,
}
use rpi_pico_card_reader.Config.Layout.{IsCfg, length-cfg_bytes, cfg_of-cfg_image}

-- g_cfg with the CRC of its fields.
abbrev pub sealed : Cfg → Cfg
sealed c = record c { crc = crc32 (cfg_bytes c) }

crc32-lt : (bytes : List ℕ) → crc32 bytes < 4294967296
unfolding crc32
crc32-lt bytes = omega arith

pub sealed-IsCfg : (c : Cfg) → IsCfg c → IsCfg (sealed c)
sealed-IsCfg c h = record {
  magic = h.magic;
  w_ticks = h.w_ticks;
  g_ticks = h.g_ticks;
  s_ticks = h.s_ticks;
  d_us = h.d_us;
  finin_to_us = h.finin_to_us;
  last_deck = h.last_deck;
  padding = h.padding;
  crc = crc32-lt (cfg_bytes c);
}

length-cfg_image : (c : Cfg) → length c.last_deck ≡ 48 → length (cfg_image c) ≡ cfg_size
length-cfg_image c n =
    length-append (cfg_bytes c) (le32 c.crc) ∙ ap (λ k. k + 4) (length-cfg_bytes c n)

-- The bytes that a start reads, after a save.
image_read :
    (c : Cfg) (flash : Array ℕ)
    → length c.last_deck ≡ 48
    → window (λ i. do_save (cfg_image c) flash (cfg_flash_offset + i)) 0 cfg_size ≡ cfg_image c
image_read c flash n =
    window_ext (λ i. do_save (cfg_image c) flash (cfg_flash_offset + i))
      (λ i. get_or (cfg_image c) i 0xFF) 0 cfg_size
      (λ j p q. ground (
        arith,
        ap (λ i. get_or (cfg_image c) i 0xFF) {x = cfg_flash_offset + j - cfg_flash_offset} {y = j},
      ))
    ∙ ap (window (λ i. get_or (cfg_image c) i 0xFF) 0) (sym (length-cfg_image c n))
    ∙ window-get_or (cfg_image c) 0xFF

abbrev loaded_from : List ℕ → Cfg
loaded_from b =
    if (cfg_of b).magic == cfg_magic && (cfg_of b).crc == crc32 (take crc_offset b)
    then cfg_of b
    else cfg_defaults

-- The struct of a save passes the checks of cfg_load.
loaded_from-sealed : (c : Cfg) → IsCfg c → loaded_from (cfg_image (sealed c)) ≡ sealed c
loaded_from-sealed c h =
    let s = sealed c in
    let same = cfg_of-cfg_image s (sealed-IsCfg c h) in
    let bytes : take crc_offset (cfg_image s) ≡ cfg_bytes c =
      ap (λ n. take n (cfg_image s)) (sym (length-cfg_bytes c h.last_deck))
      ∙ take-length-append (cfg_bytes c) (le32 s.crc) in
    ap₂ (λ f t. if f.magic == cfg_magic && f.crc == crc32 t then f else cfg_defaults) same bytes
    ∙ ground (arith, h.magic)

-- A configuration that is saved in the DISARMED state is the one that the next start loads.
pub cfg_load-cfg_save :
    (c : Cfg) (flash : Array ℕ)
    → IsCfg c
    → let (c', flash', result) = cfg_save true disarmed c flash in
      (result ≡ saved) × (cfg_load flash' ≡ c')
unfolding cfg_save cfg_load
cfg_load-cfg_save c flash h =
    (refl, ap loaded_from (image_read (sealed c) flash h.last_deck) ∙ loaded_from-sealed c h)

-- A save changes no byte outside its sector. It succeeds exactly in the DISARMED state and with a
-- flash operation that succeeds, and otherwise the flash stays as it is.
pub cfg_save_lem :
    (ok : Bool) (state : FeederState) (c : Cfg) (flash : Array ℕ)
    → let (c', flash', result) = cfg_save ok state c flash in
      ((result ≡ saved) ↔ ((is_disarmed state ≡ true) × (ok ≡ true)))
      × (result ≢ saved → flash' ≡ flash)
      × ((a : ℕ) → (a < cfg_flash_offset) ⊎ (cfg_flash_offset + 4096 ≤ a) → flash' a ≡ flash a)
unfolding cfg_save
cfg_save_lem ok state c flash =
    let d = is_disarmed state in
    let Outcome : Cfg × Array ℕ × SaveResult → Type 0 = λ r.
      ((r.2 ≡ saved) ↔ ((d ≡ true) × (ok ≡ true)))
      × (r.2 ≢ saved → r.1 ≡ flash)
      × ((a : ℕ) → (a < cfg_flash_offset) ⊎ (cfg_flash_offset + 4096 ≤ a) → r.1 a ≡ flash a) in
    if_intro Outcome d
      (λ p.
        if_intro Outcome ok
          (λ q. ((λ e. (p, q), λ e. refl), (λ ne. absurd (ne refl)), (λ a out. ground arith)))
          (λ q. (
            (λ e. absurd (ground (arith, e)), λ e. absurd (ground (arith, q, e))),
            (λ ne. refl),
            (λ a out. refl),
          )))
      (λ p. (
        (λ e. absurd (ground (arith, e)), λ e. absurd (ground (arith, p, e))),
        (λ ne. refl),
        (λ a out. refl),
      ))

-- The configuration that a start loads is the same before and after any writes to blocks of the FAT
-- region, flushed or not.
pub cfg_load-storage_write_blocks :
    (s : Storage) (ok : ℕ → Bool) (now : ℕ → ℕ) (lba count : ℕ) (src : Array ℕ) (last : Bool)
    → IsStorage s
    → lba + count ≤ 6144
    → cfg_load (storage_flush last (storage_write_blocks ok now lba count src s).0).0.flash
      ≡ cfg_load s.flash
unfolding cfg_load
cfg_load-storage_write_blocks s ok now lba count src last h le =
    let flash' = (storage_flush last (storage_write_blocks ok now lba count src s).0).0.flash in
    ap loaded_from (
      window_ext (λ i. flash' (cfg_flash_offset + i)) (λ i. s.flash (cfg_flash_offset + i)) 0
        cfg_size
        (λ j p q.
          flash-storage_write_blocks s ok now lba count src last h le (cfg_flash_offset + j)
            (inl (omega (arith, q)))))
