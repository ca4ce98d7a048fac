-- ===== src/Config.antt =====
-- src/config.c: the settings in the last flash sector before the FAT region, with their CRC.
pub mod Layout
pub mod Saved
mod Tests
use rpi_pico_card_reader.Prelude.{
  ℕ, zero, suc, ◌+◌, ◌-◌, ◌*◌, ◌/◌, ◌%◌, List, [], ◌∷◌, ◌++◌, Bool, true, false, ◌&&◌,
  if◌then◌else◌, ltb, leb, ◌==◌, get_or, take, drop, replicate, length, u8, Array, window,
}
use rpi_pico_card_reader.Feeder.Types.{FeederState, disarmed}

abbrev pub cfg_flash_offset : ℕ
cfg_flash_offset = 0x0F0000

abbrev pub cfg_magic : ℕ
cfg_magic = 0x47453132

-- sizeof(struct cfg), and offsetof(struct cfg, crc)
abbrev pub cfg_size : ℕ
cfg_size = 72

abbrev pub crc_offset : ℕ
crc_offset = 68

-- struct cfg; `last_deck` is the whole array, `padding` the three bytes before the CRC.
pub record Cfg : Type 0 where
  pub magic : ℕ
  pub w_ticks : ℕ
  pub g_ticks : ℕ
  pub s_ticks : ℕ
  pub d_us : ℕ
  pub finin_to_us : ℕ
  pub post_loader_colbin : ℕ
  pub auto_rewind : ℕ
  pub auto_rewind_s : ℕ
  pub last_deck : List ℕ
  pub padding : ℕ
  pub crc : ℕ

-- The low w bits of a ^ b.
unfoldable pub xor : ℕ → ℕ → ℕ → ℕ
xor zero a b = 0
xor (suc w) a b = let rest = xor w (a / 2) (b / 2) in (a + b) % 2 + 2 * rest

-- The loop over the bits of a byte, with n bits left.
unfoldable pub crc_bits : ℕ → ℕ → ℕ
unfolding xor
crc_bits zero crc = crc
crc_bits (suc n) crc = crc_bits n (if crc % 2 == 1 then xor 32 (crc / 2) 0xEDB88320 else crc / 2)

-- The loop over the bytes.
unfoldable pub crc_bytes : ℕ → List ℕ → ℕ
unfolding crc_bits
crc_bytes crc [] = crc
crc_bytes crc (b ∷ bs) = crc_bytes (crc_bits 8 (xor 32 crc b)) bs

unfoldable pub crc32 : List ℕ → ℕ
unfolding crc_bytes
crc32 bytes = 0xFFFFFFFF - crc_bytes 0xFFFFFFFF bytes

-- The bytes of a field, and a field of bytes: the CPU is little-endian.
abbrev pub le16 : ℕ → List ℕ
le16 x = u8 x ∷ u8 (x / 256) ∷ []

abbrev pub le24 : ℕ → List ℕ
le24 x = u8 x ∷ u8 (x / 256) ∷ u8 (x / 65536) ∷ []

abbrev pub le32 : ℕ → List ℕ
le32 x = u8 x ∷ u8 (x / 256) ∷ u8 (x / 65536) ∷ u8 (x / 16777216) ∷ []

abbrev pub u16_at : List ℕ → ℕ → ℕ
u16_at b i = get_or b i 0 + 256 * get_or b (i + 1) 0

abbrev pub u24_at : List ℕ → ℕ → ℕ
u24_at b i = u16_at b i + 65536 * get_or b (i + 2) 0

abbrev pub u32_at : List ℕ → ℕ → ℕ
u32_at b i = u24_at b i + 16777216 * get_or b (i + 3) 0

-- The bytes of a struct before its CRC, and all of them.
abbrev pub cfg_bytes : Cfg → List ℕ
cfg_bytes c =
    le32 c.magic
    ++ le16 c.w_ticks
    ++ le16 c.g_ticks
    ++ le16 c.s_ticks
    ++ le16 c.d_us
    ++ le16 c.finin_to_us
    ++ c.post_loader_colbin ∷ c.auto_rewind ∷ c.auto_rewind_s ∷ c.last_deck
    ++ le24 c.padding

abbrev pub cfg_image : Cfg → List ℕ
cfg_image c = cfg_bytes c ++ le32 c.crc

-- The struct of its bytes.
abbrev pub cfg_of : List ℕ → Cfg
cfg_of b = record {
  magic = u32_at b 0;
  w_ticks = u16_at b 4;
  g_ticks = u16_at b 6;
  s_ticks = u16_at b 8;
  d_us = u16_at b 10;
  finin_to_us = u16_at b 12;
  post_loader_colbin = get_or b 14 0;
  auto_rewind = get_or b 15 0;
  auto_rewind_s = get_or b 16 0;
  last_deck = take 48 (drop 17 b);
  padding = u24_at (drop 65 b) 0;
  crc = u32_at (drop 65 b) 3;
}

abbrev pub cfg_defaults : Cfg
cfg_defaults = record {
  magic = cfg_magic;
  w_ticks = 35;
  g_ticks = 115;
  s_ticks = 5;
  d_us = 50000;
  finin_to_us = 1000;
  post_loader_colbin = 1;
  auto_rewind = 1;
  auto_rewind_s = 5;
  last_deck = replicate 48 0;
  padding = 0;
  crc = 0;
}

-- g_cfg after cfg_load.
unfoldable pub cfg_load : Array ℕ → Cfg
cfg_load flash =
    let b = window (λ i. flash (cfg_flash_offset + i)) 0 cfg_size in
    if (cfg_of b).magic == cfg_magic && (cfg_of b).crc == crc32 (take crc_offset b)
    then cfg_of b
    else cfg_defaults

-- do_save: the sector is erased, and its first page programmed.
abbrev pub do_save : List ℕ → Array ℕ → Array ℕ
do_save bytes flash a =
    if leb cfg_flash_offset a && ltb a (cfg_flash_offset + 4096)
    then get_or bytes (a - cfg_flash_offset) 0xFF
    else flash a

-- The results 0, -1 and -2.
pub data SaveResult : Type 0 where
  saved not_disarmed not_written : SaveResult

abbrev pub is_disarmed : FeederState → Bool
is_disarmed disarmed = true
is_disarmed _ = false

-- `ok` says whether flash_safe_execute runs do_save.
unfoldable pub cfg_save : Bool → FeederState → Cfg → Array ℕ → Cfg × Array ℕ × SaveResult
cfg_save ok state g_cfg flash =
    let c = record g_cfg { crc = crc32 (cfg_bytes g_cfg) } in
    if is_disarmed state
    then (if ok then (c, do_save (cfg_image c) flash, saved) else (c, flash, not_written))
    else (g_cfg, flash, not_disarmed)
