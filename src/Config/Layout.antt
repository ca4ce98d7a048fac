-- ===== src/Config/Layout.antt =====
-- The layout of the struct: the bytes of a configuration, read back.
use rpi_pico_card_reader.Prelude.{
  ℕ, ◌+◌, ◌*◌, ◌/◌, ◌<◌, ◌≡◌, sym, ap, ◌∙◌, List, ◌++◌, take, drop, length, length-append,
  take-length-append, drop-length-append, append_assoc, u8, arith,
}
use rpi_pico_card_reader.Config.{
  Cfg, cfg_magic, crc_offset, le24, le32, u24_at, u32_at, cfg_bytes, cfg_image, cfg_of,
}

-- Every field in the range of its type.
pub record IsCfg (c : Cfg) : Type 0 where
  pub magic : c.magic ≡ cfg_magic
  pub w_ticks : c.w_ticks < 65536
  pub g_ticks : c.g_ticks < 65536
  pub s_ticks : c.s_ticks < 65536
  pub d_us : c.d_us < 65536
  pub finin_to_us : c.finin_to_us < 65536
  pub last_deck : length c.last_deck ≡ 48
  pub padding : c.padding < 16777216
  pub crc : c.crc < 4294967296

tail_lem :
    (d : List ℕ) (p k : ℕ)
    → length d ≡ 48
    → (take 48 ((d ++ le24 p) ++ le32 k) ≡ d)
      × (drop 48 ((d ++ le24 p) ++ le32 k) ≡ le24 p ++ le32 k)
tail_lem d p k n =
    let rest = le24 p ++ le32 k in
    let flat = append_assoc d (le24 p) (le32 k) in
    (
      ap (take 48) flat ∙ ap (λ m. take m (d ++ rest)) (sym n) ∙ take-length-append d rest,
      ap (drop 48) flat ∙ ap (λ m. drop m (d ++ rest)) (sym n) ∙ drop-length-append d rest,
    )

u16_lem : (x : ℕ) → x < 65536 → u8 x + 256 * u8 (x / 256) ≡ x
u16_lem x lt = omega (arith, lt)

u24_lem : (x : ℕ) → x < 16777216 → u8 x + 256 * u8 (x / 256) + 65536 * u8 (x / 65536) ≡ x
u24_lem x lt = omega (arith, lt)

u32_lem :
    (x : ℕ)
    → x < 4294967296
    → u8 x + 256 * u8 (x / 256) + 65536 * u8 (x / 65536) + 16777216 * u8 (x / 16777216) ≡ x
u32_lem x lt = omega (arith, lt)

pub length-cfg_bytes : (c : Cfg) → length c.last_deck ≡ 48 → length (cfg_bytes c) ≡ crc_offset
length-cfg_bytes c n = omega (arith, length-append c.last_deck (le24 c.padding))

pub cfg_of-cfg_image : (c : Cfg) → IsCfg c → cfg_of (cfg_image c) ≡ c
cfg_of-cfg_image c h =
    let (deck, rest) = tail_lem c.last_deck c.padding c.crc h.last_deck in
    λ i. record {
      magic = u32_lem c.magic (omega (arith, h.magic)) i;
      w_ticks = u16_lem c.w_ticks h.w_ticks i;
      g_ticks = u16_lem c.g_ticks h.g_ticks i;
      s_ticks = u16_lem c.s_ticks h.s_ticks i;
      d_us = u16_lem c.d_us h.d_us i;
      finin_to_us = u16_lem c.finin_to_us h.finin_to_us i;
      post_loader_colbin = c.post_loader_colbin;
      auto_rewind = c.auto_rewind;
      auto_rewind_s = c.auto_rewind_s;
      last_deck = deck i;
      padding = (ap (λ b. u24_at b 0) rest ∙ u24_lem c.padding h.padding) i;
      crc = (ap (λ b. u32_at b 3) rest ∙ u32_lem c.crc h.crc) i;
    }
