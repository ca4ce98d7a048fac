-- ===== src/Wire.antt =====
-- The words that cross the wire engine and the inter-core queue: presenter_word of
-- pio/presenter.pio, the command byte that src/wire_rx.c assembles, and the op words of
-- include/ipc.h. The fields of a word do not overlap, so `|` is a sum.
pub mod Fields
use rpi_pico_card_reader.Prelude.{
  ℕ, ◌+◌, ◌*◌, ◌/◌, ◌%◌, ◌^◌, Bool, if◌then◌else◌, u8, u16, u32, bit_at,
}

-- One presentation: the nibble in bits 0 to 3, FININ in bit 8, W in bits 9 to 16, G from bit 17.
unfoldable pub presenter_word : ℕ → Bool → ℕ → ℕ → ℕ
presenter_word nibble fini w_ticks g_ticks =
    nibble % 16 + (if fini then 1 else 0) * 2 ^ 8 + w_ticks % 256 * 2 ^ 9 + g_ticks % 32768 * 2 ^ 17

-- The byte of a captured 13-pin window: RE00 is pin 12, RE01 to RE07 are pins 0 to 6.
-- (w << 1) & 0xFE has bit 0 clear.
unfoldable pub re_byte : ℕ → ℕ
re_byte w = u8 (bit_at w 12 + w * 2 % 256)

unfoldable pub ipc_word : ℕ → ℕ → ℕ → ℕ
ipc_word op arg val = op + arg * 2 ^ 8 + val * 2 ^ 16

unfoldable pub ipc_op : ℕ → ℕ
ipc_op w = u8 w

unfoldable pub ipc_arg : ℕ → ℕ
ipc_arg w = u8 (w / 2 ^ 8)

unfoldable pub ipc_val : ℕ → ℕ
ipc_val w = u16 (w / 2 ^ 16)
