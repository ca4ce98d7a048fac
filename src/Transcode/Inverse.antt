-- ===== src/Transcode/Inverse.antt =====
-- The encoders of src/bin2deck.c against transcode_column of src/transcode.c.
use rpi_pico_card_reader.Prelude.{ℕ, ◌<◌, ◌≡◌, refl, true, ◌==◌, ==_iff, passes, passes_below}
use rpi_pico_card_reader.Transcode.{hex, colbin, transcode_column, byte_to_col, nibble_to_hex_col}

byte_table : passes (λ b. transcode_column (byte_to_col b) colbin == b) 256 ≡ true
unfolding passes transcode_column byte_to_col
byte_table = refl

nibble_table : passes (λ n. transcode_column (nibble_to_hex_col n) hex == n) 16 ≡ true
unfolding passes transcode_column nibble_to_hex_col
nibble_table = refl

-- Every byte survives the way through a by-pass column.
pub transcode_column-byte_to_col :
    (byte : ℕ) → byte < 256 → transcode_column (byte_to_col byte) colbin ≡ byte
transcode_column-byte_to_col byte h = (==_iff _ byte).0 (passes_below _ 256 byte_table byte h)

-- Every nibble survives the way through a hexadecimal column.
pub transcode_column-nibble_to_hex_col :
    (n : ℕ) → n < 16 → transcode_column (nibble_to_hex_col n) hex ≡ n
transcode_column-nibble_to_hex_col n h = (==_iff _ n).0 (passes_below _ 16 nibble_table n h)
