-- ===== src/Transcode.antt =====
-- src/transcode.c: the decoders from a card column (a 13-bit mask of punched rows) to a byte, and
-- the two column encoders of src/bin2deck.c.
pub mod Rows
pub mod Inverse
mod Tests
use rpi_pico_card_reader.Prelude.{
  ℕ, ◌+◌, ◌-◌, ◌%◌, ◌^◌, List, [], ◌∷◌, if◌then◌else◌, ltb, ◌==◌, has_bit, set_bit, u8, u16,
}

-- enum tc_mode
pub data TcMode : Type 0 where
  normal binary hex colbin : TcMode

-- The GE blank, which TC_NORMAL gives for every column.
abbrev pub ge_blank : ℕ
ge_blank = 0x20

-- B2R: bit i of a by-pass byte is card row b2r[i].
abbrev pub b2r : List ℕ
b2r = 9 ∷ 8 ∷ 7 ∷ 6 ∷ 3 ∷ 2 ∷ 1 ∷ 0 ∷ []

-- The digit rows of the loop of TC_HEX.
abbrev pub digit_rows : List ℕ
digit_rows = 0 ∷ 1 ∷ 2 ∷ 3 ∷ 4 ∷ 5 ∷ 6 ∷ 7 ∷ 8 ∷ 9 ∷ []

-- The loop of TC_HEX over the rows that are left; `n` is the sum so far.
unfoldable pub sum_rows : ℕ → ℕ → List ℕ → ℕ
sum_rows column n [] = n
sum_rows column n (b ∷ bs) = sum_rows column (if has_bit column b then n + b else n) bs

-- The loop of TC_COLBIN over the rows that are left, from bit i on; `out` is the byte so far.
unfoldable pub pack_rows : ℕ → ℕ → ℕ → List ℕ → ℕ
pack_rows column i out [] = out
pack_rows column i out (r ∷ rs) =
    pack_rows column (i + 1) (if has_bit column r then set_bit out i else out) rs

unfoldable pub transcode_column : ℕ → TcMode → ℕ
unfolding sum_rows pack_rows
transcode_column column normal = ge_blank
transcode_column column binary = u8 column
transcode_column column hex = sum_rows column 0 digit_rows % 16
transcode_column column colbin = pack_rows column 0 0 b2r

-- The loop of byte_to_col over the rows that are left, from bit i on.
unfoldable pub spread_rows : ℕ → ℕ → ℕ → List ℕ → ℕ
spread_rows byte i col [] = col
spread_rows byte i col (r ∷ rs) =
    spread_rows byte (i + 1) (if has_bit byte i then set_bit col r else col) rs

unfoldable pub byte_to_col : ℕ → ℕ
unfolding spread_rows
byte_to_col byte = spread_rows byte 0 0 b2r

unfoldable pub nibble_to_hex_col : ℕ → ℕ
nibble_to_hex_col n =
    if n == 0 then 0 else if ltb n 10 then u16 (2 ^ n) else u16 (set_bit (2 ^ 9) (n - 9))
