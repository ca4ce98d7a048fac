-- ===== src/Transcode/Rows.antt =====
-- What a decoded byte says of the rows of its column (transcode_column).
use native.Mathlib.Nat.{pow-suc, div-eq_of_lt}
use rpi_pico_card_reader.Prelude.{
  ℕ, ◌+◌, ◌*◌, ◌%◌, ◌^◌, ◌<◌, ◌≡◌, List, [], ◌∷◌, arith, bit_at, set_bit,
}
use rpi_pico_card_reader.Transcode.{
  TcMode, normal, binary, hex, colbin, b2r, digit_rows, sum_rows, pack_rows, transcode_column,
}

-- The value of the rows: row k of the list counts 2 ^ (i + k).
abbrev rows_value : ℕ → ℕ → List ℕ → ℕ
rows_value column i [] = 0
rows_value column i (r ∷ rs) = 2 ^ i * bit_at column r + rows_value column (i + 1) rs

set_bit_fresh : (x i : ℕ) → x < 2 ^ i → set_bit x i ≡ x + 2 ^ i
set_bit_fresh x i h = ground (arith, div-eq_of_lt h)

pack_rows-eq-rows_value :
    (column i out : ℕ) (rows : List ℕ)
    → out < 2 ^ i
    → pack_rows column i out rows ≡ out + rows_value column i rows
unfolding pack_rows
pack_rows-eq-rows_value column i out [] h = omega arith
pack_rows-eq-rows_value column i out (r ∷ rs) h = ground (
  arith,
  pow-suc 2 i,
  set_bit_fresh out i,
  pack_rows-eq-rows_value column (i + 1) out rs,
  pack_rows-eq-rows_value column (i + 1) (out + 2 ^ i) rs,
)

pub digit_sum : ℕ → List ℕ → ℕ
digit_sum column [] = 0
digit_sum column (b ∷ bs) = b * bit_at column b + digit_sum column bs

sum_rows-eq-digit_sum :
    (column n : ℕ) (rows : List ℕ) → sum_rows column n rows ≡ n + digit_sum column rows
unfolding sum_rows digit_sum
sum_rows-eq-digit_sum column n [] = omega arith
sum_rows-eq-digit_sum column n (b ∷ bs) =
    ground (arith, sum_rows-eq-digit_sum column n bs, sum_rows-eq-digit_sum column (n + b) bs)

colbin_value : (column : ℕ) → transcode_column column colbin ≡ rows_value column 0 b2r
unfolding transcode_column
colbin_value column = omega (arith, pack_rows-eq-rows_value column 0 0 b2r (omega arith))

-- By-pass mode: the byte is made of rows 0, 1, 2, 3, 6, 7, 8 and 9 of the column, from the highest bit
-- to the lowest one, whatever the other rows hold.
pub transcode_column-colbin :
    (column : ℕ)
    → transcode_column column colbin
      ≡ bit_at column 0 * 128
        + bit_at column 1 * 64
        + bit_at column 2 * 32
        + bit_at column 3 * 16
        + bit_at column 6 * 8
        + bit_at column 7 * 4
        + bit_at column 8 * 2
        + bit_at column 9
transcode_column-colbin column = omega (arith, colbin_value column)

-- Hexadecimal mode: the value is the sum, modulo 16, of the indices of the punched rows 0 to 9.
pub transcode_column-hex :
    (column : ℕ) → transcode_column column hex ≡ digit_sum column digit_rows % 16
unfolding transcode_column
transcode_column-hex column = omega (arith, sum_rows-eq-digit_sum column 0 digit_rows)

-- Every mode gives a byte.
pub transcode_column-lt : (column : ℕ) (mode : TcMode) → transcode_column column mode < 256
unfolding transcode_column
transcode_column-lt column normal = omega arith
transcode_column-lt column binary = omega arith
transcode_column-lt column hex = omega arith
transcode_column-lt column colbin = omega (arith, colbin_value column)
