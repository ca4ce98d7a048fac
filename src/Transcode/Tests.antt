-- ===== src/Transcode/Tests.antt =====
-- Runs of the decoders, those of test/host/test_deck.c among them.
use rpi_pico_card_reader.Prelude.{◌^◌, ◌+◌, ◌≡◌, refl}
use rpi_pico_card_reader.Transcode.{binary, hex, colbin, transcode_column}
use rpi_pico_card_reader.Transcode.Rows.{transcode_column-colbin}

host_tests :
    (transcode_column 0x0202 colbin ≡ 0x41)
    × (transcode_column 0x0202 binary ≡ 0x02)
    × (transcode_column (2 ^ 2 + 2 ^ 8) hex ≡ 0x0a)
    × (transcode_column (2 ^ 9) hex ≡ 0x09)
    × (transcode_column 1 colbin ≡ 0x80)
unfolding transcode_column
host_tests = (refl, refl, refl, refl, refl)

-- Rows 1, 4, 5, 9 and 11 are punched.
transcode_column-colbin_example : transcode_column 0x0a32 colbin ≡ 64 + 1
transcode_column-colbin_example = transcode_column-colbin 0x0a32
