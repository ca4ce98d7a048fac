-- ===== src/Cap/Tests.antt =====
-- Runs on a small capture.
use Prim.Native.Char.{code}
use Prim.Native.String.{String}
use rpi_pico_card_reader.Prelude.{ℕ, ◌≡◌, refl, List, [], ◌∷◌, none, some}
use rpi_pico_card_reader.Deck.{DeckImg, zero_img}
use rpi_pico_card_reader.Deck.View.{cards}
use rpi_pico_card_reader.Deck.Append.{add_card}
use rpi_pico_card_reader.Deck.Layout.{IsDeck}
use rpi_pico_card_reader.Cap.Spec.{parse}
use rpi_pico_card_reader.Cap.Stream.{concat, parse_chunks}
use rpi_pico_card_reader.Cap.Finish.{result}
use rpi_pico_card_reader.Cap.Refine.{parse_refines}
use rpi_pico_card_reader.Cap.Image.{parse-IsDeck}
use rpi_pico_card_reader.Cap.{
  ok, is_hex4, parse_card_header, process_line, open_card, collect, scan_tokens, feed_char,
  cap_parse_init, cap_parse_chunk, drop_empty, cap_parse_finish,
}

abbrev codes : String → List ℕ
codes String.[] = []
codes (String.◌∷◌ c s) = code c ∷ codes s

tokens :
    (is_hex4 (codes "1ffF") ≡ some 0x1fff)
    × (is_hex4 (codes "FFFF") ≡ some 0x1fff)
    × (is_hex4 (codes "12G4") ≡ none)
    × (is_hex4 (codes "123") ≡ none)
unfolding is_hex4
tokens = (refl, refl, refl, refl)

-- An empty card between two others.
abbrev gap : DeckImg
gap = add_card (add_card (add_card zero_img (1 ∷ [])) []) (2 ∷ [])

-- A banner, an empty card (a visual duplicate), and a card whose line has a stray token.
abbrev capture : List ℕ
capture = codes "banner 1234\nCard n. 1\n\nCard n. 12 \n0100 xyz 0200\n 0001\nTotal cards: 2"

capture_parsed :
    let (img, rc) = cap_parse_finish (cap_parse_chunk cap_parse_init capture) in
    (cards img ≡ (0x0100 ∷ 0x0200 ∷ 0x0001 ∷ []) ∷ []) × (rc ≡ ok)
unfolding is_hex4 parse_card_header process_line open_card collect scan_tokens feed_char
    cap_parse_init cap_parse_chunk drop_empty cap_parse_finish
capture_parsed = (refl, refl)

parse_refines_example :
    result (cap_parse_finish (parse_chunks cap_parse_init (capture ∷ [])))
    ≡ parse (concat (capture ∷ []))
parse_refines_example = parse_refines (capture ∷ [])

parse-IsDeck_example : IsDeck (cap_parse_finish (parse_chunks cap_parse_init (capture ∷ []))).0
parse-IsDeck_example = parse-IsDeck (capture ∷ [])
