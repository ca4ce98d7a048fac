-- ===== src/Bin2deck/Tests.antt =====
-- Runs of the synthesizer, and uses of its theorems.
use rpi_pico_card_reader.Prelude.{ℕ, ◌≡◌, refl, List, [], ◌∷◌, ◌++◌, none, some, replicate, arith}
use rpi_pico_card_reader.Deck.{DeckImg, zero_img}
use rpi_pico_card_reader.Deck.View.{cards}
use rpi_pico_card_reader.Bin2deck.{Bin2deck, bin2deck_feed, bin2deck_ipl}
use rpi_pico_card_reader.Bin2deck.Scatter.{feed_bytes, bin2deck_feed_lem}
use rpi_pico_card_reader.Bin2deck.Ipl.{packed, none_left, byte, bin2deck_ipl_lem}

ipl_empty : bin2deck_ipl [] [] ≡ none
unfolding bin2deck_ipl
ipl_empty = refl

-- A buffer that one byte fills.
abbrev nearly_full : Bin2deck
nearly_full = record { img = zero_img; addr = 0x0100; buf = replicate 65 0x07 }

bin2deck_feed_lem_example :
    bin2deck_feed nearly_full (1 ∷ 2 ∷ 3 ∷ []) ≡ feed_bytes nearly_full (1 ∷ 2 ∷ 3 ∷ [])
bin2deck_feed_lem_example = bin2deck_feed_lem nearly_full (1 ∷ 2 ∷ 3 ∷ []) (omega arith)

bin2deck_ipl_lem_example :
    (img : DeckImg) × (cols : List ℕ) × (bin2deck_ipl [] (0x43 ∷ 0xf0 ∷ []) ≡ some img)
    × (cards img ≡ cols ∷ [])
    × (packed cols ≡ (0x43 ∷ 0xf0 ∷ []) ++ replicate 38 0)
bin2deck_ipl_lem_example =
    bin2deck_ipl_lem [] (0x43 ∷ 0xf0 ∷ []) (byte (omega arith) (byte (omega arith) none_left))
      (omega arith) (omega arith)
