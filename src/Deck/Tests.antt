-- ===== src/Deck/Tests.antt =====
-- Runs on a small image: a title card and a loader card of three columns each.
use rpi_pico_card_reader.Prelude.{ℕ, ◌<◌, ◌≡◌, ◌⊎◌, refl, [], ◌∷◌, some, false, arith}
use rpi_pico_card_reader.Deck.{DeckImg, zero_img, is_marked, deck_find_loader_card}
use rpi_pico_card_reader.Deck.View.{cards}
use rpi_pico_card_reader.Deck.Loader.{IsFirstMarked, deck_find_loader_card_lem}
use rpi_pico_card_reader.Deck.Append.{add_card}

abbrev two_cards : DeckImg
two_cards = add_card (add_card zero_img (7 ∷ 8 ∷ 9 ∷ [])) (1 ∷ 2 ∷ 0x0100 ∷ [])

two_cards_view : cards two_cards ≡ (7 ∷ 8 ∷ 9 ∷ []) ∷ (1 ∷ 2 ∷ 0x0100 ∷ []) ∷ []
two_cards_view = refl

loader_second : (deck_find_loader_card two_cards).1 ≡ 1
unfolding deck_find_loader_card is_marked
loader_second = refl

deck_find_loader_card_lem_example :
    let (img', found) = deck_find_loader_card two_cards in
    (img'.loader_card ≡ some found)
    × (found < 2)
    × (((found < 5) × IsFirstMarked two_cards 0 found)
        ⊎ ((found ≡ 1) × ((j : ℕ) → j < 5 → j < 2 → is_marked two_cards j ≡ false)))
deck_find_loader_card_lem_example = deck_find_loader_card_lem two_cards (omega arith)
