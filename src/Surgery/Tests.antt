-- ===== src/Surgery/Tests.antt =====
-- Uses of the theorems on the recipes.
use rpi_pico_card_reader.Prelude.{
  ℕ, zero, suc, ◌*◌, ◌≤◌, ◌≡◌, refl, ◌∙◌, [], ◌∷◌, ◌++◌, take, drop, some, arith,
}
use rpi_pico_card_reader.Deck.{DeckImg, zero_img, next_off, deck_find_loader_card, is_marked}
use rpi_pico_card_reader.Deck.View.{columns, cards}
use rpi_pico_card_reader.Deck.Append.{add_card, add_card-IsDeck, next_off-add_card}
use rpi_pico_card_reader.Deck.Layout.{IsDeck, zero_img-IsDeck}
use rpi_pico_card_reader.Surgery.{trim_title_summary, serial_loader, surgery_apply}
use rpi_pico_card_reader.Surgery.Recipes.{surgery_apply-trim, surgery_apply-serial}

-- n cards of three columns, all of them with the mark of a loader card.
abbrev pile : ℕ → DeckImg
pile zero = zero_img
pile (suc n) = add_card (pile n) (1 ∷ 2 ∷ 0x0100 ∷ [])

pile-IsDeck :
    (n : ℕ) → n ≤ 100 → IsDeck (pile n) × ((pile n).n_cards ≡ n) × (next_off (pile n) ≡ n * 3)
pile-IsDeck zero h = (zero_img-IsDeck, refl, refl)
pile-IsDeck (suc n) h =
    let (d, count, off) = pile-IsDeck n (omega arith) in
    (
      add_card-IsDeck (pile n) d (omega arith) (1 ∷ 2 ∷ 0x0100 ∷ []) (omega arith),
      omega arith,
      next_off-add_card (pile n) d (omega arith) (1 ∷ 2 ∷ 0x0100 ∷ []) (omega arith) ∙ omega arith,
    )

surgery_apply-trim_example :
    (img : DeckImg) × (surgery_apply zero_img (pile 7) trim_title_summary ≡ some (img, pile 7))
    × (cards img ≡ cards zero_img ++ take 5 (drop 1 (cards (pile 7))))
    × IsDeck img
surgery_apply-trim_example =
    surgery_apply-trim zero_img (pile 7) zero_img-IsDeck (pile-IsDeck 7 (omega arith)).0
      (omega arith) (omega arith) (omega arith)

surgery_apply-serial_example :
    (img : DeckImg) × (surgery_apply zero_img (pile 7) serial_loader
      ≡ some (img, (deck_find_loader_card (pile 7)).0))
    × (cards img
        ≡ (cards zero_img
            ++ columns (pile 7).cols ((pile 7).idx (deck_find_loader_card (pile 7)).1) ∷ [])
          ++ take 1 (drop 5 (cards (pile 7))))
    × IsDeck img
unfolding deck_find_loader_card is_marked
surgery_apply-serial_example =
    surgery_apply-serial zero_img (pile 7) zero_img-IsDeck (pile-IsDeck 7 (omega arith)).0
      (omega arith) (omega arith) (omega arith)
