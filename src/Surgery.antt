-- ===== src/Surgery.antt =====
-- src/surgery.c: the recipes that rebuild the deck an operator would place in the hopper. A result
-- is `none` where the source returns -1; the partial image that such a return leaves behind is not
-- used by the callers, and is not modelled.
pub mod Range
pub mod Recipes
mod Tests
use rpi_pico_card_reader.Prelude.{
  ℕ, zero, suc, ◌+◌, ◌-◌, Option, none, some, if◌then◌else◌, with_option, ltb, leb, u16, u32,
}
use rpi_pico_card_reader.Deck.{
  DeckImg, deck_max_cards, deck_max_cols, next_off, deck_find_loader_card,
}
use rpi_pico_card_reader.Deck.View.{columns}
use rpi_pico_card_reader.Deck.Append.{add_card}

-- enum surgery_op
pub data SurgeryOp : Type 0 where
  as_is trim_title_summary serial_loader : SurgeryOp

unfoldable pub append_card : DeckImg → DeckImg → ℕ → Option DeckImg
append_card dst src card =
    if leb src.n_cards card
    then none
    else if leb deck_max_cards dst.n_cards
    then none
    else if ltb deck_max_cols (u32 (next_off dst + (src.idx card).ncols))
    then none
    else some (add_card dst (columns src.cols (src.idx card)))

-- The cards first, first + 1, ... of src, `n` of them: the loop of append_range, from `first` to a
-- last index that is first + n - 1.
unfoldable pub append_range : DeckImg → DeckImg → ℕ → ℕ → Option DeckImg
unfolding append_card
append_range dst src first zero = some dst
append_range dst src first (suc n) =
    with_option (append_card dst src (u16 first)) none (λ img. append_range img src (first + 1) n)

-- Gives the new dst and src: the search for the loader card records it in src.
unfoldable pub surgery_apply : DeckImg → DeckImg → SurgeryOp → Option (DeckImg × DeckImg)
unfolding append_card append_range
surgery_apply dst src as_is =
    with_option (append_range dst src 0 src.n_cards) none (λ img. some (img, src))
surgery_apply dst src trim_title_summary =
    if leb 3 src.n_cards
    then with_option (append_range dst src 1 (src.n_cards - 2)) none (λ img. some (img, src))
    else none
surgery_apply dst src serial_loader =
    if ltb src.n_cards 7
    then none
    else let (src', card) = deck_find_loader_card src in
      with_option (append_card dst src' (u16 card)) none (λ img.
        with_option (append_range img src' 5 (src.n_cards - 6)) none (λ out. some (out, src')))
