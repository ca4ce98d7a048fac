-- ===== src/Deck/Layout.antt =====
-- The layout of a well-formed image: at most DECK_MAX_CARDS cards, whose columns lie one card
-- after the other inside `cols`.
use rpi_pico_card_reader.Prelude.{ℕ, ◌-◌, ◌≤◌, ◌<◌, arith}
use rpi_pico_card_reader.Deck.{DeckImg, deck_max_cards, deck_max_cols, card_end, next_off, zero_img}

pub record IsDeck (img : DeckImg) : Type 0 where
  pub few : img.n_cards ≤ deck_max_cards
  pub inside : (k : ℕ) → k < img.n_cards → card_end img k ≤ deck_max_cols
  pub ordered : (k j : ℕ) → k < j → j < img.n_cards → card_end img k ≤ (img.idx j).off

pub zero_img-IsDeck : IsDeck zero_img
zero_img-IsDeck = record {
  few = omega arith;
  inside = λ k h. omega arith;
  ordered = λ k j h i. omega arith;
}

pub next_off-le : {img : DeckImg} → IsDeck img → next_off img ≤ deck_max_cols
next_off-le {img} d = ground (arith, d.inside (img.n_cards - 1))

-- Every card of the image ends before the next card's columns start.
pub card_end-le-next_off :
    {img : DeckImg} → IsDeck img → (k : ℕ) → k < img.n_cards → card_end img k ≤ next_off img
card_end-le-next_off {img} d k h =
    ground (arith, d.ordered k (img.n_cards - 1), d.inside (img.n_cards - 1))
