-- ===== src/Deck/View.antt =====
-- An image read as the list of its cards, each the list of its columns.
use rpi_pico_card_reader.Prelude.{
  ℕ, zero, suc, ◌<◌, ◌≡◌, refl, ap₂, List, [], ◌∷◌, ◌++◌, arith, window, Array, length,
  length-append,
}
use rpi_pico_card_reader.Deck.{DeckCard, DeckImg}

abbrev pub columns : Array ℕ → DeckCard → List ℕ
columns cols c = window cols c.off c.ncols

-- The first n cards of an index over a column store.
abbrev pub cards_upto : Array DeckCard → Array ℕ → ℕ → List (List ℕ)
cards_upto idx cols zero = []
cards_upto idx cols (suc n) = cards_upto idx cols n ++ columns cols (idx n) ∷ []

abbrev pub cards : DeckImg → List (List ℕ)
cards img = cards_upto img.idx img.cols img.n_cards

pub length-cards_upto :
    (idx : Array DeckCard) (cols : Array ℕ) (n : ℕ) → length (cards_upto idx cols n) ≡ n
length-cards_upto idx cols zero = refl
length-cards_upto idx cols (suc n) = omega (
  arith,
  length-append (cards_upto idx cols n) (columns cols (idx n) ∷ []),
  length-cards_upto idx cols n,
)

-- Cards that two images hold at the same places with the same columns are the same cards.
pub cards_upto_ext :
    (idx idx' : Array DeckCard) (cols cols' : Array ℕ) (n : ℕ)
    → ((k : ℕ) → k < n → columns cols (idx k) ≡ columns cols' (idx' k))
    → cards_upto idx cols n ≡ cards_upto idx' cols' n
cards_upto_ext idx idx' cols cols' zero h = refl
cards_upto_ext idx idx' cols cols' (suc n) h =
    ap₂ (λ cs c. cs ++ c ∷ []) (cards_upto_ext idx idx' cols cols' n (λ k p. h k (omega arith)))
      (h n (omega arith))
