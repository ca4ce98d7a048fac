-- ===== src/Deck/Append.antt =====
-- The stores by which an image grows: a card appended (process_line, append_card,
-- append_card_cols) and a column appended to the last card (process_line).
use rpi_pico_card_reader.Prelude.{
  ℕ, suc, ◌+◌, ◌-◌, ◌≤◌, ◌<◌, ◌≡◌, sym, ap, ap₂, subst, ◌∙◌, List, [], ◌∷◌, ◌++◌, arith, u16, u32,
  store, store_list, window, window_ext, window-store_list, window-store_end, store_list_below,
  store_self, store-ne, length,
}
use rpi_pico_card_reader.Deck.{DeckImg, deck_max_cards, deck_max_cols, card_end, next_off}
use rpi_pico_card_reader.Deck.View.{columns, cards_upto, cards, cards_upto_ext}
use rpi_pico_card_reader.Deck.Layout.{IsDeck, card_end-le-next_off}

-- off = next_off; memcpy(&cols[off], xs, ...); idx[n_cards] = { off, ncols }; n_cards++
abbrev pub add_card : DeckImg → List ℕ → DeckImg
add_card img xs = record img {
  n_cards = u16 (img.n_cards + 1);
  idx = store img.idx img.n_cards (record { off = next_off img; ncols = length xs });
  cols = store_list img.cols (next_off img) xs;
}

-- cols[off + ncols++] = v for the last card
abbrev pub push_col : DeckImg → ℕ → DeckImg
push_col img v =
    let last = img.n_cards - 1 in
    let card = img.idx last in
    record img {
      idx = store img.idx last (record card { ncols = u16 (card.ncols + 1) });
      cols = store img.cols (u32 (card.off + card.ncols)) v;
    }

module _ (img : DeckImg) (d : IsDeck img) (few : img.n_cards < deck_max_cards) where
  one_more : u16 (img.n_cards + 1) ≡ suc img.n_cards
  one_more = omega arith

  add_card-old :
      (xs : List ℕ) (k : ℕ)
      → k < img.n_cards
      → columns img.cols (img.idx k) ≡ columns (add_card img xs).cols ((add_card img xs).idx k)
  add_card-old xs k h =
      window_ext img.cols (store_list img.cols (next_off img) xs) (img.idx k).off (img.idx k).ncols
        (λ j p q. sym (
          store_list_below img.cols (next_off img) xs j
            (omega (arith, card_end-le-next_off d k h))))
      ∙ ap (columns (store_list img.cols (next_off img) xs))
          (sym (store-ne img.idx img.n_cards _ (omega arith)))

  -- The cards of the grown image are the old ones and the new one.
  pub cards-add_card : (xs : List ℕ) → cards (add_card img xs) ≡ cards img ++ xs ∷ []
  cards-add_card xs =
      let img' = add_card img xs in
      subst (λ m. cards_upto img'.idx img'.cols m ≡ cards img ++ xs ∷ []) (sym one_more)
        (ap₂ (λ cs c. cs ++ c ∷ [])
          (sym (cards_upto_ext img.idx img'.idx img.cols img'.cols img.n_cards (add_card-old xs)))
          (ap (columns img'.cols) (store_self img.idx img.n_cards _)
            ∙ window-store_list img.cols (next_off img) xs))

  pub add_card-IsDeck :
      (xs : List ℕ) → next_off img + length xs ≤ deck_max_cols → IsDeck (add_card img xs)
  add_card-IsDeck xs h = record {
    few = omega arith;
    inside = λ k p. ground (arith, d.inside k);
    ordered = λ k j p q. ground (arith, d.ordered k j, card_end-le-next_off d k);
  }

  -- The next card goes behind the new one.
  pub next_off-add_card :
      (xs : List ℕ)
      → next_off img + length xs ≤ deck_max_cols
      → next_off (add_card img xs) ≡ next_off img + length xs
  next_off-add_card xs h = ground arith

-- A column goes to the end of the last card, if there is room for it.
module _ (img : DeckImg) (d : IsDeck img) (some_card : 0 < img.n_cards)
    (room : next_off img < deck_max_cols) where
  some_more : suc (img.n_cards - 1) ≡ img.n_cards
  some_more = omega arith

  push_col-old :
      (v k : ℕ)
      → k < img.n_cards - 1
      → columns img.cols (img.idx k) ≡ columns (push_col img v).cols ((push_col img v).idx k)
  push_col-old v k h =
      let img' = push_col img v in
      window_ext img.cols img'.cols (img.idx k).off (img.idx k).ncols (λ j p q. sym (
        store-ne img.cols _ v
          (omega (arith, d.ordered k (img.n_cards - 1) h, d.inside (img.n_cards - 1)))))
      ∙ ap (columns img'.cols) (sym (store-ne img.idx (img.n_cards - 1) _ (omega arith)))

  last_in : img.n_cards - 1 < img.n_cards
  last_in = omega arith

  end_fits : u32 (card_end img (img.n_cards - 1)) ≡ card_end img (img.n_cards - 1)
  end_fits = omega (arith, d.inside (img.n_cards - 1) last_in)

  ncols_fits : u16 ((img.idx (img.n_cards - 1)).ncols + 1) ≡ (img.idx (img.n_cards - 1)).ncols + 1
  ncols_fits = omega (arith, d.inside (img.n_cards - 1) last_in)

  push_col-last :
      (v : ℕ)
      → columns (push_col img v).cols ((push_col img v).idx (img.n_cards - 1))
        ≡ columns img.cols (img.idx (img.n_cards - 1)) ++ v ∷ []
  push_col-last v =
      let card = img.idx (img.n_cards - 1) in
      ap (columns (push_col img v).cols) (store_self img.idx (img.n_cards - 1) _)
      ∙ ap₂ (λ e n. window (store img.cols e v) card.off n) end_fits ncols_fits
      ∙ window-store_end img.cols card.off card.ncols v

  pub cards-push_col :
      (v : ℕ)
      → cards (push_col img v)
        ≡ cards_upto img.idx img.cols (img.n_cards - 1)
          ++ (columns img.cols (img.idx (img.n_cards - 1)) ++ v ∷ []) ∷ []
  cards-push_col v =
      let img' = push_col img v in
      subst
        (λ m.
          cards_upto img'.idx img'.cols m
          ≡ cards_upto img.idx img.cols (img.n_cards - 1)
            ++ (columns img.cols (img.idx (img.n_cards - 1)) ++ v ∷ []) ∷ [])
        some_more
        (ap₂ (λ cs c. cs ++ c ∷ [])
          (sym
            (cards_upto_ext img.idx img'.idx img.cols img'.cols (img.n_cards - 1) (push_col-old v)))
          (push_col-last v))

  pub push_col-IsDeck : (v : ℕ) → IsDeck (push_col img v)
  push_col-IsDeck v = record {
    few = d.few;
    inside = λ k p. ground (arith, d.inside k);
    ordered = λ k j p q. ground (arith, d.ordered k j, d.inside k);
  }
