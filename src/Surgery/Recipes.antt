-- ===== src/Surgery/Recipes.antt =====
-- What the recipes of surgery_apply build.
use rpi_pico_card_reader.Prelude.{
  ℕ, ◌+◌, ◌-◌, ◌≤◌, ◌≡◌, ap, ◌∙◌, [], ◌∷◌, ◌++◌, take, drop, Option, none, some, if_intro,
  with_option, ltb, leb, u16, arith,
}
use rpi_pico_card_reader.Deck.{
  DeckImg, deck_max_cards, deck_max_cols, next_off, deck_find_loader_card,
}
use rpi_pico_card_reader.Deck.View.{columns, cards}
use rpi_pico_card_reader.Deck.Layout.{IsDeck}
use rpi_pico_card_reader.Deck.Loader.{deck_find_loader_card_lem}
use rpi_pico_card_reader.Deck.Append.{add_card}
use rpi_pico_card_reader.Surgery.{
  trim_title_summary, serial_loader, append_card, append_range, surgery_apply,
}
use rpi_pico_card_reader.Surgery.Range.{
  card_range, range_cols, append_card_lem, add_card-IsCopy, append_range_lem, card_range_lem,
}

-- The title card and the summary card of a deck of three cards or more are dropped, and the cards
-- between them are put behind those of dst, if they fit.
pub surgery_apply-trim :
    (dst src : DeckImg)
    → IsDeck dst
    → IsDeck src
    → 3 ≤ src.n_cards
    → dst.n_cards + (src.n_cards - 2) ≤ deck_max_cards
    → next_off dst + range_cols src 1 (src.n_cards - 2) ≤ deck_max_cols
    → (img : DeckImg) × (surgery_apply dst src trim_title_summary ≡ some (img, src))
      × (cards img ≡ cards dst ++ take (src.n_cards - 2) (drop 1 (cards src)))
      × IsDeck img
unfolding surgery_apply
surgery_apply-trim dst src d s h k room =
    let (img, e, c) = append_range_lem src (src.n_cards - 2) 1 dst s d (omega arith) k room in
    (
      img,
      if_intro (λ o. o ≡ some (img, src)) (leb 3 src.n_cards)
          (λ p. ap (λ o. with_option o none (λ i. some (i, src))) e) (λ p. absurd (ground arith)),
      c.contents
          ∙ ap (λ cs. cards dst ++ cs) (card_range_lem src 1 (src.n_cards - 2) (omega arith)),
      c.deck,
    )

-- The two calls of the recipe SERIAL, once their results are known.
serial_runs :
    (dst src : DeckImg) (found n : ℕ) (next img : DeckImg)
    → append_card dst src (u16 found) ≡ some next
    → append_range next src 5 n ≡ some img
    → with_option {B = Option (DeckImg × DeckImg)} (append_card dst src (u16 found)) none (λ i.
      with_option {B = Option (DeckImg × DeckImg)}
        (append_range i src 5 n)
        none
        (λ out. some (out, src)))
      ≡ some (img, src)
serial_runs dst src found n next img a e =
    ap
      (λ o. with_option {B = Option (DeckImg × DeckImg)} o none (λ i.
        with_option {B = Option (DeckImg × DeckImg)} (append_range i src 5 n) none
          (λ out. some (out, src))))
      a
    ∙ ap (λ o. with_option {B = Option (DeckImg × DeckImg)} o none (λ out. some (out, src))) e

-- Of a deck of seven cards or more, the loader card that the search finds is put behind the cards
-- of dst, and then its cards from 5 to the last but one, if they fit; src records the loader card.
pub surgery_apply-serial :
    (dst src : DeckImg)
    → IsDeck dst
    → IsDeck src
    → 7 ≤ src.n_cards
    → dst.n_cards + (src.n_cards - 5) ≤ deck_max_cards
    → next_off dst
        + (src.idx (deck_find_loader_card src).1).ncols
        + range_cols src 5 (src.n_cards - 6)
      ≤ deck_max_cols
    → (img : DeckImg) × (surgery_apply dst src serial_loader
        ≡ some (img, (deck_find_loader_card src).0))
      × (cards img
          ≡ (cards dst ++ columns src.cols (src.idx (deck_find_loader_card src).1) ∷ [])
            ++ take (src.n_cards - 6) (drop 5 (cards src)))
      × IsDeck img
unfolding surgery_apply deck_find_loader_card
surgery_apply-serial dst src d s h k room =
    let (src', found) = deck_find_loader_card src in
    let in_deck = (deck_find_loader_card_lem src (omega arith)).1 in
    let one = add_card-IsCopy dst src' d found (omega arith) (omega arith) in
    let next = add_card dst (columns src.cols (src.idx found)) in
    let s' : IsDeck src' = record { few = s.few; inside = s.inside; ordered = s.ordered } in
    let (img, e, c) =
      append_range_lem src' (src.n_cards - 6) 5 next s' one.deck (omega arith) (omega arith)
        (omega (arith, one.used_cols, room)) in
    (
      img,
      if_intro (λ o. o ≡ some (img, src')) (ltb src.n_cards 7) (λ p. absurd (ground arith))
          (λ p.
            serial_runs dst src' found (src.n_cards - 6) next img
              (ap (append_card dst src') {x = u16 found} {y = found} (omega (arith, in_deck, s.few))
                ∙ append_card_lem dst src' d found in_deck (omega arith) (omega arith))
              e),
      c.contents
          ∙ ap (λ cs. cs ++ card_range src 5 (src.n_cards - 6)) one.contents
          ∙ ap (λ cs. (cards dst ++ columns src.cols (src.idx found) ∷ []) ++ cs)
              (card_range_lem src 5 (src.n_cards - 6) (omega arith)),
      c.deck,
    )
