-- ===== src/Cap/Layout.antt =====
-- The parser's invariant: its image is well formed and dense, a card is open exactly when the
-- image has one, and the line buffer is not overrun.
use rpi_pico_card_reader.Prelude.{
  ℕ, suc, ◌+◌, ◌-◌, ◌≤◌, ◌<◌, ◌≡◌, refl, sym, ap, ◌∙◌, List, [], ◌∷◌, ◌++◌, true, false,
  if◌then◌else◌, ◌==◌, u16, u32, length, length-append, arith, ◌≢◌, store_self,
}
use rpi_pico_card_reader.Deck.{DeckCard, DeckImg, deck_max_cards, deck_max_cols, card_end, next_off}
use rpi_pico_card_reader.Deck.View.{columns, cards, cards_upto}
use rpi_pico_card_reader.Deck.Layout.{IsDeck, next_off-le}
use rpi_pico_card_reader.Deck.Append.{
  add_card, push_col, add_card-IsDeck, push_col-IsDeck, cards-add_card, cards-push_col,
}
use rpi_pico_card_reader.Cap.{CapParser, cap_line_max, cap_parse_init}
use rpi_pico_card_reader.Cap.Spec.{total, total-append, extend_last, extend_last-snoc}

pub record IsParser (p : CapParser) : Type 0 where
  pub deck : IsDeck p.img
  pub dense : next_off p.img ≡ total (cards p.img)
  pub opened : p.in_card ≡ (if p.img.n_cards == 0 then false else true)
  pub short : length p.linebuf ≤ cap_line_max

pub next_off-lt :
    {p : CapParser}
    → IsParser p
    → p.img.n_cards ≢ 0
    → u32 (card_end p.img (p.img.n_cards - 1)) ≡ total (cards p.img)
next_off-lt {p} h s = ground (arith, h.dense)

pub cap_parse_init-IsParser : IsParser cap_parse_init
unfolding cap_parse_init
cap_parse_init-IsParser = record {
  deck = record {
    few = omega arith;
    inside = λ k h. omega arith;
    ordered = λ k j h i. omega arith;
  };
  dense = refl;
  opened = refl;
  short = omega arith;
}

module _ (p : CapParser) (h : IsParser p) (few : p.img.n_cards < deck_max_cards) where
  abbrev opened_img : DeckImg
  opened_img = add_card p.img []

  pub cards-opened : cards opened_img ≡ cards p.img ++ [] ∷ []
  cards-opened = cards-add_card p.img h.deck few []

  next_off-opened : next_off opened_img ≡ next_off p.img
  next_off-opened = ground (
    arith,
    store_self p.img.idx p.img.n_cards (record { off = next_off p.img; ncols = 0 }),
    next_off-le h.deck,
  )

  pub opened-IsParser : IsParser (record p { img = opened_img; in_card = true })
  opened-IsParser = record {
    deck = add_card-IsDeck p.img h.deck few [] (omega (arith, next_off-le h.deck));
    dense =
        next_off-opened
        ∙ h.dense
        ∙ omega (arith, total-append (cards p.img) ([] ∷ []))
        ∙ ap total (sym cards-opened);
    opened = ground arith;
    short = h.short;
  }

module _ (p : CapParser) (h : IsParser p) (some_card : 0 < p.img.n_cards)
    (room : next_off p.img < deck_max_cols) (v : ℕ) where
  abbrev last_card : DeckCard
  last_card = p.img.idx (p.img.n_cards - 1)

  abbrev before : List (List ℕ)
  before = cards_upto p.img.idx p.img.cols (p.img.n_cards - 1)

  cards_split : cards p.img ≡ before ++ columns p.img.cols last_card ∷ []
  cards_split =
      let e : p.img.n_cards ≡ suc (p.img.n_cards - 1) = omega arith in
      ap (cards_upto p.img.idx p.img.cols) e

  pub cards-pushed : cards (push_col p.img v) ≡ extend_last (cards p.img) v
  cards-pushed =
      cards-push_col p.img h.deck some_card room v
      ∙ sym (extend_last-snoc before (columns p.img.cols last_card) v)
      ∙ ap (λ cs. extend_last cs v) (sym cards_split)

  total-pushed : total (cards (push_col p.img v)) ≡ total (cards p.img) + 1
  total-pushed =
      ap total (cards-push_col p.img h.deck some_card room v)
      ∙ omega (
        arith,
        total-append before ((columns p.img.cols last_card ++ v ∷ []) ∷ []),
        total-append before (columns p.img.cols last_card ∷ []),
        length-append {0} (columns p.img.cols last_card) (v ∷ []),
        ap total cards_split,
      )

  next_off-pushed : next_off (push_col p.img v) ≡ next_off p.img + 1
  next_off-pushed = ground (
    arith,
    h.deck.inside (p.img.n_cards - 1),
    store_self p.img.idx (p.img.n_cards - 1)
        (record last_card { ncols = u16 (last_card.ncols + 1) }),
  )

  pub pushed-IsParser : IsParser (record p { img = push_col p.img v })
  pushed-IsParser = record {
    deck = push_col-IsDeck p.img h.deck some_card room v;
    dense = next_off-pushed ∙ ap (λ t. t + 1) h.dense ∙ sym total-pushed;
    opened = h.opened;
    short = h.short;
  }
