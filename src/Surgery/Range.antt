-- ===== src/Surgery/Range.antt =====
-- A range of cards, copied behind the cards that are there.
use rpi_pico_card_reader.Prelude.{
  ℕ, zero, suc, ◌+◌, ◌-◌, ◌≤◌, ◌<◌, ◌≡◌, refl, sym, ap, ◌∙◌, List, [], ◌∷◌, ◌++◌, append_assoc,
  append-nil, take, drop, none, some, with_option, u16, length-window, arith,
}
use rpi_pico_card_reader.Deck.{DeckImg, deck_max_cards, deck_max_cols, next_off}
use rpi_pico_card_reader.Deck.View.{columns, cards, cards_upto}
use rpi_pico_card_reader.Deck.Layout.{IsDeck}
use rpi_pico_card_reader.Deck.Append.{add_card, cards-add_card, add_card-IsDeck, next_off-add_card}
use rpi_pico_card_reader.Surgery.{append_card, append_range}

-- The cards first, first + 1, ..., n of them, and the number of their columns.
abbrev pub card_range : DeckImg → ℕ → ℕ → List (List ℕ)
card_range src first zero = []
card_range src first (suc n) = columns src.cols (src.idx first) ∷ card_range src (first + 1) n

abbrev pub range_cols : DeckImg → ℕ → ℕ → ℕ
range_cols src first zero = 0
range_cols src first (suc n) = (src.idx first).ncols + range_cols src (first + 1) n

-- A deck with `cs` as its cards and `used` columns in use.
pub record IsCopy (cs : List (List ℕ)) (used : ℕ) (img : DeckImg) : Type 0 where
  pub deck : IsDeck img
  pub contents : cards img ≡ cs
  pub used_cols : next_off img ≡ used

module _ (dst src : DeckImg) (d : IsDeck dst) (card : ℕ) where
  abbrev c : List ℕ
  c = columns src.cols (src.idx card)

  pub append_card_lem :
      card < src.n_cards
      → dst.n_cards < deck_max_cards
      → next_off dst + (src.idx card).ncols ≤ deck_max_cols
      → append_card dst src card ≡ some (add_card dst c)
  unfolding append_card
  append_card_lem h k room = ground arith

  pub add_card-IsCopy :
      dst.n_cards < deck_max_cards
      → next_off dst + (src.idx card).ncols ≤ deck_max_cols
      → IsCopy (cards dst ++ c ∷ []) (next_off dst + (src.idx card).ncols) (add_card dst c)
  add_card-IsCopy k room =
      let n = length-window src.cols (src.idx card).off (src.idx card).ncols in
      record {
        deck = add_card-IsDeck dst d k c (omega (arith, n));
        contents = cards-add_card dst d k c;
        used_cols = next_off-add_card dst d k c (omega (arith, n)) ∙ ap (λ m. next_off dst + m) n;
      }

-- A range that src has and dst has room for is copied, in order, behind the cards of dst.
pub append_range_lem :
    (src : DeckImg) (n first : ℕ) (dst : DeckImg)
    → IsDeck src
    → IsDeck dst
    → first + n ≤ src.n_cards
    → dst.n_cards + n ≤ deck_max_cards
    → next_off dst + range_cols src first n ≤ deck_max_cols
    → (img : DeckImg) × (append_range dst src first n ≡ some img)
      × IsCopy (cards dst ++ card_range src first n) (next_off dst + range_cols src first n) img
unfolding append_range
append_range_lem src zero first dst s d h k room = (
  dst,
  refl,
  record { deck = d; contents = sym (append-nil (cards dst)); used_cols = omega arith },
)
append_range_lem src (suc n) first dst s d h k room =
    let c = columns src.cols (src.idx first) in
    let next = add_card dst c in
    let one = add_card-IsCopy dst src d first (omega arith) (omega arith) in
    let (img, e, rest) =
      append_range_lem src n (first + 1) next s one.deck (omega arith) (omega arith)
        (omega (arith, one.used_cols)) in
    (
      img,
      ap (λ o. with_option o none (λ i. append_range i src (first + 1) n))
            (ap (append_card dst src) {x = u16 first} {y = first} (omega (arith, s.few))
              ∙ append_card_lem dst src d first (omega arith) (omega arith) (omega arith))
          ∙ e,
      record {
        deck = rest.deck;
        contents =
            rest.contents
            ∙ ap (λ cs. cs ++ card_range src (first + 1) n) one.contents
            ∙ append_assoc (cards dst) (c ∷ []) (card_range src (first + 1) n);
        used_cols = omega (arith, rest.used_cols, one.used_cols);
      },
    )

card_range-snoc :
    (src : DeckImg) (first n : ℕ)
    → card_range src first n ++ columns src.cols (src.idx (first + n)) ∷ []
      ≡ card_range src first (suc n)
card_range-snoc src first zero =
    ap (λ k. columns src.cols (src.idx k) ∷ []) {x = first + 0} {y = first} (omega arith)
card_range-snoc src first (suc n) =
    ap (λ cs. columns src.cols (src.idx first) ∷ cs)
      (ap (λ k. card_range src (first + 1) n ++ columns src.cols (src.idx k) ∷ [])
          {x = first + suc n} {y = first + 1 + n} (omega arith)
        ∙ card_range-snoc src (first + 1) n)

-- The index read from front to back gives the cards.
cards-card_range : (src : DeckImg) (n : ℕ) → cards_upto src.idx src.cols n ≡ card_range src 0 n
cards-card_range src zero = refl
cards-card_range src (suc n) =
    ap (λ cs. cs ++ columns src.cols (src.idx n) ∷ []) (cards-card_range src n)
    ∙ ap (λ k. card_range src 0 n ++ columns src.cols (src.idx k) ∷ []) {x = n} {y = 0 + n}
        (omega arith)
    ∙ card_range-snoc src 0 n

take-card_range :
    (src : DeckImg) (n k first : ℕ)
    → n ≤ k
    → take n (card_range src first k) ≡ card_range src first n
take-card_range src zero k first h = refl
take-card_range src (suc n) zero first h = absurd (omega arith)
take-card_range src (suc n) (suc k) first h =
    ap (λ cs. columns src.cols (src.idx first) ∷ cs)
      (take-card_range src n k (first + 1) (omega arith))

drop-card_range :
    (src : DeckImg) (n k first : ℕ)
    → n ≤ k
    → drop n (card_range src first k) ≡ card_range src (first + n) (k - n)
drop-card_range src zero k first h =
    ap (λ i. card_range src i k) {x = first} {y = first + 0} (omega arith)
    ∙ ap (card_range src (first + 0)) {x = k} {y = k - 0} (omega arith)
drop-card_range src (suc n) zero first h = absurd (omega arith)
drop-card_range src (suc n) (suc k) first h =
    drop-card_range src n k (first + 1) (omega arith)
    ∙ ap (λ i. card_range src i (k - n)) {x = first + 1 + n} {y = first + suc n} (omega arith)
    ∙ ap (card_range src (first + suc n)) {x = k - n} {y = suc k - suc n} (omega arith)

-- The range is the slice of the deck's cards.
pub card_range_lem :
    (src : DeckImg) (first n : ℕ)
    → first + n ≤ src.n_cards
    → card_range src first n ≡ take n (drop first (cards src))
card_range_lem src first n h = sym (
    ap (λ cs. take n (drop first cs)) (cards-card_range src src.n_cards)
    ∙ ap (take n) (drop-card_range src first src.n_cards 0 (omega arith))
    ∙ take-card_range src n (src.n_cards - first) (0 + first) (omega arith)
    ∙ ap (λ i. card_range src i n) {x = 0 + first} {y = first} (omega arith))
