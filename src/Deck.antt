-- ===== src/Deck.antt =====
-- include/deckimg.h and the loader search of src/deck.c: the RAM image of a card deck. `idx` and
-- `cols` are arrays; Deck/View reads an image as the list of its cards, and Deck/Layout is its
-- well-formedness.
pub mod View
pub mod Layout
pub mod Append
pub mod Loader
mod Tests
use rpi_pico_card_reader.Prelude.{
  ℕ, zero, suc, ◌+◌, ◌-◌, ◌*◌, List, [], Bool, true, false, ◌&&◌, Option, none, some, if◌then◌else◌,
  ltb, leb, ◌==◌, u32, Array,
}

abbrev pub deck_max_cards : ℕ
deck_max_cards = 512

abbrev pub deck_max_cols : ℕ
deck_max_cols = 40960

abbrev pub card_cols : ℕ
card_cols = 80

pub record DeckCard : Type 0 where
  pub off : ℕ
  pub ncols : ℕ

-- `name` holds the characters before the terminator; a `loader_card` of -1 is `none`.
pub record DeckImg : Type 0 where
  pub name : List ℕ
  pub n_cards : ℕ
  pub loader_card : Option ℕ
  pub idx : Array DeckCard
  pub cols : Array ℕ

-- memset(img, 0, sizeof(*img))
abbrev pub zero_img : DeckImg
zero_img = record {
  name = [];
  n_cards = 0;
  loader_card = some 0;
  idx = λ k. record { off = 0; ncols = 0 };
  cols = λ i. 0;
}

-- The column after card k.
abbrev pub card_end : DeckImg → ℕ → ℕ
card_end img k = (img.idx k).off + (img.idx k).ncols

-- Where the next card's columns start: the expression shared by process_line, append_card and
-- append_card_cols.
abbrev pub next_off : DeckImg → ℕ
next_off img = if img.n_cards == 0 then 0 else u32 (card_end img (img.n_cards - 1))

-- Card i carries the row-8 punch in column 3.
unfoldable pub is_marked : DeckImg → ℕ → Bool
is_marked img i = leb 3 (img.idx i).ncols && (img.cols ((img.idx i).off + 2) == 0x0100)

-- The loop of deck_find_loader_card with `k` rounds left.
unfoldable pub find_marked : DeckImg → ℕ → ℕ → ℕ → ℕ
find_marked img zero i found = found
find_marked img (suc k) i found =
    let rest = find_marked img k (i + 1) found in if is_marked img i then i else rest

-- Where the search stops, and what is found if no card is marked.
unfoldable pub loader_limit : ℕ → ℕ
loader_limit n_cards = if ltb n_cards 5 then n_cards else 5

unfoldable pub loader_fallback : ℕ → ℕ
loader_fallback n_cards = if ltb 1 n_cards then 1 else 0

unfoldable pub deck_find_loader_card : DeckImg → DeckImg × ℕ
unfolding find_marked loader_limit loader_fallback
deck_find_loader_card img =
    let found = find_marked img (loader_limit img.n_cards) 0 (loader_fallback img.n_cards) in
    (record img { loader_card = some found }, found)
