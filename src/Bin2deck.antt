-- ===== src/Bin2deck.antt =====
-- src/bin2deck.c: a deck for the scatter loader from a raw binary image, and a hexadecimal card
-- for the bootstrap. A result is `none` where the source returns -1; the image and the buffer that
-- such a return leaves behind are not used by its callers, and are not modelled. `buf` holds the
-- `fill` bytes that are buffered.
pub mod Scatter
pub mod Ipl
mod Tests
use rpi_pico_card_reader.Prelude.{
  ℕ, zero, suc, ◌+◌, ◌-◌, ◌*◌, ◌/◌, ◌%◌, List, [], ◌∷◌, ◌++◌, map, Bool, true, false, Option, none,
  some, if◌then◌else◌, with_option, ltb, leb, ◌==◌, u8, u16, u32, length, take, drop, replicate,
}
use rpi_pico_card_reader.Transcode.{byte_to_col, nibble_to_hex_col}
use rpi_pico_card_reader.Deck.{
  DeckImg, deck_max_cards, deck_max_cols, card_cols, zero_img, next_off,
}
use rpi_pico_card_reader.Deck.Append.{add_card}

abbrev pub bin2deck_chunk : ℕ
bin2deck_chunk = 66

abbrev pub bin2deck_ipl_max : ℕ
bin2deck_ipl_max = 40

-- The loader card for unit 0x80.
abbrev pub loader_cols : List ℕ
loader_cols =
    0x0200 ∷ 0x0140 ∷ 0x0100 ∷ 0x0001 ∷ 0x0001 ∷ 0x0001 ∷ 0x0004 ∷ 0x0004 ∷ 0x0200 ∷ 0x0140 ∷ 0x0100
    ∷ 0x0001 ∷ 0x0001 ∷ 0x0001 ∷ 0x0004 ∷ 0x0001 ∷ 0x0200 ∷ 0x0140 ∷ 0x0100 ∷ 0x0001 ∷ 0x0001
    ∷ 0x0001 ∷ 0x0004 ∷ 0x0040 ∷ 0x0010 ∷ 0x1008 ∷ 0x0002 ∷ 0x0001 ∷ 0x0001 ∷ 0x0001 ∷ 0x0002
    ∷ 0x0020 ∷ 0x0120 ∷ 0x0004 ∷ 0x0001 ∷ 0x0004 ∷ 0x0001 ∷ 0x0001 ∷ 0x0002 ∷ 0x0080 ∷ 0x0001
    ∷ 0x0001 ∷ 0x0008 ∷ 0x0140 ∷ 0x0120 ∷ 0x0004 ∷ 0x0001 ∷ 0x0001 ∷ 0x0001 ∷ 0x0001 ∷ 0x0001
    ∷ 0x0001 ∷ 0x0001 ∷ 0x0001 ∷ 0x0010 ∷ 0x0002 ∷ 0x0010 ∷ 0x0008 ∷ 0x0180 ∷ 0x0001 ∷ 0x0001
    ∷ 0x0001 ∷ 0x0001 ∷ 0x0010 ∷ 0x0001 ∷ 0x0001 ∷ 0x0010 ∷ 0x0001 ∷ 0x0100 ∷ 0x0001 ∷ 0x0104
    ∷ 0x0001 ∷ 0x0001 ∷ 0x0001 ∷ 0x0008 ∷ 0x0040 ∷ 0x0110 ∷ 0x0001 ∷ 0x0010 ∷ 0x0104 ∷ []

unfoldable pub append_card_cols : DeckImg → List ℕ → Option DeckImg
append_card_cols img cols =
    if leb deck_max_cards img.n_cards
    then none
    else if ltb deck_max_cols (u32 (next_off img + card_cols))
    then none
    else some (add_card img cols)

-- The array of append_scatter_card: blanks but for columns 8 to 10 and the payload.
abbrev pub scatter_cols : ℕ → List ℕ → List ℕ
scatter_cols addr payload =
    replicate 8 0
    ++ byte_to_col (u8 (length payload + 256 - 1))
      ∷ byte_to_col (u8 (addr / 256))
      ∷ byte_to_col (u8 addr)
      ∷ map byte_to_col payload
    ++ replicate (card_cols - 11 - length payload) 0

unfoldable pub append_scatter_card : DeckImg → ℕ → List ℕ → Option DeckImg
unfolding append_card_cols
append_scatter_card img addr payload = append_card_cols img (scatter_cols addr payload)

pub record Bin2deck : Type 0 where
  pub img : DeckImg
  pub addr : ℕ
  pub buf : List ℕ

unfoldable pub flush_card : Bin2deck → Option Bin2deck
unfolding append_scatter_card
flush_card b =
    let fill = length b.buf in
    if fill == 0
    then some b
    else if ltb 0x10000 (b.addr + fill)
    then none
    else with_option (append_scatter_card b.img (u16 b.addr) b.buf) none
        (λ img. some (record { img = img; addr = u32 (b.addr + fill); buf = [] }))

-- strncpy into a field of 48 bytes whose last one stays 0.
unfoldable pub bin2deck_begin : List ℕ → ℕ → Option Bin2deck
unfolding append_card_cols
bin2deck_begin name base =
    let img = record zero_img { name = take 47 name; loader_card = some 0 } in
    with_option (append_card_cols img loader_cols) none
      (λ img. some (record { img = img; addr = base; buf = [] }))

-- The loop of bin2deck_feed, a round per unit of fuel: each takes what fits into the buffer.
unfoldable pub feed_rounds : ℕ → Bin2deck → List ℕ → Option Bin2deck
feed_rounds fuel b [] = some b
feed_rounds zero b (x ∷ xs) = none
feed_rounds (suc fuel) b (x ∷ xs) =
    let room = bin2deck_chunk - length b.buf in
    let c = record b { buf = b.buf ++ take room (x ∷ xs) } in
    let left = drop room (x ∷ xs) in
    if length c.buf == bin2deck_chunk
    then with_option (flush_card c) none (λ e. feed_rounds fuel e left)
    else feed_rounds fuel c left

-- A round takes a byte at least: a round for each byte is given.
unfoldable pub bin2deck_feed : Bin2deck → List ℕ → Option Bin2deck
unfolding feed_rounds
bin2deck_feed b bytes = feed_rounds (length bytes) b bytes

-- NOP2, NOP2, and a jump to the entry.
abbrev pub termination : ℕ → List ℕ
termination entry = 0x07 ∷ 0x00 ∷ 0x07 ∷ 0x00 ∷ 0x43 ∷ 0xF0 ∷ u8 (entry / 256) ∷ u8 entry ∷ []

unfoldable pub bin2deck_end : Bin2deck → ℕ → Option DeckImg
unfolding flush_card append_scatter_card
bin2deck_end b entry =
    with_option (flush_card b) none (λ c. append_scatter_card c.img 0 (termination entry))

-- The columns of the bytes of an IPL card, two for each.
abbrev pub ipl_cols : List ℕ → List ℕ
ipl_cols [] = []
ipl_cols (x ∷ xs) = nibble_to_hex_col (x / 16) ∷ nibble_to_hex_col (x % 16) ∷ ipl_cols xs

unfoldable pub bin2deck_ipl : List ℕ → List ℕ → Option DeckImg
unfolding append_card_cols
bin2deck_ipl name bytes =
    if length bytes == 0
    then none
    else if ltb bin2deck_ipl_max (length bytes)
    then none
    else append_card_cols (record zero_img { name = take 47 name; loader_card = some 0 })
        (ipl_cols bytes ++ replicate (card_cols - 2 * length bytes) 0)
