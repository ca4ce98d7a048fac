-- ===== src/Cap.antt =====
-- src/deck.c: the streaming .cap parser. A line is the list of its characters without the newline;
-- `linebuf` holds linebuf[0..linelen) and `img` is the image that the parser fills.
pub mod Layout
pub mod Stream
pub mod Spec
pub mod Scan
pub mod Compact
pub mod Finish
pub mod Refine
pub mod Image
mod Tests
use rpi_pico_card_reader.Prelude.{
  ℕ, zero, suc, ◌+◌, ◌-◌, ◌*◌, ◌%◌, List, [], ◌∷◌, ◌++◌, Bool, true, false, not, ◌&&◌, ◌||◌, Option,
  none, some, if◌then◌else◌, ltb, leb, ◌==◌, u16, u32, Array, store, length, take, drop,
}
use rpi_pico_card_reader.Deck.{
  DeckCard, DeckImg, deck_max_cards, deck_max_cols, card_end, next_off, zero_img,
}
use rpi_pico_card_reader.Deck.Append.{add_card, push_col}

abbrev pub cap_line_max : ℕ
cap_line_max = 600

-- The results 0, -1, -2 and -3 of the parser.
pub data CapStatus : Type 0 where
  ok too_many_cards too_many_cols no_cards : CapStatus

abbrev pub is_ok : CapStatus → Bool
is_ok ok = true
is_ok _ = false

pub record CapParser : Type 0 where
  pub img : DeckImg
  pub in_card : Bool
  pub linebuf : List ℕ
  pub overflow : Bool
  pub error : CapStatus

abbrev in_range : ℕ → ℕ → ℕ → Bool
in_range lo hi c = leb lo c && leb c hi

-- The value of one hexadecimal digit.
unfoldable pub hex_digit : ℕ → Option ℕ
hex_digit c =
    if in_range b'0' b'9' c
    then some (c - b'0')
    else if in_range b'A' b'F' c
    then some (c - b'A' + 10)
    else if in_range b'a' b'f' c
    then some (c - b'a' + 10)
    else none

-- The loop of is_hex4 over the digits that are left; the result is masked to 13 bits.
unfoldable pub hex_value : ℕ → List ℕ → Option ℕ
hex_value v [] = some (v % 8192)
hex_value v (c ∷ cs) = elim (hex_digit c) [ none ↦ none | some d ↦ hex_value (u16 (v * 16) + d) cs ]

unfoldable pub is_hex4 : List ℕ → Option ℕ
unfolding hex_digit hex_value
is_hex4 s = if length s == 4 then hex_value 0 s else none

-- "Card n. "
abbrev pub header_prefix : List ℕ
header_prefix = b'C' ∷ b'a' ∷ b'r' ∷ b'd' ∷ b' ' ∷ b'n' ∷ b'.' ∷ b' ' ∷ []

-- memcmp(...) == 0
abbrev pub list_eq : List ℕ → List ℕ → Bool
list_eq [] [] = true
list_eq (x ∷ xs) (y ∷ ys) = x == y && list_eq xs ys
list_eq _ _ = false

abbrev pub is_blank : ℕ → Bool
is_blank c = c == b' ' || c == 9 || c == 13

abbrev pub is_digit : ℕ → Bool
is_digit c = leb b'0' c && leb c b'9'

unfoldable pub skip_digits : List ℕ → List ℕ
skip_digits [] = []
skip_digits (c ∷ cs) = if is_digit c then skip_digits cs else c ∷ cs

unfoldable pub all_blank : List ℕ → Bool
all_blank [] = true
all_blank (c ∷ cs) = is_blank c && all_blank cs

unfoldable pub parse_card_header : List ℕ → Bool
unfolding skip_digits all_blank
parse_card_header line =
    if ltb (length line) 9 || not (list_eq (take 8 line) header_prefix)
    then false
    else let number = drop 8 line in
      let rest = skip_digits number in
      if length rest == length number then false else all_blank rest

-- A header line: a new card is opened, if the deck has room for it.
unfoldable pub open_card : CapParser → CapParser
open_card p =
    if leb deck_max_cards p.img.n_cards
    then record p { error = too_many_cards }
    else record p { img = add_card p.img []; in_card = true }

-- One token of a line inside a card; the Boolean is the early return of the loop.
unfoldable pub collect : CapParser → List ℕ → CapParser × Bool
collect p tok = elim (is_hex4 tok) [
  | none ↦ (p, false)
  | some v ↦
      if leb deck_max_cols (u32 (card_end p.img (p.img.n_cards - 1)))
      then (record p { error = too_many_cols }, true)
      else (record p { img = push_col p.img v }, false)
]

-- The loop over the line: `tok` is line[tok..i), and the list is line[i..len).
unfoldable pub scan_tokens : CapParser → List ℕ → List ℕ → CapParser
scan_tokens p tok [] = (collect p tok).0
scan_tokens p tok (c ∷ cs) =
    let (p', full) = collect p tok in
    let next = scan_tokens p' [] cs in
    let longer = scan_tokens p (tok ++ c ∷ []) cs in
    if is_blank c then (if full then p' else next) else longer

unfoldable pub process_line : CapParser → List ℕ → CapParser
process_line p line =
    if parse_card_header line then open_card p else if p.in_card then scan_tokens p [] line else p

unfoldable pub cap_parse_init : CapParser
cap_parse_init = record {
  img = record zero_img { loader_card = none };
  in_card = false;
  linebuf = [];
  overflow = false;
  error = ok;
}

-- One character of a chunk.
unfoldable pub feed_char : CapParser → ℕ → CapParser
feed_char p c =
    if c == 10
    then record (process_line p p.linebuf) { linebuf = []; overflow = false }
    else if ltb (length p.linebuf) cap_line_max
    then record p { linebuf = p.linebuf ++ c ∷ [] }
    else record p { overflow = true }

-- The result of the call is the `error` field.
unfoldable pub cap_parse_chunk : CapParser → List ℕ → CapParser
cap_parse_chunk p [] = p
cap_parse_chunk p (c ∷ cs) = cap_parse_chunk (if is_ok p.error then feed_char p c else p) cs

-- The compacting loop: `k` rounds are left, card r is read and card w is written next.
unfoldable pub compact : Array DeckCard → ℕ → ℕ → ℕ → Array DeckCard × ℕ
compact idx zero r w = (idx, w)
compact idx (suc k) r w =
    if (idx r).ncols == 0
    then compact idx k (r + 1) w
    else compact (store idx w (idx r)) k (r + 1) (w + 1)

unfoldable pub drop_empty : DeckImg → DeckImg
unfolding compact
drop_empty img =
    let (idx', w) = compact img.idx img.n_cards 0 0 in record img { idx = idx'; n_cards = w }

unfoldable pub cap_parse_finish : CapParser → DeckImg × CapStatus
cap_parse_finish p =
    let p' = if length p.linebuf == 0 then p else process_line p p.linebuf in
    let img' = drop_empty p'.img in
    if is_ok p'.error
    then (img', if img'.n_cards == 0 then no_cards else ok)
    else (p'.img, p'.error)
