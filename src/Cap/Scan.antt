-- ===== src/Cap/Scan.antt =====
-- One line: process_line against the specification's add_line.
use rpi_pico_card_reader.Prelude.{
  ℕ, ◌-◌, ◌<◌, ◌≡◌, inl, inr, refl, ap, ◌∙◌, List, [], ◌∷◌, ◌++◌, Bool, true, false, none, some,
  if◌then◌else◌, leb, ◌==◌, u32, length, arith, Option-cases, Bool-cases,
}
use rpi_pico_card_reader.Deck.{deck_max_cards, deck_max_cols, card_end}
use rpi_pico_card_reader.Deck.View.{cards, length-cards_upto}
use rpi_pico_card_reader.Deck.Append.{push_col}
use rpi_pico_card_reader.Cap.{
  CapParser, CapStatus, ok, too_many_cards, too_many_cols, is_blank, is_hex4, parse_card_header,
  open_card, collect, scan_tokens, process_line,
}
use rpi_pico_card_reader.Cap.Layout.{
  IsParser, next_off-lt, cards-opened, opened-IsParser, cards-pushed, pushed-IsParser,
}
use rpi_pico_card_reader.Cap.Spec.{Parsed, total, words, hex_words, add_cols, add_line}

-- What is seen of a parser: its cards and its status.
abbrev pub view : CapParser → Parsed
view p = (cards p.img, p.error)

-- A parser that is inside a card and has met no error.
pub record IsOpen (p : CapParser) : Type 0 where
  pub parser : IsParser p
  pub some_card : 0 < p.img.n_cards
  pub no_error : p.error ≡ ok

-- The parser q is what adding the values of `ws` to the cards of p makes of it.
abbrev Adds : CapParser → List (List ℕ) → CapParser → Type 0
Adds p ws q = (view q ≡ add_cols (cards p.img) (hex_words ws)) × IsParser q

abbrev with_error : CapParser → CapStatus → CapParser
with_error p e = record p { error = e }

with_error-IsParser : {p : CapParser} (e : CapStatus) → IsParser p → IsParser (with_error p e)
with_error-IsParser e h = record {
  deck = h.deck;
  dense = h.dense;
  opened = h.opened;
  short = h.short;
}

module _ (p : CapParser) (h : IsOpen p) where
  limit_test :
      leb deck_max_cols (u32 (card_end p.img (p.img.n_cards - 1)))
      ≡ leb deck_max_cols (total (cards p.img))
  limit_test = ap (leb deck_max_cols) (next_off-lt h.parser (omega (arith, h.some_card)))

  pushed-IsOpen :
      (v : ℕ)
      → leb deck_max_cols (total (cards p.img)) ≡ false
      → IsOpen (record p { img = push_col p.img v })
  pushed-IsOpen v below = record {
    parser = pushed-IsParser p h.parser h.some_card (ground (arith, h.parser.dense)) v;
    some_card = h.some_card;
    no_error = h.no_error;
  }

  collect_other : (tok : List ℕ) → is_hex4 tok ≡ none → collect p tok ≡ (p, false)
  unfolding collect
  collect_other tok e = ground arith

  collect_full :
      (tok : List ℕ) (v : ℕ)
      → is_hex4 tok ≡ some v
      → leb deck_max_cols (total (cards p.img)) ≡ true
      → collect p tok ≡ (with_error p too_many_cols, true)
  unfolding collect
  collect_full tok v e full = rw (e, collect, limit_test, full)

  collect_pushed :
      (tok : List ℕ) (v : ℕ)
      → is_hex4 tok ≡ some v
      → leb deck_max_cols (total (cards p.img)) ≡ false
      → collect p tok ≡ (record p { img = push_col p.img v }, false)
  unfolding collect
  collect_pushed tok v e below = rw (e, collect, limit_test, below)

  -- One word, then a continuation that adds the words after it.
  collect_then :
      (tok : List ℕ) (ws : List (List ℕ)) (k : CapParser → CapParser)
      → ((q : CapParser) → IsOpen q → Adds q ws (k q))
      → let (q, full) = collect p tok in Adds p (tok ∷ ws) (if full then q else k q)
  collect_then tok ws k next = elim (Option-cases (is_hex4 tok)) [
    | inl e ↦ rw (collect_other tok e, e, hex_words) (next p h)
    | inr (v, e) ↦ elim (Bool-cases (leb deck_max_cols (total (cards p.img)))) [
      | inl full ↦
          rw (collect_full tok v e full, e, hex_words, full)
            (refl, with_error-IsParser too_many_cols h.parser)
      | inr below ↦
          let q = record p { img = push_col p.img v } in
          let (seen, ok_parser) = next q (pushed-IsOpen v below) in
          rw (collect_pushed tok v e below, e, hex_words, below)
            (
              seen
                  ∙ ap (λ cs. add_cols cs (hex_words ws))
                      (cards-pushed p h.parser h.some_card (ground (arith, h.parser.dense)) v),
              ok_parser,
            )
    ]
  ]

if_same {ℓ} : {A : Type ℓ} (b : Bool) (x : A) → x ≡ (if b then x else x)
if_same true x = refl
if_same false x = refl

done_Adds : (q : CapParser) → IsOpen q → Adds q [] q
done_Adds q h = (ap (λ e. (cards q.img, e)) h.no_error, h.parser)

-- The loop over a line adds the values of the line's words.
scan_tokens-Adds :
    (p : CapParser) (tok cs : List ℕ) → IsOpen p → Adds p (words tok cs) (scan_tokens p tok cs)
unfolding scan_tokens
scan_tokens-Adds p tok [] h =
    rw (if_same (collect p tok).1 (collect p tok).0) (collect_then p h tok [] (λ q. q) done_Adds)
scan_tokens-Adds p tok (c ∷ cs) h = elim (Bool-cases (is_blank c)) [
  | inl blank ↦
      rw (blank, words)
        (collect_then p h tok (words [] cs) (λ q. scan_tokens q [] cs)
          (λ q hq. scan_tokens-Adds q [] cs hq))
  | inr other ↦ rw (other, words) (scan_tokens-Adds p (tok ++ c ∷ []) cs h)
]

abbrev LineLem : CapParser → List ℕ → Type 0
LineLem p line =
    (view (process_line p line) ≡ add_line (cards p.img) line) × IsParser (process_line p line)

module _ (p : CapParser) (line : List ℕ) (h : IsParser p) (e : p.error ≡ ok) where
  count : length (cards p.img) ≡ p.img.n_cards
  count = length-cards_upto p.img.idx p.img.cols p.img.n_cards

  header_line : parse_card_header line ≡ true → LineLem p line
  unfolding process_line open_card add_line
  header_line header = elim (Bool-cases (leb deck_max_cards p.img.n_cards)) [
    | inl full ↦ rw (header, count, full) (refl, with_error-IsParser too_many_cards h)
    | inr few ↦
        rw (header, count, few)
          (λ i. (cards-opened p h (ground arith) i, e i), opened-IsParser p h (ground arith))
  ]

  process_line_outside :
      parse_card_header line ≡ false → p.in_card ≡ false → process_line p line ≡ p
  unfolding process_line
  process_line_outside other closed = simp (other, closed)

  process_line_inside :
      parse_card_header line ≡ false
      → p.in_card ≡ true
      → process_line p line ≡ scan_tokens p [] line
  unfolding process_line
  process_line_inside other inside = simp (other, inside)

  outside_line : parse_card_header line ≡ false → (p.img.n_cards == 0) ≡ true → LineLem p line
  unfolding add_line
  outside_line other z =
      let closed : p.in_card ≡ false = h.opened ∙ ap (λ b. if b then false else true) z in
      rw (process_line_outside other closed, other, count, z) (ap (λ s. (cards p.img, s)) e, h)

  inside_line : parse_card_header line ≡ false → (p.img.n_cards == 0) ≡ false → LineLem p line
  unfolding add_line
  inside_line other z =
      let inside : p.in_card ≡ true = h.opened ∙ ap (λ b. if b then false else true) z in
      rw (process_line_inside other inside, other, count, z)
        (scan_tokens-Adds p [] line (record { parser = h; some_card = ground arith; no_error = e }))

-- A line does to the cards and the status what the specification says, and keeps the invariant.
pub process_line_lem :
    (p : CapParser) (line : List ℕ)
    → IsParser p
    → p.error ≡ ok
    → (view (process_line p line) ≡ add_line (cards p.img) line) × IsParser (process_line p line)
process_line_lem p line h e = elim (Bool-cases (parse_card_header line)) [
  | inl header ↦ header_line p line h e header
  | inr other ↦ elim (Bool-cases (p.img.n_cards == 0)) [
    | inl empty ↦ outside_line p line h e other empty
    | inr some_card ↦ inside_line p line h e other some_card
  ]
]
