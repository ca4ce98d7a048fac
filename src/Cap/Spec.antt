-- ===== src/Cap/Spec.antt =====
-- What a .cap text means, with no image and no chunks: its lines, cut at CAP_LINE_MAX characters,
-- add cards and columns to a list of cards until a limit of the image is met.
use rpi_pico_card_reader.Prelude.{
  ℕ, ◌+◌, ◌≡◌, refl, List, [], ◌∷◌, ◌++◌, none, some, if◌then◌else◌, leb, ◌==◌, length, take, keep,
  not, arith, ap,
}
use rpi_pico_card_reader.Deck.{deck_max_cards, deck_max_cols}
use rpi_pico_card_reader.Cap.{
  CapStatus, ok, too_many_cards, too_many_cols, no_cards, is_ok, is_blank, is_hex4,
  parse_card_header, cap_line_max,
}

abbrev pub Parsed : Type 0
Parsed = List (List ℕ) × CapStatus

-- The columns of all cards.
abbrev pub total : List (List ℕ) → ℕ
total [] = 0
total (c ∷ cs) = length c + total cs

-- A column put at the end of the last card.
abbrev pub extend_last : List (List ℕ) → ℕ → List (List ℕ)
extend_last [] v = []
extend_last (c ∷ []) v = (c ++ v ∷ []) ∷ []
extend_last (c ∷ d ∷ cs) v = c ∷ extend_last (d ∷ cs) v

-- The words between blanks; `word` is the beginning of the first one.
abbrev pub words : List ℕ → List ℕ → List (List ℕ)
words word [] = word ∷ []
words word (c ∷ cs) = if is_blank c then word ∷ words [] cs else words (word ++ c ∷ []) cs

-- The values of the words that are strict 4-digit hexadecimal.
abbrev pub hex_words : List (List ℕ) → List ℕ
hex_words [] = []
hex_words (w ∷ ws) = elim (is_hex4 w) [ none ↦ hex_words ws | some v ↦ v ∷ hex_words ws ]

abbrev pub add_cols : List (List ℕ) → List ℕ → Parsed
add_cols cards [] = (cards, ok)
add_cols cards (v ∷ vs) =
    if leb deck_max_cols (total cards)
    then (cards, too_many_cols)
    else add_cols (extend_last cards v) vs

unfoldable pub add_line : List (List ℕ) → List ℕ → Parsed
add_line cards line =
    if parse_card_header line
    then (if leb deck_max_cards (length cards)
        then (cards, too_many_cards)
        else (cards ++ [] ∷ [], ok))
    else if length cards == 0
    then (cards, ok)
    else add_cols cards (hex_words (words [] line))

-- The lines of a text; `line` is the beginning of the first one.
abbrev pub lines : List ℕ → List ℕ → List (List ℕ)
lines line [] = line ∷ []
lines line (c ∷ cs) = if c == 10 then line ∷ lines [] cs else lines (line ++ c ∷ []) cs

unfoldable pub add_lines : List (List ℕ) → List (List ℕ) → Parsed
add_lines cards [] = (cards, ok)
add_lines cards (l ∷ ls) =
    let (cards', status) = add_line cards (take cap_line_max l) in
    let rest = add_lines cards' ls in if is_ok status then rest else (cards', status)

-- Cards with no column are dropped, and a text with no card left is refused.
unfoldable pub finish : Parsed → Parsed
finish (cards, status) =
    let full = keep (λ c. not (length c == 0)) cards in
    if is_ok status then (full, if length full == 0 then no_cards else ok) else (cards, status)

unfoldable pub parse : List ℕ → Parsed
unfolding add_lines finish
parse text = finish (add_lines [] (lines [] text))

pub extend_last-snoc :
    (cs : List (List ℕ)) (c : List ℕ) (v : ℕ)
    → extend_last (cs ++ c ∷ []) v ≡ cs ++ (c ++ v ∷ []) ∷ []
extend_last-snoc [] c v = refl
extend_last-snoc (d ∷ []) c v = refl
extend_last-snoc (d ∷ e ∷ cs) c v = ap (λ t. d ∷ t) (extend_last-snoc (e ∷ cs) c v)

pub total-append : (cs ds : List (List ℕ)) → total (cs ++ ds) ≡ total cs + total ds
total-append [] ds = omega arith
total-append (c ∷ cs) ds = omega (arith, total-append cs ds)
