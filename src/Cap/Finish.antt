-- ===== src/Cap/Finish.antt =====
-- The end of a parse: cap_parse_finish against the specification's finish, and the line buffer.
use rpi_pico_card_reader.Prelude.{
  ℕ, zero, suc, ◌≡◌, refl, sym, ap, ◌∙◌, List, [], ◌∷◌, ◌++◌, true, false, ◌⊎◌, inl, inr,
  if◌then◌else◌, ltb, ◌==◌, not, keep, lt→ltb, length, take, arith, Bool-cases,
}
use rpi_pico_card_reader.Deck.{DeckImg}
use rpi_pico_card_reader.Deck.View.{cards, length-cards_upto}
use rpi_pico_card_reader.Cap.{
  CapParser, CapStatus, ok, too_many_cards, too_many_cols, no_cards, is_ok, parse_card_header,
  is_hex4, process_line, drop_empty, cap_parse_finish,
}
use rpi_pico_card_reader.Cap.Spec.{Parsed, add_line, finish}
use rpi_pico_card_reader.Cap.Scan.{view}
use rpi_pico_card_reader.Cap.Compact.{cards-drop_empty}

-- What is seen of the result of cap_parse_finish.
abbrev pub result : DeckImg × CapStatus → Parsed
result (img, status) = (cards img, status)

pub status_cases : (s : CapStatus) → (s ≡ ok) ⊎ (is_ok s ≡ false)
status_cases ok = inl refl
status_cases too_many_cards = inr refl
status_cases too_many_cols = inr refl
status_cases no_cards = inr refl

-- The parser after the last, unterminated line.
abbrev pub flushed : CapParser → CapParser
flushed p = if length p.linebuf == 0 then p else process_line p p.linebuf

count-drop_empty :
    (img : DeckImg)
    → (drop_empty img).n_cards ≡ length (keep (λ c. not (length c == 0)) (cards img))
count-drop_empty img =
    sym (length-cards_upto (drop_empty img).idx (drop_empty img).cols (drop_empty img).n_cards)
    ∙ ap length (cards-drop_empty img)

compacted_view :
    (q : CapParser)
    → result (
        if is_ok q.error
        then (drop_empty q.img, if (drop_empty q.img).n_cards == 0 then no_cards else ok)
        else (q.img, q.error))
      ≡ finish (view q)
unfolding finish
compacted_view q = elim (Bool-cases (is_ok q.error)) [
  | inl fine ↦
      simp fine
        (λ i. (cards-drop_empty q.img i, if count-drop_empty q.img i == 0 then no_cards else ok))
  | inr bad ↦ simp bad
]

pub cap_parse_finish-view :
    (p : CapParser) → result (cap_parse_finish p) ≡ finish (view (flushed p))
unfolding cap_parse_finish
cap_parse_finish-view p = compacted_view (flushed p)

pub nil_of_length : (xs : List ℕ) → (length xs == 0) ≡ true → xs ≡ []
nil_of_length [] h = refl
nil_of_length (x ∷ xs) h = absurd (ground arith)

pub add_line-nil : (cs : List (List ℕ)) → add_line cs [] ≡ (cs, ok)
unfolding add_line parse_card_header is_hex4
add_line-nil cs = ground arith

take-nil : (n : ℕ) → take {A = ℕ} n [] ≡ []
take-nil zero = refl
take-nil (suc n) = refl

-- A character that does not fit the buffer is dropped.
pub take-snoc :
    (n : ℕ) (xs : List ℕ) (c : ℕ)
    → take n (xs ++ c ∷ [])
      ≡ (if ltb (length (take n xs)) n then take n xs ++ c ∷ [] else take n xs)
take-snoc zero xs c = refl
take-snoc (suc n) [] c = rw (take-nil n, lt→ltb 0 (suc n) (omega arith))
take-snoc (suc n) (x ∷ xs) c = ground (arith, take-snoc n xs c)
