-- ===== src/Cap/Image.antt =====
-- The image that a parse leaves.
use rpi_pico_card_reader.Prelude.{
  ℕ, ◌≡◌, refl, sym, ap, subst, List, [], ◌∷◌, ◌++◌, false, ◌⊎◌, inl, inr, if◌then◌else◌, ◌==◌,
  length, Bool-cases,
}
use rpi_pico_card_reader.Deck.Layout.{IsDeck}
use rpi_pico_card_reader.Cap.{
  CapParser, is_ok, feed_char, cap_parse_init, cap_parse_chunk, cap_parse_finish,
}
use rpi_pico_card_reader.Cap.Layout.{IsParser, cap_parse_init-IsParser}
use rpi_pico_card_reader.Cap.Stream.{parse_chunks, concat, parse_chunks-eq-cap_parse_chunk}
use rpi_pico_card_reader.Cap.Scan.{process_line_lem}
use rpi_pico_card_reader.Cap.Compact.{drop_empty-IsDeck}
use rpi_pico_card_reader.Cap.Finish.{status_cases, flushed}
use rpi_pico_card_reader.Cap.Refine.{
  IsReading, next_line, next_line-view, step, step-newline, step-IsReading,
}

-- What holds of a parser between two characters: it is reading, or it has stopped at an error and
-- its buffer is empty.
abbrev IsBetween : CapParser → Type 0
IsBetween p =
    ((line : List ℕ) × IsReading p line) ⊎ (IsParser p × (is_ok p.error ≡ false) × (p.linebuf ≡ []))

chunk-IsBetween : (p : CapParser) (text : List ℕ) → IsBetween p → IsBetween (cap_parse_chunk p text)
unfolding cap_parse_chunk step
chunk-IsBetween p [] h = h
chunk-IsBetween p (c ∷ text) (inr h) =
    subst (λ q. IsBetween (cap_parse_chunk q text))
      (sym (ap (λ b. if b then feed_char p c else p) h.1)) (chunk-IsBetween p text (inr h))
chunk-IsBetween p (c ∷ text) (inl (line, h)) = elim (Bool-cases (c == 10)) [
  | inl newline ↦
      let (seen, parser) = next_line-view p line h in
      subst (λ q. IsBetween (cap_parse_chunk q text)) (sym (step-newline p c h.no_error newline))
        (chunk-IsBetween (next_line p) text (elim (status_cases (next_line p).error) [
          | inl fine ↦ inl ([], record { parser = parser; no_error = fine; buffered = refl })
          | inr bad ↦ inr (parser, bad, refl)
        ]))
  | inr other ↦
      chunk-IsBetween (step p c) text (inl (line ++ c ∷ [], (step-IsReading p line c other h).0))
]

flushed-IsDeck : (p : CapParser) → IsBetween p → IsDeck (flushed p).img
flushed-IsDeck p (inr h) = rw h.2 h.0.deck
flushed-IsDeck p (inl (line, h)) = elim (Bool-cases (length p.linebuf == 0)) [
  | inl empty ↦ rw empty h.parser.deck
  | inr full ↦ rw full (process_line_lem p p.linebuf h.parser h.no_error).1.deck
]

finish-IsDeck : (p : CapParser) → IsBetween p → IsDeck (cap_parse_finish p).0
unfolding cap_parse_finish
finish-IsDeck p h = elim (Bool-cases (is_ok (flushed p).error)) [
  | inl fine ↦ rw fine (drop_empty-IsDeck (flushed-IsDeck p h))
  | inr bad ↦ rw bad (flushed-IsDeck p h)
]

-- Whatever the text, the image that the parser leaves is well formed: no more than
-- DECK_MAX_CARDS cards, all their columns inside `cols`, and no two cards overlap.
pub parse-IsDeck :
    (chunks : List (List ℕ)) → IsDeck (cap_parse_finish (parse_chunks cap_parse_init chunks)).0
unfolding cap_parse_init
parse-IsDeck chunks = rw (parse_chunks-eq-cap_parse_chunk cap_parse_init chunks) (
    finish-IsDeck (cap_parse_chunk cap_parse_init (concat chunks))
      (chunk-IsBetween cap_parse_init (concat chunks) start))
  where
    start : IsBetween cap_parse_init
    start = inl ([], record { parser = cap_parse_init-IsParser; no_error = refl; buffered = refl })
