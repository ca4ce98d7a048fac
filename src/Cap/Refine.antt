-- ===== src/Cap/Refine.antt =====
-- The parser of src/deck.c against its specification.
use rpi_pico_card_reader.Prelude.{
  ℕ, ◌≤◌, ◌≡◌, refl, sym, ap, ap₂, subst, ◌∙◌, List, [], ◌∷◌, ◌++◌, true, false, inl, inr,
  if◌then◌else◌, ltb, ◌==◌, length, length-append, take, arith, Bool-cases,
}
use rpi_pico_card_reader.Deck.{DeckImg, next_off}
use rpi_pico_card_reader.Deck.View.{cards}
use rpi_pico_card_reader.Deck.Layout.{IsDeck}
use rpi_pico_card_reader.Cap.{
  CapParser, ok, too_many_cards, too_many_cols, no_cards, is_ok, cap_line_max, process_line,
  feed_char, cap_parse_init, cap_parse_chunk, cap_parse_finish,
}
use rpi_pico_card_reader.Cap.Layout.{IsParser, cap_parse_init-IsParser}
use rpi_pico_card_reader.Cap.Stream.{
  parse_chunks, concat, parse_chunks-eq-cap_parse_chunk, cap_parse_chunk_stuck,
}
use rpi_pico_card_reader.Cap.Spec.{Parsed, total, add_line, lines, add_lines, finish, parse}
use rpi_pico_card_reader.Cap.Scan.{view, process_line_lem}
use rpi_pico_card_reader.Cap.Finish.{
  result, status_cases, flushed, cap_parse_finish-view, nil_of_length, add_line-nil, take-snoc,
}

-- A parser that has met no error and has the beginning `line` of a line in its buffer.
pub record IsReading (p : CapParser) (line : List ℕ) : Type 0 where
  pub parser : IsParser p
  pub no_error : p.error ≡ ok
  pub buffered : p.linebuf ≡ take cap_line_max line

-- The parser after a newline.
abbrev pub next_line : CapParser → CapParser
next_line p = record (process_line p p.linebuf) { linebuf = []; overflow = false }

pub next_line-view :
    (p : CapParser) (line : List ℕ)
    → IsReading p line
    → (view (next_line p) ≡ add_line (cards p.img) (take cap_line_max line))
      × IsParser (next_line p)
next_line-view p line h =
    let (seen, parser) = process_line_lem p p.linebuf h.parser h.no_error in
    (
      seen ∙ ap (add_line (cards p.img)) h.buffered,
      record {
        deck = parser.deck;
        dense = parser.dense;
        opened = parser.opened;
        short = omega arith;
      },
    )

view-flushed :
    (p : CapParser) (line : List ℕ)
    → IsReading p line
    → view (flushed p) ≡ add_line (cards p.img) (take cap_line_max line)
view-flushed p line h = elim (Bool-cases (length p.linebuf == 0)) [
  | inl empty ↦
      ap (λ b. view (if b then p else process_line p p.linebuf)) empty
      ∙ ap (λ e. (cards p.img, e)) h.no_error
      ∙ sym (add_line-nil (cards p.img))
      ∙ ap (add_line (cards p.img)) (sym (nil_of_length p.linebuf empty) ∙ h.buffered)
  | inr some_text ↦
      ap (λ b. view (if b then p else process_line p p.linebuf)) some_text
      ∙ (process_line_lem p p.linebuf h.parser h.no_error).0
      ∙ ap (add_line (cards p.img)) h.buffered
]

-- One line and then the others, where the line's result is known.
continue : List (List ℕ) → Parsed → Parsed
continue ls x = if is_ok x.1 then add_lines x.0 ls else x

add_lines-cons :
    (cs : List (List ℕ)) (l : List ℕ) (ls : List (List ℕ)) {x : Parsed}
    → x ≡ add_line cs (take cap_line_max l)
    → add_lines cs (l ∷ ls) ≡ continue ls x
unfolding add_lines continue
add_lines-cons cs l ls e = ap (λ x. if is_ok x.1 then add_lines x.0 ls else x) (sym e)

continue-nil : (x : Parsed) → continue [] x ≡ x
unfolding continue add_lines
continue-nil (cs, ok) = refl
continue-nil (cs, too_many_cards) = refl
continue-nil (cs, too_many_cols) = refl
continue-nil (cs, no_cards) = refl

-- What one character makes of a parser that has met no error.
unfoldable pub step : CapParser → ℕ → CapParser
step p c = if is_ok p.error then feed_char p c else p

pub step-newline :
    (p : CapParser) (c : ℕ) → p.error ≡ ok → (c == 10) ≡ true → step p c ≡ next_line p
unfolding step feed_char
step-newline p c e newline = simp (e, newline)

step-other :
    (p : CapParser) (c : ℕ)
    → p.error ≡ ok
    → (c == 10) ≡ false
    → step p c ≡ (
        if ltb (length p.linebuf) cap_line_max
        then record p { linebuf = p.linebuf ++ c ∷ [] }
        else record p { overflow = true })
unfolding step feed_char
step-other p c e other = simp (e, other)

-- A character that is not a newline goes to the buffer, if that has room.
grow : List ℕ → ℕ → List ℕ
grow buf c = if ltb (length buf) cap_line_max then buf ++ c ∷ [] else buf

grow-take :
    (line : List ℕ) (c : ℕ) → grow (take cap_line_max line) c ≡ take cap_line_max (line ++ c ∷ [])
unfolding grow
grow-take line c = sym (take-snoc cap_line_max line c)

grow-short : (buf : List ℕ) (c : ℕ) → length buf ≤ cap_line_max → length (grow buf c) ≤ cap_line_max
unfolding grow
grow-short buf c h = ground (arith, length-append {0} buf (c ∷ []))

-- It changes the buffer and the overflow mark, and nothing else.
abbrev SameBut : CapParser → CapParser → List ℕ → Type 0
SameBut q p buf =
    (q.img ≡ p.img) × (q.in_card ≡ p.in_card) × (q.error ≡ p.error) × (q.linebuf ≡ buf)

step-SameBut :
    (p : CapParser) (c : ℕ)
    → p.error ≡ ok
    → (c == 10) ≡ false
    → SameBut (step p c) p (grow p.linebuf c)
unfolding grow
step-SameBut p c e other = elim (Bool-cases (ltb (length p.linebuf) cap_line_max)) [
  | inl fits ↦ simp (step-other p c e other, fits) (refl, refl, refl, refl)
  | inr full ↦ simp (step-other p c e other, full) (refl, refl, refl, refl)
]

SameBut-IsParser :
    {p q : CapParser} {buf : List ℕ}
    → SameBut q p buf
    → length buf ≤ cap_line_max
    → IsParser p
    → IsParser q
SameBut-IsParser (img, in_card, error, linebuf) short h = record {
  deck = subst IsDeck (sym img) h.deck;
  dense = subst (λ d. next_off d ≡ total (cards d)) (sym img) h.dense;
  opened =
      in_card ∙ h.opened ∙ ap (λ (d : DeckImg). if d.n_cards == 0 then false else true) (sym img);
  short = omega (arith, ap length linebuf);
}

pub step-IsReading :
    (p : CapParser) (line : List ℕ) (c : ℕ)
    → (c == 10) ≡ false
    → IsReading p line
    → IsReading (step p c) (line ++ c ∷ []) × (cards (step p c).img ≡ cards p.img)
step-IsReading p line c other h =
    let same = step-SameBut p c h.no_error other in
    (
      record {
        parser = SameBut-IsParser same (grow-short p.linebuf c h.parser.short) h.parser;
        no_error = same.2 ∙ h.no_error;
        buffered = same.3 ∙ ap (λ b. grow b c) h.buffered ∙ grow-take line c;
      },
      ap cards same.0,
    )

-- The rest of the text after a newline, where the parser goes on or has stopped at an error.
after_line :
    (q : CapParser) (text : List ℕ)
    → view (flushed q) ≡ view q
    → (q.error ≡ ok
        → result (cap_parse_finish (cap_parse_chunk q text))
          ≡ finish (add_lines (cards q.img) (lines [] text)))
    → result (cap_parse_finish (cap_parse_chunk q text))
      ≡ finish (continue (lines [] text) (view q))
unfolding continue
after_line q text empty goes_on = elim (status_cases q.error) [
  | inl fine ↦
      goes_on fine
      ∙ ap
          (λ s.
            finish (if is_ok s then add_lines (cards q.img) (lines [] text) else (cards q.img, s)))
          (sym fine)
  | inr bad ↦
      ap (λ r. result (cap_parse_finish r)) (cap_parse_chunk_stuck q text bad)
      ∙ cap_parse_finish-view q
      ∙ ap finish (
          empty ∙ ap (λ b. if b then add_lines (cards q.img) (lines [] text) else view q) (sym bad))
]

text_refines :
    (p : CapParser) (line text : List ℕ)
    → IsReading p line
    → result (cap_parse_finish (cap_parse_chunk p text))
      ≡ finish (add_lines (cards p.img) (lines line text))
unfolding cap_parse_chunk step
text_refines p line [] h =
    cap_parse_finish-view p
    ∙ ap finish (
        sym (
          add_lines-cons (cards p.img) line [] (view-flushed p line h)
          ∙ continue-nil (view (flushed p))))
text_refines p line (c ∷ text) h = elim (Bool-cases (c == 10)) [
  | inl newline ↦
      let (seen, parser) = next_line-view p line h in
      let q = next_line p in
      ap (λ r. result (cap_parse_finish (cap_parse_chunk r text)))
        (step-newline p c h.no_error newline)
      ∙ after_line q text refl (λ fine.
        text_refines q [] text (record { parser = parser; no_error = fine; buffered = refl }))
      ∙ ap finish (
          sym (add_lines-cons (cards p.img) line (lines [] text) seen)
          ∙ ap
              (λ b.
                add_lines (cards p.img)
                  (if b then line ∷ lines [] text else lines (line ++ c ∷ []) text))
              (sym newline))
  | inr other ↦
      let (reading, same) = step-IsReading p line c other h in
      text_refines (step p c) (line ++ c ∷ []) text reading
      ∙ ap₂
          (λ cs b.
            finish (add_lines cs (if b then line ∷ lines [] text else lines (line ++ c ∷ []) text)))
          same (sym other)
]

-- However a text is cut into chunks, the parser returns the cards and the status that the
-- specification gives the whole text: the limits on cards and columns, the cut of long lines, the
-- last line with no newline, the dropped empty cards and the text with no card included.
pub parse_refines :
    (chunks : List (List ℕ))
    → result (cap_parse_finish (parse_chunks cap_parse_init chunks)) ≡ parse (concat chunks)
unfolding parse
parse_refines chunks =
    ap (λ p. result (cap_parse_finish p)) (parse_chunks-eq-cap_parse_chunk cap_parse_init chunks)
    ∙ unfold cap_parse_init in
      text_refines cap_parse_init [] (concat chunks)
        (record { parser = cap_parse_init-IsParser; no_error = refl; buffered = refl })
