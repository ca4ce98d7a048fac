-- ===== src/Pio/Card.antt =====
-- One card from the feeder through the presenter: the characters that the strobes show.
use rpi_pico_card_reader.Prelude.{
  ℕ, ◌+◌, ◌/◌, ◌%◌, ◌≤◌, ◌<◌, ◌≡◌, refl, sym, ap, ap₂, ◌∙◌, List, [], ◌∷◌, ◌++◌, map, map-append,
  append-nil, Bool, true, false, Bool-cases, inl, inr, Option, some, if◌then◌else◌, length, arith,
}
use rpi_pico_card_reader.Transcode.{TcMode, transcode_column}
use rpi_pico_card_reader.Deck.{DeckImg}
use rpi_pico_card_reader.Deck.View.{columns}
use rpi_pico_card_reader.Wire.{presenter_word}
use rpi_pico_card_reader.Feeder.Types.{
  WireOp, push, release_finin, arm, disarm, Feeder, is_packed, effective_mode,
}
use rpi_pico_card_reader.Feeder.Present.{start_card_strobes}
use rpi_pico_card_reader.Feeder.Cursor.{IsFeedable}
use rpi_pico_card_reader.Feeder.Words.{column_words, words_from, card_words}
use rpi_pico_card_reader.Feeder.Card.{txfeeds, present_card}
use rpi_pico_card_reader.Pio.{Sm}
use rpi_pico_card_reader.Pio.Presenter.{shown, run_feeds, strobed, fed}
use rpi_pico_card_reader.Pio.Drain.{IsMachine, IsAtRest, ticks_left, waits, strobed_all}
use rpi_pico_card_reader.Pio.Waveform.{fields}

-- The words that wire_tx_push puts into the FIFO.
unfoldable pub words : List WireOp → List ℕ
words [] = []
words (push w ∷ os) = w ∷ words os
words (_ ∷ os) = words os

-- The last character of a card raises FININ.
abbrev pub fini : Bool → ℕ
fini last = if last then 256 else 0

abbrev pub column_chars : TcMode → Bool → ℕ → List ℕ
column_chars mode last byte =
    if is_packed mode
    then byte / 16 % 16 ∷ (byte % 16 + fini last) ∷ []
    else (byte % 16 + fini last) ∷ []

-- The characters of the columns of a card, in a mode.
unfoldable pub card_chars : TcMode → List ℕ → List ℕ
card_chars mode [] = []
card_chars mode (c ∷ []) = column_chars mode true (transcode_column c mode)
card_chars mode (c ∷ d ∷ cs) =
    column_chars mode false (transcode_column c mode) ++ card_chars mode (d ∷ cs)

words-append : (os ps : List WireOp) → words (os ++ ps) ≡ words os ++ words ps
unfolding words
words-append [] ps = refl
words-append (push w ∷ os) ps = ap (λ ws. w ∷ ws) (words-append os ps)
words-append (release_finin ∷ os) ps = words-append os ps
words-append (arm ∷ os) ps = words-append os ps
words-append (disarm ∷ os) ps = words-append os ps

module _ (mode : TcMode) (w g : ℕ) where
  abbrev high : Bool → ℕ → List WireOp
  high last byte =
      push (presenter_word (byte / 16 % 16) false w g)
      ∷ push (presenter_word (byte % 16) last w g)
      ∷ []

  abbrev low : Bool → ℕ → List WireOp
  low last byte = push (presenter_word byte last w g) ∷ []

  shown_word :
      (nibble : ℕ) (last : Bool) → shown (presenter_word nibble last w g) ≡ nibble % 16 + fini last
  shown_word nibble last = (fields nibble last w g).0

  high_nibble : (byte : ℕ) → shown (presenter_word (byte / 16 % 16) false w g) ≡ byte / 16 % 16
  high_nibble byte = shown_word (byte / 16 % 16) false ∙ omega arith

  low_nibble :
      (last : Bool) (byte : ℕ) → shown (presenter_word (byte % 16) last w g) ≡ byte % 16 + fini last
  low_nibble last byte = shown_word (byte % 16) last ∙ omega arith

  shown_column :
      (last : Bool) (byte : ℕ)
      → map shown (words (column_words mode w g last 0 byte)) ≡ column_chars mode last byte
  unfolding words
  shown_column last byte = elim (Bool-cases (is_packed mode)) [
    | inl p ↦
        ap (λ (b : Bool). map shown (words (if b then high last byte else low last byte))) p
        ∙ ap₂ (λ x y. x ∷ y ∷ []) (high_nibble byte) (low_nibble last byte)
        ∙ sym (
            ap
              (λ (b : Bool).
                if b
                then byte / 16 % 16 ∷ (byte % 16 + fini last) ∷ []
                else (byte % 16 + fini last) ∷ [])
              p)
    | inr p ↦
        ap (λ (b : Bool). map shown (words (if b then high last byte else low last byte))) p
        ∙ ap (λ x. x ∷ []) (shown_word byte last)
        ∙ sym (
            ap
              (λ (b : Bool).
                if b
                then byte / 16 % 16 ∷ (byte % 16 + fini last) ∷ []
                else (byte % 16 + fini last) ∷ [])
              p)
  ]

  shown_append :
      (os ps : List WireOp)
      → map shown (words (os ++ ps)) ≡ map shown (words os) ++ map shown (words ps)
  shown_append os ps = ap (map shown) (words-append os ps) ∙ map-append shown (words os) (words ps)

  shown_chars : (cs : List ℕ) → map shown (words (words_from mode w g 0 cs)) ≡ card_chars mode cs
  unfolding words card_chars
  shown_chars [] = refl
  shown_chars (c ∷ []) =
      let byte = transcode_column c mode in
      ap (λ os. map shown (words os)) (append-nil (column_words mode w g true 0 byte))
      ∙ shown_column true byte
  shown_chars (c ∷ d ∷ cs) =
      let byte = transcode_column c mode in
      shown_append (column_words mode w g false 0 byte) (words_from mode w g 0 (d ∷ cs))
      ∙ ap₂ (λ xs ys. xs ++ ys) (shown_column false byte) (shown_chars (d ∷ cs))

-- A card through the feeder and the presenter: the feeder presents it, whatever room the FIFO has at
-- first, by as many interrupts as it has words; the presenter that waits is fed the words that the
-- feeder pushed, whatever the ticks between them, and then ticks until its work is done. Its strobes
-- show the characters of the card, in order, each once, FININ with the last one only, and it waits
-- again. The cursor is at the start of a card of a feedable deck, of 256 columns at most.
pub card_strobes :
    (g_deck : ℕ → DeckImg) (slot : ℕ)
    → IsFeedable (g_deck slot)
    → (room n : ℕ) (s : Feeder) → s.deck ≡ some slot
    → s.card < (g_deck slot).n_cards
    → s.col ≡ 0
    → s.half ≡ 0
    → ((g_deck slot).idx s.card).ncols ≤ 256
    → length (
        card_words (g_deck slot) (effective_mode (g_deck slot) s s.card) s.w_ticks s.g_ticks s.card)
      ≤ n
    → s.wire ≡ []
    → (fs : List (Option ℕ)) (k : ℕ) (m : Sm) → IsMachine m
    → IsAtRest m
    → fed fs ≡ words (txfeeds g_deck n (start_card_strobes (g_deck slot) room s)).wire
    → ticks_left (run_feeds fs m) ≤ k
    → (strobed (fs ++ waits k) m
        ≡ card_chars
            (effective_mode (g_deck slot) s s.card)
            (columns (g_deck slot).cols ((g_deck slot).idx s.card)))
      × IsAtRest (run_feeds (fs ++ waits k) m)
card_strobes g_deck slot f room n s at card_in at_col at_half short enough fresh fs k m h r same
      ticks =
    let d = g_deck slot in
    let mode = effective_mode d s s.card in
    let (wire, _) = present_card g_deck slot f room n s at card_in at_col at_half short enough in
    let (out, rest) = strobed_all fs k m h r ticks in
    (
      out
          ∙ ap (map shown) (
              same
              ∙ ap words
                  (wire ∙ ap (λ os. os ++ card_words d mode s.w_ticks s.g_ticks s.card) fresh))
          ∙ shown_chars mode s.w_ticks s.g_ticks (columns d.cols (d.idx s.card)),
      rest,
    )
