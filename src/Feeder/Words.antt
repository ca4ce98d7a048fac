-- ===== src/Feeder/Words.antt =====
-- The words of one card, described from its columns: with FININ on the last one alone.
use rpi_pico_card_reader.Prelude.{
  ℕ, zero, suc, ◌+◌, ◌-◌, ◌/◌, ◌%◌, ◌<◌, ◌≡◌, refl, ap, ◌∙◌, List, [], ◌∷◌, ◌++◌, Bool, true, false,
  ◌&&◌, if◌then◌else◌, leb, ◌==◌, Array, window, arith,
}
use rpi_pico_card_reader.Transcode.{TcMode, transcode_column}
use rpi_pico_card_reader.Deck.{DeckImg}
use rpi_pico_card_reader.Deck.View.{columns}
use rpi_pico_card_reader.Wire.{presenter_word}
use rpi_pico_card_reader.Feeder.Types.{WireOp, push, Feeder, is_packed, effective_mode}
use rpi_pico_card_reader.Feeder.Present.{present_column, present_next}
use rpi_pico_card_reader.Feeder.Cursor.{IsFeedable}

abbrev is_nil : List ℕ → Bool
is_nil [] = true
is_nil (x ∷ xs) = false

is_nil-window : (a : Array ℕ) (i n : ℕ) → is_nil (window a i n) ≡ (n == 0)
is_nil-window a i zero = refl
is_nil-window a i (suc n) = ground arith

module _ (mode : TcMode) (w g : ℕ) where
  abbrev word : ℕ → Bool → WireOp
  word value fini = push (presenter_word value fini w g)

  -- One column, FININ on its last word if it is the last column: a packed mode presents the high
  -- and the low nibble (the low one alone if `half` is 1), another mode one value.
  abbrev pub column_words : Bool → ℕ → ℕ → List WireOp
  column_words last half byte =
      if is_packed mode
      then (if half == 0
          then word (byte / 16 % 16) false ∷ word (byte % 16) last ∷ []
          else word (byte % 16) last ∷ [])
      else word byte last ∷ []

  -- The columns that are left, from the nibble `half` of the first one on.
  abbrev pub words_from : ℕ → List ℕ → List WireOp
  words_from half [] = []
  words_from half (c ∷ cs) =
      column_words (is_nil cs) half (transcode_column c mode) ++ words_from 0 cs

  pub column_words_high :
      (last : Bool) (half byte : ℕ)
      → is_packed mode ≡ true
      → half ≡ 0
      → column_words last half byte
        ≡ push (presenter_word (byte / 16 % 16) false w g) ∷ column_words last 1 byte
  column_words_high last half byte p h = ground arith

  pub column_words_low :
      (last : Bool) (half byte : ℕ)
      → is_packed mode && half == 0 ≡ false
      → column_words last half byte
        ≡ push (presenter_word (if is_packed mode then byte % 16 else byte) last w g) ∷ []
  column_words_low last half byte h = ground arith

-- The words of card k of deck d, read in a mode.
abbrev pub card_words : DeckImg → TcMode → ℕ → ℕ → ℕ → List WireOp
card_words d mode w g k = words_from mode w g 0 (columns d.cols (d.idx k))

-- The columns from the cursor on, and their words.
abbrev pub columns_left : DeckImg → Feeder → List ℕ
columns_left d s = window d.cols ((d.idx s.card).off + s.col) ((d.idx s.card).ncols - s.col)

abbrev pub remaining : DeckImg → Feeder → List WireOp
remaining d s = words_from (effective_mode d s s.card) s.w_ticks s.g_ticks s.half (columns_left d s)

module _ (d : DeckImg) (f : IsFeedable d) (s : Feeder) where
  abbrev pub mode : TcMode
  mode = effective_mode d s s.card

  abbrev pub ncols : ℕ
  ncols = (d.idx s.card).ncols

  abbrev pub column : ℕ
  column = d.cols ((d.idx s.card).off + s.col)

  abbrev pub later : List ℕ
  later = window d.cols ((d.idx s.card).off + s.col + 1) (ncols - (s.col + 1))

  columns_left-cons : s.col < ncols → columns_left d s ≡ column ∷ later
  columns_left-cons h =
      ap (window d.cols ((d.idx s.card).off + s.col)) {x = ncols - s.col}
        {y = suc (ncols - (s.col + 1))} (omega arith)

  is_nil-later : s.col < ncols → is_nil later ≡ leb ncols (s.col + 1)
  is_nil-later h =
      is_nil-window d.cols ((d.idx s.card).off + s.col + 1) (ncols - (s.col + 1)) ∙ ground arith

  pub present_next_lem :
      s.card < d.n_cards
      → s.col < ncols
      → present_next d s
        ≡ present_column
            (is_packed mode)
            (is_packed mode && s.half == 0)
            (leb ncols (s.col + 1))
            (transcode_column column mode)
            s
  unfolding present_next
  present_next_lem h k =
      ap
        (λ a.
          present_column (is_packed mode) (is_packed mode && s.half == 0) (leb ncols (s.col + 1))
            (transcode_column (d.cols a) mode) s)
        (omega (arith, f.deck.inside s.card h))

  pub remaining-cons :
      s.col < ncols
      → remaining d s
        ≡ column_words mode s.w_ticks s.g_ticks
            (leb ncols (s.col + 1))
            s.half
            (transcode_column column mode)
          ++ words_from mode s.w_ticks s.g_ticks 0 later
  remaining-cons h =
      ap (words_from mode s.w_ticks s.g_ticks s.half) (columns_left-cons h)
      ∙ ap
          (λ b.
            column_words mode s.w_ticks s.g_ticks b s.half (transcode_column column mode)
            ++ words_from mode s.w_ticks s.g_ticks 0 later)
          (is_nil-later h)
