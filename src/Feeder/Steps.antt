-- ===== src/Feeder/Steps.antt =====
-- One call of present_next in the middle of a card.
use rpi_pico_card_reader.Prelude.{
  ℕ, ◌+◌, ◌-◌, ◌/◌, ◌%◌, ◌≤◌, ◌<◌, ◌≡◌, inl, inr, refl, sym, ap, ap₂, subst, ◌∙◌, List, [], ◌∷◌,
  ◌++◌, Bool, true, false, ◌&&◌, some, if◌then◌else◌, leb, ◌==◌, u8, window, arith, Bool-cases,
}
use rpi_pico_card_reader.Transcode.{transcode_column}
use rpi_pico_card_reader.Deck.{DeckImg}
use rpi_pico_card_reader.Wire.{presenter_word}
use rpi_pico_card_reader.Feeder.Types.{card_done, WireOp, push, Feeder, is_packed, effective_mode}
use rpi_pico_card_reader.Feeder.Present.{end_card, push_nibble, present_column, present_next}
use rpi_pico_card_reader.Feeder.Cursor.{IsFeedable}
use rpi_pico_card_reader.Feeder.Words.{
  words_from, column_words_high, column_words_low, remaining, remaining-cons, mode, ncols, column,
  later, present_next_lem,
}

-- The presenter is in the middle of a card.
pub record IsMid (d : DeckImg) (slot : ℕ) (s : Feeder) : Type 0 where
  pub at_slot : s.deck ≡ some slot
  pub on : s.is_presenting ≡ true
  pub card_in : s.card < d.n_cards
  pub col_in : s.col < (d.idx s.card).ncols
  pub half_in : s.half < 2
  pub short : (d.idx s.card).ncols ≤ 256

-- The card is over: its last word is on its way, and FININ is still to be released.
pub record IsOver (s : Feeder) : Type 0 where
  pub off : s.is_presenting ≡ false
  pub parked : s.state ≡ card_done
  pub strobed : s.finin_pending ≡ true
  pub no_irq : s.feed_irq ≡ false

pub data IsStep (d : DeckImg) (slot : ℕ) (s t : Feeder) : Type 0 where
  more :
      (w : WireOp)
      → remaining d s ≡ w ∷ remaining d t
      → t.wire ≡ s.wire ++ w ∷ []
      → IsMid d slot t
      → IsStep d slot s t
  over :
      (w : WireOp)
      → remaining d s ≡ w ∷ []
      → t.wire ≡ s.wire ++ w ∷ []
      → IsOver t
      → IsStep d slot s t

module _ (d : DeckImg) (f : IsFeedable d) (slot : ℕ) (s : Feeder) (m : IsMid d slot s) where
  abbrev byte : ℕ
  byte = transcode_column (column d f s) (mode d f s)

  abbrev last_col : Bool
  last_col = leb (ncols d f s) (s.col + 1)

  abbrev tail : List WireOp
  tail = words_from (mode d f s) s.w_ticks s.g_ticks 0 (later d f s)

  high-IsStep :
      is_packed (mode d f s) ≡ true
      → s.half ≡ 0
      → IsStep d slot s (present_column true true last_col byte s)
  unfolding present_column push_nibble effective_mode
  high-IsStep p h =
      let t = present_column true true last_col byte s in
      more (push (presenter_word (byte / 16 % 16) false s.w_ticks s.g_ticks))
        (remaining-cons d f s m.col_in
          ∙ ap (λ xs. xs ++ tail)
              (column_words_high (mode d f s) s.w_ticks s.g_ticks last_col s.half byte p h)
          ∙ ap (λ xs. push (presenter_word (byte / 16 % 16) false s.w_ticks s.g_ticks) ∷ xs)
              (sym (remaining-cons d f t m.col_in)))
        refl
        (record {
          at_slot = m.at_slot;
          on = m.on;
          card_in = m.card_in;
          col_in = m.col_in;
          half_in = omega arith;
          short = m.short;
        })

  remaining-low :
      is_packed (mode d f s) && s.half == 0 ≡ false
      → remaining d s
        ≡ push (
            presenter_word
              (if is_packed (mode d f s) then byte % 16 else byte)
              last_col
              s.w_ticks
              s.g_ticks)
          ∷ tail
  remaining-low h =
      remaining-cons d f s m.col_in
      ∙ ap (λ xs. xs ++ tail)
          (column_words_low (mode d f s) s.w_ticks s.g_ticks last_col s.half byte h)

  low-IsStep :
      is_packed (mode d f s) && s.half == 0 ≡ false
      → last_col ≡ false
      → IsStep d slot s (present_column (is_packed (mode d f s)) false false byte s)
  unfolding present_column push_nibble effective_mode
  low-IsStep p h =
      let next : u8 (s.col + 1) ≡ s.col + 1 = ground (arith, m.short, m.col_in) in
      let at : (d.idx s.card).off + s.col + 1 ≡ (d.idx s.card).off + u8 (s.col + 1) =
        omega (arith, next) in
      let left : ncols d f s - (s.col + 1) ≡ ncols d f s - u8 (s.col + 1) = omega (arith, next) in
      more
        (push (
          presenter_word (if is_packed (mode d f s) then byte % 16 else byte) false s.w_ticks
            s.g_ticks))
        (remaining-low p
          ∙ ap₂
              (λ l xs.
                push (
                  presenter_word (if is_packed (mode d f s) then byte % 16 else byte) l s.w_ticks
                    s.g_ticks)
                ∷ xs)
              {y = false} h
              (ap₂ (λ i n. words_from (mode d f s) s.w_ticks s.g_ticks 0 (window d.cols i n)) at
                left))
        refl
        (record {
          at_slot = m.at_slot;
          on = m.on;
          card_in = m.card_in;
          col_in = ground (arith, m.short, m.col_in);
          half_in = omega arith;
          short = m.short;
        })

  last-IsStep :
      is_packed (mode d f s) && s.half == 0 ≡ false
      → last_col ≡ true
      → IsStep d slot s (present_column (is_packed (mode d f s)) false true byte s)
  unfolding present_column push_nibble effective_mode end_card
  last-IsStep p h =
      over
        (push (
          presenter_word (if is_packed (mode d f s) then byte % 16 else byte) true s.w_ticks
            s.g_ticks))
        (remaining-low p
          ∙ ap₂
              (λ l xs.
                push (
                  presenter_word (if is_packed (mode d f s) then byte % 16 else byte) l s.w_ticks
                    s.g_ticks)
                ∷ xs)
              {y = true} h
              (ap
                (λ n.
                  words_from (mode d f s) s.w_ticks s.g_ticks 0
                    (window d.cols ((d.idx s.card).off + s.col + 1) n))
                {x = ncols d f s - (s.col + 1)} {y = 0} (ground arith)))
        refl (record { off = refl; parked = refl; strobed = refl; no_irq = refl })

  pub present_next-IsStep : IsStep d slot s (present_next d s)
  present_next-IsStep =
      let packed = is_packed (mode d f s) in
      let hi = packed && s.half == 0 in
      subst (λ t. IsStep d slot s t) (sym (present_next_lem d f s m.card_in m.col_in))
        (elim (Bool-cases hi) [
          | inl e ↦
              subst (λ p. IsStep d slot s (present_column p hi last_col byte s)) {x = true}
                {y = packed} (ground arith)
                (subst (λ h. IsStep d slot s (present_column true h last_col byte s)) (sym e)
                  (high-IsStep (ground arith) (ground arith)))
          | inr e ↦
              subst (λ h. IsStep d slot s (present_column packed h last_col byte s)) (sym e)
                (elim (Bool-cases last_col) [
                  | inl k ↦
                      subst (λ l. IsStep d slot s (present_column packed false l byte s)) (sym k)
                        (last-IsStep e k)
                  | inr k ↦
                      subst (λ l. IsStep d slot s (present_column packed false l byte s)) (sym k)
                        (low-IsStep e k)
                ])
        ])
