-- ===== src/Feeder/Card.antt =====
-- One card, from its first strobe to its last, over the interrupts of the FIFO.
use rpi_pico_card_reader.Prelude.{
  ℕ, zero, suc, ◌+◌, ◌-◌, ◌≤◌, ◌<◌, ◌≡◌, refl, sym, ap, ap₂, subst, ◌∙◌, List, [], ◌∷◌, ◌++◌,
  append_assoc, true, false, some, with_option, window, length, arith, if_intro,
}
use rpi_pico_card_reader.Deck.{DeckImg}
use rpi_pico_card_reader.Feeder.Types.{WireOp, Feeder, effective_mode}
use rpi_pico_card_reader.Feeder.Present.{present_next, prefill}
use rpi_pico_card_reader.Feeder.Cursor.{IsFeedable}
use rpi_pico_card_reader.Feeder.Types.{lupob_update}
use rpi_pico_card_reader.Feeder.Present.{begin_card, feed_on, start_card_strobes}
use rpi_pico_card_reader.Feeder.Commands.{feeder_on_txfeed}
use rpi_pico_card_reader.Feeder.Words.{words_from, card_words, remaining}
use rpi_pico_card_reader.Feeder.Steps.{IsMid, IsOver, IsStep, more, over, present_next-IsStep}

-- n interrupts of the FIFO.
abbrev pub txfeeds : (ℕ → DeckImg) → ℕ → Feeder → Feeder
txfeeds g_deck zero s = s
txfeeds g_deck (suc n) s = txfeeds g_deck n (feeder_on_txfeed g_deck s)

-- The whole of what the wire shows is to be `out`, and at most n words of it are left.
pub data IsProgress (d : DeckImg) (slot : ℕ) (out : List WireOp) (n : ℕ) (t : Feeder) : Type 0 where
  mid :
      IsMid d slot t
      → t.wire ++ remaining d t ≡ out
      → length (remaining d t) ≤ n
      → IsProgress d slot out n t
  ended : IsOver t → t.wire ≡ out → IsProgress d slot out n t

module _ (g_deck : ℕ → DeckImg) (slot : ℕ) (f : IsFeedable (g_deck slot)) (out : List WireOp) where
  abbrev d : DeckImg
  d = g_deck slot

  after_step :
      (n : ℕ) (s t : Feeder)
      → s.wire ++ remaining d s ≡ out
      → length (remaining d s) ≤ suc n
      → IsStep d slot s t
      → IsProgress d slot out n t
  after_step n s t e h (more w r a k) =
      mid k
        (ap (λ xs. xs ++ remaining d t) a
          ∙ append_assoc s.wire (w ∷ []) (remaining d t)
          ∙ ap (λ xs. s.wire ++ xs) (sym r)
          ∙ e)
        (omega (arith, ap length r))
  after_step n s t e h (over w r a k) = ended k (a ∙ ap (λ xs. s.wire ++ xs) (sym r) ∙ e)

  off-IsProgress :
      (m n : ℕ) (s : Feeder)
      → s.is_presenting ≡ false
      → IsProgress d slot out m s
      → IsProgress d slot out n s
  off-IsProgress m n s p (mid k e h) = absurd (ground (arith, k.on))
  off-IsProgress m n s p (ended o e) = ended o e

  present_next-IsProgress :
      (n : ℕ) (s : Feeder)
      → s.is_presenting ≡ true
      → IsProgress d slot out (suc n) s
      → IsProgress d slot out n (present_next d s)
  present_next-IsProgress n s p (mid m e h) =
      after_step n s (present_next d s) e h (present_next-IsStep d f slot s m)
  present_next-IsProgress n s p (ended o e) = absurd (ground (arith, o.off))

  prefill-IsProgress :
      (m n : ℕ) (s : Feeder)
      → IsProgress d slot out (m + n) s
      → IsProgress d slot out n (prefill d m s)
  unfolding prefill
  prefill-IsProgress zero n s h = subst (λ k. IsProgress d slot out k s) (omega arith) h
  prefill-IsProgress (suc m) n s h =
      if_intro (IsProgress d slot out n) s.is_presenting
        (λ p. prefill-IsProgress m n (present_next d s) (
          present_next-IsProgress (m + n) s p
            (subst (λ k. IsProgress d slot out k s) (omega arith) h)))
        (λ p. off-IsProgress (suc m + n) n s p h)

  feed_on-IsProgress :
      (n : ℕ) (s : Feeder) → IsProgress d slot out n s → IsProgress d slot out n (feed_on s)
  unfolding feed_on effective_mode
  feed_on-IsProgress n s (mid m e h) =
      mid
        (record {
          at_slot = m.at_slot;
          on = m.on;
          card_in = m.card_in;
          col_in = m.col_in;
          half_in = m.half_in;
          short = m.short;
        })
        e h
  feed_on-IsProgress n s (ended o e) =
      ended
        (record {
          off = o.off;
          parked = o.parked;
          strobed = o.strobed;
          no_irq = ground (arith, o.off, o.no_irq);
        })
        e

  at_slot :
      (n : ℕ) (s : Feeder) → s.is_presenting ≡ true → IsProgress d slot out n s → s.deck ≡ some slot
  at_slot n s p (mid m e h) = m.at_slot
  at_slot n s p (ended o e) = absurd (ground (arith, o.off))

  feeder_on_txfeed-IsProgress :
      (n : ℕ) (s : Feeder)
      → IsProgress d slot out (suc n) s
      → IsProgress d slot out n (feeder_on_txfeed g_deck s)
  unfolding feeder_on_txfeed
  feeder_on_txfeed-IsProgress n s h =
      if_intro (IsProgress d slot out n) s.is_presenting
        (λ p.
          subst (λ o. IsProgress d slot out n (with_option o s (λ k. present_next (g_deck k) s)))
            (sym (at_slot (suc n) s p h)) (present_next-IsProgress n s p h))
        (λ p. off-IsProgress (suc n) n s p h)

  txfeeds-IsProgress :
      (n : ℕ) (s : Feeder)
      → IsProgress d slot out n s
      → IsProgress d slot out 0 (txfeeds g_deck n s)
  txfeeds-IsProgress zero s h = h
  txfeeds-IsProgress (suc n) s h =
      txfeeds-IsProgress n (feeder_on_txfeed g_deck s) (feeder_on_txfeed-IsProgress n s h)

  finished : (s : Feeder) → IsProgress d slot out 0 s → (s.wire ≡ out) × IsOver s
  finished s (mid m e h) = elim (present_next-IsStep d f slot s m) [
    | more w r a k ↦ absurd (omega (arith, ap length r))
    | over w r a k ↦ absurd (omega (arith, ap length r))
  ]
  finished s (ended o e) = (e, o)

nothing_read : (n : ℕ) → n - 0 ≡ n
nothing_read n = omega arith

begin_card_words :
    (d : DeckImg) (s : Feeder)
    → s.col ≡ 0
    → s.half ≡ 0
    → remaining d (begin_card d s)
      ≡ card_words d (effective_mode d s s.card) s.w_ticks s.g_ticks s.card
unfolding begin_card lupob_update effective_mode
begin_card_words d s c h =
    let ws = words_from (effective_mode d s s.card) s.w_ticks s.g_ticks in
    ap₂
      (λ half col. ws half (window d.cols ((d.idx s.card).off + col) ((d.idx s.card).ncols - col)))
      h c
    ∙ ap₂ (λ i n. ws 0 (window d.cols i n)) {x = (d.idx s.card).off + 0} {y = (d.idx s.card).off}
        (omega arith) (nothing_read (d.idx s.card).ncols)

begin_card-IsMid :
    (d : DeckImg) (slot : ℕ)
    → IsFeedable d
    → (s : Feeder) → s.deck ≡ some slot
    → s.card < d.n_cards
    → s.col ≡ 0
    → s.half ≡ 0
    → (d.idx s.card).ncols ≤ 256
    → IsMid d slot (begin_card d s)
unfolding begin_card lupob_update
begin_card-IsMid d slot f s at card_in at_col at_half short = record {
  at_slot = at;
  on = refl;
  card_in = card_in;
  col_in = omega (arith, f.full s.card card_in);
  half_in = omega arith;
  short = short;
}

-- Whatever room the FIFO has when the presentation starts, and after as many interrupts as the card
-- has words (or more), the wire shows the words of the card after what it showed before, and the
-- presentation is over. The cursor is at the start of a card of a feedable deck, of 256 columns at
-- most.
pub present_card :
    (g_deck : ℕ → DeckImg) (slot : ℕ)
    → IsFeedable (g_deck slot)
    → (room n : ℕ) (s : Feeder) → s.deck ≡ some slot
    → s.card < (g_deck slot).n_cards
    → s.col ≡ 0
    → s.half ≡ 0
    → ((g_deck slot).idx s.card).ncols ≤ 256
    → length (
        card_words (g_deck slot) (effective_mode (g_deck slot) s s.card) s.w_ticks s.g_ticks s.card)
      ≤ n
    → let t = txfeeds g_deck n (start_card_strobes (g_deck slot) room s) in
      (t.wire
        ≡ s.wire
          ++ card_words
              (g_deck slot)
              (effective_mode (g_deck slot) s s.card)
              s.w_ticks
              s.g_ticks
              s.card)
      × IsOver t
unfolding start_card_strobes begin_card lupob_update
present_card g_deck slot f room n s at card_in at_col at_half short enough =
    let d = g_deck slot in
    let out = s.wire ++ card_words d (effective_mode d s s.card) s.w_ticks s.g_ticks s.card in
    let u = begin_card d s in
    finished g_deck slot f out (txfeeds g_deck n (start_card_strobes d room s)) (
      txfeeds-IsProgress g_deck slot f out n (start_card_strobes d room s) (
        feed_on-IsProgress g_deck slot f out n (prefill d room u) (
          prefill-IsProgress g_deck slot f out room n u (
            mid (begin_card-IsMid d slot f s at card_in at_col at_half short)
              (ap (λ ws. s.wire ++ ws) (begin_card_words d s at_col at_half))
              (omega (arith, ap length (begin_card_words d s at_col at_half), enough))))))
