-- ===== src/Feeder/Tests.antt =====
-- Runs of the feeder on a small deck, and uses of its theorems there.
use rpi_pico_card_reader.Prelude.{
  ℕ, zero, suc, ◌+◌, ◌<◌, ◌≡◌, ◌≢◌, ◌⊎◌, ◌↔◌, refl, List, [], ◌∷◌, true, false, none, some, arith,
}
use rpi_pico_card_reader.Transcode.{transcode_column}
use rpi_pico_card_reader.Deck.{DeckImg, zero_img, deck_max_cols}
use rpi_pico_card_reader.Deck.Append.{add_card, add_card-IsDeck}
use rpi_pico_card_reader.Deck.Layout.{IsDeck, zero_img-IsDeck}
use rpi_pico_card_reader.Wire.{presenter_word}
use rpi_pico_card_reader.Feeder.Types.{
  disarmed, armed_wait, card_done, done, error, push, Feeder, boot, is_armed, effective_mode,
}
use rpi_pico_card_reader.Feeder.Present.{start_card_strobes}
use rpi_pico_card_reader.Feeder.Run.{Input, run, started}
use rpi_pico_card_reader.Feeder.Cursor.{IsFeedable}
use rpi_pico_card_reader.Feeder.Card.{txfeeds, present_card}
use rpi_pico_card_reader.Feeder.Steps.{IsOver}
use rpi_pico_card_reader.Feeder.Ready.{ready_iff}
use rpi_pico_card_reader.Feeder.Session.{cursor_in_deck, pins_follow_state}
use rpi_pico_card_reader.Prelude.{Option, ◌++◌}
use rpi_pico_card_reader.Feeder.Types.{lupob_update}
use rpi_pico_card_reader.Pio.{cleared, tick}
use rpi_pico_card_reader.Pio.Presenter.{run_feeds, strobed}
use rpi_pico_card_reader.Pio.Drain.{IsAtRest, waits, cleared-IsMachine}
use rpi_pico_card_reader.Pio.Card.{words, card_chars, card_strobes}
use rpi_pico_card_reader.Feeder.Present.{present_next, prefill, begin_card, feed_on}
use rpi_pico_card_reader.Feeder.Commands.{feeder_on_txfeed}

-- A loader card of two columns, and a card of one.
abbrev tiny : DeckImg
tiny = add_card (add_card zero_img (0x0100 ∷ 0x0201 ∷ [])) (0x03cf ∷ [])

abbrev decks : ℕ → DeckImg
decks k = tiny

tiny-IsDeck : IsDeck tiny
tiny-IsDeck =
    add_card-IsDeck (add_card zero_img (0x0100 ∷ 0x0201 ∷ []))
      (add_card-IsDeck zero_img zero_img-IsDeck (omega arith) (0x0100 ∷ 0x0201 ∷ []) (omega arith))
      (omega arith) (0x03cf ∷ []) (omega arith)

tiny_full : (k : ℕ) → k < 2 → 0 < (tiny.idx k).ncols
tiny_full zero h = omega arith
tiny_full (suc zero) h = omega arith
tiny_full (suc (suc k)) h = absurd (omega arith)

tiny-IsFeedable : IsFeedable tiny
tiny-IsFeedable = record {
  deck = tiny-IsDeck;
  some_card = omega arith;
  start_in = omega arith;
  full = tiny_full;
}

-- Armed with the deck, the cursor at card 1.
abbrev armed : Feeder
armed = record boot {
  state = armed_wait;
  deck = some 0;
  card = 1;
  w_ticks = 35;
  g_ticks = 115;
  post_loader_colbin = true;
}

-- Arm, a read command, a card feed, two interrupts, a poll after the FININ timeout.
abbrev session : List Input
session =
    Input.ipc 1
    ∷ Input.re_cmd 0x40
    ∷ Input.tu03 1
    ∷ Input.txfeed
    ∷ Input.txfeed
    ∷ Input.elapse 1000
    ∷ Input.poll 0
    ∷ []

present_card_example :
    let t = txfeeds decks 3 (start_card_strobes tiny 1 armed) in
    (t.wire ≡ push (presenter_word 0xf false 35 115) ∷ push (presenter_word 0xf true 35 115) ∷ [])
    × IsOver t
unfolding effective_mode transcode_column
present_card_example =
    present_card decks 0 tiny-IsFeedable 1 3 armed refl (omega arith) refl refl (omega arith)
      (omega arith)

-- The presenter is fed the two words of card 1, one at once and one ten ticks later.
abbrev schedule : List (Option ℕ)
schedule =
    some (presenter_word 0xf false 35 115)
    ∷ none
    ∷ none
    ∷ none
    ∷ none
    ∷ none
    ∷ none
    ∷ none
    ∷ none
    ∷ none
    ∷ some (presenter_word 0xf true 35 115)
    ∷ []

card_strobes_example :
    (strobed (schedule ++ waits 400) cleared ≡ 0xf ∷ 0x10f ∷ [])
    × IsAtRest (run_feeds (schedule ++ waits 400) cleared)
unfolding effective_mode transcode_column words presenter_word run_feeds tick card_chars
    start_card_strobes feeder_on_txfeed present_next prefill begin_card feed_on lupob_update
card_strobes_example =
    card_strobes decks 0 tiny-IsFeedable 1 3 armed refl (omega arith) refl refl (omega arith)
      (omega arith) refl schedule 400 cleared cleared-IsMachine (refl, refl) refl (omega arith)

cursor_in_deck_example :
    let s = run decks session started in
    ((s.deck ≡ none)
      × ((s.state ≡ disarmed) ⊎ (s.state ≡ error))
      × (s.is_presenting ≡ false)
      × (s.cmd_pending ≡ false)
      × (s.finin_pending ≡ false))
    ⊎ ((k : ℕ) × (s.deck ≡ some k)
        × (k < 2)
        × (s.state ≢ disarmed)
        × (s.card < tiny.n_cards)
        × (s.col < (tiny.idx s.card).ncols)
        × ((tiny.idx s.card).off + s.col < deck_max_cols)
        × (s.half < 2))
cursor_in_deck_example = cursor_in_deck decks (λ k h. tiny-IsFeedable) session

pins_follow_state_example :
    let s = run decks session started in
    (s.state ≡ done → (s.fiden ≡ true) × ((k : ℕ) → s.deck ≡ some k → s.card + 1 ≡ tiny.n_cards))
    × (s.state ≡ error → s.luren ≡ true)
pins_follow_state_example = pins_follow_state decks (λ k h. tiny-IsFeedable) session

ready_iff_example :
    let s = run decks session started in
    (s.ready ≡ true) ↔ (
      (is_armed s.deck ≡ true)
      × ((s.state ≡ armed_wait) ⊎ (s.state ≡ card_done))
      × (s.is_presenting ≡ false)
      × (s.cmd_pending ≡ false)
      × (s.finin_pending ≡ false))
ready_iff_example = ready_iff decks session
