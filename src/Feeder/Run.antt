-- ===== src/Feeder/Run.antt =====
-- A session of core1: the events that its interrupts and its main loop bring, in order.
use rpi_pico_card_reader.Prelude.{ℕ, ◌+◌, List, [], ◌∷◌, u32}
use rpi_pico_card_reader.Deck.{DeckImg}
use rpi_pico_card_reader.Feeder.Types.{Feeder, boot, feeder_init}
use rpi_pico_card_reader.Feeder.Commands.{
  feeder_on_re_cmd, feeder_on_tu03, feeder_on_txfeed, feeder_poll,
}
use rpi_pico_card_reader.Feeder.Mailbox.{feeder_on_ipc}

-- A command byte, a card feed, room in the FIFO, an op word, a poll, and the time that passes.
pub data Input : Type 0 where
  re_cmd : ℕ → Input
  tu03 : ℕ → Input
  txfeed : Input
  ipc : ℕ → Input
  poll : ℕ → Input
  elapse : ℕ → Input

module _ (g_deck : ℕ → DeckImg) where
  unfoldable pub step : Input → Feeder → Feeder
  step (re_cmd re) s = feeder_on_re_cmd g_deck re s
  step (tu03 room) s = feeder_on_tu03 g_deck room s
  step txfeed s = feeder_on_txfeed g_deck s
  step (ipc word) s = feeder_on_ipc g_deck word s
  step (poll room) s = (feeder_poll g_deck room s).0
  step (elapse us) s = record s { now = u32 (s.now + us) }

  unfoldable pub run : List Input → Feeder → Feeder
  run [] s = s
  run (i ∷ is) s = run is (step i s)

unfoldable pub started : Feeder
unfolding feeder_init
started = feeder_init boot
