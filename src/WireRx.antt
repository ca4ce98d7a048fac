-- ===== src/WireRx.antt =====
-- src/wire_rx.c: the interrupts of what the GE sends. The FIFO of the capture is a list; a word that
-- arrives while its interrupt drains it stands in that list. The feeder's handlers are those of
-- Feeder/Commands.
pub mod Commands
mod Tests
use rpi_pico_card_reader.Prelude.{
  ℕ, ◌+◌, ◌-◌, List, [], ◌∷◌, Option, none, some, if◌then◌else◌, ltb, ◌==◌, u32, sub32,
}
use rpi_pico_card_reader.Deck.{DeckImg}
use rpi_pico_card_reader.Monitor.{EvKind}
use rpi_pico_card_reader.Wire.{re_byte}
use rpi_pico_card_reader.Feeder.Types.{Feeder, ev_push}
use rpi_pico_card_reader.Feeder.Commands.{feeder_on_re_cmd, feeder_on_tu03}

pub record WireRxStats : Type 0 where
  pub tu00_edges : ℕ
  pub tu03_edges : ℕ
  pub pio_irqs : ℕ
  pub re_words : ℕ

-- The counters, the FIFO, and the feeder that the handlers call.
pub record Rx : Type 0 where
  pub rxs : WireRxStats
  pub fifo : List ℕ
  pub feeder : Feeder

abbrev pub gp_tu03n : ℕ
gp_tu03n = 26

abbrev pub gp_tu00n : ℕ
gp_tu00n = 27

abbrev pub count_word : WireRxStats → WireRxStats
count_word c = record c { re_words = u32 (c.re_words + 1) }

-- The entries of `where` in wire_rx_sm_where.
pub data Stage : Type 0 where
  wait_tu00 at_in at_push wait_end : Stage

unfoldable pub wire_rx_sm_where : ℕ → ℕ → Option Stage
wire_rx_sm_where pc rx_offset =
    let i = sub32 pc rx_offset in
    if ltb i 4
    then some (
        if i == 0
        then wait_tu00
        else if i == 1
        then at_in
        else if i == 2
        then at_push
        else wait_end)
    else none

module _ (g_deck : ℕ → DeckImg) where
  -- The loop of pio1_irq0_handler.
  unfoldable pub drain : List ℕ → Rx → Rx
  drain [] r = record r { fifo = [] }
  drain (w ∷ ws) r = drain ws (record r {
    rxs = count_word r.rxs;
    fifo = ws;
    feeder = feeder_on_re_cmd g_deck (re_byte w) r.feeder;
  })

  unfoldable pub pio1_irq0_handler : Rx → Rx
  pio1_irq0_handler r =
      drain r.fifo (record r { rxs = record r.rxs { pio_irqs = u32 (r.rxs.pio_irqs + 1) } })

  -- room is what the presenter's FIFO takes while the handler starts a card.
  unfoldable pub gpio_irq_handler : ℕ → ℕ → Rx → Rx
  gpio_irq_handler gpio room r =
      if gpio == gp_tu03n
      then record r {
        rxs = record r.rxs { tu03_edges = u32 (r.rxs.tu03_edges + 1) };
        feeder = feeder_on_tu03 g_deck room r.feeder;
      }
      else if gpio == gp_tu00n
      then record r {
        rxs = record r.rxs { tu00_edges = u32 (r.rxs.tu00_edges + 1) };
        feeder = ev_push EvKind.tu00_edge 0 r.feeder;
      }
      else r
