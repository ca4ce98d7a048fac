-- ===== src/WireRx/Tests.antt =====
-- Uses of the theorems of the capture.
use rpi_pico_card_reader.Prelude.{ℕ, ◌≡◌, [], ◌∷◌, some, arith, u32, false}
use rpi_pico_card_reader.Deck.{zero_img}
use rpi_pico_card_reader.Feeder.Run.{Input, run, started}
use rpi_pico_card_reader.Pio.{Op, cleared}
use rpi_pico_card_reader.Pio.Capture.{Pulse, run_levels, listening, all_levels}
use rpi_pico_card_reader.WireRx.{Rx, wire_rx_sm_where, pio1_irq0_handler}
use rpi_pico_card_reader.WireRx.Commands.{strobes_to_commands, stage_op, sm_where_lem}

-- A strobe of the command in the window that is sampled: RE00 on pin 12, RE01 to RE07 on pins 0 to 6.
abbrev pulse : ℕ → Pulse
pulse window = record {
  before = [];
  first = 0;
  second = window;
  third = window;
  sampled = window;
  fifth = window;
  later = 0 ∷ [];
  after = 0;
}

abbrev rx : Rx
rx = record {
  rxs = record { tu00_edges = 0; tu03_edges = 0; pio_irqs = 0; re_words = 7 };
  fifo = [];
  feeder = started;
}

-- The commands 0x40 and 0x21.
strobes_to_commands_example :
    let t =
      pio1_irq0_handler
        (λ k. zero_img)
        (record rx {
          fifo =
              (run_levels
                (all_levels (pulse 0x0820 ∷ pulse 0x1010 ∷ []))
                (listening [] cleared)).rx;
        }) in
    (t.feeder ≡ run (λ k. zero_img) (Input.re_cmd 0x40 ∷ Input.re_cmd 0x21 ∷ []) started)
    × (t.fifo ≡ [])
    × (u32 t.rxs.re_words ≡ 9)
    × (t.rxs.pio_irqs ≡ 1)
strobes_to_commands_example =
    strobes_to_commands (λ k. zero_img) (pulse 0x0820 ∷ pulse 0x1010 ∷ []) (omega arith) cleared rx

sm_where_lem_example : stage_op (wire_rx_sm_where 23 20) ≡ some (Op.wait_gpio false)
sm_where_lem_example = sm_where_lem 3 20 (omega arith)
