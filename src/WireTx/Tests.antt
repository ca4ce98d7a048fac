-- ===== src/WireTx/Tests.antt =====
-- Uses of the theorems of the presenter's engine.
use rpi_pico_card_reader.WireTx.Idle.{disarmed_silent}
use rpi_pico_card_reader.Prelude.{
  ◌+◌, ◌*◌, ◌/◌, ◌%◌, ◌^◌, ◌≤◌, ◌≡◌, refl, List, [], ◌∷◌, ◌++◌, true, false, ◌==◌, length,
  replicate,
}
use rpi_pico_card_reader.Pio.{fifo_depth, cleared, tick}
use rpi_pico_card_reader.Pio.Presenter.{due}
use rpi_pico_card_reader.WireTx.{Sdk, Tx, wire_tx_arm, wire_tx_disarm, wire_tx_full, wire_tx_push}
use rpi_pico_card_reader.WireTx.Documented.{IsDocumented}
use rpi_pico_card_reader.WireTx.Session.{
  TxStep, present, tick_on, run_tx, pushed, shown_by, armed_session,
}

-- A machine that does what the SDK says.
abbrev sdk : Sdk
sdk = record {
  set_enabled = λ b p. record p { enabled = b };
  clear_fifos = λ p. record p { sm = record p.sm { tx = []; rx = [] } };
  restart = λ p. record p { sm = record p.sm { delay = 0; isr = 0 } };
  jump = λ a p. record p { sm = record p.sm { pc = a; side = false } };
  clear_pin = λ k p. record p {
    sm = record p.sm {
      pins = p.sm.pins % 2 ^ k + p.sm.pins / 2 ^ (k + 1) * 2 ^ (k + 1);
      side = false;
    };
  };
  set_pins = λ v p. record p { sm = record p.sm { pins = v % 512; side = v / 512 % 2 == 1 } };
  put = λ w p. record p { sm = record p.sm { tx = p.sm.tx ++ w ∷ [] } };
  is_full = λ p. length p.sm.tx == fifo_depth;
  level = λ p. length p.sm.tx;
}

sdk-IsDocumented : IsDocumented sdk
sdk-IsDocumented = record {
  set_enabled = λ b p. refl;
  clear_fifos = λ p. refl;
  restart = λ p. refl;
  jump = λ a p. refl;
  clear_pin = λ k p. refl;
  set_pins = λ v p. refl;
  put = λ w p h. refl;
  is_full = λ p. refl;
}

-- In the middle of a strobe, with a word in the FIFO.
abbrev busy : Tx
busy = record {
  port = record {
    sm = record cleared { pc = 3; x = 4; side = true; pins = 0x10f; tx = 5 ∷ [] };
    enabled = true;
  };
  feed_irq = true;
  lupor = false;
  tx_feed_irqs = 0;
}

-- A character, seven ticks (the last one strobes it), and two more characters.
abbrev steps : List TxStep
steps =
    present 10 false 3 1 ∷ (replicate 7 tick_on ++ present 2 false 3 1 ∷ present 7 true 3 1 ∷ [])

armed_session_example :
    let u = run_tx sdk steps (wire_tx_arm sdk busy) in
    (shown_by sdk steps (wire_tx_arm sdk busy) ++ due u.port.sm ≡ 10 ∷ 2 ∷ 263 ∷ [])
    × (length (due u.port.sm) ≤ 5)
    × ((wire_tx_arm sdk busy).feed_irq ≡ false)
unfolding pushed wire_tx_arm wire_tx_full wire_tx_push tick
armed_session_example = armed_session sdk sdk-IsDocumented steps busy

disarmed_silent_example :
    let u = run_tx sdk (replicate 9 tick_on) (wire_tx_disarm sdk busy) in
    (u.port.sm.pins ≡ 0)
    × (u.port.sm.side ≡ false)
    × (u.port.sm.tx ≡ [])
    × (u.feed_irq ≡ false)
    × (shown_by sdk (replicate 9 tick_on) (wire_tx_disarm sdk busy) ≡ [])
disarmed_silent_example = disarmed_silent sdk sdk-IsDocumented 9 busy
