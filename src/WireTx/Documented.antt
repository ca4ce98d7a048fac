-- ===== src/WireTx/Documented.antt =====
-- What the SDK documents of the presenter's state machine, and wire_tx_arm and wire_tx_disarm by it.
use rpi_pico_card_reader.Prelude.{
  ℕ, zero, suc, ◌+◌, ◌*◌, ◌/◌, ◌%◌, ◌^◌, ◌≤◌, ◌<◌, ◌≡◌, inr, refl, ap, ◌∙◌, List, [], ◌∷◌, ◌++◌,
  Bool, true, false, ◌==◌, length, arith,
}
use rpi_pico_card_reader.Pio.{Sm, tick, fifo_depth}
use rpi_pico_card_reader.Pio.Presenter.{IsPresenter, present_tick}
use rpi_pico_card_reader.WireTx.{Port, Sdk, Tx, wire_tx_feed_irq, wire_tx_arm, wire_tx_disarm}

abbrev halted : Bool → Port → Port
halted b p = record p { enabled = b }

-- What the SDK documents of its calls. A restart keeps the registers x, y and osr, the pins and the
-- FIFOs, and clears the delay; a jump and a SET that are executed drive the side-set pin.
pub record IsDocumented (sdk : Sdk) : Type 0 where
  pub set_enabled : (b : Bool) (p : Port) → sdk.set_enabled b p ≡ record p { enabled = b }
  pub clear_fifos :
      (p : Port) → sdk.clear_fifos p ≡ record p { sm = record p.sm { tx = []; rx = [] } }
  pub restart : (p : Port) → sdk.restart p ≡ record p { sm = record p.sm { delay = 0; isr = 0 } }
  pub jump :
      (a : ℕ) (p : Port) → sdk.jump a p ≡ record p { sm = record p.sm { pc = a; side = false } }
  pub clear_pin :
      (k : ℕ) (p : Port)
      → sdk.clear_pin k p ≡ record p {
        sm = record p.sm {
          pins = p.sm.pins % 2 ^ k + p.sm.pins / 2 ^ (k + 1) * 2 ^ (k + 1);
          side = false;
        };
      }
  pub set_pins :
      (v : ℕ) (p : Port)
      → sdk.set_pins v p ≡ record p { sm = record p.sm { pins = v % 512; side = v / 512 % 2 == 1 } }
  pub put :
      (w : ℕ) (p : Port)
      → length p.sm.tx < fifo_depth
      → sdk.put w p ≡ record p { sm = record p.sm { tx = p.sm.tx ++ w ∷ [] } }
  pub is_full : (p : Port) → sdk.is_full p ≡ (length p.sm.tx == fifo_depth)

-- The presenter as wire_tx_arm leaves it.
abbrev pub armed : Sm → Sm
armed m = record m { pc = 0; delay = 0; isr = 0; side = false; tx = []; rx = [] }

module _ (sdk : Sdk) (doc : IsDocumented sdk) where
  pub arm_port :
      (t : Tx)
      → wire_tx_arm sdk t ≡ record t {
        port = record t.port { sm = armed t.port.sm; enabled = true };
        feed_irq = false;
      }
  unfolding wire_tx_arm wire_tx_feed_irq
  arm_port t =
      let halt = halted false t.port in
      let clear = record halt { sm = record halt.sm { tx = []; rx = [] } } in
      let start = record clear { sm = record clear.sm { delay = 0; isr = 0 } } in
      ap (λ (p : Port). record t { port = p; feed_irq = false })
        (ap (λ p. sdk.set_enabled true (sdk.jump 0 (sdk.restart (sdk.clear_fifos p))))
            (doc.set_enabled false t.port)
          ∙ ap (λ p. sdk.set_enabled true (sdk.jump 0 (sdk.restart p))) (doc.clear_fifos halt)
          ∙ ap (λ p. sdk.set_enabled true (sdk.jump 0 p)) (doc.restart clear)
          ∙ ap (λ p. sdk.set_enabled true p) (doc.jump 0 start)
          ∙ doc.set_enabled true (record start { sm = armed t.port.sm }))

  pub disarm_port :
      (t : Tx)
      → wire_tx_disarm sdk t ≡ record t {
        port = record t.port {
          sm = record t.port.sm { pins = 0; side = false; tx = []; rx = [] };
          enabled = false;
        };
        feed_irq = false;
      }
  unfolding wire_tx_disarm wire_tx_feed_irq
  disarm_port t =
      let halt = halted false t.port in
      ap (λ (p : Port). record t { port = p; feed_irq = false })
        (ap (λ p. sdk.set_pins 0 (sdk.clear_fifos p)) (doc.set_enabled false t.port)
          ∙ ap (λ p. sdk.set_pins 0 p) (doc.clear_fifos halt)
          ∙ doc.set_pins 0 (record halt { sm = record halt.sm { tx = []; rx = [] } }))

pub armed-IsPresenter : (m : Sm) → IsPresenter (armed m)
armed-IsPresenter m = record {
  in_program = omega arith;
  no_delay = inr refl;
  strobing = λ p. absurd (ground (arith, p));
}

-- A tick takes a word from the FIFO, or none.
pub tick_shrinks :
    (pc delay : ℕ) (tx : List ℕ) (m : Sm)
    → pc < 6
    → length (present_tick (record m { pc = pc; delay = delay; tx = tx })).tx ≤ length tx
unfolding tick
tick_shrinks zero zero [] m h = omega arith
tick_shrinks zero zero (w ∷ ws) m h = omega arith
tick_shrinks pc (suc d) tx m h = ground arith
tick_shrinks (suc zero) zero tx m h = ground arith
tick_shrinks (suc (suc zero)) zero tx m h = ground arith
tick_shrinks (suc (suc (suc zero))) zero tx m h = ground arith
tick_shrinks (suc (suc (suc (suc zero)))) zero tx m h = ground arith
tick_shrinks (suc (suc (suc (suc (suc zero))))) zero tx m h = ground arith
tick_shrinks (suc (suc (suc (suc (suc (suc n)))))) zero tx m h = absurd (omega (arith, h))
