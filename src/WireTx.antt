-- ===== src/WireTx.antt =====
-- src/wire_tx.c: the presenter's state machine, its interrupt and LUPOB. The calls of the SDK on the
-- state machine are an argument, with what they are documented to do; addresses are relative to the
-- place of the program.
pub mod Documented
pub mod Session
pub mod Idle
mod Tests
use rpi_pico_card_reader.Prelude.{
  ℕ, ◌+◌, ◌*◌, ◌/◌, ◌%◌, ◌^◌, ◌<◌, ◌≡◌, List, [], ◌∷◌, ◌++◌, Bool, true, false, if◌then◌else◌, ◌==◌,
  length, u32,
}
use rpi_pico_card_reader.Wire.{presenter_word}
use rpi_pico_card_reader.Pio.{Sm, fifo_depth}

-- A state machine of the PIO, and whether it is enabled.
pub record Port : Type 0 where
  pub sm : Sm
  pub enabled : Bool

-- pio_sm_set_enabled, pio_sm_clear_fifos, pio_sm_restart, pio_sm_exec of a jump and of a SET of one
-- pin to 0 (both with the side-set pin inactive), pio_sm_set_pins_with_mask for the pins 0 to 9,
-- pio_sm_put, pio_sm_is_tx_fifo_full and pio_sm_get_tx_fifo_level.
pub record Sdk : Type 0 where
  pub set_enabled : Bool → Port → Port
  pub clear_fifos : Port → Port
  pub restart : Port → Port
  pub jump : ℕ → Port → Port
  pub clear_pin : ℕ → Port → Port
  pub set_pins : ℕ → Port → Port
  pub put : ℕ → Port → Port
  pub is_full : Port → Bool
  pub level : Port → ℕ

pub record Tx : Type 0 where
  pub port : Port
  pub feed_irq : Bool
  pub lupor : Bool
  pub tx_feed_irqs : ℕ

abbrev pub gp_finin : ℕ
gp_finin = 8

unfoldable pub wire_tx_feed_irq : Bool → Tx → Tx
wire_tx_feed_irq on t = record t { feed_irq = on }

unfoldable pub wire_tx_set_ready : Bool → Tx → Tx
wire_tx_set_ready ready t = record t { lupor = ready }

-- feeder is what feeder_on_txfeed does.
unfoldable pub pio0_irq0_handler : (Tx → Tx) → Tx → Tx
pio0_irq0_handler feeder_on_txfeed t =
    feeder_on_txfeed (record t { tx_feed_irqs = u32 (t.tx_feed_irqs + 1) })

module _ (sdk : Sdk) where
  unfoldable pub wire_tx_arm : Tx → Tx
  unfolding wire_tx_feed_irq
  wire_tx_arm t =
      let p = sdk.clear_fifos (sdk.set_enabled false t.port) in
      record (wire_tx_feed_irq false t) { port = sdk.set_enabled true (sdk.jump 0 (sdk.restart p)) }

  unfoldable pub wire_tx_disarm : Tx → Tx
  unfolding wire_tx_feed_irq
  wire_tx_disarm t = record (wire_tx_feed_irq false t) {
    port = sdk.set_pins 0 (sdk.clear_fifos (sdk.set_enabled false t.port));
  }

  unfoldable pub wire_tx_full : Tx → Bool
  wire_tx_full t = sdk.is_full t.port

  unfoldable pub wire_tx_fifo_level : Tx → ℕ
  wire_tx_fifo_level t = sdk.level t.port

  unfoldable pub wire_tx_push : ℕ → Bool → ℕ → ℕ → Tx → Tx
  wire_tx_push nibble fini w_ticks g_ticks t = record t {
    port = sdk.put (presenter_word nibble fini w_ticks g_ticks) t.port;
  }

  -- PINCTRL names the one pin GP_FININ for the SET, and is put back.
  unfoldable pub wire_tx_release_finin : Tx → Tx
  wire_tx_release_finin t = record t { port = sdk.clear_pin gp_finin t.port }
