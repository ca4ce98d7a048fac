-- ===== src/WireTx/Idle.antt =====
-- The presenter while it is disarmed, and between two cards.
use rpi_pico_card_reader.Prelude.{
  ℕ, zero, suc, ◌%◌, ◌<◌, ◌≡◌, refl, sym, subst, ap, ◌∙◌, [], ◌++◌, Bool, false, replicate,
  if◌then◌else◌, arith,
}
use rpi_pico_card_reader.Pio.Presenter.{strobe, due, present_tick}
use rpi_pico_card_reader.WireTx.{Port, Sdk, Tx, gp_finin, wire_tx_disarm, wire_tx_release_finin}
use rpi_pico_card_reader.WireTx.Documented.{IsDocumented, disarm_port}
use rpi_pico_card_reader.WireTx.Session.{tick_on, tx_step, run_tx, shown_by, IsRunning, no_strobe}

abbrev disarmed_tx : Tx → Tx
disarmed_tx t = record t {
  port = record t.port {
    sm = record t.port.sm { pins = 0; side = false; tx = []; rx = [] };
    enabled = false;
  };
  feed_irq = false;
}

abbrev Silent : Sdk → ℕ → Tx → Type 0
Silent sdk n t =
    let u = run_tx sdk (replicate n tick_on) t in
    (u.port.sm.pins ≡ 0)
    × (u.port.sm.side ≡ false)
    × (u.port.sm.tx ≡ [])
    × (u.feed_irq ≡ false)
    × (shown_by sdk (replicate n tick_on) t ≡ [])

disabled :
    (sdk : Sdk) (n : ℕ) (t : Tx)
    → t.port.enabled ≡ false
    → (run_tx sdk (replicate n tick_on) t ≡ t) × (shown_by sdk (replicate n tick_on) t ≡ [])
unfolding run_tx shown_by
disabled sdk zero t h = (refl, refl)
disabled sdk (suc n) t h =
    let same : tx_step sdk tick_on t ≡ t =
      ap
        (λ (b : Bool).
          if b then record t { port = record t.port { sm = present_tick t.port.sm } } else t)
        h in
    let (last, none_shown) = disabled sdk n t h in
    (
      ap (run_tx sdk (replicate n tick_on)) same ∙ last,
      ap (λ (u : Tx). strobe t.port.sm u.port.sm ++ shown_by sdk (replicate n tick_on) u) same
          ∙ ap (λ xs. xs ++ shown_by sdk (replicate n tick_on) t)
              (no_strobe t.port.sm t.port.sm refl)
          ∙ none_shown,
    )

-- After wire_tx_disarm the pins are inactive, the FIFO interrupt is off, and no tick shows or strobes
-- anything.
pub disarmed_silent :
    (sdk : Sdk)
    → IsDocumented sdk
    → (n : ℕ) (t : Tx)
    → let u = run_tx sdk (replicate n tick_on) (wire_tx_disarm sdk t) in
      (u.port.sm.pins ≡ 0)
      × (u.port.sm.side ≡ false)
      × (u.port.sm.tx ≡ [])
      × (u.feed_irq ≡ false)
      × (shown_by sdk (replicate n tick_on) (wire_tx_disarm sdk t) ≡ [])
disarmed_silent sdk doc n t =
    let u = disarmed_tx t in
    subst (λ (v : Tx). Silent sdk n v) (sym (disarm_port sdk doc t))
      (let (same, none_shown) = disabled sdk n u refl in
        (
          ap (λ (v : Tx). v.port.sm.pins) same,
          ap (λ (v : Tx). v.port.sm.side) same,
          ap (λ (v : Tx). v.port.sm.tx) same,
          ap (λ (v : Tx). v.feed_irq) same,
          none_shown,
        ))

-- Releasing FININ between two cards clears the pin of FININ alone: the data pins and what is still to
-- be strobed stay.
release_finin_lem :
    (sdk : Sdk)
    → IsDocumented sdk
    → (t : Tx) → IsRunning t
    → t.port.sm.pc ≡ 0
    → t.port.sm.pins < 512
    → let u = wire_tx_release_finin sdk t in
      (u.port.sm.pins ≡ t.port.sm.pins % 256) × (due u.port.sm ≡ due t.port.sm)
unfolding wire_tx_release_finin
release_finin_lem sdk doc t r p h =
    subst (λ (q : Port). (q.sm.pins ≡ t.port.sm.pins % 256) × (due q.sm ≡ due t.port.sm))
      (sym (doc.clear_pin gp_finin t.port)) (omega (arith, h), ground (arith, p))
