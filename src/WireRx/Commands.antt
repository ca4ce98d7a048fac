-- ===== src/WireRx/Commands.antt =====
-- From the strobes of TU00N to the commands of the feeder.
use rpi_pico_card_reader.Prelude.{
  ℕ, zero, suc, ◌+◌, ◌*◌, ◌%◌, ◌≤◌, ◌<◌, ◌≡◌, refl, sym, subst, ap, ◌∙◌, List, [], ◌∷◌, map, Option,
  none, some, true, false, if◌then◌else◌, ltb, get_or, length, bit_at, u32, arith,
}
use rpi_pico_card_reader.Deck.{DeckImg}
use rpi_pico_card_reader.Wire.{re_byte}
use rpi_pico_card_reader.Feeder.Commands.{feeder_on_re_cmd}
use rpi_pico_card_reader.Feeder.Run.{Input, step, run}
use rpi_pico_card_reader.Pio.{Op, Sm, nothing, re_capture, fifo_depth}
use rpi_pico_card_reader.Pio.Capture.{
  Pulse, run_levels, listening, all_levels, sampled_word, capture,
}
use rpi_pico_card_reader.WireRx.{
  Rx, Stage, wait_tu00, at_in, at_push, wait_end, count_word, wire_rx_sm_where, drain,
  pio1_irq0_handler,
}

-- The command that a pulse carries: bit i of it is RE0i, in the window that was sampled.
abbrev pub command : Pulse → ℕ
command p = bit_at p.sampled 12 + p.sampled % 128 * 2

sampled-command : (p : Pulse) → re_byte (sampled_word p) ≡ command p
unfolding re_byte
sampled-command p = omega arith

abbrev pub commands : List Pulse → List Input
commands ps = map (λ p. Input.re_cmd (command p)) ps

module _ (g_deck : ℕ → DeckImg) where
  drain_lem :
      (ps : List Pulse) (r : Rx)
      → let t = drain g_deck (map sampled_word ps) r in
        (t.feeder ≡ run g_deck (commands ps) r.feeder)
        × (t.fifo ≡ [])
        × (u32 (t.rxs.re_words) ≡ u32 (r.rxs.re_words + length ps))
        × (t.rxs.pio_irqs ≡ r.rxs.pio_irqs)
  unfolding drain run step
  drain_lem [] r = (refl, refl, omega arith, refl)
  drain_lem (p ∷ ps) r =
      let s = record r {
        rxs = count_word r.rxs;
        fifo = map sampled_word ps;
        feeder = feeder_on_re_cmd g_deck (re_byte (sampled_word p)) r.feeder;
      } in
      let (feeder, fifo, words, irqs) = drain_lem ps s in
      (
        feeder
            ∙ ap (λ re. run g_deck (commands ps) (feeder_on_re_cmd g_deck re r.feeder))
                (sampled-command p),
        fifo,
        omega (arith, words),
        irqs,
      )

abbrev Handled : (ℕ → DeckImg) → List Pulse → Rx → Rx → Type 0
Handled g_deck ps r t =
    (t.feeder ≡ run g_deck (commands ps) r.feeder)
    × (t.fifo ≡ [])
    × (u32 t.rxs.re_words ≡ u32 (r.rxs.re_words + length ps))
    × (t.rxs.pio_irqs ≡ u32 (r.rxs.pio_irqs + 1))

-- Up to four strobes of TU00N while the interrupt is held off: the handler then gives the feeder
-- their commands, each once and in their order, empties the FIFO, and counts one word for each
-- strobe and one interrupt.
pub strobes_to_commands :
    (g_deck : ℕ → DeckImg) (ps : List Pulse)
    → length ps ≤ fifo_depth
    → (m : Sm) (r : Rx)
    → let rx = (run_levels (all_levels ps) (listening [] m)).rx in
      let t = pio1_irq0_handler g_deck (record r { fifo = rx }) in
      (t.feeder ≡ run g_deck (commands ps) r.feeder)
      × (t.fifo ≡ [])
      × (u32 t.rxs.re_words ≡ u32 (r.rxs.re_words + length ps))
      × (t.rxs.pio_irqs ≡ u32 (r.rxs.pio_irqs + 1))
unfolding pio1_irq0_handler
strobes_to_commands g_deck ps h m r =
    let rxs = record r.rxs { pio_irqs = u32 (r.rxs.pio_irqs + 1) } in
    subst (λ (ws : List ℕ). Handled g_deck ps r (pio1_irq0_handler g_deck (record r { fifo = ws })))
      (sym (ap (λ (m : Sm). m.rx) (capture ps [] m (omega (arith, h)))))
      (drain_lem g_deck ps (record r { rxs = rxs; fifo = map sampled_word ps }))

-- The operation that a stage names.
abbrev pub stage_op : Option Stage → Option Op
stage_op none = none
stage_op (some wait_tu00) = some (Op.wait_gpio true)
stage_op (some at_in) = some (Op.in_pins 13)
stage_op (some at_push) = some Op.push_block
stage_op (some wait_end) = some (Op.wait_gpio false)

-- wire_rx_sm_where names the instruction that the capture executes next, wherever the program was
-- put in the 32 instructions of the PIO, and nothing for a place behind the program.
pub sm_where_lem :
    (pc offset : ℕ)
    → offset + pc < 32
    → stage_op (wire_rx_sm_where (offset + pc) offset)
      ≡ (if ltb pc 4 then some (get_or re_capture pc nothing).op else none)
unfolding wire_rx_sm_where
sm_where_lem zero offset h = ground (arith, h)
sm_where_lem (suc zero) offset h = ground (arith, h)
sm_where_lem (suc (suc zero)) offset h = ground (arith, h)
sm_where_lem (suc (suc (suc zero))) offset h = ground (arith, h)
sm_where_lem (suc (suc (suc (suc n)))) offset h = ground (arith, h)
