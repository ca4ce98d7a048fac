-- ===== src/Pio/Tests.antt =====
-- Runs of the two programs of the PIO, and uses of their theorems there.
use rpi_pico_card_reader.Prelude.{
  ℕ, ◌≡◌, refl, List, [], ◌∷◌, ◌++◌, true, Option, none, some, arith,
}
use rpi_pico_card_reader.Wire.{presenter_word}
use rpi_pico_card_reader.Pio.{cleared, tick}
use rpi_pico_card_reader.Pio.Presenter.{run_feeds, strobed}
use rpi_pico_card_reader.Pio.Drain.{IsAtRest, waits, strobed_all, cleared-IsMachine}
use rpi_pico_card_reader.Pio.Waveform.{trace, ticks, waiting, waveform, duration, presentation}

-- Two characters, the second one put while the first is strobed.
abbrev schedule : List (Option ℕ)
schedule = some (1541) ∷ none ∷ none ∷ some (1802) ∷ []

strobed_all_example :
    (strobed (schedule ++ waits 40) cleared ≡ 0x5 ∷ 0x10a ∷ [])
    × IsAtRest (run_feeds (schedule ++ waits 40) cleared)
unfolding run_feeds tick
strobed_all_example = strobed_all schedule 40 cleared cleared-IsMachine (refl, refl) (omega arith)

presentation_example :
    let word = presenter_word 0xa true 2 1 in
    (trace (duration 2 1) (waiting word [] cleared) ≡ waveform 0 0x10a 2 1)
    × ((ticks (duration 2 1) (waiting word [] cleared)).pc ≡ 0)
    × ((ticks (duration 2 1) (waiting word [] cleared)).tx ≡ [])
presentation_example = presentation 0xa true 2 1 [] cleared
