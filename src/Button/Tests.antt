-- ===== src/Button/Tests.antt =====
-- The button up, two bounces, a press that is held over four polls with a bounce in a window, and the
-- next press.
use rpi_pico_card_reader.Prelude.{◌≡◌, refl, [], ◌∷◌, true, false}
use rpi_pico_card_reader.Button.{polls}
use rpi_pico_card_reader.Button.Press.{down, polls_press}

polls_press_example :
    polls false (
      (true, false)
      ∷ (false, true)
      ∷ (true, true)
      ∷ down
      ∷ down
      ∷ (false, true)
      ∷ down
      ∷ (true, true)
      ∷ down
      ∷ [])
    ≡ false ∷ false ∷ false ∷ true ∷ false ∷ false ∷ false ∷ false ∷ true ∷ []
unfolding polls
polls_press_example =
    polls_press ((true, false) ∷ (false, true) ∷ (true, true) ∷ [])
      (down ∷ (false, true) ∷ down ∷ []) true (down ∷ []) (refl, (refl, (refl, tt)))
      (refl, (refl, (refl, tt)))
