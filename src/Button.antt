-- ===== src/Button.antt =====
-- src/button.c: the debounce of the button. A level is `true` where the pin is high, the button up.
mod Press
mod Tests
use rpi_pico_card_reader.Prelude.{List, [], ◌∷◌, Bool, true, false, not, if◌then◌else◌}

-- button_poll: from s_pressed, the level at the call and the one after the debounce window, the new
-- s_pressed and the result.
unfoldable pub button_poll : Bool → Bool → Bool → Bool × Bool
button_poll pressed level later =
    if not pressed
    then (if not level
        then (if not later then (true, true) else (pressed, false))
        else (pressed, false))
    else if level
    then (false, false)
    else (pressed, false)

-- The results of a sequence of polls.
unfoldable pub polls : Bool → List (Bool × Bool) → List Bool
unfolding button_poll
polls pressed [] = []
polls pressed ((level, later) ∷ rest) =
    let (pressed', result) = button_poll pressed level later in result ∷ polls pressed' rest
