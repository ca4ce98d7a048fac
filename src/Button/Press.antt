-- ===== src/Button/Press.antt =====
-- One press of the button, and one event.
use rpi_pico_card_reader.Prelude.{
  ◌≡◌, refl, ap, ◌∙◌, List, [], ◌∷◌, ◌++◌, Bool, true, false, ◌||◌, length, replicate, arith,
}
use rpi_pico_card_reader.Button.{polls}

-- A poll that finds the button down at both ends of the debounce window.
abbrev pub down : Bool × Bool
down = (false, false)

-- Polls that find the button up at one end of the window, or at both.
abbrev pub IsQuiet : List (Bool × Bool) → Type 0
IsQuiet [] = Unit
IsQuiet ((level, later) ∷ ps) = (level || later ≡ true) × IsQuiet ps

-- Polls that find the button down, whatever it does in the window.
abbrev pub IsHeld : List (Bool × Bool) → Type 0
IsHeld [] = Unit
IsHeld ((level, later) ∷ ps) = (level ≡ false) × IsHeld ps

-- As many results as there are polls, none of them an event.
abbrev pub no_events : List (Bool × Bool) → List Bool
no_events ps = replicate (length ps) false

quiet :
    (ps rest : List (Bool × Bool))
    → IsQuiet ps
    → polls false (ps ++ rest) ≡ no_events ps ++ polls false rest
unfolding polls
quiet [] rest h = refl
quiet ((true, later) ∷ ps) rest (p, h) = ap (λ xs. false ∷ xs) (quiet ps rest h)
quiet ((false, true) ∷ ps) rest (p, h) = ap (λ xs. false ∷ xs) (quiet ps rest h)
quiet ((false, false) ∷ ps) rest (p, h) = absurd (ground (arith, p))

held :
    (ps rest : List (Bool × Bool))
    → IsHeld ps
    → polls true (ps ++ rest) ≡ no_events ps ++ polls true rest
unfolding polls
held [] rest h = refl
held ((false, later) ∷ ps) rest (p, h) = ap (λ xs. false ∷ xs) (held ps rest h)
held ((true, later) ∷ ps) rest (p, h) = absurd (ground (arith, p))

-- A press gives exactly one event, at the first poll that finds the button down at both ends of the
-- debounce window: none comes from the polls before, which find it up at one end or at both, and none
-- while it is held, which is as long as each poll finds it down, whatever it does in the window. The
-- first poll that finds it up gives no event either, and makes the button ready for the next press.
pub polls_press :
    (before during : List (Bool × Bool)) (later : Bool) (rest : List (Bool × Bool))
    → IsQuiet before
    → IsHeld during
    → polls false (before ++ down ∷ (during ++ (true, later) ∷ rest))
      ≡ no_events before ++ true ∷ (no_events during ++ false ∷ polls false rest)
unfolding polls
polls_press before during later rest h k =
    quiet before (down ∷ (during ++ (true, later) ∷ rest)) h
    ∙ ap (λ xs. no_events before ++ true ∷ xs) (held during ((true, later) ∷ rest) k)
