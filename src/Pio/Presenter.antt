-- ===== src/Pio/Presenter.antt =====
-- The presenter as a queue of characters: what its strobes show, whenever its FIFO is fed.
use rpi_pico_card_reader.Prelude.{
  ℕ, zero, suc, ◌%◌, ◌<◌, ◌≡◌, ◌⊎◌, refl, sym, ap, ◌∙◌, List, [], ◌∷◌, ◌++◌, map, map-append,
  append_assoc, append-nil, true, false, not, ◌&&◌, ◌||◌, Option, none, some, if◌then◌else◌, ◌==◌,
  arith,
}
use rpi_pico_card_reader.Pio.{Levels, Sm, tick, presenter}

abbrev pub idle_levels : Levels
idle_levels = record { gpio = false; window = 0 }

abbrev pub present_tick : Sm → Sm
present_tick = tick presenter idle_levels

-- The pins of a word: the nibble and FININ.
abbrev pub shown : ℕ → ℕ
shown w = w % 512

-- What a tick shows to the machine: the pins, at the front of the strobe.
abbrev pub strobe : Sm → Sm → List ℕ
strobe m m' = if not m.side && m'.side then m'.pins ∷ [] else []

-- The character that has left the FIFO and is still to be strobed.
abbrev pub current : Sm → List ℕ
current m =
    if m.pc == 1
    then shown m.osr ∷ []
    else if m.pc == 2 || m.pc == 3 && not m.side
    then m.pins ∷ []
    else []

-- What is still to be strobed.
abbrev pub due : Sm → List ℕ
due m = current m ++ map shown m.tx

-- The presenter between two ticks.
pub record IsPresenter (m : Sm) : Type 0 where
  pub in_program : m.pc < 6
  pub no_delay : m.pc ≡ 2 ⊎ (m.delay ≡ 0)
  pub strobing : m.side ≡ true → (m.pc ≡ 3) ⊎ (m.pc ≡ 4)

abbrev pub Ticked : Sm → Type 0
Ticked m =
    IsPresenter (present_tick m) × (strobe m (present_tick m) ++ due (present_tick m) ≡ due m)

abbrev at : ℕ → ℕ → List ℕ → Sm → Sm
at pc delay tx m = record m { pc = pc; delay = delay; tx = tx }

tick_lem :
    (pc delay : ℕ) (tx : List ℕ) (m : Sm)
    → IsPresenter (at pc delay tx m)
    → Ticked (at pc delay tx m)
unfolding tick
tick_lem zero zero [] m h = ground (arith, h.no_delay, h.strobing)
tick_lem zero zero (w ∷ ws) m h = ground (arith, h.no_delay, h.strobing)
tick_lem zero (suc d) tx m h = absurd (ground (arith, h.no_delay))
tick_lem (suc zero) zero tx m h = ground (arith, h.no_delay, h.strobing)
tick_lem (suc zero) (suc d) tx m h = absurd (ground (arith, h.no_delay))
tick_lem (suc (suc zero)) zero tx m h = ground (arith, h.no_delay, h.strobing)
tick_lem (suc (suc zero)) (suc d) tx m h = ground (arith, h.no_delay, h.strobing)
tick_lem (suc (suc (suc zero))) zero tx m h = ground (arith, h.no_delay, h.strobing)
tick_lem (suc (suc (suc zero))) (suc d) tx m h = absurd (ground (arith, h.no_delay))
tick_lem (suc (suc (suc (suc zero)))) zero tx m h = ground (arith, h.no_delay, h.strobing)
tick_lem (suc (suc (suc (suc zero)))) (suc d) tx m h = absurd (ground (arith, h.no_delay))
tick_lem (suc (suc (suc (suc (suc zero))))) zero tx m h = ground (arith, h.no_delay, h.strobing)
tick_lem (suc (suc (suc (suc (suc zero))))) (suc d) tx m h = absurd (ground (arith, h.no_delay))
tick_lem (suc (suc (suc (suc (suc (suc n)))))) d tx m h = absurd (omega (arith, h.in_program))

pub present_tick_lem : (m : Sm) → IsPresenter m → Ticked m
present_tick_lem m h = tick_lem m.pc m.delay m.tx m h

-- pio_sm_put
abbrev pub put : ℕ → Sm → Sm
put w m = record m { tx = m.tx ++ w ∷ [] }

-- A schedule: in each tick a word may be put into the FIFO.
abbrev pub feed : Option ℕ → Sm → Sm
feed none m = m
feed (some w) m = put w m

unfoldable pub run_feeds : List (Option ℕ) → Sm → Sm
run_feeds [] m = m
run_feeds (f ∷ fs) m = run_feeds fs (present_tick (feed f m))

-- The characters that the machine is strobed.
pub strobed : List (Option ℕ) → Sm → List ℕ
strobed [] m = []
strobed (f ∷ fs) m =
    strobe (feed f m) (present_tick (feed f m)) ++ strobed fs (present_tick (feed f m))

abbrev pub fed : List (Option ℕ) → List ℕ
fed [] = []
fed (none ∷ fs) = fed fs
fed (some w ∷ fs) = w ∷ fed fs

pub due-put : (w : ℕ) (m : Sm) → due (put w m) ≡ due m ++ shown w ∷ []
due-put w m =
    ap (λ xs. current m ++ xs) (map-append shown m.tx (w ∷ []))
    ∙ sym (append_assoc (current m) (map shown m.tx) (shown w ∷ []))

pub feed-IsPresenter : (f : Option ℕ) (m : Sm) → IsPresenter m → IsPresenter (feed f m)
feed-IsPresenter none m h = h
feed-IsPresenter (some w) m h = record {
  in_program = h.in_program;
  no_delay = h.no_delay;
  strobing = h.strobing;
}

due-feed : (f : Option ℕ) (m : Sm) → due (feed f m) ≡ due m ++ map shown (fed (f ∷ []))
due-feed none m = sym (append-nil (due m))
due-feed (some w) m = due-put w m

fed-cons : (f : Option ℕ) (fs : List (Option ℕ)) → fed (f ∷ fs) ≡ fed (f ∷ []) ++ fed fs
fed-cons none fs = refl
fed-cons (some w) fs = refl

-- However the ticks and the words are interleaved, the characters that were strobed and those that
-- are due are the ones that were due before and the words that were fed, in their order.
pub strobed_lem :
    (fs : List (Option ℕ)) (m : Sm)
    → IsPresenter m
    → IsPresenter (run_feeds fs m)
      × (strobed fs m ++ due (run_feeds fs m) ≡ due m ++ map shown (fed fs))
unfolding run_feeds strobed
strobed_lem [] m h = (h, sym (append-nil (due m)))
strobed_lem (f ∷ fs) m h =
    let n = feed f m in
    let (next, same) = present_tick_lem n (feed-IsPresenter f m h) in
    let (last, rest) = strobed_lem fs (present_tick n) next in
    (
      last,
      append_assoc (strobe n (present_tick n)) (strobed fs (present_tick n))
            (due (run_feeds fs (present_tick n)))
          ∙ ap (λ xs. strobe n (present_tick n) ++ xs) rest
          ∙ sym
              (append_assoc (strobe n (present_tick n)) (due (present_tick n)) (map shown (fed fs)))
          ∙ ap (λ xs. xs ++ map shown (fed fs)) (same ∙ due-feed f m)
          ∙ append_assoc (due m) (map shown (fed (f ∷ []))) (map shown (fed fs))
          ∙ ap (λ xs. due m ++ xs)
              (sym (map-append shown (fed (f ∷ [])) (fed fs))
                ∙ ap (map shown) (sym (fed-cons f fs))),
    )
