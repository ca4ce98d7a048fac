-- ===== src/Pio/Drain.antt =====
-- The presenter comes to rest: how many ticks its words still take.
use rpi_pico_card_reader.Prelude.{
  ℕ, zero, suc, ◌+◌, ◌/◌, ◌%◌, ◌≤◌, ◌<◌, ◌≡◌, ◌⊎◌, inl, inr, refl, sym, ap, ap₂, subst, ◌∙◌, List,
  [], ◌∷◌, ◌++◌, map, append-nil, Option, none, some, if◌then◌else◌, ◌==◌, arith,
}
use rpi_pico_card_reader.Pio.{Sm, cleared, tick}
use rpi_pico_card_reader.Pio.Presenter.{
  present_tick, shown, current, due, IsPresenter, present_tick_lem, feed, feed-IsPresenter,
  run_feeds, strobed, fed, strobed_lem,
}

-- The ticks from `out pins` on, of which the word is in the output register.
abbrev pub char_ticks : ℕ → ℕ
char_ticks w = 4 + (1 + (w / 512 % 256 + 1) + (1 + (w / 131072 % 32768 + 1)))

abbrev fifo_ticks : List ℕ → ℕ
fifo_ticks [] = 0
fifo_ticks (w ∷ ws) = 1 + char_ticks w + fifo_ticks ws

abbrev gap_ticks : ℕ → ℕ
gap_ticks osr = 1 + (osr % 32768 + 1)

-- What is left of the character at each instruction.
abbrev pub ticks_left : Sm → ℕ
ticks_left m =
    (if m.pc == 1
      then char_ticks m.osr
      else if m.pc == 2
      then m.delay + (1 + (m.osr % 256 + 1) + gap_ticks (m.osr / 256))
      else if m.pc == 3
      then m.x + 1 + gap_ticks m.osr
      else if m.pc == 4
      then gap_ticks m.osr
      else if m.pc == 5
      then m.y + 1
      else 0)
    + fifo_ticks m.tx

pub record IsMachine (m : Sm) : Type 0 where
  pub between : IsPresenter m
  pub x_fits : m.x < 4294967296
  pub y_fits : m.y < 4294967296

abbrev Shorter : Sm → Type 0
Shorter m = (m.pc ≡ 0) × (m.tx ≡ []) ⊎ (ticks_left (present_tick m) + 1 ≡ ticks_left m)

abbrev at : ℕ → ℕ → List ℕ → Sm → Sm
at pc delay tx m = record m { pc = pc; delay = delay; tx = tx }

shorter :
    (pc delay : ℕ) (tx : List ℕ) (m : Sm)
    → IsMachine (at pc delay tx m)
    → Shorter (at pc delay tx m)
unfolding tick
shorter zero zero [] m h = inl (refl, refl)
shorter zero zero (w ∷ ws) m h = inr (ground (arith, h.between.no_delay))
shorter zero (suc d) tx m h = absurd (ground (arith, h.between.no_delay))
shorter (suc zero) zero tx m h = inr (ground arith)
shorter (suc zero) (suc d) tx m h = absurd (ground (arith, h.between.no_delay))
shorter (suc (suc zero)) zero tx m h = inr (ground arith)
shorter (suc (suc zero)) (suc d) tx m h = inr (ground arith)
shorter (suc (suc (suc zero))) zero tx m h = inr (ground (arith, h.x_fits))
shorter (suc (suc (suc zero))) (suc d) tx m h = absurd (ground (arith, h.between.no_delay))
shorter (suc (suc (suc (suc zero)))) zero tx m h = inr (ground arith)
shorter (suc (suc (suc (suc zero)))) (suc d) tx m h = absurd (ground (arith, h.between.no_delay))
shorter (suc (suc (suc (suc (suc zero))))) zero tx m h = inr (ground (arith, h.y_fits))
shorter (suc (suc (suc (suc (suc zero))))) (suc d) tx m h =
    absurd (ground (arith, h.between.no_delay))
shorter (suc (suc (suc (suc (suc (suc n)))))) d tx m h =
    absurd (omega (arith, h.between.in_program))

pub present_tick-Shorter : (m : Sm) → IsMachine m → Shorter m
present_tick-Shorter m h = shorter m.pc m.delay m.tx m h

abbrev Fits : Sm → Type 0
Fits m = (m.x < 4294967296) × (m.y < 4294967296)

tick-Fits :
    (pc delay : ℕ) (tx : List ℕ) (m : Sm)
    → IsMachine (at pc delay tx m)
    → Fits (present_tick (at pc delay tx m))
unfolding tick
tick-Fits zero zero [] m h = ground (arith, h.x_fits, h.y_fits)
tick-Fits zero zero (w ∷ ws) m h = ground (arith, h.x_fits, h.y_fits)
tick-Fits pc (suc d) tx m h = ground (arith, h.x_fits, h.y_fits)
tick-Fits (suc zero) zero tx m h = ground (arith, h.x_fits, h.y_fits)
tick-Fits (suc (suc zero)) zero tx m h = ground (arith, h.x_fits, h.y_fits)
tick-Fits (suc (suc (suc zero))) zero tx m h = ground (arith, h.x_fits, h.y_fits)
tick-Fits (suc (suc (suc (suc zero)))) zero tx m h = ground (arith, h.x_fits, h.y_fits)
tick-Fits (suc (suc (suc (suc (suc zero))))) zero tx m h = ground (arith, h.x_fits, h.y_fits)
tick-Fits (suc (suc (suc (suc (suc (suc n)))))) zero tx m h =
    absurd (omega (arith, h.between.in_program))

pub present_tick-IsMachine : (m : Sm) → IsMachine m → IsMachine (present_tick m)
present_tick-IsMachine m h =
    let (x, y) = tick-Fits m.pc m.delay m.tx m h in
    record { between = (present_tick_lem m h.between).0; x_fits = x; y_fits = y }

pub feed-IsMachine : (f : Option ℕ) (m : Sm) → IsMachine m → IsMachine (feed f m)
feed-IsMachine none m h = h
feed-IsMachine (some w) m h = record {
  between = feed-IsPresenter (some w) m h.between;
  x_fits = h.x_fits;
  y_fits = h.y_fits;
}

pub run_feeds-IsMachine : (fs : List (Option ℕ)) (m : Sm) → IsMachine m → IsMachine (run_feeds fs m)
unfolding run_feeds
run_feeds-IsMachine [] m h = h
run_feeds-IsMachine (f ∷ fs) m h =
    run_feeds-IsMachine fs (present_tick (feed f m))
      (present_tick-IsMachine (feed f m) (feed-IsMachine f m h))

-- n ticks without a word for the FIFO.
abbrev pub waits : ℕ → List (Option ℕ)
waits zero = []
waits (suc n) = none ∷ waits n

fed-waits : (n : ℕ) → fed (waits n) ≡ []
fed-waits zero = refl
fed-waits (suc n) = fed-waits n

abbrev pub IsAtRest : Sm → Type 0
IsAtRest m = (m.pc ≡ 0) × (m.tx ≡ [])

rest_at :
    (pc delay : ℕ) (tx : List ℕ) (m : Sm)
    → IsMachine (at pc delay tx m)
    → pc ≡ 0
    → tx ≡ []
    → IsAtRest (present_tick (at pc delay tx m))
unfolding tick
rest_at zero zero [] m h p q = (refl, refl)
rest_at zero zero (w ∷ ws) m h p q = absurd (ground (arith, q))
rest_at zero (suc d) tx m h p q = absurd (ground (arith, h.between.no_delay))
rest_at (suc pc) d tx m h p q = absurd (omega (arith, p))

tick-IsAtRest : (m : Sm) → IsMachine m → IsAtRest m → IsAtRest (present_tick m)
tick-IsAtRest m h r = rest_at m.pc m.delay m.tx m h r.0 r.1

rest_left : (n : ℕ) (m : Sm) → IsAtRest m → ticks_left m ≤ n
rest_left n m (p, q) = ground (arith, p, ap fifo_ticks q)

pub waits-IsAtRest :
    (n : ℕ) (m : Sm) → IsMachine m → ticks_left m ≤ n → IsAtRest (run_feeds (waits n) m)
unfolding run_feeds
waits-IsAtRest zero m h le = elim (present_tick-Shorter m h) [
  | inl r ↦ r
  | inr e ↦ absurd (omega (arith, e))
]
waits-IsAtRest (suc n) m h le = elim (present_tick-Shorter m h) [
  | inl r ↦
      waits-IsAtRest n (present_tick m) (present_tick-IsMachine m h)
        (rest_left n (present_tick m) (tick-IsAtRest m h r))
  | inr e ↦ waits-IsAtRest n (present_tick m) (present_tick-IsMachine m h) (omega (arith, e))
]

-- Once the presenter is at rest nothing is due.
due-rest : (m : Sm) → IsAtRest m → due m ≡ []
due-rest m (p, q) = ap (λ xs. current m ++ map shown xs) q ∙ ground (arith, p)

run_feeds-append :
    (fs gs : List (Option ℕ)) (m : Sm) → run_feeds (fs ++ gs) m ≡ run_feeds gs (run_feeds fs m)
unfolding run_feeds
run_feeds-append [] gs m = refl
run_feeds-append (f ∷ fs) gs m = run_feeds-append fs gs (present_tick (feed f m))

fed-append : (fs gs : List (Option ℕ)) → fed (fs ++ gs) ≡ fed fs ++ fed gs
fed-append [] gs = refl
fed-append (none ∷ fs) gs = fed-append fs gs
fed-append (some w ∷ fs) gs = ap (λ ws. w ∷ ws) (fed-append fs gs)

-- The presenter that waits for a word strobes the words that it is fed, each once, in their order and
-- with its own pins, whatever the ticks between them; it is back at rest after as many ticks as the
-- words that are left take, or more.
pub strobed_all :
    (fs : List (Option ℕ)) (n : ℕ) (m : Sm)
    → IsMachine m
    → IsAtRest m
    → ticks_left (run_feeds fs m) ≤ n
    → (strobed (fs ++ waits n) m ≡ map shown (fed fs)) × IsAtRest (run_feeds (fs ++ waits n) m)
strobed_all fs n m h r enough =
    let all = fs ++ waits n in
    let last : IsAtRest (run_feeds all m) =
      subst IsAtRest (sym (run_feeds-append fs (waits n) m))
        (waits-IsAtRest n (run_feeds fs m) (run_feeds-IsMachine fs m h) enough) in
    let (_, e) = strobed_lem all m h.between in
    (
      sym (append-nil (strobed all m))
          ∙ ap (λ xs. strobed all m ++ xs) (sym (due-rest (run_feeds all m) last))
          ∙ e
          ∙ ap₂ (λ xs ws. xs ++ map shown ws) (due-rest m r)
              (fed-append fs (waits n)
                ∙ ap (λ ws. fed fs ++ ws) (fed-waits n)
                ∙ append-nil (fed fs)),
      last,
    )

-- The cleared machine is one between two ticks.
pub cleared-IsMachine : IsMachine cleared
cleared-IsMachine = record {
  between = record {
    in_program = omega arith;
    no_delay = inr refl;
    strobing = λ p. absurd (ground (arith, p));
  };
  x_fits = omega arith;
  y_fits = omega arith;
}
