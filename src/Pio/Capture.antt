-- ===== src/Pio/Capture.antt =====
-- The capture of a command: one word for each strobe of TU00N, sampled three ticks into it.
use rpi_pico_card_reader.Prelude.{
  ℕ, ◌+◌, ◌%◌, ◌≤◌, ◌<◌, ◌≡◌, refl, sym, ap, ◌∙◌, List, [], ◌∷◌, ◌++◌, append-nil, append_assoc,
  map, true, false, if◌then◌else◌, ltb, length, length-append, u32, arith,
}
use rpi_pico_card_reader.Pio.{Levels, Sm, tick, re_capture, fifo_depth}

unfoldable pub run_levels : List Levels → Sm → Sm
run_levels [] m = m
run_levels (l ∷ ls) m = run_levels ls (tick re_capture l m)

abbrev pub low : ℕ → Levels
low window = record { gpio = false; window = window }

abbrev pub high : ℕ → Levels
high window = record { gpio = true; window = window }

-- A pulse of TU00N between two low levels: the windows in each tick of it and after it.
pub record Pulse : Type 0 where
  pub before : List ℕ
  pub first : ℕ
  pub second : ℕ
  pub third : ℕ
  pub sampled : ℕ
  pub fifth : ℕ
  pub later : List ℕ
  pub after : ℕ

abbrev pub levels : Pulse → List Levels
levels p =
    map low p.before
    ++ (high p.first
        ∷ high p.second
        ∷ high p.third
        ∷ high p.sampled
        ∷ high p.fifth
        ∷ (map high p.later ++ low p.after ∷ []))

abbrev at : ℕ → ℕ → List ℕ → Sm → Sm
at pc isr rx m = record m { pc = pc; delay = 0; isr = isr; rx = rx; side = false }

-- The capture machine that waits for a pulse.
abbrev pub listening : List ℕ → Sm → Sm
listening rx m = at 0 0 rx m

run_levels-append :
    (ls ks : List Levels) (m : Sm) → run_levels (ls ++ ks) m ≡ run_levels ks (run_levels ls m)
unfolding run_levels
run_levels-append [] ks m = refl
run_levels-append (l ∷ ls) ks m = run_levels-append ls ks (tick re_capture l m)

stays_low :
    (ws : List ℕ) (rx : List ℕ) (m : Sm) → run_levels (map low ws) (at 0 0 rx m) ≡ at 0 0 rx m
unfolding run_levels tick
stays_low [] rx m = refl
stays_low (w ∷ ws) rx m = stays_low ws rx m

stays_high :
    (ws : List ℕ) (rx : List ℕ) (m : Sm) → run_levels (map high ws) (at 3 0 rx m) ≡ at 3 0 rx m
unfolding run_levels tick
stays_high [] rx m = refl
stays_high (w ∷ ws) rx m = stays_high ws rx m

sample :
    (a b c w e : ℕ) (rx : List ℕ) (m : Sm)
    → length rx < fifo_depth
    → run_levels (high a ∷ high b ∷ high c ∷ high w ∷ high e ∷ []) (at 0 0 rx m)
      ≡ at 3 0 (rx ++ w % 8192 ∷ []) m
unfolding run_levels tick
sample a b c w e rx m h =
    ap (λ r. if r then at 3 0 (rx ++ u32 (0 + w % 8192) ∷ []) m else at 2 (u32 (0 + w % 8192)) rx m)
      {x = ltb (length rx) fifo_depth} {y = true} (ground (arith, h))
    ∙ ap (λ k. at 3 0 (rx ++ k ∷ []) m) {x = u32 (0 + w % 8192)} {y = w % 8192} (omega arith)

-- Through one pulse, however long it is from five ticks on, the machine that listens captures one
-- word, the window three ticks after the first of the pulse, and listens again; the FIFO has room.
pulse_word :
    (p : Pulse) (rx : List ℕ) (m : Sm)
    → length rx < fifo_depth
    → run_levels (levels p) (at 0 0 rx m) ≡ at 0 0 (rx ++ p.sampled % 8192 ∷ []) m
unfolding run_levels tick
pulse_word p rx m h =
    let mid = high p.first ∷ high p.second ∷ high p.third ∷ high p.sampled ∷ high p.fifth ∷ [] in
    let rest = map high p.later ++ low p.after ∷ [] in
    let rx' = rx ++ p.sampled % 8192 ∷ [] in
    run_levels-append (map low p.before) (mid ++ rest) (at 0 0 rx m)
    ∙ ap (run_levels (mid ++ rest)) (stays_low p.before rx m)
    ∙ ap (run_levels rest) (sample p.first p.second p.third p.sampled p.fifth rx m h)
    ∙ run_levels-append (map high p.later) (low p.after ∷ []) (at 3 0 rx' m)
    ∙ ap (run_levels (low p.after ∷ [])) (stays_high p.later rx' m)

abbrev pub all_levels : List Pulse → List Levels
all_levels [] = []
all_levels (p ∷ ps) = levels p ++ all_levels ps

abbrev pub sampled_word : Pulse → ℕ
sampled_word p = p.sampled % 8192

-- The machine that listens captures the pulses one word each, in their order, as long as they find
-- room in the FIFO.
pub capture :
    (ps : List Pulse) (rx : List ℕ) (m : Sm)
    → length rx + length ps ≤ fifo_depth
    → run_levels (all_levels ps) (listening rx m) ≡ listening (rx ++ map sampled_word ps) m
unfolding run_levels
capture [] rx m h = ap (λ r. at 0 0 r m) (sym (append-nil rx))
capture (p ∷ ps) rx m h =
    let rx' = rx ++ sampled_word p ∷ [] in
    run_levels-append (levels p) (all_levels ps) (at 0 0 rx m)
    ∙ ap (run_levels (all_levels ps)) (pulse_word p rx m (omega (arith, h)))
    ∙ capture ps rx' m (omega (arith, h, length-append rx (sampled_word p ∷ [])))
    ∙ ap (λ r. at 0 0 r m) (append_assoc rx (sampled_word p ∷ []) (map sampled_word ps))
