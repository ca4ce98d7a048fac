-- ===== src/Pio/Waveform.antt =====
-- The waveform of one character: the pins and the strobe in each tick.
use rpi_pico_card_reader.Prelude.{
  ℕ, zero, suc, ◌+◌, ◌/◌, ◌%◌, ◌<◌, ◌≡◌, refl, ap, ap₂, subst, ◌∙◌, List, [], ◌∷◌, ◌++◌, Bool, true,
  false, if◌then◌else◌, ◌==◌, replicate, u32, arith,
}
use rpi_pico_card_reader.Wire.{presenter_word}
use rpi_pico_card_reader.Pio.{Sm, tick}
use rpi_pico_card_reader.Pio.Presenter.{present_tick, shown}

-- The pins and the strobe after each of n ticks.
unfoldable pub trace : ℕ → Sm → List (ℕ × Bool)
trace zero m = []
trace (suc n) m = ((present_tick m).pins, (present_tick m).side) ∷ trace n (present_tick m)

unfoldable pub ticks : ℕ → Sm → Sm
ticks zero m = m
ticks (suc n) m = ticks n (present_tick m)

abbrev Shows : ℕ → List (ℕ × Bool) → Sm → Sm → Type 0
Shows n xs m m' = (trace n m ≡ xs) × (ticks n m ≡ m')

append-Shows :
    (a b : ℕ) (xs ys : List (ℕ × Bool)) (m m' m'' : Sm)
    → Shows a xs m m'
    → Shows b ys m' m''
    → Shows (a + b) (xs ++ ys) m m''
unfolding trace ticks
append-Shows zero b xs ys m m' m'' (p, q) (r, s) = (
  ap (λ k. trace k m) {x = 0 + b} {y = b} (omega arith)
      ∙ ap (trace b) q
      ∙ r
      ∙ ap (λ zs. zs ++ ys) p,
  ap (λ k. ticks k m) {x = 0 + b} {y = b} (omega arith) ∙ ap (ticks b) q ∙ s,
)
append-Shows (suc a) b xs ys m m' m'' (p, q) h =
    let (r, s) =
      append-Shows a b (trace a (present_tick m)) ys (present_tick m) m' m'' (refl, q) h in
    (
      ap (λ k. trace k m) {x = suc a + b} {y = suc (a + b)} (omega arith)
          ∙ ap (λ zs. ((present_tick m).pins, (present_tick m).side) ∷ zs) r
          ∙ ap (λ zs. zs ++ ys) p,
      ap (λ k. ticks k m) {x = suc a + b} {y = suc (a + b)} (omega arith) ∙ s,
    )

cons-Shows :
    (n : ℕ) (xs : List (ℕ × Bool)) (m n1 m' : Sm)
    → present_tick m ≡ n1
    → Shows n xs n1 m'
    → Shows (suc n) ((n1.pins, n1.side) ∷ xs) m m'
unfolding trace ticks
cons-Shows n xs m n1 m' e (p, q) =
    (ap₂ (λ (k : Sm) zs. (k.pins, k.side) ∷ zs) e (ap (trace n) e ∙ p), ap (ticks n) e ∙ q)

abbrev st : ℕ → ℕ → ℕ → Bool → Sm → Sm
st pc x y side m = record m { pc = pc; delay = 0; x = x; y = y; side = side }

strobe_next :
    (n y : ℕ) (s : Bool) (m : Sm)
    → suc n < 4294967296
    → present_tick (st 3 (suc n) y s m) ≡ st 3 n y true m
unfolding tick
strobe_next n y s m h =
    ap (λ pc. st pc (u32 (suc n + 4294967295)) y true m) {x = if suc n == 0 then 4 else 3} {y = 3}
      (ground arith)
    ∙ ap (λ k. st 3 k y true m) {x = u32 (suc n + 4294967295)} {y = n} (omega (arith, h))

strobe_last : (y : ℕ) (s : Bool) (m : Sm) → present_tick (st 3 0 y s m) ≡ st 4 4294967295 y true m
unfolding tick
strobe_last y s m = refl

-- The loop at `wloop`: one tick more than the register says.
strobe_loop :
    (n y : ℕ) (s : Bool) (m : Sm)
    → n < 4294967296
    → Shows (suc n) (replicate (suc n) (m.pins, true)) (st 3 n y s m) (st 4 4294967295 y true m)
unfolding trace ticks
strobe_loop zero y s m h =
    cons-Shows 0 [] (st 3 0 y s m) (st 4 4294967295 y true m) (st 4 4294967295 y true m)
      (strobe_last y s m) (refl, refl)
strobe_loop (suc n) y s m h =
    cons-Shows (suc n) (replicate (suc n) (m.pins, true)) (st 3 (suc n) y s m) (st 3 n y true m)
      (st 4 4294967295 y true m) (strobe_next n y s m h) (strobe_loop n y true m (omega (arith, h)))

gap_next :
    (n x : ℕ) (s : Bool) (m : Sm)
    → suc n < 4294967296
    → present_tick (st 5 x (suc n) s m) ≡ st 5 x n false m
unfolding tick
gap_next n x s m h =
    ap (λ pc. st pc x (u32 (suc n + 4294967295)) false m) {x = if suc n == 0 then 0 else 5} {y = 5}
      (ground arith)
    ∙ ap (λ k. st 5 x k false m) {x = u32 (suc n + 4294967295)} {y = n} (omega (arith, h))

gap_last : (x : ℕ) (s : Bool) (m : Sm) → present_tick (st 5 x 0 s m) ≡ st 0 x 4294967295 false m
unfolding tick
gap_last x s m = refl

-- The loop at `gloop`.
gap_loop :
    (n x : ℕ) (s : Bool) (m : Sm)
    → n < 4294967296
    → Shows (suc n) (replicate (suc n) (m.pins, false)) (st 5 x n s m) (st 0 x 4294967295 false m)
unfolding trace ticks
gap_loop zero x s m h =
    cons-Shows 0 [] (st 5 x 0 s m) (st 0 x 4294967295 false m) (st 0 x 4294967295 false m)
      (gap_last x s m) (refl, refl)
gap_loop (suc n) x s m h =
    cons-Shows (suc n) (replicate (suc n) (m.pins, false)) (st 5 x (suc n) s m) (st 5 x n false m)
      (st 0 x 4294967295 false m) (gap_next n x s m h) (gap_loop n x false m (omega (arith, h)))

-- The presenter that waits for its next word, which is already in the FIFO.
abbrev pub waiting : ℕ → List ℕ → Sm → Sm
waiting w ws m = record m { pc = 0; delay = 0; tx = w ∷ ws }

abbrev pub width : ℕ → ℕ
width w = w / 512 % 256

abbrev pub gap : ℕ → ℕ
gap w = w / 512 / 256 % 32768

abbrev loaded : ℕ → List ℕ → Sm → Sm
loaded w ws m = record m { osr = w / 512 / 256; pins = shown w; tx = ws }

set_up :
    (w : ℕ) (ws : List ℕ) (m : Sm)
    → Shows 6
        ((m.pins, false) ∷ replicate 5 (shown w, false))
        (waiting w ws m)
        (st 3 (width w) m.y false (loaded w ws m))
unfolding trace ticks tick
set_up w ws m = (refl, refl)

released :
    (x y : ℕ) (s : Bool) (m : Sm)
    → Shows 1
        ((m.pins, false) ∷ [])
        (st 4 x y s m)
        (st 5 x (m.osr % 32768) false (record m { osr = m.osr / 32768 }))
unfolding trace ticks tick
released x y s m = (refl, refl)

-- What a word shows after the word before.
abbrev pub waveform : ℕ → ℕ → ℕ → ℕ → List (ℕ × Bool)
waveform old new w g =
    ((old, false) ∷ replicate 5 (new, false))
    ++ (replicate (w + 1) (new, true) ++ ((new, false) ∷ replicate (g + 1) (new, false)))

abbrev pub duration : ℕ → ℕ → ℕ
duration w g = 6 + (w + 1 + (1 + (g + 1)))

abbrev done : ℕ → List ℕ → Sm → Sm
done w ws m =
    st 0 4294967295 4294967295 false
      (record m { osr = w / 512 / 256 / 32768; pins = shown w; tx = ws })

word-Shows :
    (w : ℕ) (ws : List ℕ) (m : Sm)
    → Shows
        (duration (width w) (gap w))
        (waveform m.pins (shown w) (width w) (gap w))
        (waiting w ws m)
        (done w ws m)
word-Shows w ws m =
    let l = loaded w ws m in
    let r = record l { osr = l.osr / 32768 } in
    append-Shows 6 (width w + 1 + (1 + (gap w + 1)))
      ((m.pins, false) ∷ replicate 5 (shown w, false))
      (replicate (width w + 1) (shown w, true)
        ++ ((shown w, false) ∷ replicate (gap w + 1) (shown w, false)))
      (waiting w ws m) (st 3 (width w) m.y false l) (done w ws m) (set_up w ws m)
      (append-Shows (width w + 1) (1 + (gap w + 1)) (replicate (width w + 1) (shown w, true))
        (((shown w, false) ∷ replicate (gap w + 1) (shown w, false))) (st 3 (width w) m.y false l)
        (st 4 4294967295 m.y true l) (done w ws m)
        (subst
          (λ k.
            Shows k (replicate k (shown w, true)) (st 3 (width w) m.y false l)
              (st 4 4294967295 m.y true l))
          (omega arith) (strobe_loop (width w) m.y false l (omega arith)))
        (append-Shows 1 (gap w + 1) ((shown w, false) ∷ []) (replicate (gap w + 1) (shown w, false))
          (st 4 4294967295 m.y true l) (st 5 4294967295 (gap w) false r) (done w ws m)
          (released 4294967295 m.y true l)
          (subst
            (λ k.
              Shows k (replicate k (shown w, false)) (st 5 4294967295 (gap w) false r)
                (done w ws m))
            (omega arith) (gap_loop (gap w) 4294967295 false r (omega arith)))))

pub fields :
    (nibble : ℕ) (fini : Bool) (w g : ℕ)
    → let word = presenter_word nibble fini w g in
      (shown word ≡ nibble % 16 + (if fini then 256 else 0))
      × (width word ≡ w % 256)
      × (gap word ≡ g % 32768)
unfolding presenter_word
fields nibble true w g = omega arith
fields nibble false w g = omega arith

abbrev Presented : ℕ → List ℕ → Sm → ℕ → ℕ → ℕ → Type 0
Presented word ws m c w g =
    (trace (duration w g) (waiting word ws m) ≡ waveform m.pins c w g)
    × ((ticks (duration w g) (waiting word ws m)).pc ≡ 0)
    × ((ticks (duration w g) (waiting word ws m)).tx ≡ ws)

-- One presentation: the presenter that waits shows the pins of before for one tick, then the nibble
-- and FININ without the strobe for five ticks, with the strobe for W + 1 ticks, and without it for
-- G + 2 ticks, and waits for the next word; W is taken modulo 256 and G modulo 32768.
pub presentation :
    (nibble : ℕ) (fini : Bool) (w g : ℕ) (ws : List ℕ) (m : Sm)
    → let word = presenter_word nibble fini w g in
      let n = duration (w % 256) (g % 32768) in
      (trace n (waiting word ws m)
        ≡ waveform m.pins (nibble % 16 + (if fini then 256 else 0)) (w % 256) (g % 32768))
      × ((ticks n (waiting word ws m)).pc ≡ 0)
      × ((ticks n (waiting word ws m)).tx ≡ ws)
presentation nibble fini w g ws m =
    let word = presenter_word nibble fini w g in
    let (c, p, q) = fields nibble fini w g in
    let (t, e) = word-Shows word ws m in
    subst (λ (k : ℕ). Presented word ws m k (w % 256) (g % 32768)) c
      (subst (λ (k : ℕ). Presented word ws m (shown word) k (g % 32768)) p
        (subst (λ (k : ℕ). Presented word ws m (shown word) (width word) k) q
          (t, ap (λ (k : Sm). k.pc) e, ap (λ (k : Sm). k.tx) e)))
