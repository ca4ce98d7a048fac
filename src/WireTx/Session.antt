-- ===== src/WireTx/Session.antt =====
-- The presenter while the feeder arms it and feeds it.
use rpi_pico_card_reader.Prelude.{
  ℕ, ◌+◌, ◌%◌, ◌≤◌, ◌<◌, ◌≡◌, inl, inr, refl, sym, subst, ap, ◌∙◌, List, [], ◌∷◌, ◌++◌, map, some,
  Bool, true, false, Bool-cases, append-nil, append_assoc, length-append, length-map, if◌then◌else◌,
  length, arith,
}
use rpi_pico_card_reader.Wire.{presenter_word}
use rpi_pico_card_reader.Pio.{Sm, fifo_depth}
use rpi_pico_card_reader.Pio.Presenter.{
  IsPresenter, present_tick_lem, strobe, due-put, shown, current, due, present_tick,
  feed-IsPresenter, put,
}
use rpi_pico_card_reader.Pio.Waveform.{fields}
use rpi_pico_card_reader.WireTx.{Port, Sdk, Tx, wire_tx_arm, wire_tx_full, wire_tx_push}
use rpi_pico_card_reader.WireTx.Documented.{IsDocumented, arm_port, armed-IsPresenter, tick_shrinks}

-- A character that the feeder presents, if the FIFO has room for it, or a tick.
pub data TxStep : Type 0 where
  present : ℕ → Bool → ℕ → ℕ → TxStep
  tick_on : TxStep

module _ (sdk : Sdk) where
  -- The feeder pushes while wire_tx_full says no, or when the interrupt says that there is room.
  abbrev pub tx_step : TxStep → Tx → Tx
  tx_step (present nibble fini w g) t =
      if wire_tx_full sdk t then t else wire_tx_push sdk nibble fini w g t
  tx_step tick_on t =
      if t.port.enabled
      then record t { port = record t.port { sm = present_tick t.port.sm } }
      else t

  unfoldable pub run_tx : List TxStep → Tx → Tx
  run_tx [] t = t
  run_tx (i ∷ is) t = run_tx is (tx_step i t)

  -- The pins and FININ of the characters that are pushed.
  abbrev one_pushed : TxStep → Tx → List ℕ
  one_pushed (present nibble fini w g) t =
      if wire_tx_full sdk t then [] else (nibble % 16 + (if fini then 256 else 0)) ∷ []
  one_pushed tick_on t = []

  unfoldable pub pushed : List TxStep → Tx → List ℕ
  pushed [] t = []
  pushed (i ∷ is) t = one_pushed i t ++ pushed is (tx_step i t)

  -- The characters that are strobed.
  unfoldable pub shown_by : List TxStep → Tx → List ℕ
  shown_by [] t = []
  shown_by (i ∷ is) t = strobe t.port.sm (tx_step i t).port.sm ++ shown_by is (tx_step i t)

-- An armed presenter.
pub record IsRunning (t : Tx) : Type 0 where
  pub enabled : t.port.enabled ≡ true
  pub between : IsPresenter t.port.sm
  pub room : length t.port.sm.tx ≤ fifo_depth

-- A step keeps what was and is to be strobed in the order of the pushes.
abbrev Kept : Tx → Tx → List ℕ → Type 0
Kept t u xs = IsRunning u × (strobe t.port.sm u.port.sm ++ due u.port.sm ≡ due t.port.sm ++ xs)

pub no_strobe : (m m' : Sm) → m.side ≡ m'.side → strobe m m' ≡ []
no_strobe m m' p = ground (arith, p)

stay-Kept : (t : Tx) → IsRunning t → Kept t t []
stay-Kept t r = (
  r,
  ap (λ xs. xs ++ due t.port.sm) (no_strobe t.port.sm t.port.sm refl)
      ∙ sym (append-nil (due t.port.sm)),
)

tick-Kept :
    (t : Tx)
    → IsRunning t
    → Kept t (record t { port = record t.port { sm = present_tick t.port.sm } }) []
tick-Kept t r =
    let (between, e) = present_tick_lem t.port.sm r.between in
    (
      record {
        enabled = r.enabled;
        between = between;
        room = omega (
          arith,
          r.room,
          tick_shrinks t.port.sm.pc t.port.sm.delay t.port.sm.tx t.port.sm r.between.in_program,
        );
      },
      e ∙ sym (append-nil (due t.port.sm)),
    )

put-Kept :
    (w : ℕ) (t : Tx)
    → length t.port.sm.tx < fifo_depth
    → IsRunning t
    → Kept t (record t { port = record t.port { sm = put w t.port.sm } }) (shown w ∷ [])
put-Kept w t h r = (
  record {
    enabled = r.enabled;
    between = feed-IsPresenter (some w) t.port.sm r.between;
    room = omega (arith, h, length-append t.port.sm.tx (w ∷ []));
  },
  ap (λ xs. xs ++ due (put w t.port.sm)) (no_strobe t.port.sm (put w t.port.sm) refl)
      ∙ due-put w t.port.sm,
)

module _ (sdk : Sdk) (doc : IsDocumented sdk) where
  push-Kept :
      (nibble : ℕ) (fini : Bool) (w g : ℕ) (t : Tx)
      → sdk.is_full t.port ≡ false
      → IsRunning t
      → Kept t (wire_tx_push sdk nibble fini w g t) ((nibble % 16 + (if fini then 256 else 0)) ∷ [])
  unfolding wire_tx_push
  push-Kept nibble fini w g t p r =
      let word = presenter_word nibble fini w g in
      let h : length t.port.sm.tx < fifo_depth =
        ground (arith, r.room, sym (doc.is_full t.port) ∙ p) in
      subst
        (λ (q : Port).
          Kept t (record t { port = q }) ((nibble % 16 + (if fini then 256 else 0)) ∷ []))
        (sym (doc.put word t.port h))
        (subst
          (λ (c : ℕ).
            Kept t (record t { port = record t.port { sm = put word t.port.sm } }) (c ∷ []))
          (fields nibble fini w g).0 (put-Kept word t h r))

  step_lem : (i : TxStep) (t : Tx) → IsRunning t → Kept t (tx_step sdk i t) (one_pushed sdk i t)
  unfolding wire_tx_full
  step_lem tick_on t r =
      subst
        (λ (b : Bool).
          Kept t
            (if b then record t { port = record t.port { sm = present_tick t.port.sm } } else t) [])
        (sym r.enabled) (tick-Kept t r)
  step_lem (present nibble fini w g) t r =
      let chosen : Bool → Type 0 = λ b.
        Kept t (if b then t else wire_tx_push sdk nibble fini w g t)
          (if b then [] else (nibble % 16 + (if fini then 256 else 0)) ∷ []) in
      elim (Bool-cases (sdk.is_full t.port)) [
        | inl p ↦ subst chosen (sym p) (stay-Kept t r)
        | inr p ↦ subst chosen (sym p) (push-Kept nibble fini w g t p r)
      ]

  run_lem :
      (is : List TxStep) (t : Tx)
      → IsRunning t
      → IsRunning (run_tx sdk is t)
        × (shown_by sdk is t ++ due (run_tx sdk is t).port.sm ≡ due t.port.sm ++ pushed sdk is t)
  unfolding run_tx pushed shown_by
  run_lem [] t r = (r, sym (append-nil (due t.port.sm)))
  run_lem (i ∷ is) t r =
      let u = tx_step sdk i t in
      let (running, e) = step_lem i t r in
      let (last, rest) = run_lem is u running in
      (
        last,
        append_assoc (strobe t.port.sm u.port.sm) (shown_by sdk is u)
              (due (run_tx sdk is u).port.sm)
            ∙ ap (λ xs. strobe t.port.sm u.port.sm ++ xs) rest
            ∙ sym (append_assoc (strobe t.port.sm u.port.sm) (due u.port.sm) (pushed sdk is u))
            ∙ ap (λ xs. xs ++ pushed sdk is u) e
            ∙ append_assoc (due t.port.sm) (one_pushed sdk i t) (pushed sdk is u),
      )

  armed-IsRunning : (t : Tx) → IsRunning (wire_tx_arm sdk t)
  armed-IsRunning t =
      subst IsRunning (sym (arm_port sdk doc t))
        (record { enabled = refl; between = armed-IsPresenter t.port.sm; room = omega arith })

due_bound : (m : Sm) → length m.tx ≤ fifo_depth → length (due m) ≤ 5
due_bound m h = ground (arith, length-append (current m) (map shown m.tx), length-map shown m.tx)

-- What is left of a presentation is not shown any more once the presenter is armed again: from
-- wire_tx_arm on, whatever the state before, the strobes show the characters pushed since, each once
-- and in their order, less those that are still to be strobed; of these there are five at most.
pub armed_session :
    (sdk : Sdk)
    → IsDocumented sdk
    → (is : List TxStep) (t : Tx)
    → let start = wire_tx_arm sdk t in
      let u = run_tx sdk is start in
      (shown_by sdk is start ++ due u.port.sm ≡ pushed sdk is start)
      × (length (due u.port.sm) ≤ 5)
      × (start.feed_irq ≡ false)
armed_session sdk doc is t =
    let start = wire_tx_arm sdk t in
    let u = run_tx sdk is start in
    let (running, e) = run_lem sdk doc is start (armed-IsRunning sdk doc t) in
    (
      e ∙ ap (λ (v : Tx). due v.port.sm ++ pushed sdk is start) (arm_port sdk doc t),
      due_bound u.port.sm running.room,
      ap (λ (v : Tx). v.feed_irq) (arm_port sdk doc t),
    )
