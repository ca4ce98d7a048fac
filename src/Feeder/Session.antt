-- ===== src/Feeder/Session.antt =====
-- The cursor and the pins over whole sessions of core1 (src/feeder.c).
use rpi_pico_card_reader.Prelude.{
  ℕ, ◌+◌, ◌%◌, ◌<◌, ◌≡◌, ◌≢◌, ◌⊎◌, inl, inr, u16, true, false, none, some, arith, List, [], ◌∷◌,
}
use rpi_pico_card_reader.Deck.{DeckImg, deck_max_cols}
use rpi_pico_card_reader.Feeder.Types.{disarmed, done, error, Feeder, start_card, cursor_reset}
use rpi_pico_card_reader.Feeder.Mailbox.{
  IpcOp, arm, disarm, rewind, eject, set_param, inject_error, go, other, apply_param, on_arm,
  on_disarm, on_rewind, on_eject, go_target, on_go, on_op, feeder_on_ipc,
}
use rpi_pico_card_reader.Feeder.Run.{Input, step, run, started}
use rpi_pico_card_reader.Feeder.Cursor.{IsFeedable}
use rpi_pico_card_reader.Feeder.Memory.{
  IsSafe, lupob_update-IsSafe, re_cmd-IsSafe, tu03-IsSafe, txfeed-IsSafe, poll-IsSafe,
}

module _ (g_deck : ℕ → DeckImg) (f : (k : ℕ) → k < 2 → IsFeedable (g_deck k)) where
  arm-IsSafe : (arg : ℕ) (s : Feeder) → IsSafe g_deck f (on_arm g_deck arg s)
  unfolding on_arm cursor_reset
  arm-IsSafe arg s =
      let k = arg % 2 in
      let lt : k < 2 = omega arith in
      let d = f k lt in inr (k, lt, ground (arith, d.start_in, d.full (start_card (g_deck k))))

  disarm-IsSafe : (s : Feeder) → IsSafe g_deck f (on_disarm g_deck s)
  unfolding on_disarm cursor_reset
  disarm-IsSafe s = inl (ground arith)

  rewind-IsSafe : (s : Feeder) → IsSafe g_deck f s → IsSafe g_deck f (on_rewind g_deck s)
  unfolding on_rewind cursor_reset
  rewind-IsSafe s (inl h) = inl (ground arith)
  rewind-IsSafe s (inr (k, lt, h)) =
      let d = f k lt in
      inr (k, lt, ground (arith, h.at_slot, d.start_in, d.full (start_card (g_deck k))))

  eject-IsSafe : (s : Feeder) → IsSafe g_deck f s → IsSafe g_deck f (on_eject g_deck s)
  unfolding on_eject
  eject-IsSafe s (inl h) = inl (ground (arith, h.no_deck))
  eject-IsSafe s (inr (k, lt, h)) =
      let d = f k lt in
      inr (
        k,
        lt,
        ground (arith, h.at_slot, d.deck.few, d.full (u16 (s.card + 1)), d.full (s.card + 1)),
      )

  go-IsSafe : (val : ℕ) (s : Feeder) → IsSafe g_deck f s → IsSafe g_deck f (on_go g_deck val s)
  unfolding on_go cursor_reset
  go-IsSafe val s (inl h) = inl (ground (arith, h.no_deck))
  go-IsSafe val s (inr (k, lt, h)) =
      let d = f k lt in
      let tgt = go_target (g_deck k) val in
      inr (k, lt, ground (arith, h.at_slot, d.deck.few, d.full tgt, d.full (u16 tgt)))

  param-IsSafe :
      (param val : ℕ) (s : Feeder) → IsSafe g_deck f s → IsSafe g_deck f (apply_param param val s)
  unfolding apply_param
  param-IsSafe param val s (inl h) = inl (ground arith)
  param-IsSafe param val s (inr (k, lt, h)) = inr (k, lt, ground arith)

  on_op-IsSafe :
      (op : IpcOp) (arg val : ℕ) (s : Feeder)
      → IsSafe g_deck f s
      → IsSafe g_deck f (on_op g_deck op arg val s)
  unfolding on_op
  on_op-IsSafe arm arg val s h = arm-IsSafe arg s
  on_op-IsSafe disarm arg val s h = disarm-IsSafe s
  on_op-IsSafe rewind arg val s h = rewind-IsSafe s h
  on_op-IsSafe eject arg val s h = eject-IsSafe s h
  on_op-IsSafe set_param arg val s h = param-IsSafe arg val s h
  on_op-IsSafe inject_error arg val s (inl h) = inl (ground arith)
  on_op-IsSafe inject_error arg val s (inr (k, lt, h)) = inr (k, lt, ground arith)
  on_op-IsSafe go arg val s h = go-IsSafe val s h
  on_op-IsSafe other arg val s h = h

  step-IsSafe : (i : Input) (s : Feeder) → IsSafe g_deck f s → IsSafe g_deck f (step g_deck i s)
  unfolding step feeder_on_ipc
  step-IsSafe (Input.re_cmd re) s h = re_cmd-IsSafe g_deck f re s h
  step-IsSafe (Input.tu03 room) s h = tu03-IsSafe g_deck f room s h
  step-IsSafe Input.txfeed s h = txfeed-IsSafe g_deck f s h
  step-IsSafe (Input.ipc word) s h = lupob_update-IsSafe g_deck f _ (on_op-IsSafe _ _ _ s h)
  step-IsSafe (Input.poll room) s h = poll-IsSafe g_deck f room s h
  step-IsSafe (Input.elapse us) s (inl h) = inl (ground arith)
  step-IsSafe (Input.elapse us) s (inr (k, lt, h)) = inr (k, lt, ground arith)

  run-IsSafe :
      (is : List Input) (s : Feeder) → IsSafe g_deck f s → IsSafe g_deck f (run g_deck is s)
  unfolding run
  run-IsSafe [] s h = h
  run-IsSafe (i ∷ is) s h = run-IsSafe is (step g_deck i s) (step-IsSafe i s h)

  started-IsSafe : IsSafe g_deck f started
  unfolding started
  started-IsSafe = inl (ground arith)

-- With two feedable decks in the buffers, after any events at all: a feeder with no deck is
-- disarmed or in error and has nothing pending; a feeder with a deck has its cursor at a card and
-- a column of it, so that the column read next lies inside `cols`, and half is 0 or 1.
pub cursor_in_deck :
    (g_deck : ℕ → DeckImg)
    → ((k : ℕ) → k < 2 → IsFeedable (g_deck k))
    → (is : List Input)
    → let s = run g_deck is started in
      ((s.deck ≡ none)
        × ((s.state ≡ disarmed) ⊎ (s.state ≡ error))
        × (s.is_presenting ≡ false)
        × (s.cmd_pending ≡ false)
        × (s.finin_pending ≡ false))
      ⊎ ((k : ℕ) × (s.deck ≡ some k)
          × (k < 2)
          × (s.state ≢ disarmed)
          × (s.card < (g_deck k).n_cards)
          × (s.col < ((g_deck k).idx s.card).ncols)
          × (((g_deck k).idx s.card).off + s.col < deck_max_cols)
          × (s.half < 2))
cursor_in_deck g_deck f is = elim (run-IsSafe g_deck f is started (started-IsSafe g_deck f)) [
  | inl h ↦ inl (h.no_deck, h.idle, h.quiet, h.no_cmd, h.no_finin)
  | inr (k, lt, h) ↦ inr (
    k,
    h.at_slot,
    lt,
    h.armed,
    h.card_in,
    h.col_in,
    omega (arith, (f k lt).deck.inside (run g_deck is started).card h.card_in, h.col_in),
    h.half_in,
  )
]

-- FIDEN and LUREN, with two feedable decks in the buffers: after any events, an exhausted deck has FIDEN asserted and the cursor at its
-- last card, and the state of error has LUREN asserted.
pub pins_follow_state :
    (g_deck : ℕ → DeckImg)
    → ((k : ℕ) → k < 2 → IsFeedable (g_deck k))
    → (is : List Input)
    → let s = run g_deck is started in
      (s.state ≡ done
        → (s.fiden ≡ true) × ((k : ℕ) → s.deck ≡ some k → s.card + 1 ≡ (g_deck k).n_cards))
      × (s.state ≡ error → s.luren ≡ true)
pins_follow_state g_deck f is = elim (run-IsSafe g_deck f is started (started-IsSafe g_deck f)) [
  | inl h ↦ (λ e. absurd (ground (arith, h.idle)), h.failed)
  | inr (k, lt, h) ↦
      (λ e. ((h.exhausted e).0, λ j q. cc (h.at_slot, q, (h.exhausted e).1)), h.failed)
]
