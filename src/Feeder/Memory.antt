-- ===== src/Feeder/Memory.antt =====
-- The states of the feeder, disarmed or armed, for the handlers of the wire.
use rpi_pico_card_reader.Prelude.{
  ℕ, ◌+◌, ◌<◌, ◌≡◌, ◌⊎◌, inl, inr, sym, subst, ap, if_intro, with_option, u32, Bool, true, false,
  ◌&&◌, none, some, arith, expired,
}
use rpi_pico_card_reader.Deck.{DeckImg}
use rpi_pico_card_reader.Monitor.{EvKind}
use rpi_pico_card_reader.Feeder.Types.{
  disarmed, error, Feeder, lupob_update, finin_release, is_armed, is_idle, is_card_done, ev_push,
}
use rpi_pico_card_reader.Feeder.Present.{advance_card, present_next, trigger_present}
use rpi_pico_card_reader.Feeder.Commands.{
  Command, read_unchanged, read_normal, read_binary, put_binary, exam, reset_error, card_reject,
  no_function, unknown, decode_cmd, prepare_presentation, on_deck, reject_card, clear_error,
  dispatch, feeder_on_re_cmd, feed_parked, feeder_on_tu03, feeder_on_txfeed, poll_finin,
  feeder_poll,
}
use rpi_pico_card_reader.Feeder.Cursor.{
  IsFeedable, IsOn, present_next-IsOn, advance_card-IsOn, finin_release-IsOn, trigger_present-IsOn,
}

-- With no deck nothing is presented and nothing is pending.
pub record IsOff (s : Feeder) : Type 0 where
  pub no_deck : s.deck ≡ none
  pub idle : (s.state ≡ disarmed) ⊎ (s.state ≡ error)
  pub quiet : s.is_presenting ≡ false
  pub no_cmd : s.cmd_pending ≡ false
  pub no_finin : s.finin_pending ≡ false
  pub failed : s.state ≡ error → s.luren ≡ true

module _ (g_deck : ℕ → DeckImg) (f : (k : ℕ) → k < 2 → IsFeedable (g_deck k)) where
  -- Disarmed, or armed with one of the two decks and the cursor on it.
  abbrev pub IsSafe : Feeder → Type 0
  IsSafe s = IsOff s ⊎ ((k : ℕ) × (k < 2) × IsOn (some k) (g_deck k) s)

  -- The use of the armed deck.
  on_deck-IsOn :
      (g : DeckImg → Feeder → Feeder) (k : ℕ) (s : Feeder)
      → s.deck ≡ some k
      → IsOn (some k) (g_deck k) (g (g_deck k) s)
      → IsOn (some k) (g_deck k) (on_deck g_deck g s)
  on_deck-IsOn g k s e h =
      subst (λ o. IsOn (some k) (g_deck k) (with_option o s (λ j. g (g_deck j) s))) (sym e) h

  on_deck_off :
      (g : DeckImg → Feeder → Feeder) (s : Feeder) → s.deck ≡ none → on_deck g_deck g s ≡ s
  on_deck_off g s e = ap (λ o. with_option o s (λ j. g (g_deck j) s)) e

  prepare-IsSafe : (s : Feeder) → IsSafe s → IsSafe (prepare_presentation s)
  unfolding prepare_presentation finin_release lupob_update
  prepare-IsSafe s (inl h) = inl (ground arith)
  prepare-IsSafe s (inr (k, lt, h)) = inr (k, lt, ground arith)

  clear_error-IsSafe : (s : Feeder) → IsSafe s → IsSafe (clear_error s)
  unfolding clear_error
  clear_error-IsSafe s (inl h) = inl (ground arith)
  clear_error-IsSafe s (inr (k, lt, h)) = inr (k, lt, ground arith)

  -- Feeding past the current card, after the release of a standing FININ.
  feed-IsSafe :
      (s : Feeder)
      → is_armed s.deck ≡ true
      → IsSafe s
      → IsSafe (on_deck g_deck advance_card (finin_release s))
  feed-IsSafe s armed (inl h) = absurd (ground (arith, h.no_deck))
  feed-IsSafe s armed (inr (k, lt, h)) =
      let on = finin_release-IsOn (some k) (g_deck k) (f k lt) s h in
      inr (
        k,
        lt,
        on_deck-IsOn advance_card k (finin_release s) on.at_slot
            (advance_card-IsOn (some k) (g_deck k) (f k lt) (finin_release s) on),
      )

  reject_card-IsSafe : (s : Feeder) → IsSafe s → IsSafe (reject_card g_deck s)
  unfolding reject_card
  reject_card-IsSafe s h =
      if_intro IsSafe (is_armed s.deck && is_idle s.state) (λ p. feed-IsSafe s (ground arith) h)
        (λ p. h)

  pub lupob_update-IsSafe : (s : Feeder) → IsSafe s → IsSafe (lupob_update s)
  unfolding lupob_update
  lupob_update-IsSafe s (inl h) = inl (ground arith)
  lupob_update-IsSafe s (inr (k, lt, h)) = inr (k, lt, ground arith)

  finin_release-IsSafe : (s : Feeder) → IsSafe s → IsSafe (finin_release s)
  unfolding finin_release
  finin_release-IsSafe s (inl h) = inl (ground arith)
  finin_release-IsSafe s (inr (k, lt, h)) = inr (k, lt, ground arith)

  dispatch-IsSafe : (c : Command) (re : ℕ) (s : Feeder) → IsSafe s → IsSafe (dispatch g_deck c re s)
  unfolding dispatch
  dispatch-IsSafe read_unchanged re s h = prepare-IsSafe s h
  dispatch-IsSafe read_normal re s (inl h) = prepare-IsSafe _ (inl (ground arith))
  dispatch-IsSafe read_normal re s (inr (k, lt, h)) = prepare-IsSafe _ (inr (k, lt, ground arith))
  dispatch-IsSafe read_binary re s (inl h) = prepare-IsSafe _ (inl (ground arith))
  dispatch-IsSafe read_binary re s (inr (k, lt, h)) = prepare-IsSafe _ (inr (k, lt, ground arith))
  dispatch-IsSafe put_binary re s (inl h) = inl (ground arith)
  dispatch-IsSafe put_binary re s (inr (k, lt, h)) = inr (k, lt, ground arith)
  dispatch-IsSafe exam re s h = h
  dispatch-IsSafe reset_error re s h = clear_error-IsSafe s h
  dispatch-IsSafe card_reject re s h = reject_card-IsSafe s h
  dispatch-IsSafe no_function re s h = h
  dispatch-IsSafe unknown re s (inl h) = inl (ground arith)
  dispatch-IsSafe unknown re s (inr (k, lt, h)) = inr (k, lt, ground arith)

  trigger-IsSafe :
      (via_feed : Bool) (room : ℕ) (s : Feeder)
      → IsSafe s
      → IsSafe (on_deck g_deck (λ d. trigger_present d via_feed room) s)
  trigger-IsSafe via_feed room s (inl h) =
      subst IsSafe (sym (on_deck_off (λ d. trigger_present d via_feed room) s h.no_deck)) (inl h)
  trigger-IsSafe via_feed room s (inr (k, lt, h)) = inr (
    k,
    lt,
    on_deck-IsOn (λ d. trigger_present d via_feed room) k s h.at_slot
        (trigger_present-IsOn (some k) (g_deck k) (f k lt) via_feed room s h),
  )

  pub txfeed-IsSafe : (s : Feeder) → IsSafe s → IsSafe (feeder_on_txfeed g_deck s)
  unfolding feeder_on_txfeed
  txfeed-IsSafe s (inl h) =
      if_intro IsSafe s.is_presenting
        (λ p. subst IsSafe (sym (on_deck_off present_next s h.no_deck)) (inl h)) (λ p. inl h)
  txfeed-IsSafe s (inr (k, lt, h)) =
      if_intro IsSafe s.is_presenting
        (λ p. inr (
          k,
          lt,
          on_deck-IsOn present_next k s h.at_slot
              (present_next-IsOn (some k) (g_deck k) (f k lt) s h),
        ))
        (λ p. inr (k, lt, h))

  poll_finin-IsSafe : (s : Feeder) → IsSafe s → IsSafe (poll_finin s).0
  unfolding poll_finin
  poll_finin-IsSafe s h =
      if_intro (λ (r : Feeder × Bool). IsSafe r.0) s.finin_pending
        (λ p.
          if_intro (λ (r : Feeder × Bool). IsSafe r.0) (expired s.now s.finin_deadline)
            (λ q. lupob_update-IsSafe (finin_release s) (finin_release-IsSafe s h)) (λ q. h))
        (λ p. h)

  pub poll-IsSafe : (room : ℕ) (s : Feeder) → IsSafe s → IsSafe (feeder_poll g_deck room s).0
  unfolding feeder_poll
  poll-IsSafe room s h =
      if_intro (λ (r : Feeder × Bool). IsSafe r.0) s.cmd_pending
        (λ p.
          if_intro (λ (r : Feeder × Bool). IsSafe r.0) (expired s.now s.cmd_deadline)
            (λ q.
              poll_finin-IsSafe (on_deck g_deck (λ d. trigger_present d false room) s)
                (trigger-IsSafe false room s h))
            (λ q. h))
        (λ p. poll_finin-IsSafe s h)

  counted-IsSafe :
      (s : Feeder) (ev : EvKind) (arg cmds feeds : ℕ)
      → IsSafe s
      → IsSafe (record (ev_push ev arg s) { n_cmds = cmds; n_feeds = feeds })
  counted-IsSafe s ev arg cmds feeds (inl h) = inl (ground arith)
  counted-IsSafe s ev arg cmds feeds (inr (k, lt, h)) = inr (k, lt, ground arith)

  pub re_cmd-IsSafe : (re : ℕ) (s : Feeder) → IsSafe s → IsSafe (feeder_on_re_cmd g_deck re s)
  unfolding feeder_on_re_cmd
  re_cmd-IsSafe re s h = lupob_update-IsSafe _ (
      dispatch-IsSafe (decode_cmd re) re _
        (counted-IsSafe s EvKind.re_cmd re (u32 (s.n_cmds + 1)) s.n_feeds h))

  pub tu03-IsSafe : (room : ℕ) (s : Feeder) → IsSafe s → IsSafe (feeder_on_tu03 g_deck room s)
  unfolding feeder_on_tu03 feed_parked
  tu03-IsSafe room s h =
      let t = record (ev_push EvKind.tu03 0 s) { n_feeds = u32 (s.n_feeds + 1) } in
      let counted : IsSafe t = counted-IsSafe s EvKind.tu03 0 s.n_cmds (u32 (s.n_feeds + 1)) h in
      if_intro IsSafe s.cmd_pending
        (λ p. trigger-IsSafe true room (finin_release t) (finin_release-IsSafe t counted))
        (λ p.
          if_intro IsSafe (is_armed s.deck && is_card_done s.state)
            (λ q.
              lupob_update-IsSafe (on_deck g_deck advance_card (finin_release t))
                (feed-IsSafe t (ground arith) counted))
            (λ q. counted))
