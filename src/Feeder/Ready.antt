-- ===== src/Feeder/Ready.antt =====
-- LUPOB (lupob_update of src/feeder.c) over whole sessions.
use rpi_pico_card_reader.Prelude.{
  ℕ, zero, suc, ◌≡◌, ◌⊎◌, ◌↔◌, inl, refl, sym, if_intro, with_option_intro, not, ◌&&◌, u32, ◌+◌,
  ◌∙◌, ap, Bool, true, false, none, List, [], ◌∷◌, arith, expired,
}
use rpi_pico_card_reader.Deck.{DeckImg}
use rpi_pico_card_reader.Monitor.{EvKind}
use rpi_pico_card_reader.Feeder.Types.{
  ev_push, armed_wait, card_done, Feeder, lupob, lupob_update, finin_release, is_armed, is_idle,
  is_armed_wait, is_card_done,
}
use rpi_pico_card_reader.Feeder.Present.{
  advance_card, present_next, prefill, start_card_strobes, leave_parked, begin_card, feed_on,
  trigger_present,
}
use rpi_pico_card_reader.Feeder.Commands.{
  on_deck, feed_parked, feeder_on_re_cmd, feeder_on_tu03, feeder_on_txfeed, poll_finin, feeder_poll,
}
use rpi_pico_card_reader.Feeder.Mailbox.{feeder_on_ipc}
use rpi_pico_card_reader.Feeder.Run.{
  Input, re_cmd, tu03, txfeed, ipc, poll, elapse, step, run, started,
}

abbrev IsReady : Feeder → Type 0
IsReady s = s.ready ≡ lupob s

-- LUPOB is busy, and a card is being presented or its end stands on the wire.
abbrev IsBusy : Feeder → Type 0
IsBusy s = (s.ready ≡ false) × ((s.is_presenting ≡ true) ⊎ (s.finin_pending ≡ true))

lupob_update-IsReady : (s : Feeder) → IsReady (lupob_update s)
unfolding lupob_update
lupob_update-IsReady s = refl

bool_clash : {b : Bool} → b ≡ true → b ≡ false → ⊥
bool_clash p q = cc

IsBusy→IsReady : (s : Feeder) → IsBusy s → IsReady s
IsBusy→IsReady s h = ground arith

present_next-IsBusy :
    (d : DeckImg) (s : Feeder) → s.is_presenting ≡ true → IsBusy s → IsBusy (present_next d s)
unfolding present_next
present_next-IsBusy d s p h = ground arith

prefill-IsBusy : (d : DeckImg) (room : ℕ) (s : Feeder) → IsBusy s → IsBusy (prefill d room s)
unfolding prefill
prefill-IsBusy d zero s h = h
prefill-IsBusy d (suc room) s h =
    if_intro IsBusy s.is_presenting
      (λ p. prefill-IsBusy d room (present_next d s) (present_next-IsBusy d s p h)) (λ p. h)

begin_card-IsBusy : (d : DeckImg) (s : Feeder) → IsBusy (begin_card d s)
unfolding begin_card lupob_update
begin_card-IsBusy d s = ground arith

start_card_strobes-IsBusy :
    (d : DeckImg) (room : ℕ) (s : Feeder) → IsBusy (start_card_strobes d room s)
unfolding start_card_strobes feed_on
start_card_strobes-IsBusy d room s = prefill-IsBusy d room (begin_card d s) (begin_card-IsBusy d s)

trigger_present-IsReady :
    (d : DeckImg) (via_feed : Bool) (room : ℕ) (s : Feeder)
    → s.cmd_pending ≡ true
    → IsReady (trigger_present d via_feed room s)
unfolding trigger_present
trigger_present-IsReady d via_feed room s h =
    let t = leave_parked d via_feed (record s { cmd_pending = false }) in
    if_intro IsReady s.cmd_pending
      (λ p.
        if_intro IsReady (is_armed_wait t.state)
          (λ w. IsBusy→IsReady (start_card_strobes d room t) (start_card_strobes-IsBusy d room t))
          (λ w. lupob_update-IsReady t))
      (λ p. absurd (bool_clash h p))

lupob_of_no_deck : (s : Feeder) → s.deck ≡ none → lupob s ≡ false
lupob_of_no_deck s e =
    ap
      (λ o.
        is_armed o
        && not s.is_presenting
        && not s.cmd_pending
        && not s.finin_pending
        && is_idle s.state)
      e

-- What finin_release leaves alone.
finin_release_same :
    (s : Feeder)
    → ((finin_release s).deck ≡ s.deck)
      × ((finin_release s).ready ≡ s.ready)
      × ((finin_release s).cmd_pending ≡ s.cmd_pending)
      × ((finin_release s).state ≡ s.state)
unfolding finin_release
finin_release_same s = ground arith

lupob_of_presenting : (s : Feeder) → s.is_presenting ≡ true → lupob s ≡ false
lupob_of_presenting s e = ground arith

started-IsReady : IsReady started
unfolding started
started-IsReady = refl

ready_cases :
    (s : Feeder)
    → IsReady s
    → (s.ready ≡ true) ↔ (
        (is_armed s.deck ≡ true)
        × ((s.state ≡ armed_wait) ⊎ (s.state ≡ card_done))
        × (s.is_presenting ≡ false)
        × (s.cmd_pending ≡ false)
        × (s.finin_pending ≡ false))
ready_cases s h = ground arith

module _ (g_deck : ℕ → DeckImg) where
  trigger-IsReady :
      (via_feed : Bool) (room : ℕ) (s : Feeder)
      → s.cmd_pending ≡ true
      → s.ready ≡ false
      → IsReady (on_deck g_deck (λ d. trigger_present d via_feed room) s)
  trigger-IsReady via_feed room s pending busy =
      with_option_intro IsReady s.deck (λ e. busy ∙ sym (lupob_of_no_deck s e))
        (λ k e. trigger_present-IsReady (g_deck k) via_feed room s pending)

  lupob_of_pending : (s : Feeder) → s.cmd_pending ≡ true → lupob s ≡ false
  lupob_of_pending s e = ground arith

  on_tu03-IsReady : (room : ℕ) (s : Feeder) → IsReady s → IsReady (feeder_on_tu03 g_deck room s)
  unfolding feeder_on_tu03 feed_parked
  on_tu03-IsReady room s h =
      let t = record (ev_push EvKind.tu03 0 s) { n_feeds = u32 (s.n_feeds + 1) } in
      let same = finin_release_same t in
      if_intro IsReady s.cmd_pending
        (λ p.
          trigger-IsReady true room (finin_release t) (same.2 ∙ p)
            (same.1 ∙ h ∙ lupob_of_pending s p))
        (λ p.
          if_intro IsReady (is_armed s.deck && is_card_done s.state)
            (λ q. lupob_update-IsReady (on_deck g_deck advance_card (finin_release t))) (λ q. h))

  on_txfeed-IsReady : (s : Feeder) → IsReady s → IsReady (feeder_on_txfeed g_deck s)
  unfolding feeder_on_txfeed
  on_txfeed-IsReady s h =
      if_intro IsReady s.is_presenting
        (λ p.
          with_option_intro IsReady s.deck (λ e. h)
            (λ k e.
              IsBusy→IsReady (present_next (g_deck k) s)
                (present_next-IsBusy (g_deck k) s p (h ∙ lupob_of_presenting s p, inl p))))
        (λ p. h)

  poll_finin-IsReady : (s : Feeder) → IsReady s → IsReady (poll_finin s).0
  unfolding poll_finin
  poll_finin-IsReady s h =
      if_intro (λ (r : Feeder × Bool). IsReady r.0) s.finin_pending
        (λ p.
          if_intro (λ (r : Feeder × Bool). IsReady r.0) (expired s.now s.finin_deadline)
            (λ q. lupob_update-IsReady (finin_release s)) (λ q. h))
        (λ p. h)

  on_poll-IsReady : (room : ℕ) (s : Feeder) → IsReady s → IsReady (feeder_poll g_deck room s).0
  unfolding feeder_poll
  on_poll-IsReady room s h =
      if_intro (λ (r : Feeder × Bool). IsReady r.0) s.cmd_pending
        (λ p.
          if_intro (λ (r : Feeder × Bool). IsReady r.0) (expired s.now s.cmd_deadline)
            (λ q.
              poll_finin-IsReady (on_deck g_deck (λ d. trigger_present d false room) s)
                (trigger-IsReady false room s p (h ∙ lupob_of_pending s p)))
            (λ q. h))
        (λ p. poll_finin-IsReady s h)

  step-IsReady : (i : Input) (s : Feeder) → IsReady s → IsReady (step g_deck i s)
  unfolding step feeder_on_re_cmd feeder_on_ipc
  step-IsReady (re_cmd re) s h = lupob_update-IsReady _
  step-IsReady (tu03 room) s h = on_tu03-IsReady room s h
  step-IsReady txfeed s h = on_txfeed-IsReady s h
  step-IsReady (ipc word) s h = lupob_update-IsReady _
  step-IsReady (poll room) s h = on_poll-IsReady room s h
  step-IsReady (elapse us) s h = h

  run-IsReady : (is : List Input) (s : Feeder) → IsReady s → IsReady (run g_deck is s)
  unfolding run
  run-IsReady [] s h = h
  run-IsReady (i ∷ is) s h = run-IsReady is (step g_deck i s) (step-IsReady i s h)

-- After any events at all, whatever the decks hold, the LUPOB line is ready exactly when a deck is
-- armed, the feeder waits for a command or is parked at the end of a card, and no presentation,
-- no command and no FININ is pending. So it is busy in the states DISARMED, PRESENTING and ERROR, and
-- also in DONE, with the deck exhausted.
pub ready_iff :
    (g_deck : ℕ → DeckImg) (is : List Input)
    → let s = run g_deck is started in
      (s.ready ≡ true) ↔ (
        (is_armed s.deck ≡ true)
        × ((s.state ≡ armed_wait) ⊎ (s.state ≡ card_done))
        × (s.is_presenting ≡ false)
        × (s.cmd_pending ≡ false)
        × (s.finin_pending ≡ false))
ready_iff g_deck is =
    ready_cases (run g_deck is started) (run-IsReady g_deck is started started-IsReady)
