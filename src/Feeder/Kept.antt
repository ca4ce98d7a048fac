-- ===== src/Feeder/Kept.antt =====
-- The seven parameters of the feeder, and that the handlers of the wire keep them.
use rpi_pico_card_reader.Prelude.{
  ℕ, zero, suc, ◌+◌, ◌≡◌, Bool, true, false, Option, none, some, if_intro, with_option, ◌&&◌, u32,
  expired, arith,
}
use rpi_pico_card_reader.Deck.{DeckImg}
use rpi_pico_card_reader.Feeder.Types.{
  Feeder, lupob_update, finin_release, effective_mode, ev_push, is_armed, is_idle, is_armed_wait,
  is_card_done,
}
use rpi_pico_card_reader.Feeder.Present.{
  advance_card, end_card, push_nibble, present_column, present_next, prefill, begin_card, feed_on,
  start_card_strobes, leave_parked, trigger_present,
}
use rpi_pico_card_reader.Feeder.Commands.{
  Command, on_deck, dispatch, decode_cmd, prepare_presentation, clear_error, reject_card,
  feed_parked, feeder_on_re_cmd, feeder_on_tu03, feeder_on_txfeed, feeder_poll, poll_finin,
}
use rpi_pico_card_reader.Monitor.{EvKind}

pub record Params : Type 0 where
  pub w_ticks : ℕ
  pub g_ticks : ℕ
  pub s_ticks : ℕ
  pub d_us : ℕ
  pub finin_to_us : ℕ
  pub post_loader_colbin : Bool
  pub auto_rewind : Bool

abbrev pub params : Feeder → Params
params s = record {
  w_ticks = s.w_ticks;
  g_ticks = s.g_ticks;
  s_ticks = s.s_ticks;
  d_us = s.d_us;
  finin_to_us = s.finin_to_us;
  post_loader_colbin = s.post_loader_colbin;
  auto_rewind = s.auto_rewind;
}

abbrev pub Has : Params → Feeder → Type 0
Has p s = params s ≡ p

module _ (p : Params) where
  advance_card-Has : (d : DeckImg) (s : Feeder) → Has p s → Has p (advance_card d s)
  unfolding advance_card
  advance_card-Has d s h = ground (arith, h)

  present_column-Has :
      (a b c : Bool) (byte : ℕ) (s : Feeder) → Has p s → Has p (present_column a b c byte s)
  unfolding present_column push_nibble end_card
  present_column-Has a b c byte s h = ground (arith, h)

  present_next-Has : (d : DeckImg) (s : Feeder) → Has p s → Has p (present_next d s)
  unfolding present_next effective_mode
  present_next-Has d s h = present_column-Has _ _ _ _ s h

  finin_release-Has : (s : Feeder) → Has p s → Has p (finin_release s)
  unfolding finin_release
  finin_release-Has s h = ground (arith, h)

  prefill-Has : (d : DeckImg) (room : ℕ) (s : Feeder) → Has p s → Has p (prefill d room s)
  unfolding prefill
  prefill-Has d zero s h = h
  prefill-Has d (suc room) s h =
      if_intro (Has p) s.is_presenting
        (λ q. prefill-Has d room (present_next d s) (present_next-Has d s h)) (λ q. h)

  start-Has : (d : DeckImg) (room : ℕ) (s : Feeder) → Has p s → Has p (start_card_strobes d room s)
  unfolding start_card_strobes feed_on begin_card lupob_update effective_mode
  start-Has d room s h = prefill-Has d room (begin_card d s) h

  leave_parked-Has :
      (d : DeckImg) (via : Bool) (s : Feeder) → Has p s → Has p (leave_parked d via s)
  unfolding leave_parked
  leave_parked-Has d true s h =
      if_intro (Has p) (is_card_done s.state) (λ q. advance_card-Has d s h) (λ q. h)
  leave_parked-Has d false s h =
      if_intro (Has p) (is_card_done s.state) (λ q. advance_card-Has d _ h) (λ q. h)

  trigger-Has :
      (d : DeckImg) (via : Bool) (room : ℕ) (s : Feeder)
      → Has p s
      → Has p (trigger_present d via room s)
  unfolding trigger_present lupob_update
  trigger-Has d via room s h =
      let t = leave_parked d via (record s { cmd_pending = false }) in
      let k : Has p t = leave_parked-Has d via (record s { cmd_pending = false }) h in
      if_intro (Has p) s.cmd_pending
        (λ q. if_intro (Has p) (is_armed_wait t.state) (λ r. start-Has d room t k) (λ r. k))
        (λ q. h)

  prepare-Has : (s : Feeder) → Has p s → Has p (prepare_presentation s)
  unfolding prepare_presentation lupob_update finin_release
  prepare-Has s h = ground (arith, h)

  module _ (g_deck : ℕ → DeckImg) where
    option-Has :
        (f : DeckImg → Feeder → Feeder) (o : Option ℕ) (s : Feeder)
        → ((d : DeckImg) → Has p (f d s))
        → Has p s
        → Has p (with_option o s (λ k. f (g_deck k) s))
    option-Has f none s k h = h
    option-Has f (some n) s k h = k (g_deck n)

    on_deck-Has :
        (f : DeckImg → Feeder → Feeder) (s : Feeder)
        → ((d : DeckImg) → Has p (f d s))
        → Has p s
        → Has p (on_deck g_deck f s)
    on_deck-Has f s k h = option-Has f s.deck s k h

    reject-Has : (s : Feeder) → Has p s → Has p (reject_card g_deck s)
    unfolding reject_card
    reject-Has s h =
        let k : Has p (finin_release s) = finin_release-Has s h in
        if_intro (Has p) (is_armed s.deck && is_idle s.state)
          (λ q.
            on_deck-Has advance_card (finin_release s) (λ d. advance_card-Has d (finin_release s) k)
              k)
          (λ q. h)

    dispatch-Has : (c : Command) (re : ℕ) (s : Feeder) → Has p s → Has p (dispatch g_deck c re s)
    unfolding dispatch clear_error
    dispatch-Has Command.read_unchanged re s h = prepare-Has s h
    dispatch-Has Command.read_normal re s h = prepare-Has _ h
    dispatch-Has Command.read_binary re s h = prepare-Has _ h
    dispatch-Has Command.put_binary re s h = h
    dispatch-Has Command.exam re s h = h
    dispatch-Has Command.reset_error re s h = ground (arith, h)
    dispatch-Has Command.card_reject re s h = reject-Has s h
    dispatch-Has Command.no_function re s h = h
    dispatch-Has Command.unknown re s h = h

    pub re_cmd-Has : (re : ℕ) (s : Feeder) → Has p s → Has p (feeder_on_re_cmd g_deck re s)
    unfolding feeder_on_re_cmd lupob_update
    re_cmd-Has re s h = dispatch-Has (decode_cmd re) re _ h

    pub tu03-Has : (room : ℕ) (s : Feeder) → Has p s → Has p (feeder_on_tu03 g_deck room s)
    unfolding feeder_on_tu03 feed_parked lupob_update
    tu03-Has room s h =
        let t = record (ev_push EvKind.tu03 0 s) { n_feeds = u32 (s.n_feeds + 1) } in
        let k : Has p (finin_release t) = finin_release-Has t h in
        if_intro (Has p) s.cmd_pending
          (λ q.
            on_deck-Has (λ d. trigger_present d true room) (finin_release t)
              (λ d. trigger-Has d true room (finin_release t) k) k)
          (λ q.
            if_intro (Has p) (is_armed s.deck && is_card_done s.state)
              (λ r.
                on_deck-Has advance_card (finin_release t)
                  (λ d. advance_card-Has d (finin_release t) k) k)
              (λ r. h))

    pub txfeed-Has : (s : Feeder) → Has p s → Has p (feeder_on_txfeed g_deck s)
    unfolding feeder_on_txfeed
    txfeed-Has s h =
        if_intro (Has p) s.is_presenting
          (λ q. on_deck-Has present_next s (λ d. present_next-Has d s h) h) (λ q. h)

    poll_finin-Has : (s : Feeder) → Has p s → Has p (poll_finin s).0
    unfolding poll_finin lupob_update
    poll_finin-Has s h =
        if_intro (λ (r : Feeder × Bool). Has p r.0) s.finin_pending
          (λ q.
            if_intro (λ (r : Feeder × Bool). Has p r.0) (expired s.now s.finin_deadline)
              (λ r. finin_release-Has s h) (λ r. h))
          (λ q. h)

    pub poll-Has : (room : ℕ) (s : Feeder) → Has p s → Has p (feeder_poll g_deck room s).0
    unfolding feeder_poll
    poll-Has room s h =
        if_intro (λ (r : Feeder × Bool). Has p r.0) s.cmd_pending
          (λ q.
            if_intro (λ (r : Feeder × Bool). Has p r.0) (expired s.now s.cmd_deadline)
              (λ r. poll_finin-Has (on_deck g_deck (λ d. trigger_present d false room) s) (
                on_deck-Has (λ d. trigger_present d false room) s
                  (λ d. trigger-Has d false room s h) h))
              (λ r. h))
          (λ q. poll_finin-Has s h)
