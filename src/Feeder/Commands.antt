-- ===== src/Feeder/Commands.antt =====
-- The wire's handlers: feeder_on_re_cmd, feeder_on_tu03, feeder_on_txfeed and feeder_poll. Each is
-- one step: a handler of higher priority that preempts another in the middle is not modelled.
use rpi_pico_card_reader.Prelude.{
  ℕ, ◌+◌, Bool, true, false, ◌&&◌, ◌||◌, if◌then◌else◌, with_option, ◌==◌, u32, expired,
}
use rpi_pico_card_reader.Transcode.{TcMode, normal, colbin}
use rpi_pico_card_reader.Deck.{DeckImg}
use rpi_pico_card_reader.Monitor.{re_cmd, tu03, mode, anomaly}
use rpi_pico_card_reader.Feeder.Types.{
  disarmed, armed_wait, Feeder, ev_push, is_armed, is_idle, is_card_done, is_error, lupob_update,
  finin_release,
}
use rpi_pico_card_reader.Feeder.Present.{advance_card, present_next, trigger_present}

-- The labels of the switch of feeder_on_re_cmd.
pub data Command : Type 0 where
  read_unchanged read_normal read_binary put_binary exam reset_error card_reject : Command
  no_function unknown : Command

unfoldable pub decode_cmd : ℕ → Command
decode_cmd re =
    if re == 0x40
    then read_unchanged
    else if re == 0x21 || re == 0x01 || re == 0x24 || re == 0x04
    then read_normal
    else if re == 0x20
    then read_binary
    else if re == 0xa0
    then put_binary
    else if re == 0x44
    then exam
    else if re == 0x47
    then reset_error
    else if re == 0x48
    then card_reject
    else if re == 0x0c
    then no_function
    else unknown

unfoldable pub prepare_presentation : Feeder → Feeder
unfolding finin_release lupob_update
prepare_presentation s =
    if is_armed s.deck && is_idle s.state
    then lupob_update
        (record (finin_release s) { cmd_pending = true; cmd_deadline = u32 (s.now + s.d_us) })
    else s

-- ev_push(EV_MODE, ...)
abbrev pub latch_mode : TcMode → ℕ → Feeder → Feeder
latch_mode m code s = ev_push mode code (record s { latched_mode = m })

-- The case GE_CMD_RESET_ERROR.
unfoldable pub clear_error : Feeder → Feeder
clear_error s =
    if is_error s.state
    then record s { luren = false; state = if is_armed s.deck then armed_wait else disarmed }
    else record s { luren = false }

-- The second half of feeder_poll; the Boolean says that a timeout is pending.
unfoldable pub poll_finin : Feeder → Feeder × Bool
poll_finin s =
    if s.finin_pending
    then (if expired s.now s.finin_deadline
        then (lupob_update (finin_release s), false)
        else (s, true))
    else (s, false)

module _ (g_deck : ℕ → DeckImg) where
  -- A use of the deck that is armed. Where the code follows the pointer without a test, there is
  -- one.
  abbrev pub on_deck : (DeckImg → Feeder → Feeder) → Feeder → Feeder
  on_deck f s = with_option s.deck s (λ k. f (g_deck k) s)

  -- The case GE_CMD_CARD_REJECT.
  unfoldable pub reject_card : Feeder → Feeder
  reject_card s =
      if is_armed s.deck && is_idle s.state then on_deck advance_card (finin_release s) else s

  unfoldable pub dispatch : Command → ℕ → Feeder → Feeder
  dispatch read_unchanged re s = prepare_presentation s
  dispatch read_normal re s = prepare_presentation (latch_mode normal 0 s)
  dispatch read_binary re s = prepare_presentation (latch_mode colbin 3 s)
  dispatch put_binary re s = record s { latched_mode = colbin }
  dispatch exam re s = s
  dispatch reset_error re s = clear_error s
  dispatch card_reject re s = reject_card s
  dispatch no_function re s = s
  dispatch unknown re s =
      ev_push anomaly re (record s { n_unknown_cmd = u32 (s.n_unknown_cmd + 1) })

  unfoldable pub feeder_on_re_cmd : ℕ → Feeder → Feeder
  feeder_on_re_cmd re s =
      lupob_update
        (dispatch (decode_cmd re) re (record (ev_push re_cmd re s) { n_cmds = u32 (s.n_cmds + 1) }))

  -- The branch of feeder_on_tu03 with no command pending.
  unfoldable pub feed_parked : Feeder → Feeder
  feed_parked s =
      if is_armed s.deck && is_card_done s.state
      then lupob_update (on_deck advance_card (finin_release s))
      else s

  unfoldable pub feeder_on_tu03 : ℕ → Feeder → Feeder
  feeder_on_tu03 room s =
      let t = record (ev_push tu03 0 s) { n_feeds = u32 (s.n_feeds + 1) } in
      if s.cmd_pending
      then on_deck (λ d. trigger_present d true room) (finin_release t)
      else feed_parked t

  unfoldable pub feeder_on_txfeed : Feeder → Feeder
  feeder_on_txfeed s = if s.is_presenting then on_deck present_next s else s

  unfoldable pub feeder_poll : ℕ → Feeder → Feeder × Bool
  feeder_poll room s =
      if s.cmd_pending
      then (if expired s.now s.cmd_deadline
          then poll_finin (on_deck (λ d. trigger_present d false room) s)
          else (s, true))
      else poll_finin s
