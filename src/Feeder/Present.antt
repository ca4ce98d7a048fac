-- ===== src/Feeder/Present.antt =====
-- The presentation of a card: advance_card, present_next and trigger_present.
use rpi_pico_card_reader.Prelude.{
  ℕ, zero, suc, ◌+◌, ◌/◌, ◌%◌, Bool, true, false, ◌&&◌, if◌then◌else◌, leb, ◌==◌, u8, u16, u32,
}
use rpi_pico_card_reader.Transcode.{transcode_column}
use rpi_pico_card_reader.Deck.{DeckImg}
use rpi_pico_card_reader.Monitor.{EvKind, present_start, present_end, autofeed}
use rpi_pico_card_reader.Wire.{presenter_word}
use rpi_pico_card_reader.Feeder.Types.{
  armed_wait, presenting, card_done, done, push, Feeder, ev_push, wire_op, is_packed, is_card_done,
  is_armed_wait, lupob_update, effective_mode,
}

unfoldable pub advance_card : DeckImg → Feeder → Feeder
advance_card d s =
    if leb d.n_cards (s.card + 1)
    then ev_push EvKind.fiden (u8 s.card)
        (record s { col = 0; half = 0; state = done; fiden = true })
    else record s { col = 0; half = 0; card = u16 (s.card + 1); state = armed_wait }

-- The end of card: the last word is in the FIFO.
unfoldable pub end_card : Feeder → Feeder
end_card s =
    let t = record s {
      half = 0;
      col = 0;
      is_presenting = false;
      finin_pending = true;
      finin_deadline = u32 (s.now + s.finin_to_us);
      state = card_done;
    } in
    record (ev_push present_end (u8 s.card) t) { feed_irq = false }

unfoldable pub push_nibble : ℕ → Bool → Feeder → Feeder
push_nibble present fini s =
    record (wire_op (push (presenter_word present fini s.w_ticks s.g_ticks)) s) {
      n_nibbles = u32 (s.n_nibbles + 1);
    }

-- The body of present_next on the transcoded column: `hi` says that the high nibble is due.
unfoldable pub present_column : Bool → Bool → Bool → ℕ → Feeder → Feeder
present_column packed hi last_col byte s =
    let present = if hi then byte / 16 % 16 else if packed then byte % 16 else byte in
    let fini = if hi then false else last_col in
    let t = push_nibble present fini s in
    if hi
    then record t { half = 1 }
    else if last_col
    then end_card t
    else record t { half = 0; col = u8 (s.col + 1) }

unfoldable pub present_next : DeckImg → Feeder → Feeder
unfolding end_card push_nibble present_column
present_next d s =
    let dc = d.idx s.card in
    let eff = effective_mode d s s.card in
    let byte = transcode_column (d.cols (u32 (dc.off + s.col))) eff in
    let packed = is_packed eff in
    let last_col = leb dc.ncols (s.col + 1) in
    present_column packed (packed && s.half == 0) last_col byte s

-- while (fd.presenting && !wire_tx_full()) present_next();
unfoldable pub prefill : DeckImg → ℕ → Feeder → Feeder
prefill d zero s = s
prefill d (suc room) s =
    let next = prefill d room (present_next d s) in if s.is_presenting then next else s

-- The part of trigger_present that strobes the current card, up to the loop.
unfoldable pub begin_card : DeckImg → Feeder → Feeder
begin_card d s =
    let eff = effective_mode d s s.card in
    let t = record s { mode = eff; pom01 = is_packed eff } in
    let u = record (ev_push present_start (u8 s.card) t) {
      state = presenting;
      is_presenting = true;
    } in
    record (lupob_update u) { now = u32 (s.now + 20) }

-- if (fd.presenting) wire_tx_feed_irq(true);
unfoldable pub feed_on : Feeder → Feeder
feed_on s = record s { feed_irq = if s.is_presenting then true else s.feed_irq }

unfoldable pub start_card_strobes : DeckImg → ℕ → Feeder → Feeder
start_card_strobes d room s = feed_on (prefill d room (begin_card d s))

-- The advance past a parked card; without a feed it is counted as an autofeed.
unfoldable pub leave_parked : DeckImg → Bool → Feeder → Feeder
leave_parked d via_feed s =
    if is_card_done s.state
    then advance_card d (
        if via_feed
        then s
        else ev_push autofeed (u8 s.card) (record s { n_autofeeds = u32 (s.n_autofeeds + 1) }))
    else s

unfoldable pub trigger_present : DeckImg → Bool → ℕ → Feeder → Feeder
trigger_present d via_feed room s =
    let t = leave_parked d via_feed (record s { cmd_pending = false }) in
    if s.cmd_pending
    then (if is_armed_wait t.state then start_card_strobes d room t else lupob_update t)
    else s
