-- ===== src/Feeder/Mailbox.antt =====
-- The mailbox: feeder_on_ipc.
use rpi_pico_card_reader.Prelude.{
  ℕ, ◌+◌, ◌%◌, ◌/◌, true, false, ◌||◌, none, some, if◌then◌else◌, with_option, ltb, leb, ◌==◌, u16,
  u32,
}
use rpi_pico_card_reader.Transcode.{hex}
use rpi_pico_card_reader.Deck.{DeckImg}
use rpi_pico_card_reader.Wire.{ipc_op, ipc_arg, ipc_val}
use rpi_pico_card_reader.Feeder.Types.{
  disarmed, armed_wait, error, Feeder, wire_tx_arm, wire_tx_disarm, start_card, cursor_reset,
  lupob_update,
}

-- enum ipc_op, with the words that the switch ignores.
pub data IpcOp : Type 0 where
  arm disarm rewind eject set_param inject_error go other : IpcOp

unfoldable pub decode_op : ℕ → IpcOp
decode_op op =
    if op == 1
    then arm
    else if op == 2
    then disarm
    else if op == 3
    then rewind
    else if op == 4
    then eject
    else if op == 5
    then set_param
    else if op == 6
    then inject_error
    else if op == 7
    then go
    else other

-- The inner switch on enum ipc_param.
unfoldable pub apply_param : ℕ → ℕ → Feeder → Feeder
apply_param param val s =
    if param == 1
    then record s { w_ticks = val }
    else if param == 2
    then record s { g_ticks = val }
    else if param == 3
    then record s { s_ticks = val }
    else if param == 4
    then record s { d_us = val }
    else if param == 5
    then record s { finin_to_us = val }
    else if param == 6
    then record s { post_loader_colbin = val % 2 == 1; auto_rewind = val / 2 % 2 == 1 }
    else s

-- uint32_t tgt = start + IPC_VAL(word) - 1
abbrev pub go_target : DeckImg → ℕ → ℕ
go_target d val = u32 (start_card d + val + 4294967295)

module _ (g_deck : ℕ → DeckImg) where
  unfoldable pub on_arm : ℕ → Feeder → Feeder
  unfolding cursor_reset
  on_arm arg s =
      let t = cursor_reset g_deck (record s { deck = some (arg % 2); latched_mode = hex }) in
      wire_tx_arm (record t {
        n_cmds = 0;
        n_feeds = 0;
        n_autofeeds = 0;
        n_nibbles = 0;
        n_unknown_cmd = 0;
        mode = hex;
        state = armed_wait;
        fiden = false;
        pom01 = false;
      })

  unfoldable pub on_disarm : Feeder → Feeder
  unfolding cursor_reset
  on_disarm s =
      let t = cursor_reset g_deck (record s { deck = none }) in
      wire_tx_disarm (record t { state = disarmed; fiden = false; pom01 = false })

  unfoldable pub on_rewind : Feeder → Feeder
  unfolding cursor_reset
  on_rewind s =
      let t = cursor_reset g_deck s in
      with_option s.deck t (λ k. wire_tx_arm (record t { state = armed_wait; fiden = false }))

  unfoldable pub on_eject : Feeder → Feeder
  on_eject s = with_option s.deck s (λ k.
      if ltb (s.card + 1) (g_deck k).n_cards
      then record s { card = u16 (s.card + 1); col = 0; half = 0 }
      else s)

  unfoldable pub on_go : ℕ → Feeder → Feeder
  unfolding cursor_reset
  on_go val s = with_option s.deck s (λ k.
      if ltb val 1 || leb (g_deck k).n_cards (go_target (g_deck k) val)
      then s
      else wire_tx_arm (record (cursor_reset g_deck s) {
        card = u16 (go_target (g_deck k) val);
        state = armed_wait;
        fiden = false;
      }))

  unfoldable pub on_op : IpcOp → ℕ → ℕ → Feeder → Feeder
  on_op arm arg val s = on_arm arg s
  on_op disarm arg val s = on_disarm s
  on_op rewind arg val s = on_rewind s
  on_op eject arg val s = on_eject s
  on_op set_param arg val s = apply_param arg val s
  on_op inject_error arg val s = record s { luren = true; state = error }
  on_op go arg val s = on_go val s
  on_op other arg val s = s

  unfoldable pub feeder_on_ipc : ℕ → Feeder → Feeder
  feeder_on_ipc word s =
      lupob_update (on_op (decode_op (ipc_op word)) (ipc_arg word) (ipc_val word) s)
