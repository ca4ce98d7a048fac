-- ===== src/Feeder/Params.antt =====
-- What changes the parameters of the feeder: the op words alone.
use rpi_pico_card_reader.Prelude.{
  ℕ, ◌/◌, ◌%◌, ◌≡◌, refl, ap, ◌∙◌, Bool, true, false, Option, none, some, if◌then◌else◌, ◌==◌,
  arith,
}
use rpi_pico_card_reader.Deck.{DeckImg}
use rpi_pico_card_reader.Feeder.Types.{Feeder, lupob_update, cursor_reset}
use rpi_pico_card_reader.Wire.{ipc_op, ipc_arg, ipc_val}
use rpi_pico_card_reader.Feeder.Mailbox.{
  IpcOp, apply_param, decode_op, on_op, on_arm, on_disarm, on_rewind, on_eject, on_go,
  feeder_on_ipc,
}
use rpi_pico_card_reader.Feeder.Run.{Input, step}
use rpi_pico_card_reader.Feeder.Kept.{Params, params, re_cmd-Has, tu03-Has, txfeed-Has, poll-Has}

-- One parameter is set; the policies are the two low bits of the value.
abbrev pub set_one : ℕ → ℕ → Params → Params
set_one param val p =
    if param == 1
    then record p { w_ticks = val }
    else if param == 2
    then record p { g_ticks = val }
    else if param == 3
    then record p { s_ticks = val }
    else if param == 4
    then record p { d_us = val }
    else if param == 5
    then record p { finin_to_us = val }
    else if param == 6
    then record p { post_loader_colbin = val % 2 == 1; auto_rewind = val / 2 % 2 == 1 }
    else p

-- What an op word does to the parameters.
abbrev pub taken : ℕ → Params → Params
taken word p = if ipc_op word == 5 then set_one (ipc_arg word) (ipc_val word) p else p

apply_param-Params :
    (param val : ℕ) (s : Feeder) → params (apply_param param val s) ≡ set_one param val (params s)
unfolding apply_param
apply_param-Params param val s = ground arith

eject-Params :
    (g_deck : ℕ → DeckImg) (o : Option ℕ) (s : Feeder)
    → params (on_eject g_deck (record s { deck = o })) ≡ params s
unfolding on_eject
eject-Params g_deck none s = refl
eject-Params g_deck (some k) s = ground arith

rewind-Params :
    (g_deck : ℕ → DeckImg) (o : Option ℕ) (s : Feeder)
    → params (on_rewind g_deck (record s { deck = o })) ≡ params s
unfolding on_rewind cursor_reset
rewind-Params g_deck none s = refl
rewind-Params g_deck (some k) s = refl

go-Params :
    (g_deck : ℕ → DeckImg) (val : ℕ) (o : Option ℕ) (s : Feeder)
    → params (on_go g_deck val (record s { deck = o })) ≡ params s
unfolding on_go cursor_reset
go-Params g_deck val none s = refl
go-Params g_deck val (some k) s = ground arith

abbrev is_set_param : IpcOp → Bool
is_set_param IpcOp.set_param = true
is_set_param _ = false

on_op-Params :
    (g_deck : ℕ → DeckImg) (o : IpcOp) (arg val : ℕ) (s : Feeder)
    → params (on_op g_deck o arg val s)
      ≡ (if is_set_param o then set_one arg val (params s) else params s)
unfolding on_op on_arm on_disarm cursor_reset
on_op-Params g_deck IpcOp.arm arg val s = refl
on_op-Params g_deck IpcOp.disarm arg val s = refl
on_op-Params g_deck IpcOp.rewind arg val s = rewind-Params g_deck s.deck s
on_op-Params g_deck IpcOp.eject arg val s = eject-Params g_deck s.deck s
on_op-Params g_deck IpcOp.set_param arg val s = apply_param-Params arg val s
on_op-Params g_deck IpcOp.inject_error arg val s = refl
on_op-Params g_deck IpcOp.go arg val s = go-Params g_deck val s.deck s
on_op-Params g_deck IpcOp.other arg val s = refl

set_param-decode_op : (op : ℕ) → is_set_param (decode_op op) ≡ (op == 5)
unfolding decode_op
set_param-decode_op op = ground arith

-- feeder_on_ipc acts on the parameters through the word alone.
pub ipc-params :
    (g_deck : ℕ → DeckImg) (word : ℕ) (s : Feeder)
    → params (feeder_on_ipc g_deck word s) ≡ taken word (params s)
unfolding feeder_on_ipc lupob_update
ipc-params g_deck word s =
    on_op-Params g_deck (decode_op (ipc_op word)) (ipc_arg word) (ipc_val word) s
    ∙ ap (λ (b : Bool). if b then set_one (ipc_arg word) (ipc_val word) (params s) else params s)
        (set_param-decode_op (ipc_op word))

abbrev pub changed : Input → Params → Params
changed (Input.ipc word) p = taken word p
changed _ p = p

-- The parameters of the feeder change by the op words alone.
pub step-params :
    (g_deck : ℕ → DeckImg) (i : Input) (s : Feeder)
    → params (step g_deck i s) ≡ changed i (params s)
unfolding step
step-params g_deck (Input.re_cmd re) s = re_cmd-Has (params s) g_deck re s refl
step-params g_deck (Input.tu03 room) s = tu03-Has (params s) g_deck room s refl
step-params g_deck Input.txfeed s = txfeed-Has (params s) g_deck s refl
step-params g_deck (Input.ipc word) s = ipc-params g_deck word s
step-params g_deck (Input.poll room) s = poll-Has (params s) g_deck room s refl
step-params g_deck (Input.elapse us) s = refl
