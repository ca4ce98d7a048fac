-- ===== src/Console/Param.antt =====
-- The commands set and go.
use rpi_pico_card_reader.Prelude.{
  ℕ, ◌+◌, ◌-◌, ◌*◌, ◌%◌, List, ◌||◌, Option, none, some, if◌then◌else◌, with_option, ltb, u16, u32,
}
use Prim.Native.Nat.{bit_or}
use rpi_pico_card_reader.Deck.{DeckImg}
use rpi_pico_card_reader.Cap.{list_eq}
use rpi_pico_card_reader.Config.{Cfg, is_disarmed}
use rpi_pico_card_reader.Deckload.{chars}
use rpi_pico_card_reader.Console.Text.{strtok, strtoul}
use rpi_pico_card_reader.Console.State.{
  Console, Env, con_printf, ipc_send, w_capped, g_capped, err_set_usage, err_param, ok_set,
  err_not_armed, err_card, ok_card,
}

-- The parameters by their names.
pub data Param : Type 0 where
  set_w set_g set_s set_d set_finto set_plc set_arw : Param

unfoldable pub param_of : List ℕ → Option Param
param_of name =
    if list_eq name (chars "w")
    then some set_w
    else if list_eq name (chars "g")
    then some set_g
    else if list_eq name (chars "s")
    then some set_s
    else if list_eq name (chars "d")
    then some set_d
    else if list_eq name (chars "finto")
    then some set_finto
    else if list_eq name (chars "plc")
    then some set_plc
    else if list_eq name (chars "arw")
    then some set_arw
    else none

-- enum ipc_param
abbrev pub param_code : Param → ℕ
param_code set_w = 1
param_code set_g = 2
param_code set_s = 3
param_code set_d = 4
param_code set_finto = 5
param_code set_plc = 6
param_code set_arw = 6

-- v after the caps: w has 8 bits in the presenter's word, g 15.
abbrev pub capped : Param → ℕ → ℕ
capped set_w v = if ltb 255 v then 255 else v
capped set_g v = if ltb 32767 v then 32767 else v
capped _ v = v

abbrev pub say_capped : Param → ℕ → Console → Console
say_capped set_w v c = if ltb 255 v then con_printf w_capped c else c
say_capped set_g v c = if ltb 32767 v then con_printf g_capped c else c
say_capped _ v c = c

abbrev pub set_field : Param → ℕ → Cfg → Cfg
set_field set_w v c = record c { w_ticks = u16 v }
set_field set_g v c = record c { g_ticks = u16 v }
set_field set_s v c = record c { s_ticks = u16 v }
set_field set_d v c = record c { d_us = u16 v }
set_field set_finto v c = record c { finin_to_us = u16 v }
set_field set_plc v c = record c { post_loader_colbin = v % 2 }
set_field set_arw v c = record c { auto_rewind = v % 2 }

-- The value of the word: for the two flags, both of them.
abbrev pub sent_value : Param → ℕ → Cfg → ℕ
sent_value set_plc v c = u16 (bit_or c.post_loader_colbin (c.auto_rewind * 2))
sent_value set_arw v c = u16 (bit_or c.post_loader_colbin (c.auto_rewind * 2))
sent_value _ v c = u16 v

-- cmd_set from the switch on the name on.
unfoldable pub put_param : Param → List ℕ → ℕ → Console → Console
put_param p name v c =
    let v' = capped p v in
    let c' = record (say_capped p v c) { g_cfg = set_field p v' c.g_cfg } in
    con_printf (ok_set name v') (ipc_send 5 (param_code p) (sent_value p v' c'.g_cfg) c')

unfoldable pub cmd_set : Option (List ℕ) → Console → Console
unfolding put_param
cmd_set arg c =
    with_option (with_option arg none strtok) (con_printf err_set_usage c) (λ (name, rest).
      with_option (strtok rest) (con_printf err_set_usage c) (λ (vstr, r).
        with_option (param_of name) (con_printf (err_param name) c)
          (λ p. put_param p name (strtoul vstr 0) c)))

-- The card that the feed starts at.
abbrev pub go_start : DeckImg → ℕ
go_start d = with_option d.loader_card 0 (λ l. u16 l)

-- cmd_go with the number that strtoul gives.
unfoldable pub go_to : Env → ℕ → Console → Console
go_to env n c =
    let start = go_start c.deck in
    let max = u32 (c.deck.n_cards + 4294967296 - start) in
    if is_disarmed env.state
    then con_printf err_not_armed c
    else if ltb n 1 || ltb max n
    then con_printf (err_card max) c
    else con_printf (ok_card n max (u32 (start + n - 1))) (ipc_send 7 0 (u16 n) c)

unfoldable pub cmd_go : Env → Option (List ℕ) → Console → Console
unfolding go_to
cmd_go env arg c = go_to env (with_option arg 0 (λ s. strtoul s 0)) c
