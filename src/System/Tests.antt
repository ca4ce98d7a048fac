-- ===== src/System/Tests.antt =====
-- A run of the two cores, and uses of their theorems there.
use rpi_pico_card_reader.Prelude.{
  ℕ, ◌<◌, ◌≡◌, refl, List, [], ◌∷◌, ◌++◌, map, Bool, true, false, Option, none, some, arith,
}
use rpi_pico_card_reader.Deck.{zero_img}
use rpi_pico_card_reader.Deckload.{FatReader, chars}
use rpi_pico_card_reader.Feeder.Types.{FeederState}
use rpi_pico_card_reader.Feeder.Types.{boot, feeder_init}
use rpi_pico_card_reader.Config.{cfg_defaults}
use rpi_pico_card_reader.Console.State.{Env}
use rpi_pico_card_reader.Feeder.Mailbox.{feeder_on_ipc, on_op, apply_param, decode_op}
use rpi_pico_card_reader.Feeder.Run.{step}
use rpi_pico_card_reader.Feeder.Types.{lupob_update}
use rpi_pico_card_reader.Wire.{ipc_op, ipc_word, ipc_arg, ipc_val}
use rpi_pico_card_reader.Console.Shell.{read_char}
use rpi_pico_card_reader.Console.Text.{split_at, strtok, strtoul}
use rpi_pico_card_reader.Console.Param.{param_of}
use rpi_pico_card_reader.Console.Agreed.{IsAgreed, feeder_init-IsAgreed}
use rpi_pico_card_reader.System.{
  System, SysEvent, typed, send, beat, receive, re_cmd, elapse, sys_step, sys_run,
}
use rpi_pico_card_reader.System.Params.{settled-IsAgreed}

no_read :
    (x : ℕ) (xs : List ℕ) (f : Bool) (o : Option (List ℕ × Bool))
    → o ≡ none
    → o ≡ some (x ∷ xs, f)
    → 0 < 0
no_read x xs f o p e = absurd (ground (arith, p, e))

abbrev no_files : FatReader
no_files = record {
  File = Bool;
  fat_open = λ n. none;
  fat_read = λ f n. none;
  left = λ f. 0;
  less = λ f g size x xs e. no_read x xs g none refl e;
}

abbrev env : Env
env = record {
  state = FeederState.disarmed;
  flushes = true;
  saves = true;
  reader = λ s v. no_files;
  spoiled = zero_img;
}

abbrev system : System
system = record {
  console = record {
    line = [];
    greeted = true;
    g_cfg = cfg_defaults;
    storage = record {
      flash = λ i. 0;
      cached = λ i. 0;
      sector = 0;
      dirty = false;
      last_write_us = 0;
    };
    deck = zero_img;
    trace = false;
    sent = [];
    out = [];
    lost = false;
  };
  scratch = zero_img;
  ipc_q = [];
  feeder = feeder_init boot;
  heartbeat = 0;
}

-- A parameter is set; a command byte arrives before the feeder takes the word.
abbrev events : List SysEvent
events =
    map (typed env zero_img) (chars "set w 9" ++ b'\r' ∷ [])
    ++ (send ∷ re_cmd 0x40 ∷ beat ∷ receive ∷ elapse 100 ∷ [])

settled-IsAgreed_example :
    IsAgreed (sys_run events system).console.g_cfg (sys_run events system).feeder
unfolding sys_run sys_step read_char split_at strtok param_of strtoul
settled-IsAgreed_example =
    settled-IsAgreed events system (feeder_init-IsAgreed boot) refl refl refl refl

-- The feeder has the new width.
width_taken : (sys_run events system).feeder.w_ticks ≡ 9
unfolding sys_run sys_step read_char split_at strtok param_of strtoul feeder_on_ipc on_op
    apply_param step lupob_update decode_op ipc_op ipc_word ipc_arg ipc_val
width_taken = refl
