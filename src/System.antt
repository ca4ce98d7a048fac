-- ===== src/System.antt =====
-- The two cores: src/ipc.c, the loop of src/core1_main.c and the one of src/main.c. core0 runs the
-- console and the button, core1 the feeder; between them is the queue of op words. An event is a step
-- of one core, or a time that passes, in any order. ipc_send blocks while the queue is full: the word
-- waits in `sent` of the console, and core0 goes on when it is in the queue.
pub mod Params
mod Tests
use rpi_pico_card_reader.Prelude.{
  ℕ, ◌+◌, List, [], ◌∷◌, ◌++◌, Bool, if◌then◌else◌, ltb, ◌==◌, length, u32,
}
use rpi_pico_card_reader.Deck.{DeckImg, zero_img}
use rpi_pico_card_reader.Feeder.Types.{Feeder}
use rpi_pico_card_reader.Feeder.Mailbox.{feeder_on_ipc}
use rpi_pico_card_reader.Feeder.Run.{Input, step}
use rpi_pico_card_reader.Console.State.{Console, Env}
use rpi_pico_card_reader.Console.Arm.{console_arm_last}
use rpi_pico_card_reader.Console.Shell.{read_char}

abbrev pub ipc_queue_depth : ℕ
ipc_queue_depth = 16

pub record System : Type 0 where
  pub console : Console
  pub scratch : DeckImg
  pub ipc_q : List ℕ
  pub feeder : Feeder
  pub heartbeat : ℕ

-- g_deck: slot 0 is the deck of the console, slot 1 the scratch image of its loads.
abbrev pub g_deck : System → ℕ → DeckImg
g_deck s k = if k == 0 then s.console.deck else s.scratch

-- The console reads g_feeder_status.state.
abbrev pub with_state : System → Env → Env
with_state s env = record env { state = s.feeder.state }

-- ipc_send: queue_add_blocking on what the console sends: it waits while the queue is full.
unfoldable pub queue_add : List ℕ → System → System
queue_add [] s = s
queue_add (w ∷ ws) s =
    if ltb (length s.ipc_q) ipc_queue_depth
    then record s { console = record s.console { sent = ws }; ipc_q = s.ipc_q ++ w ∷ [] }
    else s

-- ipc_try_recv, and feeder_on_ipc on the word.
unfoldable pub ipc_try_recv : List ℕ → System → System
ipc_try_recv [] s = s
ipc_try_recv (w ∷ ws) s = record s { ipc_q = ws; feeder = feeder_on_ipc (g_deck s) w s.feeder }

-- core0: a character and the button, with what a load then leaves in the scratch image, and a word of
-- the console into the queue. core1: the heartbeat, a word
-- of the queue, the handlers of the wire and feeder_poll.
pub data SysEvent : Type 1 where
  typed : Env → DeckImg → ℕ → SysEvent
  button : Env → DeckImg → SysEvent
  send beat receive : SysEvent
  re_cmd : ℕ → SysEvent
  tu03 : ℕ → SysEvent
  txfeed : SysEvent
  poll : ℕ → SysEvent
  elapse : ℕ → SysEvent

abbrev pub on_core0 : (Console → Console) → DeckImg → System → System
on_core0 f scratch s =
    if length s.console.sent == 0 then record s { console = f s.console; scratch = scratch } else s

abbrev pub on_core1 : Input → System → System
on_core1 i s = record s { feeder = step (g_deck s) i s.feeder }

unfoldable pub sys_step : SysEvent → System → System
unfolding queue_add ipc_try_recv
sys_step (typed env scratch ch) s = on_core0 (read_char (with_state s env) ch) scratch s
sys_step (button env scratch) s = on_core0 (console_arm_last (with_state s env)) scratch s
sys_step send s = queue_add s.console.sent s
sys_step beat s = record s { heartbeat = u32 (s.heartbeat + 1) }
sys_step receive s = ipc_try_recv s.ipc_q s
sys_step (re_cmd re) s = on_core1 (Input.re_cmd re) s
sys_step (tu03 room) s = on_core1 (Input.tu03 room) s
sys_step txfeed s = on_core1 Input.txfeed s
sys_step (poll room) s = on_core1 (Input.poll room) s
sys_step (elapse us) s = on_core1 (Input.elapse us) s

unfoldable pub sys_run : List SysEvent → System → System
sys_run [] s = s
sys_run (e ∷ es) s = sys_run es (sys_step e s)
