-- ===== src/Feeder/Types.antt =====
-- The feeder's state, and its small helpers.
use rpi_pico_card_reader.Prelude.{
  ℕ, List, [], ◌∷◌, ◌++◌, Bool, true, false, not, ◌&&◌, Option, none, some, if◌then◌else◌,
  with_option, ◌==◌,
}
use rpi_pico_card_reader.Transcode.{TcMode, normal, binary, hex, colbin}
use rpi_pico_card_reader.Deck.{DeckImg}
use rpi_pico_card_reader.Monitor
use rpi_pico_card_reader.Monitor.{EvKind, EvRing, Event}

-- enum feeder_state
pub data FeederState : Type 0 where
  disarmed armed_wait presenting card_done done error : FeederState

-- The calls of wire_tx that reach the state machine of the PIO.
pub data WireOp : Type 0 where
  push : ℕ → WireOp
  release_finin arm disarm : WireOp

pub record Feeder : Type 0 where
  pub state : FeederState
  pub mode : TcMode
  pub card : ℕ
  pub col : ℕ
  pub half : ℕ
  pub n_cmds : ℕ
  pub n_feeds : ℕ
  pub n_autofeeds : ℕ
  pub n_nibbles : ℕ
  pub n_unknown_cmd : ℕ
  pub deck : Option ℕ
  pub latched_mode : TcMode
  pub is_presenting : Bool
  pub cmd_pending : Bool
  pub finin_pending : Bool
  pub cmd_deadline : ℕ
  pub finin_deadline : ℕ
  pub w_ticks : ℕ
  pub g_ticks : ℕ
  pub s_ticks : ℕ
  pub d_us : ℕ
  pub finin_to_us : ℕ
  pub post_loader_colbin : Bool
  pub auto_rewind : Bool
  pub fiden : Bool
  pub pom01 : Bool
  pub luren : Bool
  pub ready : Bool
  pub feed_irq : Bool
  pub wire : List WireOp
  pub events : EvRing
  pub now : ℕ

-- The C variables before feeder_init: all zero, with the pins as status_pins_init and wire_tx_init
-- leave them.
abbrev pub boot : Feeder
boot = record {
  state = disarmed;
  mode = normal;
  card = 0;
  col = 0;
  half = 0;
  n_cmds = 0;
  n_feeds = 0;
  n_autofeeds = 0;
  n_nibbles = 0;
  n_unknown_cmd = 0;
  deck = none;
  latched_mode = normal;
  is_presenting = false;
  cmd_pending = false;
  finin_pending = false;
  cmd_deadline = 0;
  finin_deadline = 0;
  w_ticks = 0;
  g_ticks = 0;
  s_ticks = 0;
  d_us = 0;
  finin_to_us = 0;
  post_loader_colbin = false;
  auto_rewind = false;
  fiden = false;
  pom01 = false;
  luren = false;
  ready = false;
  feed_irq = false;
  wire = [];
  events = record {
    ev = λ i. record { t_us = 0; kind = EvKind.re_cmd; arg = 0; seq = 0 };
    wr = 0;
    rd = 0;
  };
  now = 0;
}

unfoldable pub feeder_init : Feeder → Feeder
feeder_init s = record s {
  state = disarmed;
  latched_mode = hex;
  w_ticks = 35;
  g_ticks = 115;
  s_ticks = 5;
  d_us = 50000;
  finin_to_us = 1000;
  post_loader_colbin = true;
  auto_rewind = true;
}

abbrev pub ev_push : EvKind → ℕ → Feeder → Feeder
ev_push kind arg s = record s { events = Monitor.ev_push s.now kind arg s.events }

abbrev pub wire_op : WireOp → Feeder → Feeder
wire_op op s = record s { wire = s.wire ++ op ∷ [] }

-- wire_tx_arm and wire_tx_disarm also switch the FIFO interrupt off.
abbrev pub wire_tx_arm : Feeder → Feeder
wire_tx_arm s = record s { wire = s.wire ++ arm ∷ []; feed_irq = false }

abbrev pub wire_tx_disarm : Feeder → Feeder
wire_tx_disarm s = record s { wire = s.wire ++ disarm ∷ []; feed_irq = false }

abbrev pub is_armed : Option ℕ → Bool
is_armed none = false
is_armed (some k) = true

-- The states in which a read command is taken, and LUPOB may be ready.
abbrev pub is_idle : FeederState → Bool
is_idle armed_wait = true
is_idle card_done = true
is_idle _ = false

abbrev pub is_armed_wait : FeederState → Bool
is_armed_wait armed_wait = true
is_armed_wait _ = false

abbrev pub is_card_done : FeederState → Bool
is_card_done card_done = true
is_card_done _ = false

abbrev pub is_error : FeederState → Bool
is_error error = true
is_error _ = false

abbrev pub is_packed : TcMode → Bool
is_packed colbin = true
is_packed binary = true
is_packed _ = false

-- Where a feed starts: at the loader card, or at card 0.
abbrev pub start_card : DeckImg → ℕ
start_card d = with_option d.loader_card 0 (λ l. l)

-- The value of lupob_update: ready while armed, idle and with nothing pending.
abbrev pub lupob : Feeder → Bool
lupob s =
    is_armed s.deck
    && not s.is_presenting
    && not s.cmd_pending
    && not s.finin_pending
    && is_idle s.state

unfoldable pub lupob_update : Feeder → Feeder
lupob_update s = record s { ready = lupob s }

unfoldable pub finin_release : Feeder → Feeder
finin_release s =
    if s.finin_pending then wire_op release_finin (record s { finin_pending = false }) else s

module _ (g_deck : ℕ → DeckImg) where
  unfoldable pub cursor_reset : Feeder → Feeder
  cursor_reset s = record s {
    card = with_option s.deck 0 (λ k. start_card (g_deck k));
    col = 0;
    half = 0;
    is_presenting = false;
    cmd_pending = false;
    finin_pending = false;
  }

-- The mode in which one card of deck d is read.
abbrev pub is_loader : DeckImg → ℕ → Bool
is_loader d card = with_option d.loader_card false (λ l. card == l)

unfoldable pub effective_mode : DeckImg → Feeder → ℕ → TcMode
effective_mode d s card =
    if is_loader d card then hex else if s.post_loader_colbin then colbin else s.latched_mode
