-- ===== src/Console/State.antt =====
-- The state of the shell, and what it does outside.
use rpi_pico_card_reader.Prelude.{ℕ, List, [], ◌∷◌, ◌++◌, Bool, if◌then◌else◌}
use rpi_pico_card_reader.Deck.{DeckImg}
use rpi_pico_card_reader.Wire.{ipc_word}
use rpi_pico_card_reader.Feeder.Types.{FeederState}
use rpi_pico_card_reader.Storage.{Storage}
use rpi_pico_card_reader.Fat.Volume.{FatVol}
use rpi_pico_card_reader.Config.{Cfg}
use rpi_pico_card_reader.Deckload.{FatReader}

-- The calls of con_printf, without their wording.
pub data Reply : Type 0 where
  ok ok_rewind ok_saved ok_luren : Reply
  err_no_volume err_root err_armed err_arm_usage err_no_last err_set_usage err_not_armed err_save
        warn_save :
      Reply
  w_capped g_capped rebooting version help status greeting prompt newline erase : Reply
  file_line : List ℕ → ℕ → Reply
  batch_line : List ℕ → Reply
  ok_files ok_batches err_base err_card echo : ℕ → Reply
  err_not_found err_parse err_param err_command : List ℕ → Reply
  ok_bin : ℕ → ℕ → Reply
  ok_armed : List ℕ → ℕ → Bool → Reply
  ok_set : List ℕ → ℕ → Reply
  ok_card : ℕ → ℕ → ℕ → Reply
  ok_trace : Bool → Reply

-- `line` is line[0] to line[linelen - 1], `deck` is g_deck[0], and `lost` says that the call does not
-- come back: after reset_usb_boot, or with a null pointer as a name.
pub record Console : Type 0 where
  pub line : List ℕ
  pub greeted : Bool
  pub g_cfg : Cfg
  pub storage : Storage
  pub deck : DeckImg
  pub trace : Bool
  pub sent : List ℕ
  pub out : List Reply
  pub lost : Bool

-- The feeder's state, whether the flash operations of storage_flush and cfg_save succeed, how the
-- loader reads a mounted volume, and what a failed load leaves in g_deck[0].
pub record Env : Type 1 where
  pub state : FeederState
  pub flushes : Bool
  pub saves : Bool
  pub reader : Storage → FatVol → FatReader
  pub spoiled : DeckImg

abbrev pub con_printf : Reply → Console → Console
con_printf r c = record c { out = c.out ++ r ∷ [] }

-- if (b) con_printf(...)
abbrev pub con_printf_if : Bool → Reply → Console → Console
con_printf_if b r c = record c { out = c.out ++ (if b then r ∷ [] else []) }

abbrev pub ipc_send : ℕ → ℕ → ℕ → Console → Console
ipc_send op arg val c = record c { sent = c.sent ++ ipc_word op arg val ∷ [] }
