-- ===== src/Console/Tests.antt =====
-- A console beside a mounted volume, armed and not.
use rpi_pico_card_reader.Wire.{ipc_word}
use rpi_pico_card_reader.Console.Printf.{con_printf_bytes, con_printf_lem}
use rpi_pico_card_reader.Prelude.{
  ℕ, zero, suc, ◌+◌, ◌-◌, ◌≤◌, ◌<◌, ◌≡◌, ◌⊎◌, refl, List, [], ◌∷◌, ◌++◌, Bool, true, false, not,
  ◌==◌, passes, passes_below, Option, none, some, if◌then◌else◌, get_or, take, drop, length,
  length-drop, window, arith,
}
use rpi_pico_card_reader.Cap.{list_eq}
use rpi_pico_card_reader.Deck.{DeckImg, zero_img}
use rpi_pico_card_reader.Feeder.Types.{Feeder, FeederState, disarmed, armed_wait, boot, start_card}
use rpi_pico_card_reader.Feeder.Mailbox.{feeder_on_ipc}
use rpi_pico_card_reader.Storage.{
  Storage, overlay, storage_read_blocks, storage_flush, fat_flash_offset,
}
use rpi_pico_card_reader.Fat.Volume.{fat_mount}
use rpi_pico_card_reader.Bin2deck.{bin2deck_ipl}
use rpi_pico_card_reader.Console.Text.{split_at, strtoul, skip_spaces, magnitude, digits, digit}
use rpi_pico_card_reader.Config.{cfg_defaults, cfg_load}
use rpi_pico_card_reader.Config.Layout.{IsCfg}
use rpi_pico_card_reader.Deckload.{FatReader, chars, deckload_bin, load_ipl}
use rpi_pico_card_reader.Console.State.{Console, Env}
use rpi_pico_card_reader.Console.Arm.{after_load, arm_named, console_arm_last}
use rpi_pico_card_reader.Console.Param.{go_to}
use rpi_pico_card_reader.Console.Shell.{execute, console_poll}
use rpi_pico_card_reader.Console.Armed.{IsKept, console_poll-IsKept}
use rpi_pico_card_reader.Console.Position.{IsAt, go_to-feeder_on_ipc}
use rpi_pico_card_reader.Console.Outcome.{Settled, arm_named-outcome}
use rpi_pico_card_reader.Console.Restart.{IsSameVolume, IsName, console_arm_last-arm_named}
use rpi_pico_card_reader.Console.Editor.{after_typing, console_poll-execute}

abbrev blank : ℕ → List ℕ
blank n = window (λ i. 0) 0 n

-- The boot sector of a FAT12 volume.
abbrev sector : List ℕ
sector =
    blank 11 ++ 0 ∷ 2 ∷ 1 ∷ 1 ∷ 0 ∷ 1 ∷ 16 ∷ 0 ∷ 10 ∷ 0 ∷ 0xf8 ∷ 1 ∷ blank 487 ++ 0x55 ∷ 0xaa ∷ []

abbrev storage : Storage
storage = record {
  flash = λ a. get_or sector (a - fat_flash_offset) 0;
  cached = λ i. 0;
  sector = 0;
  dirty = false;
  last_write_us = 0;
}

-- A file is the list of its bytes that are not read.
abbrev read : List ℕ → ℕ → Option (List ℕ × List ℕ)
read f size = some (take size f, drop size f)

read_less :
    (f f' : List ℕ) (size x : ℕ) (xs : List ℕ)
    → read f size ≡ some (x ∷ xs, f')
    → length f' < length f
read_less f f' zero x xs e = absurd (ground (arith, e))
read_less [] f' (suc n) x xs e = absurd (ground (arith, e))
read_less (y ∷ ys) f' (suc n) x xs e = ground (arith, e, length-drop n ys)

abbrev files : FatReader
files = record {
  File = List ℕ;
  fat_open = λ n. if list_eq n (chars "p.bin") then some (0x47 ∷ 0x00 ∷ []) else none;
  fat_read = read;
  left = length;
  less = read_less;
}

abbrev env : FeederState → Env
env state = record {
  state = state;
  flushes = true;
  saves = true;
  reader = λ s v. files;
  spoiled = zero_img;
}

abbrev deck : DeckImg
deck = record zero_img { n_cards = 5; loader_card = some 2 }

abbrev con : Console
con = record {
  line = [];
  greeted = true;
  g_cfg = cfg_defaults;
  storage = storage;
  deck = deck;
  trace = false;
  sent = [];
  out = [];
  lost = false;
}

console_poll-IsKept_example :
    IsKept con (console_poll (env armed_wait) true (chars "arm a.cap" ++ b'\r' ∷ []) con)
    × IsKept con (console_arm_last (env armed_wait) con)
console_poll-IsKept_example =
    console_poll-IsKept (env armed_wait) refl true (chars "arm a.cap" ++ b'\r' ∷ []) con

abbrev armed : Feeder
armed = record boot { deck = some 0; state = armed_wait }

-- The third card of the order of a deck whose loader is the card 2.
go_to-feeder_on_ipc_example :
    let n : ℕ = 3 in
    (((1 ≤ 3) × (start_card con.deck + 3 ≤ con.deck.n_cards))
      × (word : ℕ) × ((go_to (env armed_wait) 3 con).sent ≡ con.sent ++ word ∷ [])
      × IsAt (λ k. deck) (start_card con.deck + 3 - 1) (feeder_on_ipc (λ k. deck) word armed))
    ⊎ (((n ≡ 0) ⊎ (con.deck.n_cards < start_card con.deck + 3))
        × ((go_to (env armed_wait) 3 con).sent ≡ con.sent))
go_to-feeder_on_ipc_example =
    go_to-feeder_on_ipc (λ k. deck) (env armed_wait) 3 0 con armed refl refl refl (omega arith)
      (omega arith)

arm_named-outcome_example :
    Settled
      (env disarmed)
      (chars "a.cap")
      false
      con
      (arm_named (env disarmed) (chars "a.cap") false con)
arm_named-outcome_example = arm_named-outcome (env disarmed) (chars "a.cap") false con

defaults-IsCfg : IsCfg cfg_defaults
defaults-IsCfg = record {
  magic = refl;
  w_ticks = omega arith;
  g_ticks = omega arith;
  s_ticks = omega arith;
  d_us = omega arith;
  finin_to_us = omega arith;
  last_deck = refl;
  padding = omega arith;
  crc = omega arith;
}

-- A binary of two bytes that runs from 0.
abbrev name : List ℕ
name = chars "p.bin@0"

abbrev no_nul_at : ℕ → Bool
no_nul_at i = not (get_or name i 0 == 0)

name-IsName : IsName name
unfolding passes
name-IsName = record {
  some_char = omega arith;
  short = omega arith;
  no_nul = λ i lt e. absurd (ground (arith, passes_below no_nul_at 7 refl i lt, e));
}

-- The console of the next start.
abbrev restarted : Console
restarted = record con {
  g_cfg = cfg_load (arm_named (env disarmed) name false con).0.storage.flash;
}

arms : (arm_named (env disarmed) name false con).1 ≡ true
unfolding arm_named after_load split_at fat_mount storage_read_blocks overlay storage_flush strtoul
    skip_spaces magnitude digits digit deckload_bin load_ipl bin2deck_ipl
arms = refl

restarted-IsSameVolume : IsSameVolume (env disarmed) con (env disarmed) restarted
restarted-IsSameVolume = record { volume = refl; files = λ v. refl }

console_arm_last-arm_named_example :
    ((console_arm_last (env disarmed) restarted).deck
      ≡ (arm_named (env disarmed) name false con).0.deck)
    × ((console_arm_last (env disarmed) restarted).sent ≡ ipc_word 1 0 0 ∷ [])
console_arm_last-arm_named_example =
    console_arm_last-arm_named (env disarmed) name con defaults-IsCfg name-IsName refl refl arms
      (env disarmed) restarted refl refl restarted-IsSameVolume

console_poll-execute_example :
    console_poll (env disarmed) true (chars "set w 40" ++ b'\r' ∷ []) con
    ≡ execute (env disarmed) (chars "set w 40") (after_typing (chars "set w 40") con)
console_poll-execute_example =
    console_poll-execute (env disarmed) (chars "set w 40") con refl refl refl (omega arith) refl

-- The port takes two bytes, none, and then up to 64.
con_printf_lem_example :
    con_printf_bytes (λ i. 0) true ((2, true) ∷ (0, true) ∷ (64, true) ∷ []) (chars "OK saved")
    ≡ chars "OK saved"
con_printf_lem_example =
    con_printf_lem (λ i. 0) ((2, true) ∷ (0, true) ∷ (64, true) ∷ []) (chars "OK saved")
      (omega arith) (refl, (refl, (refl, tt)))
