-- ===== src/Console/Arm.antt =====
-- Arming: arm_named, cmd_arm and console_arm_last.
use rpi_pico_card_reader.Prelude.{
  ℕ, ◌-◌, List, [], ◌∷◌, ◌++◌, Bool, true, false, not, ◌&&◌, ◌||◌, Option, none, some,
  if◌then◌else◌, with_option, ltb, ◌==◌, get_or, take, replicate, length, u16, set_bit,
}
use rpi_pico_card_reader.Cap.{list_eq}
use rpi_pico_card_reader.Storage.{Storage, storage_flush}
use rpi_pico_card_reader.Fat.Volume.{FatVol, mounted, fat_mount}
use rpi_pico_card_reader.Fat.Directory.{c_string}
use rpi_pico_card_reader.Fat.Device.{storage_disk}
use rpi_pico_card_reader.Config.{SaveResult, saved, is_disarmed, cfg_save}
use rpi_pico_card_reader.Deckload.{
  FatReader, Loaded, loaded, no_file, bad_file, chars, deckload_bin, deckload_batch,
  deckload_prepare, deckload_find_batch,
}
use rpi_pico_card_reader.Console.Text.{split_at, strtok, strtoul}
use rpi_pico_card_reader.Console.State.{
  Console, Env, con_printf, con_printf_if, ipc_send, err_no_volume, err_armed, err_arm_usage,
  err_no_last, err_base, err_not_found, err_parse, warn_save, ok_bin, ok_armed, ok_rewind,
}

-- The volume of mount() when vol_ok is 0.
abbrev pub mount : Storage → Option FatVol
mount s = elim (fat_mount (storage_disk s)) [ mounted v ↦ some v | _ ↦ none ]

-- The name without its "@hexbase", and the base.
abbrev pub named_base : List ℕ → List ℕ × ℕ
named_base name =
    let (n, at) = split_at b'@' (take 103 name) in
    (n, with_option at 0x0100 (λ hex. strtoul hex 16))

abbrev pub is_bin : List ℕ → Bool
is_bin n =
    let nl = length n in
    ltb 4 nl
    && get_or n (nl - 4) 0 == b'.'
    && set_bit (get_or n (nl - 3) 0) 5 == b'b'
    && set_bit (get_or n (nl - 2) 0) 5 == b'i'
    && set_bit (get_or n (nl - 1) 0) 5 == b'n'

abbrev pub bin2deck_min_base : ℕ
bin2deck_min_base = 0x0086

-- base != 0 && (base < BIN2DECK_MIN_BASE || base > 0xFFFF)
abbrev pub is_bad_base : ℕ → Bool
is_bad_base base = not (base == 0) && (ltb base bin2deck_min_base || ltb 0xFFFF base)

-- The deck of a name: a binary, a batch or a capture file.
abbrev pub deck_of : FatReader → List ℕ → ℕ → Bool → Loaded
deck_of vol n base raw =
    if is_bin n
    then deckload_bin vol n (u16 base) (u16 base)
    else with_option (deckload_find_batch n) (deckload_prepare vol n raw) (deckload_batch vol)

-- strncpy(g_cfg.last_deck, name, 47), with a 0 behind it
abbrev pub last_deck_of : List ℕ → List ℕ
last_deck_of name = take 48 (take 47 name ++ replicate 48 0)

-- cfg_save() on g_cfg and the flash.
abbrev pub save : Env → Console → Console × SaveResult
save env c =
    let (g_cfg, flash, result) = cfg_save env.saves env.state c.g_cfg c.storage.flash in
    (record c { g_cfg = g_cfg; storage = record c.storage { flash = flash } }, result)

abbrev pub is_saved : SaveResult → Bool
is_saved saved = true
is_saved _ = false

-- arm_named once the deck is in g_deck[0].
unfoldable pub finish_arm : Env → List ℕ → Bool → Console → Console
finish_arm env name raw c =
    let (n, base) = named_base name in
    let c1 = con_printf_if (is_bin n) (ok_bin base c.deck.n_cards) c in
    let (c2, result) =
      save env (record c1 { g_cfg = record c1.g_cfg { last_deck = last_deck_of name } }) in
    let c3 = con_printf_if (not (is_saved result)) warn_save c2 in
    con_printf (ok_armed c.deck.name c.deck.n_cards raw) (ipc_send 1 0 0 c3)

-- arm_named from the result of the load on. The Boolean is its result: false for -1.
unfoldable pub after_load : Env → List ℕ → Bool → Loaded → Console → Console × Bool
unfolding finish_arm
after_load env name raw (loaded d) c = (finish_arm env name raw (record c { deck = d }), true)
after_load env name raw no_file c =
    (con_printf (err_not_found (named_base name).0) (record c { deck = env.spoiled }), false)
after_load env name raw bad_file c =
    (con_printf (err_parse (named_base name).0) (record c { deck = env.spoiled }), false)

unfoldable pub arm_named : Env → List ℕ → Bool → Console → Console × Bool
unfolding after_load
arm_named env name raw c =
    let (n, base) = named_base name in
    let flushed = record c { storage = (storage_flush env.flushes c.storage).0 } in
    if is_bin n && is_bad_base base
    then (con_printf (err_base base) c, false)
    else with_option (mount flushed.storage) (con_printf err_no_volume flushed, false)
        (λ v. after_load env name raw (deck_of (env.reader flushed.storage v) n base raw) flushed)

-- `arg` is what is behind the command's blank. With blanks only, strtok gives a null pointer, which
-- arm_named reads.
unfoldable pub cmd_arm : Env → Option (List ℕ) → Console → Console
unfolding arm_named
cmd_arm env arg c = if not (is_disarmed env.state) then con_printf err_armed c else elim arg [
  | none ↦ con_printf err_arm_usage c
  | some [] ↦ con_printf err_arm_usage c
  | some (x ∷ xs) ↦
      with_option (strtok (x ∷ xs)) (record c { lost = true })
        (λ (name, rest).
          let raw = with_option (strtok rest) false (λ (flag, r). list_eq flag (chars "--raw")) in
          (arm_named env name raw c).0)
]

unfoldable pub console_arm_last : Env → Console → Console
unfolding arm_named
console_arm_last env c =
    if not (is_disarmed env.state)
    then con_printf ok_rewind (ipc_send 3 0 0 c)
    else if get_or c.g_cfg.last_deck 0 0 == 0
    then con_printf err_no_last c
    else (arm_named env (c_string c.g_cfg.last_deck) false c).0
