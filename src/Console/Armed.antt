-- ===== src/Console/Armed.antt =====
-- The shell while a deck is armed.
use rpi_pico_card_reader.Prelude.{
  ℕ, ◌≡◌, refl, ◌∙◌, List, [], ◌∷◌, Bool, true, false, not, Option, none, if◌then◌else◌, if_intro,
  with_option, with_option_intro, arith,
}
use rpi_pico_card_reader.Fat.Directory.{fat_list}
use rpi_pico_card_reader.Fat.Device.{storage_disk}
use rpi_pico_card_reader.Config.{is_disarmed, cfg_save}
use rpi_pico_card_reader.Console.Text.{strtok, strtoul, split_at}
use rpi_pico_card_reader.Console.State.{Console, Env, con_printf, newline, greeting}
use rpi_pico_card_reader.Console.Arm.{mount, cmd_arm, console_arm_last}
use rpi_pico_card_reader.Console.Param.{
  Param, set_w, set_g, set_s, set_d, set_finto, set_plc, set_arw, param_of, put_param, cmd_set,
  go_to, cmd_go,
}
use rpi_pico_card_reader.Console.Shell.{
  print_files, cmd_ls, cmd_save, ShellCommand, ls, batches, arm, disarm, rewind, go, eject, show,
  set, store_cfg, trace, inject, bootloader, show_version, show_help, unknown, command_of,
  run_command, execute, read_char, read_chars, console_poll,
}

-- The deck, the flash with its cache, and the name of the last deck are those of before.
abbrev pub IsKept : Console → Console → Type 0
IsKept c c' =
    (c'.deck ≡ c.deck) × (c'.storage ≡ c.storage) × (c'.g_cfg.last_deck ≡ c.g_cfg.last_deck)

trans-IsKept : (a b c : Console) → IsKept a b → IsKept b c → IsKept a c
trans-IsKept a b c (p, q, r) (x, y, z) = (x ∙ p, y ∙ q, z ∙ r)

print_files-IsKept : (files : List (List ℕ × ℕ)) (c : Console) → IsKept c (print_files files c)
print_files-IsKept [] c = (refl, refl, refl)
print_files-IsKept ((name, size) ∷ files) c = print_files-IsKept files (con_printf _ c)

cmd_ls-IsKept : (c : Console) → IsKept c (cmd_ls c)
unfolding cmd_ls
cmd_ls-IsKept c =
    with_option_intro (IsKept c) (mount c.storage) (λ e. (refl, refl, refl))
      (λ v e.
        with_option_intro (IsKept c) (fat_list (storage_disk c.storage) v) (λ q. (refl, refl, refl))
          (λ (files, n) q. print_files-IsKept files c))

put_param-IsKept :
    (p : Param) (name : List ℕ) (v : ℕ) (c : Console) → IsKept c (put_param p name v c)
unfolding put_param
put_param-IsKept set_w name v c = ground arith
put_param-IsKept set_g name v c = ground arith
put_param-IsKept set_s name v c = (refl, refl, refl)
put_param-IsKept set_d name v c = (refl, refl, refl)
put_param-IsKept set_finto name v c = (refl, refl, refl)
put_param-IsKept set_plc name v c = (refl, refl, refl)
put_param-IsKept set_arw name v c = (refl, refl, refl)

cmd_set-IsKept : (arg : Option (List ℕ)) (c : Console) → IsKept c (cmd_set arg c)
unfolding cmd_set
cmd_set-IsKept arg c =
    with_option_intro (IsKept c) (with_option arg none strtok) (λ e. (refl, refl, refl))
      (λ (name, rest) e.
        with_option_intro (IsKept c) (strtok rest) (λ q. (refl, refl, refl))
          (λ (vstr, r) q.
            with_option_intro (IsKept c) (param_of name) (λ u. (refl, refl, refl))
              (λ p u. put_param-IsKept p name (strtoul vstr 0) c)))

cmd_go-IsKept : (env : Env) (arg : Option (List ℕ)) (c : Console) → IsKept c (cmd_go env arg c)
unfolding cmd_go go_to
cmd_go-IsKept env arg c = ground arith

module _ (env : Env) (armed : is_disarmed env.state ≡ false) where
  cmd_save-IsKept : (c : Console) → IsKept c (cmd_save env c)
  unfolding cfg_save
  cmd_save-IsKept c = ground (arith, armed)

  cmd_arm-IsKept : (arg : Option (List ℕ)) (c : Console) → IsKept c (cmd_arm env arg c)
  unfolding cmd_arm
  cmd_arm-IsKept arg c = ground (arith, armed)

  run_command-IsKept :
      (k : ShellCommand) (cmd : List ℕ) (arg : Option (List ℕ)) (c : Console)
      → IsKept c (run_command env k cmd arg c)
  unfolding run_command
  run_command-IsKept ls cmd arg c = cmd_ls-IsKept c
  run_command-IsKept arm cmd arg c = cmd_arm-IsKept arg c
  run_command-IsKept set cmd arg c = cmd_set-IsKept arg c
  run_command-IsKept store_cfg cmd arg c = cmd_save-IsKept c
  run_command-IsKept go cmd arg c = cmd_go-IsKept env arg c
  run_command-IsKept batches cmd arg c = (refl, refl, refl)
  run_command-IsKept disarm cmd arg c = (refl, refl, refl)
  run_command-IsKept rewind cmd arg c = (refl, refl, refl)
  run_command-IsKept eject cmd arg c = (refl, refl, refl)
  run_command-IsKept show cmd arg c = (refl, refl, refl)
  run_command-IsKept trace cmd arg c = (refl, refl, refl)
  run_command-IsKept inject cmd arg c = (refl, refl, refl)
  run_command-IsKept bootloader cmd arg c = (refl, refl, refl)
  run_command-IsKept show_version cmd arg c = (refl, refl, refl)
  run_command-IsKept show_help cmd arg c = (refl, refl, refl)
  run_command-IsKept unknown cmd arg c = (refl, refl, refl)

  execute-IsKept : (text : List ℕ) (c : Console) → IsKept c (execute env text c)
  unfolding execute
  execute-IsKept text c =
      let (cmd, arg) = split_at b' ' text in
      let done = run_command env (command_of cmd) cmd arg c in
      let shown : Console = elim cmd [ [] ↦ c | x ∷ xs ↦ done ] in
      let kept : IsKept c shown = ground (arith, run_command-IsKept (command_of cmd) cmd arg c) in
      if_intro (IsKept c) shown.lost (λ p. kept) (λ p. kept)

  read_char-IsKept : (ch : ℕ) (c : Console) → IsKept c (read_char env ch c)
  unfolding read_char
  read_char-IsKept ch c =
      ground (arith, execute-IsKept c.line (record (con_printf newline c) { line = [] }))

  read_chars-IsKept : (chs : List ℕ) (c : Console) → IsKept c (read_chars env chs c)
  unfolding read_chars
  read_chars-IsKept [] c = (refl, refl, refl)
  read_chars-IsKept (ch ∷ chs) c =
      if_intro (IsKept c) c.lost (λ p. (refl, refl, refl))
        (λ p.
          trans-IsKept c (read_char env ch c) (read_chars env chs (read_char env ch c))
            (read_char-IsKept ch c) (read_chars-IsKept chs (read_char env ch c)))

  -- While the feeder is not in the DISARMED state, whatever is typed at the console, and the button,
  -- leave the deck in g_deck[0], the flash with its write cache, and the name of the last deck as
  -- they are.
  pub console_poll-IsKept :
      (connected : Bool) (chs : List ℕ) (c : Console)
      → IsKept c (console_poll env connected chs c) × IsKept c (console_arm_last env c)
  unfolding console_poll console_arm_last
  console_poll-IsKept connected chs c =
      let start : Console =
        if c.greeted then c else record (con_printf greeting c) { greeted = true } in
      let kept : IsKept c start = ground arith in
      (
        if_intro (IsKept c) (not connected) (λ p. (refl, refl, refl))
            (λ p.
              trans-IsKept c start (read_chars env chs start) kept (read_chars-IsKept chs start)),
        ground (arith, armed),
      )
