-- ===== src/Console/Line.antt =====
-- The line buffer of console_poll, whatever is typed.
use rpi_pico_card_reader.Prelude.{
  ℕ, zero, suc, ◌-◌, ◌<◌, ◌≡◌, refl, ap, List, [], ◌∷◌, ◌++◌, Bool, true, not, ◌&&◌, Option, none,
  some, if◌then◌else◌, if_intro, with_option, with_option_intro, take, length, length-append,
  length-take, arith,
}
use rpi_pico_card_reader.Fat.Directory.{fat_list}
use rpi_pico_card_reader.Fat.Device.{storage_disk}
use rpi_pico_card_reader.Deckload.{Loaded, loaded, no_file, bad_file}
use rpi_pico_card_reader.Storage.{storage_flush}
use rpi_pico_card_reader.Console.Text.{strtok, strtoul, split_at}
use rpi_pico_card_reader.Console.State.{Console, Env, con_printf, newline, greeting}
use rpi_pico_card_reader.Console.Arm.{
  mount, named_base, is_bin, is_bad_base, deck_of, finish_arm, after_load, arm_named, cmd_arm,
}
use rpi_pico_card_reader.Console.Param.{
  Param, set_w, set_g, set_s, set_d, set_finto, set_plc, set_arw, param_of, put_param, cmd_set,
  go_to, cmd_go,
}
use rpi_pico_card_reader.Console.Shell.{
  line_max, print_files, cmd_ls, ShellCommand, ls, batches, arm, disarm, rewind, go, eject, show,
  set, store_cfg, trace, inject, bootloader, show_version, show_help, unknown, command_of,
  run_command, execute, read_char, read_chars, console_poll,
}
use rpi_pico_card_reader.Console.Editor.{is_printable, all_printable}

-- The commands leave the line alone.
print_files-line : (files : List (List ℕ × ℕ)) (c : Console) → (print_files files c).line ≡ c.line
print_files-line [] c = refl
print_files-line ((name, size) ∷ files) c = print_files-line files (con_printf _ c)

put_param-line :
    (p : Param) (name : List ℕ) (v : ℕ) (c : Console) → (put_param p name v c).line ≡ c.line
unfolding put_param
put_param-line set_w name v c = ground arith
put_param-line set_g name v c = ground arith
put_param-line set_s name v c = refl
put_param-line set_d name v c = refl
put_param-line set_finto name v c = refl
put_param-line set_plc name v c = refl
put_param-line set_arw name v c = refl

after_load-line :
    (env : Env) (name : List ℕ) (raw : Bool) (l : Loaded) (c : Console)
    → (after_load env name raw l c).0.line ≡ c.line
unfolding after_load finish_arm
after_load-line env name raw (loaded d) c = refl
after_load-line env name raw no_file c = refl
after_load-line env name raw bad_file c = refl

module _ (env : Env) (c : Console) where
  abbrev Same : Console → Type 0
  Same c' = c'.line ≡ c.line

  abbrev flushed : Console
  flushed = record c { storage = (storage_flush env.flushes c.storage).0 }

  arm_named-line : (name : List ℕ) (raw : Bool) → Same (arm_named env name raw c).0
  unfolding arm_named
  arm_named-line name raw =
      let (n, base) = named_base name in
      if_intro (λ (r : Console × Bool). Same r.0) (is_bin n && is_bad_base base) (λ p. refl)
        (λ p.
          with_option_intro (λ (r : Console × Bool). Same r.0) (mount flushed.storage) (λ q. refl)
            (λ v q.
              after_load-line env name raw (deck_of (env.reader flushed.storage v) n base raw)
                flushed))

  cmd_arm-line : (arg : Option (List ℕ)) → Same (cmd_arm env arg c)
  unfolding cmd_arm
  cmd_arm-line none = ground arith
  cmd_arm-line (some []) = ground arith
  cmd_arm-line (some (x ∷ xs)) =
      ground (arith, λ (name : List ℕ) (raw : Bool). arm_named-line name raw)

  run_command-line :
      (k : ShellCommand) (cmd : List ℕ) (arg : Option (List ℕ)) → Same (run_command env k cmd arg c)
  unfolding run_command cmd_ls cmd_set cmd_go go_to
  run_command-line ls cmd arg =
      with_option_intro Same (mount c.storage) (λ e. refl)
        (λ v e.
          with_option_intro Same (fat_list (storage_disk c.storage) v) (λ q. refl)
            (λ (files, n) q. print_files-line files c))
  run_command-line arm cmd arg = cmd_arm-line arg
  run_command-line set cmd arg =
      with_option_intro Same (with_option arg none strtok) (λ e. refl)
        (λ (name, rest) e.
          with_option_intro Same (strtok rest) (λ q. refl)
            (λ (vstr, r) q.
              with_option_intro Same (param_of name) (λ u. refl)
                (λ p u. put_param-line p name (strtoul vstr 0) c)))
  run_command-line go cmd arg = ground arith
  run_command-line store_cfg cmd arg = refl
  run_command-line batches cmd arg = refl
  run_command-line disarm cmd arg = refl
  run_command-line rewind cmd arg = refl
  run_command-line eject cmd arg = refl
  run_command-line show cmd arg = refl
  run_command-line trace cmd arg = refl
  run_command-line inject cmd arg = refl
  run_command-line bootloader cmd arg = refl
  run_command-line show_version cmd arg = refl
  run_command-line show_help cmd arg = refl
  run_command-line unknown cmd arg = refl

  execute-line : (text : List ℕ) → Same (execute env text c)
  unfolding execute
  execute-line text =
      let (cmd, arg) = split_at b' ' text in
      let done = run_command env (command_of cmd) cmd arg c in
      let shown : Console = elim cmd [ [] ↦ c | x ∷ xs ↦ done ] in
      let same : Same shown = ground (arith, run_command-line (command_of cmd) cmd arg) in
      if_intro Same shown.lost (λ p. same) (λ p. same)

-- The line fits its buffer, with its 0, and none of its characters is a control character.
pub record IsLine (c : Console) : Type 0 where
  pub fits : length c.line < line_max
  pub printable : all_printable c.line ≡ true

all_printable-append :
    (xs ys : List ℕ)
    → all_printable xs ≡ true
    → all_printable ys ≡ true
    → all_printable (xs ++ ys) ≡ true
all_printable-append [] ys p q = q
all_printable-append (x ∷ xs) ys p q =
    ground (arith, p, all_printable-append xs ys (ground (arith, p)) q)

all_printable-take :
    (n : ℕ) (xs : List ℕ) → all_printable xs ≡ true → all_printable (take n xs) ≡ true
all_printable-take zero xs p = refl
all_printable-take (suc n) [] p = refl
all_printable-take (suc n) (x ∷ xs) p =
    ground (arith, p, all_printable-take n xs (ground (arith, p)))

abbrev pub Fits : List ℕ → Type 0
Fits line = (length line < line_max) × (all_printable line ≡ true)

read_char-Fits : (env : Env) (ch : ℕ) (c : Console) → Fits c.line → Fits (read_char env ch c).line
unfolding read_char
read_char-Fits env ch c (n, p) =
    let clear : (execute env c.line (record (con_printf newline c) { line = [] })).line ≡ [] =
      execute-line env (record (con_printf newline c) { line = [] }) c.line in
    let shorter = all_printable-take (length c.line - 1) c.line p in
    let longer : is_printable ch ≡ true → all_printable (c.line ++ ch ∷ []) ≡ true =
      λ e. all_printable-append c.line (ch ∷ []) p (ground (arith, e)) in
    (
      ground (
        arith,
        n,
        ap length clear,
        length-append c.line (ch ∷ []),
        length-take (length c.line - 1) c.line,
      ),
      ground (arith, p, ap all_printable clear, shorter, longer),
    )

read_chars-Fits :
    (env : Env) (chs : List ℕ) (c : Console) → Fits c.line → Fits (read_chars env chs c).line
unfolding read_chars
read_chars-Fits env [] c h = h
read_chars-Fits env (ch ∷ chs) c h =
    if_intro (λ (x : Console). Fits x.line) c.lost (λ p. h)
      (λ p. read_chars-Fits env chs (read_char env ch c) (read_char-Fits env ch c h))

-- Whatever is typed, line[] has room for the line and its 0, and the line has neither a 0 nor any
-- other control character inside.
pub console_poll-Fits :
    (env : Env) (connected : Bool) (chs : List ℕ) (c : Console)
    → Fits c.line
    → Fits (console_poll env connected chs c).line
unfolding console_poll
console_poll-Fits env connected chs c h =
    let start : Console =
      if c.greeted then c else record (con_printf greeting c) { greeted = true } in
    let fits : Fits start.line = (ground (arith, h.0), ground (arith, h.1)) in
    if_intro (λ (x : Console). Fits x.line) (not connected) (λ p. h)
      (λ p. read_chars-Fits env chs start fits)
