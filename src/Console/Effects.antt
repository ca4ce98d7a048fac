-- ===== src/Console/Effects.antt =====
-- Every command keeps the agreement: the command line and the button.
use rpi_pico_card_reader.Prelude.{
  Array, ℕ, ◌-◌, ◌<◌, ◌≡◌, ap, List, [], ◌∷◌, ◌++◌, Bool, false, not, ◌&&◌, ◌||◌, Option, none,
  some, if◌then◌else◌, if_intro, with_option, with_option_intro, ltb, leb, ◌==◌, get_or, u16,
  length, take, arith,
}
use rpi_pico_card_reader.Wire.{ipc_word, ipc_op}
use rpi_pico_card_reader.Wire.Fields.{ipc_word_fields}
use rpi_pico_card_reader.Storage.{storage_flush}
use rpi_pico_card_reader.Deckload.{Loaded, loaded, no_file, bad_file, SurgeryBatch, surgery_batches}
use rpi_pico_card_reader.Fat.Directory.{c_string, fat_list}
use rpi_pico_card_reader.Fat.Device.{storage_disk}
use rpi_pico_card_reader.Feeder.Kept.{Params}
use rpi_pico_card_reader.Config.{Cfg, SaveResult, is_disarmed, cfg_save, crc32, cfg_bytes}
use rpi_pico_card_reader.Feeder.Types.{FeederState, Feeder}
use rpi_pico_card_reader.Console.State.{Console, Env, Reply, con_printf}
use rpi_pico_card_reader.Console.Text.{strtok, strtoul, split_at}
use rpi_pico_card_reader.Console.Arm.{
  mount, named_base, is_bin, is_bad_base, deck_of, last_deck_of, save, finish_arm, after_load,
  arm_named, cmd_arm, console_arm_last,
}
use rpi_pico_card_reader.Console.Param.{param_of, cmd_set, go_to}
use rpi_pico_card_reader.Console.Shell.{
  print_files, cmd_ls, print_batches, ShellCommand, command_of, run_command, execute, read_char,
  line_max,
}
use rpi_pico_card_reader.Console.Agreed.{IsAgreed}
use rpi_pico_card_reader.Console.Carried.{
  with_params, taken_all, IsCarried, unread, send-IsCarried, put_param-IsCarried,
}

ipc_op-lt : (op val : ℕ) → op < 256 → val < 65536 → ipc_op (ipc_word op 0 val) ≡ op
ipc_op-lt op val h k = (ipc_word_fields op 0 val h (omega arith) k).0

saved-IsAgreed :
    (ok : Bool) (state : FeederState) (c : Cfg) (flash : Array ℕ) (s : Feeder)
    → IsAgreed c s
    → IsAgreed (cfg_save ok state c flash).0 s
unfolding cfg_save
saved-IsAgreed ok state c flash s h =
    let k = unread c (crc32 (cfg_bytes c)) c.last_deck s h in
    if_intro (λ (r : Cfg × Array ℕ × SaveResult). IsAgreed r.0 s) (is_disarmed state)
      (λ q. if_intro (λ (r : Cfg × Array ℕ × SaveResult). IsAgreed r.0 s) ok (λ r. k) (λ r. k))
      (λ q. h)

module _ (p : Params) where
  files-IsCarried :
      (fs : List (List ℕ × ℕ)) (c : Console) → IsCarried p c → IsCarried p (print_files fs c)
  files-IsCarried [] c h = h
  files-IsCarried ((name, size) ∷ fs) c h =
      files-IsCarried fs (con_printf (Reply.file_line name size) c) h

  batches-IsCarried :
      (bs : List SurgeryBatch) (c : Console) → IsCarried p c → IsCarried p (print_batches bs c)
  batches-IsCarried [] c h = h
  batches-IsCarried (b ∷ bs) c h = batches-IsCarried bs (con_printf (Reply.batch_line b.name) c) h

  ls-IsCarried : (c : Console) → IsCarried p c → IsCarried p (cmd_ls c)
  unfolding cmd_ls
  ls-IsCarried c h =
      with_option_intro (IsCarried p) (mount c.storage) (λ q. h)
        (λ v q.
          with_option_intro (IsCarried p) (fat_list (storage_disk c.storage) v) (λ r. h)
            (λ (files, n) r. files-IsCarried files c h))

  save-IsCarried : (env : Env) (c : Console) → IsCarried p c → IsCarried p (save env c).0
  save-IsCarried env c h =
      saved-IsAgreed env.saves env.state c.g_cfg c.storage.flash (with_params (taken_all c.sent p))
        h

  finish-IsCarried :
      (env : Env) (name : List ℕ) (raw : Bool) (c : Console)
      → IsCarried p c
      → IsCarried p (finish_arm env name raw c)
  unfolding finish_arm
  finish-IsCarried env name raw c h =
      let named = record c { g_cfg = record c.g_cfg { last_deck = last_deck_of name } } in
      let s = with_params (taken_all c.sent p) in
      send-IsCarried p 1 0 (save env named).0
        (ap (λ op. op == 5) (ipc_op-lt 1 0 (omega arith) (omega arith)))
        (save-IsCarried env named (unread c.g_cfg c.g_cfg.crc (last_deck_of name) s h))

  after-IsCarried :
      (env : Env) (name : List ℕ) (raw : Bool) (l : Loaded) (c : Console)
      → IsCarried p c
      → IsCarried p (after_load env name raw l c).0
  unfolding after_load
  after-IsCarried env name raw (loaded d) c h =
      finish-IsCarried env name raw (record c { deck = d }) h
  after-IsCarried env name raw no_file c h = h
  after-IsCarried env name raw bad_file c h = h

  named-IsCarried :
      (env : Env) (name : List ℕ) (raw : Bool) (c : Console)
      → IsCarried p c
      → IsCarried p (arm_named env name raw c).0
  unfolding arm_named
  named-IsCarried env name raw c h =
      let flushed = record c { storage = (storage_flush env.flushes c.storage).0 } in
      if_intro (λ (r : Console × Bool). IsCarried p r.0)
        (is_bin (named_base name).0 && is_bad_base (named_base name).1) (λ q. h)
        (λ q.
          with_option_intro (λ (r : Console × Bool). IsCarried p r.0) (mount flushed.storage)
            (λ r. h)
            (λ v r.
              after-IsCarried env name raw
                (deck_of (env.reader flushed.storage v) (named_base name).0 (named_base name).1 raw)
                flushed h))

  arm-IsCarried :
      (env : Env) (arg : Option (List ℕ)) (c : Console)
      → IsCarried p c
      → IsCarried p (cmd_arm env arg c)
  unfolding cmd_arm
  arm-IsCarried env none c h =
      if_intro (IsCarried p) (not (is_disarmed env.state)) (λ q. h) (λ q. h)
  arm-IsCarried env (some []) c h =
      if_intro (IsCarried p) (not (is_disarmed env.state)) (λ q. h) (λ q. h)
  arm-IsCarried env (some (x ∷ xs)) c h =
      if_intro (IsCarried p) (not (is_disarmed env.state)) (λ q. h)
        (λ q.
          with_option_intro (IsCarried p) (strtok (x ∷ xs)) (λ r. h)
            (λ (name, rest) r. named-IsCarried env name _ c h))

  pub last-IsCarried :
      (env : Env) (c : Console) → IsCarried p c → IsCarried p (console_arm_last env c)
  unfolding console_arm_last
  last-IsCarried env c h =
      if_intro (IsCarried p) (not (is_disarmed env.state))
        (λ q.
          send-IsCarried p 3 0 c (ap (λ op. op == 5) (ipc_op-lt 3 0 (omega arith) (omega arith))) h)
        (λ q.
          if_intro (IsCarried p) (get_or c.g_cfg.last_deck 0 0 == 0) (λ r. h)
            (λ r. named-IsCarried env (c_string c.g_cfg.last_deck) false c h))

  set-IsCarried :
      (arg : Option (List ℕ)) (c : Console) → IsCarried p c → IsCarried p (cmd_set arg c)
  unfolding cmd_set
  set-IsCarried arg c h =
      with_option_intro (IsCarried p) (with_option arg none strtok) (λ q. h)
        (λ (name, rest) q.
          with_option_intro (IsCarried p) (strtok rest) (λ r. h)
            (λ (vstr, s) r.
              with_option_intro (IsCarried p) (param_of name) (λ t. h)
                (λ k t. put_param-IsCarried p k name (strtoul vstr 0) c h)))

  go-IsCarried : (env : Env) (n : ℕ) (c : Console) → IsCarried p c → IsCarried p (go_to env n c)
  unfolding go_to
  go-IsCarried env n c h =
      if_intro (IsCarried p) (is_disarmed env.state) (λ q. h)
        (λ q.
          if_intro (IsCarried p) _ (λ r. h)
            (λ r.
              send-IsCarried p 7 (u16 n) c
                (ap (λ op. op == 5) (ipc_op-lt 7 (u16 n) (omega arith) (omega arith))) h))

  command-IsCarried :
      (env : Env) (k : ShellCommand) (cmd : List ℕ) (arg : Option (List ℕ)) (c : Console)
      → IsCarried p c
      → IsCarried p (run_command env k cmd arg c)
  unfolding run_command
  command-IsCarried env ShellCommand.ls cmd arg c h = ls-IsCarried c h
  command-IsCarried env ShellCommand.batches cmd arg c h = batches-IsCarried surgery_batches c h
  command-IsCarried env ShellCommand.arm cmd arg c h = arm-IsCarried env arg c h
  command-IsCarried env ShellCommand.disarm cmd arg c h =
      send-IsCarried p 2 0 c (ap (λ op. op == 5) (ipc_op-lt 2 0 (omega arith) (omega arith))) h
  command-IsCarried env ShellCommand.rewind cmd arg c h =
      send-IsCarried p 3 0 c (ap (λ op. op == 5) (ipc_op-lt 3 0 (omega arith) (omega arith))) h
  command-IsCarried env ShellCommand.go cmd arg c h =
      go-IsCarried env (with_option arg 0 (λ s. strtoul s 0)) c h
  command-IsCarried env ShellCommand.eject cmd arg c h =
      send-IsCarried p 4 0 c (ap (λ op. op == 5) (ipc_op-lt 4 0 (omega arith) (omega arith))) h
  command-IsCarried env ShellCommand.show cmd arg c h = h
  command-IsCarried env ShellCommand.set cmd arg c h = set-IsCarried arg c h
  command-IsCarried env ShellCommand.store_cfg cmd arg c h = save-IsCarried env c h
  command-IsCarried env ShellCommand.trace cmd arg c h = h
  command-IsCarried env ShellCommand.inject cmd arg c h =
      send-IsCarried p 6 0 c (ap (λ op. op == 5) (ipc_op-lt 6 0 (omega arith) (omega arith))) h
  command-IsCarried env ShellCommand.bootloader cmd arg c h = h
  command-IsCarried env ShellCommand.show_version cmd arg c h = h
  command-IsCarried env ShellCommand.show_help cmd arg c h = h
  command-IsCarried env ShellCommand.unknown cmd arg c h = h

  nonempty-IsCarried :
      (cmd : List ℕ) (c done : Console)
      → IsCarried p c
      → IsCarried p done
      → IsCarried p (elim cmd as (λ x. Console) [ [] ↦ c | x ∷ xs ↦ done ])
  nonempty-IsCarried [] c done h k = h
  nonempty-IsCarried (x ∷ xs) c done h k = k

  execute-IsCarried :
      (env : Env) (text : List ℕ) (c : Console) → IsCarried p c → IsCarried p (execute env text c)
  unfolding execute
  execute-IsCarried env text c h =
      let cmd = (split_at b' ' text).0 in
      let arg = (split_at b' ' text).1 in
      let k =
        nonempty-IsCarried cmd c (run_command env (command_of cmd) cmd arg c) h
          (command-IsCarried env (command_of cmd) cmd arg c h) in
      if_intro (IsCarried p) _ (λ q. k) (λ q. k)

  pub read_char-IsCarried :
      (env : Env) (ch : ℕ) (c : Console) → IsCarried p c → IsCarried p (read_char env ch c)
  unfolding read_char
  read_char-IsCarried env ch c h =
      let fresh = record (con_printf Reply.newline c) { line = [] } in
      let erased = record (con_printf Reply.erase c) { line = take (length c.line - 1) c.line } in
      let typed = record (con_printf (Reply.echo ch) c) { line = c.line ++ ch ∷ [] } in
      if_intro (IsCarried p) (ch == b'\r' || ch == b'\n') {x = execute env c.line fresh}
        {y = if ch == 0x08 || ch == 0x7F
          then (if length c.line == 0 then c else erased)
          else if leb 0x20 ch && ltb (length c.line) (line_max - 1)
          then typed
          else c}
        (λ q. execute-IsCarried env c.line fresh h)
        (λ q.
          if_intro (IsCarried p) (ch == 0x08 || ch == 0x7F)
            {x = if length c.line == 0 then c else erased}
            {y = if leb 0x20 ch && ltb (length c.line) (line_max - 1) then typed else c}
            (λ r.
              if_intro (IsCarried p) (length c.line == 0) {x = c} {y = erased} (λ s. h) (λ s. h))
            (λ r.
              if_intro (IsCarried p) (leb 0x20 ch && ltb (length c.line) (line_max - 1)) {x = typed}
                {y = c} (λ s. h) (λ s. h)))
