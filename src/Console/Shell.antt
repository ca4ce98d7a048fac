-- ===== src/Console/Shell.antt =====
-- The command line: execute and console_poll.
use rpi_pico_card_reader.Prelude.{
  ℕ, ◌-◌, List, [], ◌∷◌, ◌++◌, Bool, true, false, not, ◌&&◌, ◌||◌, Option, if◌then◌else◌,
  with_option, ltb, leb, ◌==◌, length, take,
}
use rpi_pico_card_reader.Cap.{list_eq}
use rpi_pico_card_reader.Fat.Directory.{fat_list}
use rpi_pico_card_reader.Fat.Device.{storage_disk}
use rpi_pico_card_reader.Deckload.{SurgeryBatch, surgery_batches, chars}
use rpi_pico_card_reader.Console.Text.{split_at}
use rpi_pico_card_reader.Console.State.{
  Console, Env, con_printf, ipc_send, ok, ok_saved, ok_luren, err_no_volume, err_root, err_save,
  rebooting, version, help, status, greeting, prompt, newline, erase, file_line, batch_line,
  ok_files, ok_batches, echo, err_command, ok_trace,
}
use rpi_pico_card_reader.Console.Arm.{mount, save, is_saved, cmd_arm}
use rpi_pico_card_reader.Console.Param.{cmd_set, cmd_go}

abbrev pub line_max : ℕ
line_max = 96

abbrev pub print_files : List (List ℕ × ℕ) → Console → Console
print_files [] c = c
print_files ((name, size) ∷ files) c = print_files files (con_printf (file_line name size) c)

unfoldable pub cmd_ls : Console → Console
cmd_ls c = with_option (mount c.storage) (con_printf err_no_volume c) (λ v.
    with_option (fat_list (storage_disk c.storage) v) (con_printf err_root c)
      (λ (files, n). con_printf (ok_files n) (print_files files c)))

abbrev pub print_batches : List SurgeryBatch → Console → Console
print_batches [] c = c
print_batches (b ∷ bs) c = print_batches bs (con_printf (batch_line b.name) c)

abbrev pub cmd_batches : Console → Console
cmd_batches c = con_printf (ok_batches (length surgery_batches)) (print_batches surgery_batches c)

abbrev pub cmd_save : Env → Console → Console
cmd_save env c =
    let (c', result) = save env c in con_printf (if is_saved result then ok_saved else err_save) c'

abbrev pub cmd_trace : Option (List ℕ) → Console → Console
cmd_trace arg c =
    let on = not (with_option arg false (λ a. list_eq a (chars "off"))) in
    con_printf (ok_trace on) (record c { trace = on })

abbrev pub cmd_bootloader : Console → Console
cmd_bootloader c = record (con_printf rebooting c) { lost = true }

-- The commands by their names.
pub data ShellCommand : Type 0 where
  ls batches arm disarm rewind go eject show set store_cfg trace inject bootloader show_version
        show_help unknown :
      ShellCommand

unfoldable pub command_of : List ℕ → ShellCommand
command_of cmd =
    if list_eq cmd (chars "ls")
    then ls
    else if list_eq cmd (chars "batches")
    then batches
    else if list_eq cmd (chars "arm")
    then arm
    else if list_eq cmd (chars "disarm")
    then disarm
    else if list_eq cmd (chars "rewind")
    then rewind
    else if list_eq cmd (chars "go")
    then go
    else if list_eq cmd (chars "eject")
    then eject
    else if list_eq cmd (chars "status")
    then show
    else if list_eq cmd (chars "set")
    then set
    else if list_eq cmd (chars "save")
    then store_cfg
    else if list_eq cmd (chars "trace")
    then trace
    else if list_eq cmd (chars "inject-error")
    then inject
    else if list_eq cmd (chars "bootloader")
    then bootloader
    else if list_eq cmd (chars "version")
    then show_version
    else if list_eq cmd (chars "help")
    then show_help
    else unknown

unfoldable pub run_command : Env → ShellCommand → List ℕ → Option (List ℕ) → Console → Console
unfolding cmd_ls cmd_arm cmd_set cmd_go
run_command env ls cmd arg c = cmd_ls c
run_command env batches cmd arg c = cmd_batches c
run_command env arm cmd arg c = cmd_arm env arg c
run_command env disarm cmd arg c = con_printf ok (ipc_send 2 0 0 c)
run_command env rewind cmd arg c = con_printf ok (ipc_send 3 0 0 c)
run_command env go cmd arg c = cmd_go env arg c
run_command env eject cmd arg c = con_printf ok (ipc_send 4 0 0 c)
run_command env show cmd arg c = con_printf status c
run_command env set cmd arg c = cmd_set arg c
run_command env store_cfg cmd arg c = cmd_save env c
run_command env trace cmd arg c = cmd_trace arg c
run_command env inject cmd arg c = con_printf ok_luren (ipc_send 6 0 0 c)
run_command env bootloader cmd arg c = cmd_bootloader c
run_command env show_version cmd arg c = con_printf version c
run_command env show_help cmd arg c = con_printf help c
run_command env unknown cmd arg c = con_printf (err_command cmd) c

-- A command that does not come back prints no prompt.
unfoldable pub execute : Env → List ℕ → Console → Console
unfolding command_of run_command
execute env text c =
    let (cmd, arg) = split_at b' ' text in
    let done = run_command env (command_of cmd) cmd arg c in
    let shown : Console = elim cmd [ [] ↦ c | x ∷ xs ↦ done ] in
    if shown.lost then shown else con_printf prompt shown

-- One character of console_poll. A character is an unsigned byte.
unfoldable pub read_char : Env → ℕ → Console → Console
unfolding execute
read_char env ch c =
    if ch == b'\r' || ch == b'\n'
    then execute env c.line (record (con_printf newline c) { line = [] })
    else if ch == 0x08 || ch == 0x7F
    then (if length c.line == 0
        then c
        else con_printf erase (record c { line = take (length c.line - 1) c.line }))
    else if leb 0x20 ch && ltb (length c.line) (line_max - 1)
    then con_printf (echo ch) (record c { line = c.line ++ ch ∷ [] })
    else c

-- The loop over the characters that the port has.
unfoldable pub read_chars : Env → List ℕ → Console → Console
unfolding read_char
read_chars env [] c = c
read_chars env (ch ∷ chs) c = if c.lost then c else read_chars env chs (read_char env ch c)

unfoldable pub console_poll : Env → Bool → List ℕ → Console → Console
unfolding read_chars
console_poll env connected chs c =
    if not connected
    then record c { greeted = false }
    else read_chars env chs
        (if c.greeted then c else record (con_printf greeting c) { greeted = true })
