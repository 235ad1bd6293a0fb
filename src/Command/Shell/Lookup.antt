-- ===== src/Command/Shell/Lookup.antt =====
-- The table of the commands, and the command that a line names (command.c, `cmdtab`, `command_lookup`
-- and `command_exec`).
use exec.Base.{true, false, Option, none, some, List, [], ◌∷◌, ◌==◌, if◌then◌else◌}
use exec.Base.Run.{M, ◌>>=◌, ◌>>◌, pure}
use exec.Symtab.{CString, str_eq, first_char}
use exec.Command.Session.{Target}
use exec.Command.Text.{split_char, strtok}
use exec.Command.Shell.{Shell, Controls, on_session, get_shell, on_shell}
use exec.Command.Shell.Handlers.{
  cmd_print, cmd_set, listed, cmd_break, cmd_watch1, cmd_step, cmd_next, cmd_continue, cmd_quit,
  cmd_delete, cmd_symbol_file, cmd_display, cmd_source, cmd_runfor, cmd_measure, cmd_reset,
  cmd_dump_insns,
}

-- One for each function in `cmdtab`.
pub data Handler : Type 0 where
  on_print on_set on_examine on_break on_break_list on_delete on_step on_next on_continue on_quit
        on_cpu_reset on_help on_watch on_rwatch on_awatch on_list on_symbol_file on_display
        on_source on_regs on_vars on_runfor on_measure on_dump_insns on_trace_dump on_dump
        on_restore :
      Handler

-- `struct command_name`, less the help.
pub record CommandName : Type 0 where
  pub prefix : CString
  pub name : CString
  pub handler : Handler

abbrev command : CString → CString → Handler → CommandName
command prefix name handler = record { prefix = prefix; name = name; handler = handler }

unfoldable pub cmdtab : List CommandName
cmdtab =
    command (b'p' ∷ []) (b'p' ∷ b'r' ∷ b'i' ∷ b'n' ∷ b't' ∷ []) on_print
    ∷ command (b's' ∷ b'e' ∷ b't' ∷ []) (b's' ∷ b'e' ∷ b't' ∷ []) on_set
    ∷ command (b'x' ∷ []) (b'e' ∷ b'x' ∷ b'a' ∷ b'm' ∷ b'i' ∷ b'n' ∷ b'e' ∷ []) on_examine
    ∷ command (b'b' ∷ []) (b'b' ∷ b'r' ∷ b'e' ∷ b'a' ∷ b'k' ∷ []) on_break
    ∷ command (b'b' ∷ b'l' ∷ []) (b'b' ∷ b'l' ∷ b'i' ∷ b's' ∷ b't' ∷ []) on_break_list
    ∷ command (b'd' ∷ []) (b'd' ∷ b'e' ∷ b'l' ∷ b'e' ∷ b't' ∷ b'e' ∷ []) on_delete
    ∷ command (b's' ∷ []) (b's' ∷ b't' ∷ b'e' ∷ b'p' ∷ []) on_step
    ∷ command (b'n' ∷ []) (b'n' ∷ b'e' ∷ b'x' ∷ b't' ∷ []) on_next
    ∷ command (b'c' ∷ []) (b'c' ∷ b'o' ∷ b'n' ∷ b't' ∷ b'i' ∷ b'n' ∷ b'u' ∷ b'e' ∷ []) on_continue
    ∷ command (b'f' ∷ b'g' ∷ [])
        (b'f' ∷ b'o' ∷ b'r' ∷ b'e' ∷ b'g' ∷ b'r' ∷ b'o' ∷ b'u' ∷ b'n' ∷ b'd' ∷ []) on_continue
    ∷ command (b'q' ∷ []) (b'q' ∷ b'u' ∷ b'i' ∷ b't' ∷ []) on_quit
    ∷ command (b'r' ∷ b'e' ∷ []) (b'r' ∷ b'e' ∷ b's' ∷ b'e' ∷ b't' ∷ []) on_cpu_reset
    ∷ command (b'h' ∷ []) (b'h' ∷ b'e' ∷ b'l' ∷ b'p' ∷ []) on_help
    ∷ command (b'w' ∷ b'a' ∷ []) (b'w' ∷ b'a' ∷ b't' ∷ b'c' ∷ b'h' ∷ []) on_watch
    ∷ command (b'r' ∷ b'w' ∷ b'a' ∷ []) (b'r' ∷ b'w' ∷ b'a' ∷ b't' ∷ b'c' ∷ b'h' ∷ []) on_rwatch
    ∷ command (b'a' ∷ b'w' ∷ b'a' ∷ []) (b'a' ∷ b'w' ∷ b'a' ∷ b't' ∷ b'c' ∷ b'h' ∷ []) on_awatch
    ∷ command (b'?' ∷ []) (b'?' ∷ []) on_help
    ∷ command (b'l' ∷ []) (b'l' ∷ b'i' ∷ b's' ∷ b't' ∷ []) on_list
    ∷ command (b's' ∷ b'y' ∷ b'm' ∷ [])
        (b's' ∷ b'y' ∷ b'm' ∷ b'b' ∷ b'o' ∷ b'l' ∷ b'-' ∷ b'f' ∷ b'i' ∷ b'l' ∷ b'e' ∷ [])
        on_symbol_file
    ∷ command (b'd' ∷ b'i' ∷ []) (b'd' ∷ b'i' ∷ b's' ∷ b'p' ∷ b'l' ∷ b'a' ∷ b'y' ∷ []) on_display
    ∷ command (b's' ∷ b'o' ∷ []) (b's' ∷ b'o' ∷ b'u' ∷ b'r' ∷ b'c' ∷ b'e' ∷ []) on_source
    ∷ command (b'r' ∷ b'e' ∷ b'g' ∷ b's' ∷ []) (b'r' ∷ b'e' ∷ b'g' ∷ b's' ∷ []) on_regs
    ∷ command (b'v' ∷ b'a' ∷ b'r' ∷ b's' ∷ []) (b'v' ∷ b'a' ∷ b'r' ∷ b's' ∷ []) on_vars
    ∷ command (b'r' ∷ b'u' ∷ b'n' ∷ b'f' ∷ b'o' ∷ b'r' ∷ [])
        (b'r' ∷ b'u' ∷ b'n' ∷ b'f' ∷ b'o' ∷ b'r' ∷ []) on_runfor
    ∷ command (b'm' ∷ b'e' ∷ []) (b'm' ∷ b'e' ∷ b'a' ∷ b's' ∷ b'u' ∷ b'r' ∷ b'e' ∷ []) on_measure
    ∷ command (b'd' ∷ b'u' ∷ b'm' ∷ b'p' ∷ b'i' ∷ []) (b'd' ∷ b'u' ∷ b'm' ∷ b'p' ∷ b'i' ∷ [])
        on_dump_insns
    ∷ command (b't' ∷ b'd' ∷ []) (b't' ∷ b'r' ∷ b'a' ∷ b'c' ∷ b'e' ∷ b'd' ∷ b'u' ∷ b'm' ∷ b'p' ∷ [])
        on_trace_dump
    ∷ command (b'd' ∷ b'u' ∷ b'm' ∷ b'p' ∷ []) (b'd' ∷ b'u' ∷ []) on_dump
    ∷ command (b'r' ∷ b'e' ∷ b's' ∷ b't' ∷ b'o' ∷ b'r' ∷ b'e' ∷ []) (b'r' ∷ b'e' ∷ b's' ∷ [])
        on_restore
    ∷ []

-- The loop of `command_lookup`.
unfoldable pub find_command : CString → List CommandName → Option Handler
find_command cmd [] = none
find_command cmd (cn ∷ rest) =
    if str_eq cmd cn.prefix
    then some cn.handler
    else if str_eq cmd cn.name
    then some cn.handler
    else find_command cmd rest

-- The handler, and the flags after a slash.
unfoldable pub command_lookup : CString → Option Handler × CString
unfolding split_char find_command cmdtab
command_lookup cmd = elim (split_char b'/' cmd) [
  | none ↦ (find_command cmd cmdtab, [])
  | some (name, flags) ↦ (find_command name cmdtab, flags)
]

module _ {T : Type 0} (ops : Target T) (ctl : Controls T) where
  unfoldable pub run_handler : Handler → M (Shell T) (Unit {0})
  unfolding cmd_print cmd_set listed cmd_break cmd_watch1 cmd_step cmd_next cmd_continue cmd_quit
      cmd_delete cmd_symbol_file cmd_display cmd_source cmd_runfor cmd_measure cmd_dump_insns
      cmd_reset
  run_handler on_print = cmd_print ops ctl
  run_handler on_set = cmd_set ops ctl
  run_handler on_examine = listed ops ctl
  run_handler on_break = cmd_break ops ctl
  run_handler on_break_list = pure tt
  run_handler on_delete = cmd_delete ops ctl
  run_handler on_step = cmd_step ops ctl
  run_handler on_next = cmd_next ops ctl
  run_handler on_continue = cmd_continue ops ctl
  run_handler on_quit = cmd_quit ops ctl
  run_handler on_cpu_reset = on_session (cmd_reset ops ctl)
  run_handler on_help = pure tt
  run_handler on_watch = cmd_watch1 ops ctl false true
  run_handler on_rwatch = cmd_watch1 ops ctl true false
  run_handler on_awatch = cmd_watch1 ops ctl true true
  run_handler on_list = listed ops ctl
  run_handler on_symbol_file = cmd_symbol_file ops ctl
  run_handler on_display = cmd_display ops ctl
  run_handler on_source = cmd_source ops ctl
  run_handler on_regs = pure tt
  run_handler on_vars = pure tt
  run_handler on_runfor = cmd_runfor ops ctl
  run_handler on_measure = cmd_measure ops ctl
  run_handler on_dump_insns = cmd_dump_insns ops ctl
  run_handler on_trace_dump = pure tt
  run_handler on_dump = pure tt
  run_handler on_restore = pure tt

  -- The line is `buffer`, its newline included.
  unfoldable pub run_word : Option (CString × CString) → M (Shell T) (Unit {0})
  unfolding command_lookup run_handler
  run_word none = pure tt
  run_word (some (cmd, rest)) = do
    on_shell (λ sh. record sh {
      prev_buffer = cmd;
      arguments = rest;
      command_flags = (command_lookup cmd).1;
    })
    elim (command_lookup cmd).0 [ none ↦ pure tt | some handler ↦ run_handler handler ]

  -- `command_exec`, after it has read the line. A blank line stands for the word of the last command.
  unfoldable pub command_exec_line : CString → M (Shell T) (Unit {0})
  unfolding strtok run_word
  command_exec_line line = do
    sh ← get_shell
    let buffer = if first_char line == 10 then sh.prev_buffer else line
    if first_char buffer == b'#' then pure tt else run_word (strtok buffer)
