-- ===== src/Command/Shell.antt =====
-- The command lines of the debugger (command.c, `cmd_print` to `command_loop`; monitor.c, `check_break`):
-- the state they work on, and their arguments. What is printed is left out.
pub mod Handlers
pub mod Lookup
pub mod Reading
pub mod Kept
pub mod Options
pub mod Counted
pub mod Invariant
pub mod Commands
pub mod Break
use exec.Base.{
  ℕ, zero, suc, ◌+◌, ◌^◌, ◌%◌, Bool, true, false, Option, none, some, List, [], ◌∷◌, ◌==◌, ◌||◌,
  if◌then◌else◌, ltb, length,
}
use exec.Base.Int.{ℤ, pos}
use exec.Base.Run.{M, Outcome, done, exited, undefined, ◌>>=◌, ◌>>◌, pure, get, modify}
use exec.Symtab.{CString, Symtab, Symbols}
use exec.Command.{Breakpoint, Breaks, write_break, brkalloc}
use exec.Command.Session.{Debugger, Simulated, Session, must}
use exec.Command.Text.{strtok, words_of}

-- `datatype_t`.
pub record DataType : Type 0 where
  pub format : ℕ
  pub size : ℕ

-- `display_t`.
pub record Display : Type 0 where
  pub used : Bool
  pub type : DataType
  pub expr : CString

-- `arguments` is what `strtok` has left of the command line. `command_input` holds the lines that are
-- left of a script, `none` where it is `stdin`; `stdin` holds the lines to come.
pub record Shell (T : Type 0) : Type 0 where
  pub session : Session T
  pub arguments : CString
  pub command_flags : CString
  pub exit_command_loop : ℤ
  pub auto_break_insn_count : ℕ
  pub dump_every_insn : ℕ
  pub cpu_quit : ℕ
  pub print_type : DataType
  pub displaytab : List Display
  pub prev_buffer : CString
  pub command_input : Option (List CString)
  pub stdin : List CString

-- What the commands use of the other files, less what stands in `Target`. `open_file` is `file_open`
-- with no search path, and gives the lines of a script. `reset_registers` is `cpu_reset` before it
-- reads the vector. `bus_write` is `cpu_write8` and `bus_find` is `cpu_read16` before their hooks;
-- they give the absolute address that the hook is told, and `bus_find` the read of the device that
-- follows it.
pub record Controls (T : Type 0) : Type 0 where
  pub dasm : ℕ → M (Simulated T) ℕ
  pub reset_registers : M (Simulated T) (Unit {0})
  pub cpu_is_running : M (Simulated T) (Unit {0})
  pub get_s : M (Simulated T) ℕ
  pub set_s : ℕ → M (Simulated T) (Unit {0})
  pub get_cc : M (Simulated T) ℕ
  pub set_cc : ℕ → M (Simulated T) (Unit {0})
  pub set_pc : ℕ → M (Simulated T) (Unit {0})
  pub bus_write : ℕ → ℕ → M (Simulated T) ℕ
  pub bus_find : ℕ → M (Simulated T) (ℕ × M (Simulated T) ℕ)
  pub load_map_file : CString → Symtab → Symbols → M (Simulated T) (Symtab × Symbols)
  pub open_file : CString → Option (List CString)

abbrev pub in_shell : {T A : Type 0} → Shell T → Outcome (Session T) A → Outcome (Shell T) A
in_shell sh (done a s) = done a (record sh { session = s })
in_shell sh (exited k s) = exited k (record sh { session = s })
in_shell sh undefined = undefined

abbrev pub on_session : {T A : Type 0} → M (Session T) A → M (Shell T) A
on_session m sh = in_shell sh (m sh.session)

abbrev pub get_shell : {T : Type 0} → M (Shell T) (Shell T)
get_shell sh = done sh sh

abbrev pub on_shell : {T : Type 0} → (Shell T → Shell T) → M (Shell T) (Unit {0})
on_shell f sh = done tt (f sh)

abbrev pub with_breaks : {T : Type 0} → (Breaks → Breaks) → Shell T → Shell T
with_breaks f sh = record sh {
  session = record (sh.session) {
    dbg = record (sh.session.dbg) { breaks = f sh.session.dbg.breaks };
  };
}

abbrev pub on_breaks : {T : Type 0} → (Breaks → Breaks) → M (Shell T) (Unit {0})
on_breaks f = on_shell (with_breaks f)

abbrev pub leave : {T : Type 0} → ℤ → M (Shell T) (Unit {0})
leave code = on_shell λ sh. record sh { exit_command_loop = code }

abbrev pub with_arguments : {T : Type 0} → Option (CString × CString) → M (Shell T) (Option CString)
with_arguments none sh = done none (record sh { arguments = [] })
with_arguments (some (arg, rest)) sh = done (some arg) (record sh { arguments = rest })

unfoldable pub getarg : {T : Type 0} → M (Shell T) (Option CString)
unfolding strtok
getarg sh = with_arguments (strtok sh.arguments) sh

-- An argument that the C string functions need.
abbrev pub required : {T : Type 0} → M (Shell T) CString
unfolding getarg
required = do arg ← getarg; must arg

-- All the arguments that are left.
abbrev pub getargs : {T : Type 0} → M (Shell T) (List CString)
unfolding words_of
getargs sh = done (words_of sh.arguments) (record sh { arguments = [] })

unfoldable pub parse_format_flag : CString → ℕ → ℕ
parse_format_flag [] format = format
parse_format_flag (c ∷ flags) format = parse_format_flag flags (
    if (c == b'x') || (c == b'd') || (c == b'u') || (c == b'o') || (c == b'a') || (c == b's')
    then c
    else format)

unfoldable pub parse_size_flag : CString → ℕ → ℕ
parse_size_flag [] size = size
parse_size_flag (c ∷ flags) size =
    parse_size_flag flags (if c == b'b' then 1 else if c == b'w' then 2 else size)

abbrev pub flagged : CString → DataType → DataType
unfolding parse_format_flag parse_size_flag
flagged flags type = record {
  format = parse_format_flag flags type.format;
  size = parse_size_flag flags type.size;
}

-- An operation on the breakpoints that may be undefined.
abbrev pub with_outcome : {T A : Type 0} → Option (A × Breaks) → M (Shell T) A
with_outcome none sh = undefined
with_outcome (some (a, breaks)) sh = done a (with_breaks (λ _. breaks) sh)

abbrev pub try_breaks : {T A : Type 0} → (Breaks → Option (A × Breaks)) → M (Shell T) A
try_breaks f sh = with_outcome (f sh.session.dbg.breaks) sh

-- `brkalloc ()`, whose result is written to.
unfoldable pub new_break : {T : Type 0} → M (Shell T) ℕ
unfolding brkalloc
new_break = try_breaks brkalloc

abbrev pub change_break : {T : Type 0} → ℕ → (Breakpoint → Breakpoint) → M (Shell T) (Unit {0})
unfolding write_break
change_break n f = on_breaks (write_break n f)

-- `strcpy` into a buffer of 128 bytes.
abbrev pub short_string : {S : Type 0} → CString → M S CString
short_string s = if ltb (length s) 128 then pure s else (λ s. undefined)
