-- ===== src/Command/Shell/Handlers.antt =====
-- The commands of the debugger (command.c, `cmd_print` to `cmd_trace_dump`).
use exec.Base.{
  ℕ, zero, suc, ◌+◌, ◌-◌, ◌*◌, ◌^◌, ◌%◌, Bool, true, Option, none, some, List, [], ◌∷◌,
  if◌then◌else◌, ltb, get_elem?, set, not, bit_or, length,
}
use exec.Base.Int.{ℤ, pos, negsuc}
use exec.Base.Word.{low, shr, add32, sub32}
use exec.Base.Run.{M, ◌>>=◌, ◌>>◌, pure}
use exec.Symtab.{CString, str_eq}
use exec.Command.{Breakpoint, Breaks, max_breaks, write_break, brkfree}
use exec.Command.Session.{Target, Session, on_target, get_dbg, on_dbg, must}
use exec.Command.Eval.{eval, eval_lvalue, save_value}
use exec.Command.Hooks.{command_read_hook, command_write_hook}
use exec.Command.Text.{strtoul, atoi}
use exec.Command.Shell.{
  Display, Shell, Controls, on_session, get_shell, on_shell, on_breaks, leave, getarg, required,
  getargs, flagged, new_break, change_break, try_breaks, short_string,
}

abbrev pub word_if : CString
word_if = b'i' ∷ b'f' ∷ []

abbrev pub word_ignore : CString
word_ignore = b'i' ∷ b'g' ∷ b'n' ∷ b'o' ∷ b'r' ∷ b'e' ∷ []

abbrev pub word_print : CString
word_print = b'p' ∷ b'r' ∷ b'i' ∷ b'n' ∷ b't' ∷ []

abbrev pub word_mask : CString
word_mask = b'm' ∷ b'a' ∷ b's' ∷ b'k' ∷ []

abbrev pub word_var : CString
word_var = b'v' ∷ b'a' ∷ b'r' ∷ []

abbrev pub word_ms : CString
word_ms = b'm' ∷ b's' ∷ []

abbrev pub word_s : CString
word_s = b's' ∷ []

-- The number that a 32-bit pattern stands for.
abbrev signed32 : ℕ → ℤ
signed32 w = if ltb w 0x80000000 then pos w else negsuc (0xffffffff - w)

-- The rest of the line of `cmd_watch1`, on the breakpoint; `none` where an argument is missing, or a
-- condition does not fit.
unfoldable pub watch_options : List CString → Breakpoint → Option Breakpoint
unfolding strtoul
watch_options [] br = some br
watch_options (word ∷ []) br =
    if str_eq word word_print
    then some (record br { keep_running = true })
    else if str_eq word word_mask
    then none
    else if str_eq word word_if
    then none
    else some br
watch_options (word ∷ arg ∷ rest) br =
    let masked = watch_options rest (record br { write_mask = low (strtoul 0 arg) 16 }) in
    let conditional = watch_options rest (record br { conditional = true; condition = arg }) in
    let printing = watch_options (arg ∷ rest) (record br { keep_running = true }) in
    let ignored = watch_options (arg ∷ rest) br in
    if str_eq word word_print
    then printing
    else if str_eq word word_mask
    then masked
    else if str_eq word word_if
    then (if ltb (length arg) 128 then conditional else none)
    else ignored

unfoldable pub watch_break : ℕ → List CString → Breaks → Option (Unit {0} × Breaks)
unfolding watch_options write_break
watch_break n options breaks = elim (get_elem? breaks.breaktab n) [
  | none ↦ none
  | some br ↦ elim (watch_options options br) [
    | none ↦ none
    | some watched ↦ some (tt, write_break n (λ _. watched) breaks)
  ]
]

-- The loop of `cmd_delete`, with `count` entries left.
unfoldable pub delete_all : ℕ → ℕ → Breaks → Breaks
unfolding brkfree
delete_all zero id breaks = breaks
delete_all (suc count) id breaks = delete_all count (id + 1) (brkfree id breaks)

-- Past the last entry, C leaves the result of `display_alloc` open.
unfoldable pub display_alloc : List Display → Option (List Display × ℕ)
display_alloc [] = none
display_alloc (ds ∷ rest) =
    let later = display_alloc rest in
    if not ds.used
    then some (record ds { used = true } ∷ rest, 0)
    else (elim later [ none ↦ none | some (tab, n) ↦ some (ds ∷ tab, n + 1) ])

module _ {T : Type 0} (ops : Target T) (ctl : Controls T) where
  unfoldable pub do_print : CString → M (Shell T) (Unit {0})
  unfolding eval save_value
  do_print expr = do
    (val, _) ← on_session (eval ops expr)
    on_shell (λ sh. record sh { print_type = flagged sh.command_flags sh.print_type })
    on_session (save_value ops val)

  unfoldable pub do_set : CString → M (Shell T) (Unit {0})
  unfolding eval
  do_set expr = do (_, _) ← on_session (eval ops expr); pure tt

  unfoldable pub cmd_print : M (Shell T) (Unit {0})
  unfolding getarg do_print
  cmd_print = do arg ← getarg; elim arg [ none ↦ do_print (b'$' ∷ []) | some expr ↦ do_print expr ]

  unfoldable pub cmd_set : M (Shell T) (Unit {0})
  unfolding getarg do_set
  cmd_set = do
    first ← required
    arg ← if str_eq first word_var then getarg else pure (some first)
    elim arg [ none ↦ do_set (b'$' ∷ []) | some expr ↦ do_set expr ]

  -- What `cmd_examine` and `cmd_list` do with their argument; the rest is printing.
  unfoldable pub listed : M (Shell T) (Unit {0})
  unfolding getarg eval eval_lvalue
  listed = do
    arg ← getarg
    elim arg [
      | none ↦ pure tt
      | some expr ↦ do (_, _) ← on_session (eval_lvalue ops (eval ops) expr); pure tt
    ]

  -- The options after the address of a breakpoint.
  unfoldable pub break_option : ℕ → Option CString → M (Shell T) (Unit {0})
  unfolding getarg write_break
  break_option n none = pure tt
  break_option n (some word) =
      if str_eq word word_if
      then (do
        arg ← required
        condition ← short_string arg
        change_break n (λ br. record br { conditional = true; condition = condition }))
      else if str_eq word word_ignore
      then (do arg ← required; change_break n (λ br. record br { ignore_count = atoi arg }))
      else pure tt

  unfoldable pub cmd_break : M (Shell T) (Unit {0})
  unfolding getarg eval eval_lvalue new_break write_break break_option
  cmd_break = do
    arg ← getarg
    elim arg [
      | none ↦ pure tt
      | some expr ↦ do
        (val, _) ← on_session (eval_lvalue ops (eval ops) expr)
        n ← new_break
        change_break n (λ br. record br { addr = val; on_execute = true })
        option ← getarg
        break_option n option
    ]

  unfoldable pub cmd_watch1 : Bool → Bool → M (Shell T) (Unit {0})
  unfolding getarg eval eval_lvalue new_break write_break watch_break
  cmd_watch1 on_read on_write = do
    arg ← getarg
    elim arg [
      | none ↦ pure tt
      | some expr ↦ do
        (addr, _) ← on_session (eval_lvalue ops (eval ops) expr)
        n ← new_break
        change_break n (λ br. record br { addr = addr; on_read = on_read; on_write = on_write })
        options ← getargs
        try_breaks (watch_break n options)
    ]

  unfoldable pub cmd_step : M (Shell T) (Unit {0})
  cmd_step = on_shell λ sh. record sh { auto_break_insn_count = 1; exit_command_loop = pos 0 }

  unfoldable pub cmd_next : M (Shell T) (Unit {0})
  unfolding new_break write_break
  cmd_next = do
    pc ← on_session (on_target ops.get_pc)
    here ← on_session (on_target (ops.to_absolute pc))
    len ← on_session (on_target (ctl.dasm here))
    n ← new_break
    change_break n
        (λ br. record br { addr = (here + len) % 2 ^ 64; on_execute = true; temp = true })
    leave (pos 0)

  unfoldable pub cmd_continue : M (Shell T) (Unit {0})
  cmd_continue = leave (pos 0)

  unfoldable pub cmd_quit : M (Shell T) (Unit {0})
  cmd_quit = on_shell λ sh. record sh { cpu_quit = 0; exit_command_loop = pos 1 }

  -- An id outside the table is undefined.
  unfoldable pub cmd_delete : M (Shell T) (Unit {0})
  unfolding getarg delete_all brkfree
  cmd_delete = do
    arg ← getarg
    elim arg [
      | none ↦ on_breaks (delete_all max_breaks 0)
      | some text ↦ do
        sh ← get_shell
        br ← must (get_elem? sh.session.dbg.breaks.breaktab (atoi text))
        if br.used then on_breaks (brkfree (atoi text)) else pure tt
    ]

  abbrev pub load_symbols : CString → M (Session T) (Unit {0})
  load_symbols file = do
    d ← get_dbg
    (table, heap) ← on_target (ctl.load_map_file file d.program_symtab d.heap)
    on_dbg λ d. record d { program_symtab = table; heap = heap }

  unfoldable pub cmd_symbol_file : M (Shell T) (Unit {0})
  unfolding getarg
  cmd_symbol_file = do
    arg ← getarg
    elim arg [ none ↦ pure tt | some file ↦ on_session (load_symbols file) ]

  abbrev pub shown : CString → List Display × ℕ → Shell T → Option (List Display)
  shown expr (tab, n) sh = elim (get_elem? tab n) [
    | none ↦ none
    | some ds ↦
        some (set tab n (record ds { type = flagged sh.command_flags sh.print_type; expr = expr }))
  ]

  unfoldable pub display_each : List CString → M (Shell T) (Unit {0})
  unfolding display_alloc
  display_each [] = pure tt
  display_each (arg ∷ rest) = do
    sh ← get_shell
    expr ← short_string arg
    place ← must (display_alloc sh.displaytab)
    tab ← must (shown expr place sh)
    on_shell (λ sh. record sh { displaytab = tab })
    display_each rest

  unfoldable pub cmd_display : M (Shell T) (Unit {0})
  unfolding display_each
  cmd_display = do args ← getargs; display_each args

  unfoldable pub cmd_source : M (Shell T) (Unit {0})
  unfolding getarg
  cmd_source = do
    arg ← getarg
    elim arg [
      | none ↦ pure tt
      | some file ↦ elim (ctl.open_file file) [
        | none ↦ pure tt
        | some lines ↦ on_shell λ sh. record sh { command_input = some lines }
      ]
    ]

  abbrev pub set_stop : ℕ → M (Shell T) (Unit {0})
  set_stop w = on_shell λ sh. record sh {
    session = record (sh.session) { dbg = record (sh.session.dbg) { stop_after_ms = signed32 w } };
  }

  unfoldable pub cmd_runfor : M (Shell T) (Unit {0})
  unfolding getarg
  cmd_runfor = do
    arg ← required
    units ← getarg
    elim units [
      | none ↦ set_stop (atoi arg)
      | some unit ↦
          if str_eq unit word_ms
          then set_stop (atoi arg)
          else if str_eq unit word_s
          then set_stop (low (atoi arg * 1000) 32)
          else pure tt
    ]
    leave (pos 0)

  -- `cpu_write8`, with the hook of the debugger.
  unfoldable pub hooked_write8 : ℕ → ℕ → M (Session T) (Unit {0})
  unfolding command_write_hook
  hooked_write8 addr val = do at ← on_target (ctl.bus_write addr val); command_write_hook ops at val

  -- `cpu_read16`, with the hook of the debugger.
  unfoldable pub hooked_read16 : ℕ → M (Session T) ℕ
  unfolding command_read_hook
  hooked_read16 addr = do
    (at, read) ← on_target (ctl.bus_find addr)
    command_read_hook ops at
    on_target read

  -- `write16 (get_s (), val)`, which reads S twice.
  unfoldable pub push_word : ℕ → M (Session T) (Unit {0})
  unfolding hooked_write8
  push_word val = do
    sp ← on_target ctl.get_s
    hooked_write8 (add32 sp 1) (low val 8)
    sp ← on_target ctl.get_s
    hooked_write8 sp (low (shr val 8) 8)

  -- `cpu_reset`, which reads its vector through the hook. The word has 16 bits, on which `change_pc`
  -- and `set_pc` agree.
  unfoldable pub cmd_reset : M (Session T) (Unit {0})
  unfolding hooked_read16
  cmd_reset = do
    on_target ctl.reset_registers
    pc ← hooked_read16 0xfffe
    on_target (ctl.set_pc pc)
    on_target ctl.cpu_is_running

  unfoldable pub cmd_measure : M (Shell T) (Unit {0})
  unfolding getarg eval eval_lvalue new_break write_break push_word
  cmd_measure = do
    pc ← on_session (on_target ops.get_pc)
    arg ← getarg
    elim arg [
      | none ↦ pure tt
      | some expr ↦ do
        (addr, _) ← on_session (eval_lvalue ops (eval ops) expr)
        _ ← on_session (on_target (ops.to_absolute (low pc 16)))
        s ← on_session (on_target ctl.get_s)
        on_session (on_target (ctl.set_s (sub32 s 2)))
        on_session (push_word (low pc 16))
        n ← new_break
        ret ← on_session (on_target (ops.to_absolute (low pc 16)))
        change_break n (λ br. record br { addr = ret; on_execute = true; temp = true })
        cc ← on_session (on_target ctl.get_cc)
        on_session (on_target (ctl.set_cc (bit_or cc 0x50)))
        on_session (on_target (ctl.set_pc (low addr 32)))
        leave (pos 0)
    ]

  unfoldable pub cmd_dump_insns : M (Shell T) (Unit {0})
  unfolding getarg strtoul
  cmd_dump_insns = do
    arg ← getarg
    elim arg [
      | none ↦ pure tt
      | some text ↦ on_shell λ sh. record sh { dump_every_insn = low (strtoul 0 text) 32 }
    ]
