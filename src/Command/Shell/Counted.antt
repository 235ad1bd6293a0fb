-- ===== src/Command/Shell/Counted.antt =====
-- Every command keeps the table of breakpoints counted (command.c, `cmd_print` to `command_loop`).
use exec.Base.{
  ℕ, refl, Bool, true, false, Option, none, some, List, [], ◌∷◌, ◌==◌, ◌*◌, if◌then◌else◌,
  get_elem?, bit_or,
}
use exec.Base.Int.{pos}
use exec.Base.Word.{low, shr, add32, sub32}
use exec.Base.Run.{M}
use exec.Base.Kept.{
  Keeps, Keeps-bind, Keeps-seq, Keeps-if, Keeps-option, Keeps-pure, Keeps-undefined,
}
use exec.Symtab.{CString, str_eq, first_char}
use exec.Command.{Breaks, brkfree, max_breaks}
use exec.Command.Table.{brkfree-IsCounted}
use exec.Command.Session.{Simulated, Target, on_target}
use exec.Command.Hooks.Counted as Hooked
use exec.Command.Text.{strtok, atoi}
use exec.Command.Eval.{eval, eval_lvalue}
use exec.Command.Eval.Kept
use exec.Command.Shell.{Shell, Controls, on_session, leave, required, short_string}
use exec.Command.Shell.Handlers.{
  do_print, do_set, cmd_print, cmd_set, listed, break_option, cmd_break, cmd_watch1, cmd_step,
  cmd_next, cmd_continue, cmd_quit, cmd_delete, load_symbols, cmd_symbol_file, display_alloc, shown,
  display_each, cmd_display, cmd_source, set_stop, cmd_runfor, hooked_write8, hooked_read16,
  push_word, cmd_reset, cmd_measure, cmd_dump_insns, delete_all, word_var, word_if, word_ignore,
  word_ms, word_s,
}
use exec.Command.Shell.Kept.{
  Counted, on_session-Keeps, on_session-Counted, on_shell-Keeps, on_breaks-Keeps, Keeps-must,
  get_shell-Keeps, getarg-Keeps, getargs-Keeps, try_breaks-Keeps, new_break-Keeps,
  change_break-Keeps, delete_all-IsCounted,
}
use exec.Command.Shell.Options.{watch_break-IsCounted}
use exec.Command.Shell.Lookup.{
  Handler, on_print, on_set, on_examine, on_break, on_break_list, on_delete, on_step, on_next,
  on_continue, on_quit, on_cpu_reset, on_help, on_watch, on_rwatch, on_awatch, on_list,
  on_symbol_file, on_display, on_source, on_regs, on_vars, on_runfor, on_measure, on_dump_insns,
  on_trace_dump, on_dump, on_restore, run_handler, command_lookup, run_word, command_exec_line,
}

module _ {T : Type 0} (ops : Target T) (ctl : Controls T) where
  on_target-Keeps :
      {A : Type 0} (m : M (Simulated T) A) → Keeps {S = Shell T} Counted (on_session (on_target m))
  on_target-Keeps m = on_session-Keeps λ b. Kept.Keeps-on_target ops b m

  pub eval-Keeps : (expr : CString) → Keeps {S = Shell T} Counted (on_session (eval ops expr))
  eval-Keeps expr = on_session-Keeps λ b. Kept.eval-Keeps ops b expr

  eval_lvalue-Keeps :
      (expr : CString) → Keeps {S = Shell T} Counted (on_session (eval_lvalue ops (eval ops) expr))
  eval_lvalue-Keeps expr =
      on_session-Keeps λ b. Kept.eval_lvalue-Keeps ops b (eval ops) (Kept.eval-Keeps ops b) expr

  leave-Keeps : (code : _) → Keeps {S = Shell T} Counted (leave code)
  leave-Keeps code = on_shell-Keeps _ (λ sh. refl)

  required-Keeps : Keeps {S = Shell T} Counted required
  unfolding required
  required-Keeps = Keeps-bind getarg-Keeps λ arg. Keeps-must arg

  short_string-Keeps : (s : CString) → Keeps {S = Shell T} Counted (short_string s)
  short_string-Keeps s = Keeps-if _ (Keeps-pure s) Keeps-undefined

  do_print-Keeps : (expr : CString) → Keeps Counted (do_print ops ctl expr)
  unfolding do_print
  do_print-Keeps expr = Keeps-bind (eval-Keeps expr) λ (val, _).
      Keeps-seq (on_shell-Keeps _ (λ sh. refl))
        (on_session-Keeps λ b. Kept.save_value-Keeps ops b val)

  do_set-Keeps : (expr : CString) → Keeps Counted (do_set ops ctl expr)
  unfolding do_set
  do_set-Keeps expr = Keeps-bind (eval-Keeps expr) λ (_, _). Keeps-pure tt

  cmd_print-Keeps : Keeps Counted (cmd_print ops ctl)
  unfolding cmd_print
  cmd_print-Keeps =
      Keeps-bind getarg-Keeps λ arg. Keeps-option arg (do_print-Keeps (b'$' ∷ [])) do_print-Keeps

  cmd_set-Keeps : Keeps Counted (cmd_set ops ctl)
  unfolding cmd_set
  cmd_set-Keeps = Keeps-bind required-Keeps λ first.
      Keeps-bind (Keeps-if (str_eq first word_var) getarg-Keeps (Keeps-pure _))
        λ arg. Keeps-option arg (do_set-Keeps (b'$' ∷ [])) do_set-Keeps

  listed-Keeps : Keeps Counted (listed ops ctl)
  unfolding listed
  listed-Keeps = Keeps-bind getarg-Keeps λ arg.
      Keeps-option arg (Keeps-pure tt)
        λ expr. Keeps-bind (eval_lvalue-Keeps expr) λ (_, _). Keeps-pure tt

  break_option-Keeps :
      (n : ℕ) (option : Option CString) → Keeps Counted (break_option ops ctl n option)
  unfolding break_option
  break_option-Keeps n none = Keeps-pure tt
  break_option-Keeps n (some word) =
      Keeps-if (str_eq word word_if)
        (Keeps-bind required-Keeps λ arg.
          Keeps-bind (short_string-Keeps arg)
            λ condition. change_break-Keeps n _ (λ br. (refl, refl)))
        (Keeps-if (str_eq word word_ignore)
          (Keeps-bind required-Keeps λ arg. change_break-Keeps n _ (λ br. (refl, refl)))
          (Keeps-pure tt))

  cmd_break-Keeps : Keeps Counted (cmd_break ops ctl)
  unfolding cmd_break
  cmd_break-Keeps = Keeps-bind getarg-Keeps λ arg. Keeps-option arg (Keeps-pure tt) λ expr.
      Keeps-bind (eval_lvalue-Keeps expr) λ (val, _). Keeps-bind new_break-Keeps λ n.
        Keeps-seq (change_break-Keeps n _ (λ br. (refl, refl)))
          (Keeps-bind getarg-Keeps λ option. break_option-Keeps n option)

  cmd_watch1-Keeps : (on_read on_write : Bool) → Keeps Counted (cmd_watch1 ops ctl on_read on_write)
  unfolding cmd_watch1
  cmd_watch1-Keeps on_read on_write = Keeps-bind getarg-Keeps λ arg.
      Keeps-option arg (Keeps-pure tt) λ expr. Keeps-bind (eval_lvalue-Keeps expr) λ (addr, _).
        Keeps-bind new_break-Keeps λ n.
          Keeps-seq (change_break-Keeps n _ (λ br. (refl, refl))) (
            Keeps-bind getargs-Keeps
              λ options. try_breaks-Keeps _ (watch_break-IsCounted n options))

  cmd_next-Keeps : Keeps Counted (cmd_next ops ctl)
  unfolding cmd_next
  cmd_next-Keeps = Keeps-bind (on_target-Keeps ops.get_pc) λ pc.
      Keeps-bind (on_target-Keeps (ops.to_absolute pc)) λ here.
        Keeps-bind (on_target-Keeps (ctl.dasm here)) λ len.
          Keeps-bind new_break-Keeps
            λ n. Keeps-seq (change_break-Keeps n _ (λ br. (refl, refl))) (leave-Keeps (pos 0))

  cmd_delete-Keeps : Keeps Counted (cmd_delete ops ctl)
  unfolding cmd_delete
  cmd_delete-Keeps = Keeps-bind getarg-Keeps λ arg.
      Keeps-option arg
        (on_breaks-Keeps (delete_all max_breaks 0) (delete_all-IsCounted max_breaks 0))
        λ text. Keeps-bind get_shell-Keeps λ sh.
          Keeps-bind (Keeps-must (get_elem? sh.session.dbg.breaks.breaktab (atoi text))) λ br.
            Keeps-if br.used
              (on_breaks-Keeps (brkfree (atoi text))
                (λ breaks c. brkfree-IsCounted breaks (atoi text) c))
              (Keeps-pure tt)

  load_symbols-Keeps :
      (file : CString) (b : Breaks) → Keeps (Kept.Same ops b) (load_symbols ops ctl file)
  load_symbols-Keeps file b = Keeps-bind (Kept.Keeps-get_dbg ops b) λ d.
      Keeps-bind (Kept.Keeps-on_target ops b (ctl.load_map_file file d.program_symtab d.heap))
        λ (table, heap). Kept.on_dbg-Keeps ops b _ (λ d. refl)

  cmd_symbol_file-Keeps : Keeps Counted (cmd_symbol_file ops ctl)
  unfolding cmd_symbol_file
  cmd_symbol_file-Keeps =
      Keeps-bind getarg-Keeps
        λ arg. Keeps-option arg (Keeps-pure tt) λ file. on_session-Keeps (load_symbols-Keeps file)

  display_each-Keeps : (args : List CString) → Keeps Counted (display_each ops ctl args)
  unfolding display_each
  display_each-Keeps [] = Keeps-pure tt
  display_each-Keeps (arg ∷ rest) = Keeps-bind get_shell-Keeps λ sh.
      Keeps-bind (short_string-Keeps arg) λ expr.
        Keeps-bind (Keeps-must (display_alloc sh.displaytab)) λ place.
          Keeps-bind (Keeps-must (shown ops ctl expr place sh))
            λ tab. Keeps-seq (on_shell-Keeps _ (λ sh. refl)) (display_each-Keeps rest)

  cmd_display-Keeps : Keeps Counted (cmd_display ops ctl)
  unfolding cmd_display
  cmd_display-Keeps = Keeps-bind getargs-Keeps λ args. display_each-Keeps args

  cmd_source-Keeps : Keeps Counted (cmd_source ops ctl)
  unfolding cmd_source
  cmd_source-Keeps = Keeps-bind getarg-Keeps λ arg. Keeps-option arg (Keeps-pure tt) λ file.
      Keeps-option (ctl.open_file file) (Keeps-pure tt) λ lines. on_shell-Keeps _ (λ sh. refl)

  set_stop-Keeps : (w : ℕ) → Keeps Counted (set_stop ops ctl w)
  set_stop-Keeps w = on_shell-Keeps _ (λ sh. refl)

  cmd_runfor-Keeps : Keeps Counted (cmd_runfor ops ctl)
  unfolding cmd_runfor
  cmd_runfor-Keeps = Keeps-bind required-Keeps λ arg. Keeps-bind getarg-Keeps λ units.
      Keeps-seq
        (Keeps-option units (set_stop-Keeps (atoi arg)) λ unit.
          Keeps-if (str_eq unit word_ms) (set_stop-Keeps (atoi arg)) (
            Keeps-if (str_eq unit word_s) (set_stop-Keeps (low (atoi arg * 1000) 32))
              (Keeps-pure tt)))
        (leave-Keeps (pos 0))

  hooked_write8-Keeps : (addr val : ℕ) → Keeps (Hooked.Counted ops) (hooked_write8 ops ctl addr val)
  unfolding hooked_write8
  hooked_write8-Keeps addr val =
      Keeps-bind (Hooked.on_target-Keeps ops (ctl.bus_write addr val))
        λ at. Hooked.command_write_hook-Keeps ops at val

  hooked_read16-Keeps : (addr : ℕ) → Keeps (Hooked.Counted ops) (hooked_read16 ops ctl addr)
  unfolding hooked_read16
  hooked_read16-Keeps addr =
      Keeps-bind (Hooked.on_target-Keeps ops (ctl.bus_find addr)) λ (at, read).
        Keeps-seq (Hooked.command_read_hook-Keeps ops at) (Hooked.on_target-Keeps ops read)

  push_word-Keeps : (val : ℕ) → Keeps (Hooked.Counted ops) (push_word ops ctl val)
  unfolding push_word
  push_word-Keeps val = Keeps-bind (Hooked.on_target-Keeps ops ctl.get_s) λ sp.
      Keeps-seq (hooked_write8-Keeps (add32 sp 1) (low val 8)) (
        Keeps-bind (Hooked.on_target-Keeps ops ctl.get_s)
          λ sp. hooked_write8-Keeps sp (low (shr val 8) 8))

  cmd_reset-Keeps : Keeps (Hooked.Counted ops) (cmd_reset ops ctl)
  unfolding cmd_reset
  cmd_reset-Keeps = Keeps-seq (Hooked.on_target-Keeps ops ctl.reset_registers) (
      Keeps-bind (hooked_read16-Keeps 0xfffe) λ pc.
        Keeps-seq (Hooked.on_target-Keeps ops (ctl.set_pc pc))
          (Hooked.on_target-Keeps ops ctl.cpu_is_running))

  cmd_measure-Keeps : Keeps Counted (cmd_measure ops ctl)
  unfolding cmd_measure
  cmd_measure-Keeps = Keeps-bind (on_target-Keeps ops.get_pc) λ pc. Keeps-bind getarg-Keeps λ arg.
      Keeps-option arg (Keeps-pure tt) λ expr. Keeps-bind (eval_lvalue-Keeps expr) λ (addr, _).
        Keeps-bind (on_target-Keeps (ops.to_absolute (low pc 16))) λ _.
          Keeps-bind (on_target-Keeps ctl.get_s) λ s.
            Keeps-seq (on_target-Keeps (ctl.set_s (sub32 s 2))) (
              Keeps-seq (on_session-Counted (push_word-Keeps (low pc 16))) (
                Keeps-bind new_break-Keeps λ n.
                  Keeps-bind (on_target-Keeps (ops.to_absolute (low pc 16))) λ ret.
                    Keeps-seq (change_break-Keeps n _ (λ br. (refl, refl))) (
                      Keeps-bind (on_target-Keeps ctl.get_cc) λ cc.
                        Keeps-seq (on_target-Keeps (ctl.set_cc (bit_or cc 0x50))) (
                          Keeps-seq (on_target-Keeps (ctl.set_pc (low addr 32)))
                            (leave-Keeps (pos 0))))))

  cmd_dump_insns-Keeps : Keeps Counted (cmd_dump_insns ops ctl)
  unfolding cmd_dump_insns
  cmd_dump_insns-Keeps =
      Keeps-bind getarg-Keeps
        λ arg. Keeps-option arg (Keeps-pure tt) λ text. on_shell-Keeps _ (λ sh. refl)

  run_handler-Keeps : (handler : Handler) → Keeps Counted (run_handler ops ctl handler)
  unfolding run_handler cmd_continue cmd_quit cmd_step
  run_handler-Keeps on_print = cmd_print-Keeps
  run_handler-Keeps on_set = cmd_set-Keeps
  run_handler-Keeps on_examine = listed-Keeps
  run_handler-Keeps on_break = cmd_break-Keeps
  run_handler-Keeps on_break_list = Keeps-pure tt
  run_handler-Keeps on_delete = cmd_delete-Keeps
  run_handler-Keeps on_step = on_shell-Keeps _ (λ sh. refl)
  run_handler-Keeps on_next = cmd_next-Keeps
  run_handler-Keeps on_continue = leave-Keeps (pos 0)
  run_handler-Keeps on_quit = on_shell-Keeps _ (λ sh. refl)
  run_handler-Keeps on_cpu_reset = on_session-Counted cmd_reset-Keeps
  run_handler-Keeps on_help = Keeps-pure tt
  run_handler-Keeps on_watch = cmd_watch1-Keeps false true
  run_handler-Keeps on_rwatch = cmd_watch1-Keeps true false
  run_handler-Keeps on_awatch = cmd_watch1-Keeps true true
  run_handler-Keeps on_list = listed-Keeps
  run_handler-Keeps on_symbol_file = cmd_symbol_file-Keeps
  run_handler-Keeps on_display = cmd_display-Keeps
  run_handler-Keeps on_source = cmd_source-Keeps
  run_handler-Keeps on_regs = Keeps-pure tt
  run_handler-Keeps on_vars = Keeps-pure tt
  run_handler-Keeps on_runfor = cmd_runfor-Keeps
  run_handler-Keeps on_measure = cmd_measure-Keeps
  run_handler-Keeps on_dump_insns = cmd_dump_insns-Keeps
  run_handler-Keeps on_trace_dump = Keeps-pure tt
  run_handler-Keeps on_dump = Keeps-pure tt
  run_handler-Keeps on_restore = Keeps-pure tt

  run_word-Keeps : (token : Option (CString × CString)) → Keeps Counted (run_word ops ctl token)
  unfolding run_word
  run_word-Keeps none = Keeps-pure tt
  run_word-Keeps (some (cmd, rest)) =
      Keeps-seq (on_shell-Keeps _ (λ sh. refl))
        (Keeps-option (command_lookup cmd).0 (Keeps-pure tt) run_handler-Keeps)

  pub command_exec_line-Keeps : (line : CString) → Keeps Counted (command_exec_line ops ctl line)
  unfolding command_exec_line
  command_exec_line-Keeps line = Keeps-bind get_shell-Keeps λ sh.
      Keeps-if _ (Keeps-pure tt)
        (run_word-Keeps (strtok (if first_char line == 10 then sh.prev_buffer else line)))
