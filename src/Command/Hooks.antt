-- ===== src/Command/Hooks.antt =====
-- What the processor and the bus call of the debugger (command.c): before each instruction, at each
-- access of memory, at the end of an interrupt, and every 100 milliseconds.
pub mod Stops
pub mod Freed
pub mod Condition
pub mod Load
pub mod Counted
use exec.Base.{
  ℕ, zero, suc, ◌+◌, ◌-◌, ◌*◌, ◌/◌, ◌%◌, ◌^◌, Bool, true, false, Option, none, some, List, [], ◌∷◌,
  get_elem?, set, ◌==◌, ◌&&◌, ◌||◌, not, if◌then◌else◌, bit_and,
}
use exec.Base.Int.{ℤ, pos, ◌-ℤ◌, leb_ℤ}
use exec.Base.Word.{add32, sub32, low, nonzero}
use exec.Base.Run.{M, ◌>>=◌, ◌>>◌, pure, undefined}
use exec.Symtab.{CString}
use exec.Command.{Breakpoint, Breaks, write_break, brkfree, brkfind_by_addr}
use exec.Command.Session.{Debugger, Target, Session, on_target, get_dbg, on_dbg, must}
use exec.Command.Eval.{eval, target_read}

abbrev pub max_trace : ℕ
max_trace = 256

abbrev pub irq_cycle_counts : ℕ
irq_cycle_counts = 128

abbrev pub thread_debug : CString
thread_debug =
    b'$' ∷ b't' ∷ b'h' ∷ b'r' ∷ b'e' ∷ b'a' ∷ b'd' ∷ b'_' ∷ b'd' ∷ b'e' ∷ b'b' ∷ b'u' ∷ b'g' ∷ []

abbrev pub update_break : {T : Type 0} → ℕ → (Breakpoint → Breakpoint) → M (Session T) (Unit {0})
unfolding write_break
update_break n f = on_dbg λ d. record d { breaks = write_break n f d.breaks }

module _ {T : Type 0} (ops : Target T) where
  -- The condition is evaluated in its own buffer.
  unfoldable pub condition_holds : ℕ → Breakpoint → M (Session T) Bool
  unfolding eval update_break
  condition_holds n br = do
    (val, rest) ← eval ops br.condition
    update_break n (λ br. record br { condition = rest })
    pure (nonzero val)

  -- The end of `breakpoint_hit`.
  unfoldable pub count_hit : ℕ → Breakpoint → M (Session T) (Unit {0})
  unfolding update_break
  count_hit n br =
      if nonzero br.ignore_count
      then update_break n (λ br. record br { ignore_count = br.ignore_count - 1 })
      else on_dbg λ d. record d { monitor_on = not br.keep_running }

  -- `breakpoint_hit (&breaktab[n])`, whose entry is `br`.
  unfoldable pub breakpoint_hit : ℕ → Breakpoint → M (Session T) (Unit {0})
  unfolding condition_holds count_hit
  breakpoint_hit n br = do
    d ← get_dbg
    if br.threaded && not (d.thread_id == br.tid)
        then pure tt
        else if br.conditional
        then (do holds ← condition_holds n br; if holds then count_hit n br else pure tt)
        else count_hit n br

  unfoldable pub command_trace_insn : ℕ → M (Session T) (Unit {0})
  command_trace_insn addr = on_dbg λ d. record d {
    trace_buffer = set d.trace_buffer d.trace_offset addr;
    trace_offset = add32 d.trace_offset 1 % max_trace;
  }

  -- The entry with the address, if there is one.
  unfoldable pub find_break : ℕ → M (Session T) (Option (ℕ × Breakpoint))
  unfolding brkfind_by_addr
  find_break addr = do
    d ← get_dbg
    elim (brkfind_by_addr addr d.breaks) [
      | none ↦ pure none
      | some n ↦ do br ← must (get_elem? d.breaks.breaktab n); pure (some (n, br))
    ]

  -- Where the breakpoint that is hit stops the processor, a temporary one is freed.
  unfoldable pub stop_at : ℕ → Breakpoint → M (Session T) (Unit {0})
  unfolding breakpoint_hit brkfree
  stop_at n br = do
    breakpoint_hit n br
    d ← get_dbg
    if d.monitor_on && br.temp
        then on_dbg (λ d. record d { breaks = brkfree n d.breaks })
        else pure tt

  unfoldable pub command_insn_hook : M (Session T) (Unit {0})
  unfolding command_trace_insn find_break stop_at
  command_insn_hook = do
    pc ← on_target ops.get_pc
    command_trace_insn (low pc 16)
    d ← get_dbg
    if d.breaks.active_break_count == 0 then pure tt else (do
      abspc ← on_target (ops.to_absolute (low pc 16))
      found ← find_break abspc
      elim found [
        | none ↦ pure tt
        | some (n, br) ↦ if br.enabled && br.on_execute then stop_at n br else pure tt
      ])

  unfoldable pub command_read_hook : ℕ → M (Session T) (Unit {0})
  unfolding find_break breakpoint_hit
  command_read_hook addr = do
    d ← get_dbg
    if d.breaks.active_break_count == 0 then pure tt else (do
      found ← find_break addr
      elim found [
        | none ↦ pure tt
        | some (n, br) ↦ if br.enabled && br.on_read then breakpoint_hit n br else pure tt
      ])

  -- What else is printed of the thread is left out.
  unfoldable pub command_change_thread : M (Session T) (Unit {0})
  unfolding target_read eval
  command_change_thread = do
    d ← get_dbg
    addr ← target_read ops d.thread_current d.thread_id_size
    th ← on_target (ops.to_absolute (low addr 16))
    if th == d.thread_id then pure tt else (do
      on_dbg (λ d. record d { thread_id = th })
      elim ops.dump_thread [
        | none ↦ pure tt
        | some dump_thread ↦ do
          (debug, _) ← eval ops thread_debug
          if nonzero debug && nonzero (low addr 16) then on_target (dump_thread th) else pure tt
      ])

  -- The end of `command_write_hook`: a write to the last byte of the thread pointer.
  unfoldable pub watch_thread : ℕ → M (Session T) (Unit {0})
  unfolding command_change_thread
  watch_thread addr = do
    d ← get_dbg
    if nonzero d.thread_id_size
          && (addr == (d.thread_current + (d.thread_id_size + (2 ^ 64 - 1))) % 2 ^ 64)
        then command_change_thread
        else pure tt

  -- A watchpoint that does not stop the processor returns from `command_write_hook`.
  unfoldable pub watch_hit : ℕ → ℕ → Breakpoint → M (Session T) (Unit {0})
  unfolding breakpoint_hit watch_thread
  watch_hit addr n br = do
    breakpoint_hit n br
    d ← get_dbg
    if d.monitor_on then watch_thread addr else pure tt

  -- With a mask only a change of the bits under it counts, and the value is noted.
  unfoldable pub watch_write : ℕ → ℕ → ℕ → Breakpoint → M (Session T) (Unit {0})
  unfolding watch_hit update_break
  watch_write addr val n br =
      if nonzero br.write_mask
      then (do
        update_break n (λ br. record br { last_write = val })
        if bit_and br.last_write br.write_mask == bit_and val br.write_mask
            then pure tt
            else watch_hit addr n br)
      else watch_hit addr n br

  unfoldable pub command_write_hook : ℕ → ℕ → M (Session T) (Unit {0})
  unfolding find_break watch_write watch_thread
  command_write_hook addr val = do
    d ← get_dbg
    if d.breaks.active_break_count == 0 then watch_thread addr else (do
      found ← find_break addr
      elim found [
        | none ↦ watch_thread addr
        | some (n, br) ↦
            if br.enabled && br.on_write then watch_write addr val n br else watch_thread addr
      ])

  unfoldable pub command_periodic : M (Session T) (Unit {0})
  command_periodic = on_dbg λ d.
      if leb_ℤ d.stop_after_ms (pos 0) && leb_ℤ (pos 0) d.stop_after_ms
      then d
      else (let left = d.stop_after_ms -ℤ pos 100 in
          if leb_ℤ left (pos 0)
          then record d { monitor_on = true; stop_after_ms = pos 0 }
          else record d { stop_after_ms = left })

  unfoldable pub command_exit_irq_hook : ℕ → M (Session T) (Unit {0})
  command_exit_irq_hook cycles = do
    d ← get_dbg
    old ← must (get_elem? d.irq_cycle_tab d.irq_cycle_entry)
    on_dbg λ d. record d {
      irq_cycles = (d.irq_cycles + (2 ^ 64 - old) + cycles) % 2 ^ 64;
      irq_cycle_tab = set d.irq_cycle_tab d.irq_cycle_entry (low cycles 32);
      irq_cycle_entry = (d.irq_cycle_entry + 1) % irq_cycle_counts;
    }
