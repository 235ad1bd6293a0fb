-- ===== src/Command/Hooks/Counted.antt =====
-- The hooks keep the table of breakpoints counted (command.c, `command_insn_hook` to
-- `command_exit_irq_hook`).
use exec.Base.{
  ℕ, ◌≡◌, refl, sym, subst, Bool, true, false, ◌&&◌, ◌==◌, not, Option, if◌then◌else◌, get_elem?,
  bit_and,
}
use exec.Base.Int.{pos, leb_ℤ, ◌-ℤ◌}
use exec.Base.Word.{nonzero, low}
use exec.Base.Run.{M, Outcome, done, exited, undefined}
use exec.Base.Kept.{Ends, Keeps, Keeps-bind, Keeps-seq, Keeps-if, Keeps-option, Keeps-pure}
use exec.Command.{Breakpoint, Breaks, brkfind_by_addr}
use exec.Command.Table.{IsCounted, brkfree-IsCounted, write_break-Counted}
use exec.Command.Session.{Debugger, Simulated, Target, Session, get_dbg, on_dbg, on_target, must}
use exec.Command.Eval.Kept
use exec.Command.Hooks.{
  update_break, condition_holds, count_hit, breakpoint_hit, command_trace_insn, find_break, stop_at,
  command_insn_hook, command_read_hook, command_change_thread, watch_thread, watch_hit, watch_write,
  command_write_hook, command_periodic, command_exit_irq_hook, thread_debug,
}

if_IsCounted :
    (b : Bool) (d d' : Debugger)
    → IsCounted d.breaks
    → IsCounted d'.breaks
    → IsCounted (if b then d else d').breaks
if_IsCounted true d d' c c' = c
if_IsCounted false d d' c c' = c'

module _ {T : Type 0} (ops : Target T) where
  abbrev pub Counted : Session T → Type 0
  Counted s = IsCounted s.dbg.breaks

  -- What leaves the breakpoints as they are.
  Same-Keeps :
      {A : Type 0} {m : M (Session T) A}
      → ((b : Breaks) → Keeps (Kept.Same ops b) m)
      → Keeps Counted m
  Same-Keeps {A} {m} h = record {
    ends = λ s c. by_outcome s c (m s) ((h s.dbg.breaks).ends s refl);
  }
    where
      by_outcome :
          (s : Session T)
          → Counted s
          → (r : Outcome (Session T) A) → Ends (Kept.Same ops s.dbg.breaks) r
          → Ends Counted r
      by_outcome s c (done a s') e = subst IsCounted (sym e) c
      by_outcome s c (exited k s') e = tt
      by_outcome s c undefined e = tt

  on_dbg-Keeps :
      (f : Debugger → Debugger)
      → ((d : Debugger) → IsCounted d.breaks → IsCounted (f d).breaks)
      → Keeps Counted (on_dbg f)
  on_dbg-Keeps f h = record { ends = λ s c. h s.dbg c }

  update_break-Keeps :
      (n : ℕ) (f : Breakpoint → Breakpoint)
      → ((br : Breakpoint) → ((f br).enabled ≡ br.enabled) × ((f br).used ≡ br.used))
      → Keeps {S = Session T} Counted (update_break n f)
  unfolding update_break
  update_break-Keeps n f same = on_dbg-Keeps _ (λ d c. write_break-Counted n f same d.breaks c)

  get_dbg-Keeps : Keeps Counted get_dbg
  get_dbg-Keeps = record { ends = λ s c. c }

  pub on_target-Keeps : {A : Type 0} (m : M (Simulated T) A) → Keeps Counted (on_target m)
  on_target-Keeps m = Same-Keeps λ b. Kept.Keeps-on_target ops b m

  must-Keeps : {A : Type 0} (o : Option A) → Keeps Counted (must o)
  must-Keeps o = Same-Keeps λ b. Kept.Keeps-must ops b o

  condition_holds-Keeps : (n : ℕ) (br : Breakpoint) → Keeps Counted (condition_holds ops n br)
  unfolding condition_holds
  condition_holds-Keeps n br =
      Keeps-bind (Same-Keeps λ b. Kept.eval-Keeps ops b br.condition)
        λ (val, rest). Keeps-seq (update_break-Keeps n _ (λ br. (refl, refl))) (Keeps-pure _)

  count_hit-Keeps : (n : ℕ) (br : Breakpoint) → Keeps Counted (count_hit ops n br)
  unfolding count_hit
  count_hit-Keeps n br =
      Keeps-if (nonzero br.ignore_count) (update_break-Keeps n _ (λ br. (refl, refl)))
        (on_dbg-Keeps _ (λ d c. c))

  breakpoint_hit-Keeps : (n : ℕ) (br : Breakpoint) → Keeps Counted (breakpoint_hit ops n br)
  unfolding breakpoint_hit
  breakpoint_hit-Keeps n br = Keeps-bind get_dbg-Keeps λ d.
      Keeps-if (br.threaded && not (d.thread_id == br.tid)) (Keeps-pure tt) (
        Keeps-if br.conditional
          (Keeps-bind (condition_holds-Keeps n br)
            λ holds. Keeps-if holds (count_hit-Keeps n br) (Keeps-pure tt))
          (count_hit-Keeps n br))

  command_trace_insn-Keeps : (addr : ℕ) → Keeps Counted (command_trace_insn ops addr)
  unfolding command_trace_insn
  command_trace_insn-Keeps addr = on_dbg-Keeps _ (λ d c. c)

  find_break-Keeps : (addr : ℕ) → Keeps Counted (find_break ops addr)
  unfolding find_break
  find_break-Keeps addr = Keeps-bind get_dbg-Keeps λ d.
      Keeps-option (brkfind_by_addr addr d.breaks) (Keeps-pure _)
        λ n. Keeps-bind (must-Keeps (get_elem? d.breaks.breaktab n)) λ br. Keeps-pure _

  stop_at-Keeps : (n : ℕ) (br : Breakpoint) → Keeps Counted (stop_at ops n br)
  unfolding stop_at
  stop_at-Keeps n br = Keeps-seq (breakpoint_hit-Keeps n br) (
      Keeps-bind get_dbg-Keeps λ d.
        Keeps-if (d.monitor_on && br.temp) (on_dbg-Keeps _ (λ d c. brkfree-IsCounted d.breaks n c))
          (Keeps-pure tt))

  command_insn_hook-Keeps : Keeps Counted (command_insn_hook ops)
  unfolding command_insn_hook
  command_insn_hook-Keeps = Keeps-bind (on_target-Keeps ops.get_pc) λ pc.
      Keeps-seq (command_trace_insn-Keeps (low pc 16)) (
        Keeps-bind get_dbg-Keeps λ d. Keeps-if (d.breaks.active_break_count == 0) (Keeps-pure tt) (
          Keeps-bind (on_target-Keeps (ops.to_absolute (low pc 16))) λ abspc.
            Keeps-bind (find_break-Keeps abspc) λ found.
              Keeps-option found (Keeps-pure tt) λ (n, br).
                Keeps-if (br.enabled && br.on_execute) (stop_at-Keeps n br) (Keeps-pure tt)))

  pub command_read_hook-Keeps : (addr : ℕ) → Keeps Counted (command_read_hook ops addr)
  unfolding command_read_hook
  command_read_hook-Keeps addr = Keeps-bind get_dbg-Keeps λ d.
      Keeps-if (d.breaks.active_break_count == 0) (Keeps-pure tt) (
        Keeps-bind (find_break-Keeps addr) λ found. Keeps-option found (Keeps-pure tt) λ (n, br).
          Keeps-if (br.enabled && br.on_read) (breakpoint_hit-Keeps n br) (Keeps-pure tt))

  command_change_thread-Keeps : Keeps Counted (command_change_thread ops)
  unfolding command_change_thread
  command_change_thread-Keeps = Keeps-bind get_dbg-Keeps λ d.
      Keeps-bind (Same-Keeps λ b. Kept.target_read-Keeps ops b d.thread_current d.thread_id_size)
        λ addr. Keeps-bind (on_target-Keeps (ops.to_absolute (low addr 16))) λ th.
          Keeps-if (th == d.thread_id) (Keeps-pure tt) (
            Keeps-seq (on_dbg-Keeps _ (λ d c. c)) (
              Keeps-option ops.dump_thread (Keeps-pure tt) λ dump_thread.
                Keeps-bind (Same-Keeps λ b. Kept.eval-Keeps ops b thread_debug)
                  λ (debug, _). Keeps-if _ (on_target-Keeps (dump_thread th)) (Keeps-pure tt)))

  watch_thread-Keeps : (addr : ℕ) → Keeps Counted (watch_thread ops addr)
  unfolding watch_thread
  watch_thread-Keeps addr =
      Keeps-bind get_dbg-Keeps λ d. Keeps-if _ command_change_thread-Keeps (Keeps-pure tt)

  watch_hit-Keeps : (addr n : ℕ) (br : Breakpoint) → Keeps Counted (watch_hit ops addr n br)
  unfolding watch_hit
  watch_hit-Keeps addr n br = Keeps-seq (breakpoint_hit-Keeps n br) (
      Keeps-bind get_dbg-Keeps λ d. Keeps-if d.monitor_on (watch_thread-Keeps addr) (Keeps-pure tt))

  watch_write-Keeps :
      (addr val n : ℕ) (br : Breakpoint) → Keeps Counted (watch_write ops addr val n br)
  unfolding watch_write
  watch_write-Keeps addr val n br =
      Keeps-if (nonzero br.write_mask)
        (Keeps-seq (update_break-Keeps n _ (λ br. (refl, refl))) (
          Keeps-if (bit_and br.last_write br.write_mask == bit_and val br.write_mask)
            (Keeps-pure tt) (watch_hit-Keeps addr n br)))
        (watch_hit-Keeps addr n br)

  pub command_write_hook-Keeps : (addr val : ℕ) → Keeps Counted (command_write_hook ops addr val)
  unfolding command_write_hook
  command_write_hook-Keeps addr val = Keeps-bind get_dbg-Keeps λ d.
      Keeps-if (d.breaks.active_break_count == 0) (watch_thread-Keeps addr) (
        Keeps-bind (find_break-Keeps addr) λ found.
          Keeps-option found (watch_thread-Keeps addr) λ (n, br).
            Keeps-if (br.enabled && br.on_write) (watch_write-Keeps addr val n br)
              (watch_thread-Keeps addr))

  command_periodic-Keeps : Keeps Counted (command_periodic ops)
  unfolding command_periodic
  command_periodic-Keeps = on_dbg-Keeps _ λ d c.
      if_IsCounted (leb_ℤ d.stop_after_ms (pos 0) && leb_ℤ (pos 0) d.stop_after_ms) _ _ c
        (if_IsCounted (leb_ℤ (d.stop_after_ms -ℤ pos 100) (pos 0)) _ _ c c)

  command_exit_irq_hook-Keeps : (cycles : ℕ) → Keeps Counted (command_exit_irq_hook ops cycles)
  unfolding command_exit_irq_hook
  command_exit_irq_hook-Keeps cycles = Keeps-bind get_dbg-Keeps λ d.
      Keeps-bind (must-Keeps (get_elem? d.irq_cycle_tab d.irq_cycle_entry))
        λ old. on_dbg-Keeps _ (λ d c. c)

  -- From every state in which the count of active breakpoints is that of the enabled entries among
  -- the 32 of the table, and no unused one is enabled: where the hook before an instruction, at a
  -- read, at a write, of the clock or at the end of an interrupt returns, whatever the machine
  -- answers, it is so again.
  pub hooks-IsCounted :
      (addr val cycles : ℕ) (s : Session T)
      → Counted s
      → Ends Counted (command_insn_hook ops s)
        × Ends Counted (command_read_hook ops addr s)
        × Ends Counted (command_write_hook ops addr val s)
        × Ends Counted (command_periodic ops s)
        × Ends Counted (command_exit_irq_hook ops cycles s)
  hooks-IsCounted addr val cycles s c = (
    command_insn_hook-Keeps.ends s c,
    (command_read_hook-Keeps addr).ends s c,
    (command_write_hook-Keeps addr val).ends s c,
    command_periodic-Keeps.ends s c,
    (command_exit_irq_hook-Keeps cycles).ends s c,
  )
