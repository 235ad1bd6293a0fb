-- ===== src/Tests/Debugger.antt =====
-- The debugger (command.c): its breakpoints, expressions and hooks.
use exec.Base.{
  ℕ, ◌≡◌, refl, arith, ◌-◌, ◌^◌, ◌==◌, ◌&&◌, not, zero, suc, if◌then◌else◌, true, false, none, some,
  [], ◌∷◌, replicate, get_elem?, ◌⊎◌,
}
use exec.Base.Int.{pos}
use exec.Base.Run.{done, pure}
use exec.Symtab.{CString}
use exec.Command.{Breakpoint, Breaks, brkalloc, brkfind_by_addr, brkfree}
use exec.Command.Table.{IsCounted, IsFreeDisabled, count_enabled}
use exec.Command.Alloc
use exec.Command.Alloc.{all_used, without_temp}
use exec.Command.Session.{Debugger, Target, Session}
use exec.Command.Eval.{eval}
use exec.Command.Eval.Returns
use exec.Command.Eval.Split
use exec.Command.Hooks.{
  command_read_hook, command_write_hook, command_periodic, command_insn_hook, command_exit_irq_hook,
  breakpoint_hit,
}
use exec.Command.Hooks.Stops
use exec.Command.Hooks.Stops.{IsAt, IsFirst, IsSimple, times, traced}
use exec.Command.Hooks.Freed
use exec.Command.Hooks.Condition
use exec.Command.Hooks.Load
use exec.Command.Hooks.Counted
use exec.Command.Hooks.Counted.{Counted}
use exec.Base.Kept.{Ends}
use exec.Command.Hooks.Load.{IsRolling, Words, sum}
use exec.Tests.Symbols.{no_symbols, empty_table}

abbrev pub unused : Breakpoint
unused = record {
  used = false;
  enabled = false;
  conditional = false;
  threaded = false;
  on_read = false;
  on_write = false;
  on_execute = false;
  keep_running = false;
  temp = false;
  last_write = 0;
  write_mask = 0;
  addr = 0;
  condition = [];
  tid = 0;
  ignore_count = 0;
}

-- A breakpoint on the instruction at 0x100, which is passed twice.
abbrev pub at_100 : Breakpoint
at_100 = record unused {
  used = true;
  enabled = true;
  on_execute = true;
  addr = 0x100;
  ignore_count = 2;
}

abbrev temporary : Breakpoint
temporary = record at_100 { temp = true }

abbrev pub table : Breakpoint → Breaks
table br = record { breaktab = br ∷ replicate 31 unused; active_break_count = 1 }

disabled :
    (n : ℕ) (br : Breakpoint)
    → (br.enabled && not br.used) ≡ false
    → IsFreeDisabled (br ∷ replicate n unused)
disabled zero br e = (e, tt)
disabled (suc n) br e = (e, disabled n unused refl)

pub table-IsCounted : (br : Breakpoint) → br.enabled ≡ true → br.used ≡ true → IsCounted (table br)
unfolding count_enabled
table-IsCounted br on busy = record {
  size = refl;
  counted = rw on refl;
  disabled = disabled 31 br (rw busy (ground arith));
}

brkalloc_lem_example :
    ((all_used (table at_100).breaktab ≡ true) × (brkalloc (table at_100) ≡ none))
    ⊎ ((n : ℕ) × (br : Breakpoint) × (after : Breaks) × (get_elem? (table at_100).breaktab n
          ≡ some br)
        × (br.used ≡ false)
        × (brkalloc (table at_100) ≡ some (n, after))
        × ((i : ℕ)
            → get_elem? after.breaktab i ≡ (
                if i == n
                then some (record br {
                  used = true;
                  enabled = true;
                  conditional = false;
                  threaded = false;
                  keep_running = false;
                  ignore_count = 0;
                  temp = false;
                })
                else get_elem? (table at_100).breaktab i))
        × IsCounted after)
brkalloc_lem_example = Alloc.brkalloc_lem (table at_100) (table-IsCounted at_100 refl refl)

-- The machine is its PC, and every byte of its memory is 0.
abbrev pub pc_only : Target ℕ
pc_only = record {
  abs_read8 = λ addr. pure 0;
  abs_write8 = λ addr val. pure tt;
  to_absolute = λ addr. pure addr;
  get_pc = λ sim. done sim.machine sim;
  read_virtual = λ handler. pure 0;
  write_virtual = λ handler val. pure tt;
  dump_thread = none;
}

abbrev pub debugger : Breakpoint → Debugger
debugger br = record {
  heap = no_symbols;
  program_symtab = empty_table;
  internal_symtab = empty_table;
  auto_symtab = empty_table;
  breaks = table br;
  history_count = 0;
  historytab = replicate 10 0;
  thread_id_size = 0;
  thread_current = 0;
  thread_id = 0;
  trace_buffer = replicate 256 0;
  trace_offset = 0;
  stop_after_ms = pos 0;
  monitor_on = false;
  irq_cycle_tab = replicate 128 0;
  irq_cycle_entry = 0;
  irq_cycles = 0;
}

abbrev pub session : Breakpoint → Session ℕ
session br = record { dbg = debugger br; target = 0x100 }

-- `$x=1+2`.
abbrev set_x : CString
set_x = b'$' ∷ b'x' ∷ b'=' ∷ b'1' ∷ b'+' ∷ b'2' ∷ []

abbrev two_minus_three : CString
two_minus_three = b'2' ∷ b'-' ∷ b'3' ∷ []

eval-two_minus_three :
    eval pc_only two_minus_three (session at_100) ≡ done (2 ^ 64 - 1, b'2' ∷ []) (session at_100)
unfolding eval
eval-two_minus_three = refl

eval_ten :
    eval pc_only (b'1' ∷ b'0' ∷ []) (session at_100) ≡ done (10, b'1' ∷ b'0' ∷ []) (session at_100)
unfolding eval
eval_ten = refl

-- 10-2-3 is 11.
eval-minus_example :
    eval pc_only (b'1' ∷ b'0' ∷ b'-' ∷ two_minus_three) (session at_100)
    ≡ done (11, b'1' ∷ b'0' ∷ []) (session at_100)
eval-minus_example =
    Split.eval-minus b'1' (b'0' ∷ []) two_minus_three refl refl refl refl refl pc_only
      (session at_100) (session at_100) (session at_100) 10 (2 ^ 64 - 1) (b'1' ∷ b'0' ∷ [])
      (b'2' ∷ []) eval_ten eval-two_minus_three

pub at_100-IsAt : IsAt pc_only 0x100 0x100 0x100
at_100-IsAt = record { reads = λ on. refl; maps = λ on. refl }

at_100-IsFirst : IsFirst pc_only 0x100 0x100 0x100 (debugger at_100) 0 at_100
unfolding brkfind_by_addr
at_100-IsFirst = record { active = λ e. omega (arith, e); first = refl; entry = refl }

command_insn_hook-ignore_count_example :
    (d1 : Debugger) × (d2 : Debugger) × (times 2 (command_insn_hook pc_only) (session at_100)
      ≡ done tt (record { dbg = d1; target = 0x100 }))
    × (d1.monitor_on ≡ false)
    × (command_insn_hook pc_only (record { dbg = d1; target = 0x100 })
        ≡ done tt (record { dbg = d2; target = 0x100 }))
    × (d2.monitor_on ≡ true)
command_insn_hook-ignore_count_example =
    Stops.command_insn_hook-ignore_count pc_only 0x100 0x100 0x100 (debugger at_100) 0 2 at_100
      at_100-IsAt at_100-IsFirst
      (record {
        on = refl;
        execute = refl;
        every_thread = refl;
        always = refl;
        stops = refl;
        stays = refl;
      })
      refl refl

-- Two breakpoints at the same address, of which the first is deleted.
abbrev twice : Debugger
twice = record (debugger at_100) {
  breaks = record { breaktab = at_100 ∷ at_100 ∷ replicate 30 unused; active_break_count = 2 };
}

twice-IsFirst : IsFirst pc_only 0x100 0x100 0x100 twice 0 at_100
unfolding brkfind_by_addr
twice-IsFirst = record { active = λ e. omega (arith, e); first = refl; entry = refl }

command_insn_hook-brkfree_example :
    command_insn_hook pc_only
      (record { dbg = record twice { breaks = brkfree 0 twice.breaks }; target = 0x100 })
    ≡ done tt (record {
      dbg = traced 0x100 (record twice { breaks = brkfree 0 twice.breaks });
      target = 0x100;
    })
command_insn_hook-brkfree_example =
    Freed.command_insn_hook-brkfree pc_only 0x100 0x100 0x100 twice 0 at_100 at_100-IsAt
      twice-IsFirst

-- A breakpoint with the condition 1==2.
abbrev one_is_two : Breakpoint
one_is_two = record at_100 { conditional = true; condition = b'1' ∷ b'=' ∷ b'=' ∷ b'2' ∷ [] }

eval_one : eval pc_only (b'1' ∷ []) (session one_is_two) ≡ done (1, b'1' ∷ []) (session one_is_two)
unfolding eval
eval_one = refl

eval_two : eval pc_only (b'2' ∷ []) (session one_is_two) ≡ done (2, b'2' ∷ []) (session one_is_two)
unfolding eval
eval_two = refl

breakpoint_hit-condition_example :
    (s' : Session ℕ) × (breakpoint_hit pc_only 0 one_is_two (session one_is_two) ≡ done tt s')
    × (s'.dbg.monitor_on ≡ false)
    × (get_elem? s'.dbg.breaks.breaktab 0 ≡ some (record one_is_two { condition = b'1' ∷ [] }))
breakpoint_hit-condition_example =
    Condition.breakpoint_hit-condition pc_only 0 one_is_two (session one_is_two)
      (session one_is_two) (session one_is_two) (b'1' ∷ []) (b'2' ∷ []) (b'1' ∷ []) (b'2' ∷ []) 1 2
      refl refl refl refl eval_one eval_two (λ e. omega (arith, e)) refl

words : (n : ℕ) → Words (replicate n 0)
words zero = tt
words (suc n) = (omega arith, words n)

no_irqs : IsRolling (debugger at_100)
unfolding sum
no_irqs = record { size = refl; entry = omega arith; words = words 128; total = refl }

command_exit_irq_hook-IsRolling_example :
    (d : Debugger) × (command_exit_irq_hook pc_only 40 (session at_100)
      ≡ done tt (record { dbg = d; target = 0x100 }))
    × IsRolling d
    × (get_elem? d.irq_cycle_tab 0 ≡ some 40)
    × (d.irq_cycle_entry ≡ 1)
command_exit_irq_hook-IsRolling_example =
    Load.command_exit_irq_hook-IsRolling pc_only 40 (session at_100) (omega arith) no_irqs

hooks-IsCounted_example :
    Ends (Counted pc_only) (command_insn_hook pc_only (session at_100))
    × Ends (Counted pc_only) (command_read_hook pc_only 0x100 (session at_100))
    × Ends (Counted pc_only) (command_write_hook pc_only 0x100 7 (session at_100))
    × Ends (Counted pc_only) (command_periodic pc_only (session at_100))
    × Ends (Counted pc_only) (command_exit_irq_hook pc_only 40 (session at_100))
hooks-IsCounted_example =
    Counted.hooks-IsCounted pc_only 0x100 7 40 (session at_100) (table-IsCounted at_100 refl refl)
