-- ===== src/Tests/Stacks.antt =====
-- Interrupts and calls on plain memory (6809.c).
use exec.Base.{ℕ, ◌+◌, ◌-◌, ◌*◌, ◌<◌, ◌≤◌, ◌≡◌, refl, arith, ◌==◌, if◌then◌else◌, ◌/◌}
use exec.Base.Run.{done, exited, bind_outcome}
use exec.Cpu.{tick}
use exec.Core.Board.{Sys, Board}
use exec.Core.Flat.{IsFlat}
use exec.Core.Stack.{rts}
use exec.Core.Stack.Call
use exec.Core.Indexed.{indexed}
use exec.Core.Indexed.Offset
use exec.Core.Indexed.Offset.{offset_cpu}
use exec.Core.Interrupt.{irq, rti, request_irq, cc_modified}
use exec.Core.Interrupt.Pending
use exec.Core.Interrupt.Enter
use exec.Core.Interrupt.Enter.{handler_cpu, stacked}
use exec.Core.Interrupt.RoundTrip
use exec.Core.Interrupt.RoundTrip.{IsReturned}
use exec.Tests.{start}
use exec.Tests.Registers.{start-InRange}

abbrev pub Memory : Type 0
Memory = ℕ → ℕ

abbrev peek : Memory → ℕ → ℕ
peek e at = e at

abbrev poke : ℕ → ℕ → Memory → Memory
poke addr val e at = if addr == at then val else e at

-- Memory everywhere, no monitor.
abbrev pub board : Board Memory
board = record {
  read8 = λ addr s. done (s.env addr) s;
  read16 = λ addr s. done (s.env addr * 256 + s.env (addr + 1)) s;
  write8 = λ addr val s. done tt (record s { env = poke addr val s.env });
  sim_error = λ s. exited 2 s;
  monitor_call = λ k s. done tt s;
  monitor_return = λ s. done tt s;
  exit_irq_hook = λ k s. done tt s;
}

-- No state of it is excluded.
abbrev Always : Memory → Type 0
Always e = Unit {0}

abbrev board-IsFlat : IsFlat board Always peek poke 0xff00
board-IsFlat = record {
  top_range = omega arith;
  read = λ addr s ok lt. refl;
  write = λ addr val s ok lt. refl;
  peek-poke = λ addr val at e ok lt lt'. refl;
  poke-Ok = λ addr val e ok lt. tt;
  on_return = λ e. e;
  returns = λ s. refl;
  peek-on_return = λ e at. refl;
  on_return-Ok = λ e ok. tt;
  on_call = λ k e. e;
  calls = λ k s. refl;
  peek-on_call = λ k e at. refl;
  on_call-Ok = λ k e ok. tt;
  on_rti = λ k e. e;
  counts = λ k s. refl;
  peek-on_rti = λ k e at. refl;
  on_rti-Ok = λ k e ok. tt;
  word_at = λ e addr. e addr * 256 + e (addr + 1);
  read_word = λ addr s ok lo hi. refl;
}

-- Memory that holds the low byte of each address.
abbrev pub before : Sys Memory
before = record { cpu = start; env = λ at. at - at / 256 * 256 }

abbrev frame_memory : Memory
frame_memory = stacked board Always peek poke 0xff00 board-IsFlat before

-- The vector 0xfff8 holds 0xf8f9 there.
abbrev in_handler : Sys Memory
in_handler = record {
  cpu = handler_cpu (board-IsFlat.word_at frame_memory 0xfff8) start;
  env = frame_memory;
}

-- The handler has used A and X, and memory below the frame.
abbrev handled : Sys Memory
handled = record {
  cpu = record (in_handler.cpu) { a = 0; x = 0; pc = 0xf900 };
  env = poke 0x1000 0xff in_handler.env;
}

irq_flat_example : irq board before ≡ done tt in_handler
irq_flat_example =
    Enter.irq_flat board Always peek poke 0xff00 board-IsFlat before tt (omega arith) (omega arith)

kept :
    (at : ℕ) → in_handler.cpu.s ≤ at → at < start.s → peek handled.env at ≡ peek in_handler.env at
kept at h lt = ground arith

rti-irq_example :
    (s3 : Sys Memory) × (rti board handled ≡ done tt s3)
    × IsReturned start s3.cpu
    × ((at : ℕ) → peek s3.env at ≡ peek handled.env at)
rti-irq_example =
    RoundTrip.rti-irq board Always peek poke 0xff00 board-IsFlat before in_handler handled tt tt
      (omega arith) (omega arith) start-InRange
      (Enter.irq_flat board Always peek poke 0xff00 board-IsFlat before tt (omega arith)
        (omega arith))
      refl kept

abbrev in_routine : Sys Memory
in_routine = record {
  cpu = record start { s = start.s - 2; pc = start.ea };
  env = Call.called board Always peek poke 0xff00 board-IsFlat before;
}

abbrev routine_done : Sys Memory
routine_done = record {
  cpu = record (in_routine.cpu) { b = 7; pc = 0x4600 };
  env = poke 0x1000 0xff in_routine.env;
}

routine_kept :
    (at : ℕ)
    → in_routine.cpu.s ≤ at
    → at < start.s
    → peek routine_done.env at ≡ peek in_routine.env at
routine_kept at h lt = ground arith

rts-jsr_example :
    rts board routine_done
    ≡ done tt (record {
      cpu = record (tick 5 routine_done.cpu) { s = 0x2000; pc = 0x4321 };
      env = routine_done.env;
    })
rts-jsr_example =
    Call.rts-jsr board Always peek poke 0xff00 board-IsFlat before in_routine routine_done tt tt
      (omega arith) (omega arith)
      (Call.jsr_flat board Always peek poke 0xff00 board-IsFlat before tt (omega arith)
        (omega arith))
      refl routine_kept

-- The requests that wait, and the machine after the handler of another has cleared the masks.
abbrev waiting : Sys Memory
waiting = Pending.requested board 3 before

abbrev opened : Sys Memory
opened = record { cpu = record (waiting.cpu) { efi = 0; cc_changed = 1 }; env = waiting.env }

irq-request_irq_example :
    cc_modified board opened
    ≡ bind_outcome
        (irq board opened)
        (λ v s. done tt (record { cpu = record (s.cpu) { cc_changed = 0 }; env = s.env }))
irq-request_irq_example =
    Pending.irq-request_irq board 3 before waiting opened (omega arith) refl
      (unfold request_irq in refl) refl refl refl

-- The post byte 0x21 at 0x4321: one after Y.
indexed_offset_example :
    indexed board before ≡ done tt (record { cpu = offset_cpu 0x21 start; env = before.env })
indexed_offset_example = Offset.indexed_offset board before 0x21 (omega arith) refl
