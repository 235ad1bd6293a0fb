-- ===== src/Tests/Lines.antt =====
-- The interrupt multiplexer and the timer (imux.c and timer.c).
use exec.Base.{ℕ, ◌+◌, ◌≡◌, refl, true, arith}
use exec.Base.Word.{test_bit}
use exec.Base.Run.{M, done, exited}
use exec.Devices.Imux.{Imux, imux_refresh}
use exec.Devices.Imux.Line
use exec.Devices.Timer.{HwTimer, hwtimer_decrement}
use exec.Devices.Timer.Period
use exec.Tests.{start}
use exec.Tests.Stacks.{board, before}

abbrev mux : Imux
mux = record { in_use = 4; enabled = 4; pending = 4; src = 1 }

imux_refresh-line_example :
    (pending : ℕ) × (imux_refresh board mux before
      ≡ done tt (record { cpu = record start { irqs_pending = pending }; env = before.env }))
    × (test_bit pending 1 ≡ true)
imux_refresh-line_example = Line.imux_refresh-line board mux before 1 refl refl (omega arith)

-- The state counts the interrupts.
abbrev count_one : ℕ → M ℕ (Unit {0})
count_one line n = done tt (n + 1)

abbrev give_up : M ℕ (Unit {0})
give_up n = exited 2 n

abbrev timer : HwTimer
timer = record {
  count = 100;
  reload = 2048;
  resolution = 128;
  flags = 0x80;
  prev_cycles = 0;
  int_dev = true;
  int_line = 3;
}

hwtimer_decrement-remaining_example :
    hwtimer_decrement count_one give_up 150 timer 0 ≡ done (record timer { count = 1998 }) 1
hwtimer_decrement-remaining_example =
    Period.hwtimer_decrement-remaining count_one give_up 150 timer 0 (omega arith) (omega arith)
      (omega arith) (omega arith) (omega arith)
