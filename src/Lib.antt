-- ===== src/Lib.antt =====
-- A model of exec09, a simulator of the Motorola 6809 processor and of machines built around it.
--
-- The program. 6809.c is the processor: its registers are globals, one function per kind of
-- instruction works on them, and `cpu_execute` decodes the opcodes. It reaches memory through
-- `cpu_read8`, `cpu_read16` and `cpu_write8` of machine.c, which look an address up in 512 bus maps
-- of 128 bytes and call the device behind. Devices, the debugger (command.c) and the monitor
-- (monitor.c) are called back from there. The debugger keeps a table of breakpoints, looks symbols up
-- in the hash tables of symtab.c, and evaluates expressions over them.
--
-- The model.
-- - Base: shared names, lists and Boolean tests; Base.Word writes C's 32-bit arithmetic out over
--   the natural numbers; Base.Run is the outcome of stateful code (a value and a state, an exit, or
--   undefined behaviour).
-- - Cpu: the registers and condition codes of 6809.c, as the source keeps them (`get_cc` to
--   `set_reg`, and the `cond_` macros in Cpu.Flags), without H6309.
-- - Alu and Wide: the 8-bit and the 16-bit instructions that only touch registers, as functions
--   from the register file to a result and a new register file.
-- - Core: what goes through memory. Core.Board is the interface that 6809.c uses of the other
--   files, Core.Memory the fetches and accesses, Core.Indexed the addressing modes, Core.Stack,
--   Core.Interrupt, Core.Transfer and Core.Branch the instructions, Core.Operand and Core.Execute
--   the `switch` of `cpu_execute`, one function for each sixteen opcodes. Core.Flat states what the
--   stack needs of a board: plain memory below an address, in the states of a given predicate.
-- - Bus and Machine: machine.c. Bus has the map tables, Machine.Device the devices, Machine the
--   accesses of the processor, Machine.Fetch the processor's board on the machine, and Machine.Plain
--   the states whose RAM is plain memory; Machine.Simple and Machine.Start are about how
--   the simple machine is set up (`simple_init` in eon.c), Machine.Rom about what `rom_create` loads.
-- - Devices: the interrupt multiplexer (imux.c), the timer (timer.c), the small MMU (mmu.c), the disk
--   (disk.c) and the I/O expander (ioexpand.c).
-- - Symtab: the symbol tables (symtab.c), whose chains are lists of pointers into a store of symbols.
-- - Command: the debugger (command.c). Command has the table of breakpoints, Command.Session the
--   state of the debugger and what it uses of the machine, Command.Text C's string functions,
--   Command.Eval the expressions, Command.Hooks what the processor and the bus call, and
--   Command.Shell the command lines: Shell.Handlers has one function for each command, Shell.Lookup
--   the table of their names, and Shell.Reading the loop over the lines.
-- - Tests: the theorems at concrete inputs.
--
-- Choices. A register is the C `unsigned`, not a byte or a word: ranges are hypotheses where they
-- matter. The cycle counter is an integer. Where C leaves the order of two reads open, the left one
-- goes first. `com` is called `complement`. Loops over a count recurse on it. `eval` takes fuel, one
-- more than the length of the expression, which is enough since each inner call is for a part of the
-- string; loading a ROM takes one round more than its size, which only an empty image exceeds, with
-- which the loop does not end. A string is the list of its bytes; `char` is signed. `eval` writes a
-- NUL over the operator that it splits at, so an evaluation also gives the string that its buffer
-- then holds. What the debugger prints is left out.
--
-- The flag `monitor_on` is one global that the debugger and the machine share, so each operation of the
-- machine that the debugger uses gets it and gives it back (Command.Session.Simulated). The commands
-- that go through the bus of the processor, `re` and `measure`, call the hooks of the debugger
-- themselves: their bus accesses are parameters up to the hook.
--
-- `cpu_execute` (Core.Loop) and `command_loop` need not end, and are relations between their states.
-- A line of the debugger is what `fgets` gives; the end of a script or of `stdin` is the end of a list.
--
-- Not modelled: the text that `sim_error` prints (it is a parameter, which may exit); what the
-- commands of command.c print; monitor.c but for `check_break`, main.c, fileio.c, serial.c, the rest of
-- eon.c, wpc.c and wpclib.c. The callbacks into these are parameters (Core.Board.Board,
-- Machine.Device.Links, Command.Session.Target, Command.Shell.Controls and Devices.IoExpand.IoDevices).
pub mod Base
pub mod Cpu
pub mod Alu
pub mod Wide
pub mod Bus
pub mod Core
pub mod Machine
pub mod Symtab
pub mod Command
pub mod Tests
pub mod Devices
