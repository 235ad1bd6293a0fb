-- ===== src/Tests/Commands.antt =====
-- The command lines of the debugger (command.c), the disk (disk.c) and ROM (machine.c).
use exec.Base.{
  ℕ, ◌≡◌, refl, arith, ◌+◌, ◌-◌, ◌*◌, ◌≤◌, ◌&&◌, ltb, leb, if◌then◌else◌, true, false, none, some,
  [], ◌∷◌,
}
use exec.Base.Int.{pos}
use exec.Base.Run.{done, pure}
use exec.Command.{brkfind_by_addr, brkfree_temps}
use exec.Command.Alloc.{all_used}
use exec.Command.Session.{Debugger}
use exec.Command.Text.{strtok}
use exec.Command.Eval.{eval, eval_lvalue}
use exec.Command.Hooks.{command_insn_hook}
use exec.Command.Hooks.Stops.{traced}
use exec.Command.Shell.{Shell, Controls, with_breaks}
use exec.Command.Shell.Handlers.{cmd_break}
use exec.Command.Shell.Invariant
use exec.Command.Shell.Break
use exec.Tests.Debugger.{at_100, pc_only, session, table-IsCounted, table}
use exec.Devices.Disk.{Disk, transfer_sector, disk_format}
use exec.Devices.Disk.Sector
use exec.Devices.Disk.Sector.{sector_start}
use exec.Devices.Disk.Format
use exec.Machine.Rom
use exec.Machine.Rom.{load_rom, copies}

abbrev no_controls : Controls ℕ
no_controls = record {
  dasm = λ addr. pure 1;
  reset_registers = pure tt;
  cpu_is_running = pure tt;
  get_s = pure 0;
  set_s = λ val. pure tt;
  get_cc = pure 0;
  set_cc = λ val. pure tt;
  set_pc = λ val. pure tt;
  bus_write = λ addr val. pure addr;
  bus_find = λ addr. pure (addr, pure 0);
  load_map_file = λ file symtab heap. pure (symtab, heap);
  open_file = λ file. none;
}

-- One breakpoint is set, and the line to come is `c`, for `continue`.
abbrev shell : Shell ℕ
shell = record {
  session = session at_100;
  arguments = b' ' ∷ b'&' ∷ b'2' ∷ b'5' ∷ b'7' ∷ 10 ∷ [];
  command_flags = [];
  exit_command_loop = pos 0;
  auto_break_insn_count = 0;
  dump_every_insn = 0;
  cpu_quit = 1;
  print_type = record { format = b'x'; size = 1 };
  displaytab = [];
  prev_buffer = [];
  command_input = none;
  stdin = (b'c' ∷ 10 ∷ []) ∷ [];
}

abbrev continued : Shell ℕ
unfolding brkfree_temps
continued = record (with_breaks brkfree_temps shell) {
  arguments = [];
  prev_buffer = b'c' ∷ [];
  stdin = [];
}

evaluated :
    eval_lvalue pc_only (eval pc_only) (b'2' ∷ b'5' ∷ b'7' ∷ []) (session at_100)
    ≡ done (257, b'2' ∷ b'5' ∷ b'7' ∷ []) (session at_100)
unfolding eval eval_lvalue
evaluated = refl

abbrev break_257 : Shell ℕ
break_257 = record shell { arguments = b'2' ∷ b'5' ∷ b'7' ∷ 10 ∷ [] }

token : strtok break_257.arguments ≡ some (b'2' ∷ b'5' ∷ b'7' ∷ [], [])
unfolding strtok
token = refl

no_more : strtok [] ≡ none
unfolding strtok
no_more = refl

room : all_used (table at_100).breaktab ≡ false
unfolding all_used
room = refl

no_such : brkfind_by_addr 257 (table at_100) ≡ none
unfolding brkfind_by_addr
no_such = refl

cmd_break-command_insn_hook_example :
    (d : Debugger) × (cmd_break pc_only no_controls break_257
      ≡ done tt
          (record break_257 { session = record (session at_100) { dbg = d }; arguments = [] }))
    × (command_insn_hook pc_only (record { dbg = d; target = 257 })
        ≡ done tt (record { dbg = record (traced 257 d) { monitor_on = true }; target = 257 }))
cmd_break-command_insn_hook_example =
    Break.cmd_break-command_insn_hook pc_only no_controls break_257 (b'2' ∷ b'5' ∷ b'7' ∷ []) []
      (b'2' ∷ b'5' ∷ b'7' ∷ []) (session at_100) 257 257 257 token no_more evaluated
      (table-IsCounted at_100 refl refl) room no_such
      (record { reads = λ on. refl; maps = λ on. refl })

-- A disk of one sector, with two pages of memory.
abbrev disk : Disk
disk = record {
  fp = record { size = 512; byte = λ j. 0; position = 0 };
  offset = 0;
  ram = 0;
  sectors = 1;
  memory = λ i. i;
  memory_size = 1024;
}

disk_write-sector_example :
    (d1 : Disk) × (d2 : Disk) × (transfer_sector 0 0 3 2 disk ≡ some d1)
    × ((j : ℕ)
        → d1.fp.byte j ≡ (
            if leb (sector_start 0 3) j && ltb j (sector_start 0 3 + 512)
            then 0 * 512 + (j - sector_start 0 3)
            else if ltb j 512
            then 0
            else 0))
    × (transfer_sector 1 0 3 1 d1 ≡ some d2)
    × ((i : ℕ)
        → d2.memory i
          ≡ (if leb (1 * 512) i && ltb i (1 * 512 + 512) then 0 * 512 + (i - 1 * 512) else i))
disk_write-sector_example =
    Sector.disk_write-sector 0 1 0 3 disk (omega arith) (omega arith) (omega arith) (omega arith)

disk_format-erases_example :
    (d : Disk) × (disk_format disk ≡ some d) × (1 * 512 ≤ d.fp.size) × (d.fp.byte 7 ≡ 0xff)
disk_format-erases_example = Format.disk_format-erases disk 7 (omega arith) (omega arith)

load_rom-copies_example : load_rom (1 ∷ 2 ∷ []) 6 ≡ some (copies 3 (1 ∷ 2 ∷ []))
load_rom-copies_example =
    Rom.load_rom-copies 2 6 (1 ∷ 2 ∷ []) (omega arith) (omega arith) (omega arith)
