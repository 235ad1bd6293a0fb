-- ===== src/Tests/Buses.antt =====
-- The bus and the devices (machine.c).
use exec.Base.{ℕ, ◌≡◌, refl, arith, Bool, true, false, some, List, [], ◌∷◌, replicate}
use exec.Base.Run.{exited, ◌>>=◌, done, undefined}
use exec.Bus.{BusMap, bus_map, bus_unmap}
use exec.Bus.Maps
use exec.Bus.Maps.{IsMapped}
use exec.Bus.Unmap
use exec.Bus.Unmap.{IsRestored}
use exec.Core.Memory.{imm_byte}
use exec.Core.Flat.{IsFlat}
use exec.Machine.Plain
use exec.Machine.Plain.{IsPlain, IsSilent, ram_byte, store_ram}
use exec.Machine.Simple.{machine_init_simple}
use exec.Machine.Start
use exec.Machine.Fetch
use exec.Machine.Fetch.{bus_board}
use exec.Core.Board.{Board, Sys}
use exec.Machine.{cpu_read8, cpu_write8}
use exec.Machine.Device.{
  mmu_read, mmu_write, HwDevice, Machine, Links, null_class, ram_class, rom_class,
}
use exec.Machine.Mmu
use exec.Machine.Ram
use exec.Machine.Ram.{IsRam, IsQuiet, stored}
use exec.Machine.Faults
use exec.Machine.Faults.{IsRom}
use exec.Tests.{start}

abbrev unmapped : BusMap
unmapped = record { devid = 0xff; offset = 0; flags = 0 }

abbrev fixed_map : BusMap
fixed_map = record { devid = 9; offset = 0; flags = 7 }

abbrev four_maps : List BusMap
four_maps = unmapped ∷ fixed_map ∷ unmapped ∷ unmapped ∷ []

bus_map-IsMapped_example :
    (out : List BusMap) × (bus_map 0x80 1 0x1000 0x100 3 four_maps ≡ some out)
    × IsMapped 2 1 1 0x1000 3 four_maps out
bus_map-IsMapped_example =
    Maps.bus_map-IsMapped 0x80 1 0x1000 0x100 3 four_maps (omega arith) (omega arith)

bus_unmap-bus_map_example :
    (mid : List BusMap) × (bus_map 0x80 1 0x1000 0x100 3 four_maps ≡ some mid)
    × (bus_unmap 0x80 0x100 four_maps mid ≡ some four_maps)
bus_unmap-bus_map_example =
    Unmap.bus_unmap-bus_map 0x80 1 0x1000 0x100 3 four_maps (omega arith) (omega arith)

-- No watchpoints, no other devices, and a fault handler that only returns.
abbrev links : Links
links = record {
  fault = λ addr type s. done tt s;
  read_hook = λ a s. done tt s;
  write_hook = λ a v s. done tt s;
  other_read = λ k id addr s. done 0 s;
  other_write = λ k id addr val s. done tt s;
  other_reset = λ k id s. done tt s;
}

links-IsQuiet : IsQuiet links
links-IsQuiet = record { reads = λ a s. refl; writes = λ a v s. refl }

abbrev memory : List ℕ
memory = 1 ∷ 2 ∷ 3 ∷ 4 ∷ []

abbrev null_dev : HwDevice
null_dev = record { class_ptr = null_class; size = 0; priv = [] }

abbrev ram : HwDevice
ram = record { class_ptr = ram_class; size = 4; priv = memory }

abbrev rom : HwDevice
rom = record { class_ptr = rom_class; size = 4; priv = memory }

abbrev ram_map : BusMap
ram_map = record { devid = 1; offset = 0; flags = 3 }

abbrev rom_map : BusMap
rom_map = record { devid = 2; offset = 0; flags = 1 }

-- The RAM at 0 and again at 0x80, the ROM at 0x100, and nothing at 0x180.
abbrev machine : Bool → Sys Machine
machine running = record {
  cpu = start;
  env = record {
    device_table = null_dev ∷ ram ∷ rom ∷ [];
    busmaps = ram_map ∷ ram_map ∷ rom_map ∷ replicate 509 unmapped;
    default_busmaps = [];
    fault_addr = 0;
    fault_type = 0;
    system_running = running;
    mmu_regs = [];
    input = [];
    output = [];
  };
}

ram_low : IsRam (machine true).env 2 1 2 ram ram_map
ram_low = record {
  mapped = refl;
  devid_same = refl;
  valid = λ e. omega arith;
  here = refl;
  is_ram = refl;
  at = refl;
  fits = omega arith;
  readable = refl;
  writable = refl;
}

ram_high : IsRam (machine true).env 0x82 1 2 ram ram_map
ram_high = record {
  mapped = refl;
  devid_same = refl;
  valid = λ e. omega arith;
  here = refl;
  is_ram = refl;
  at = refl;
  fits = omega arith;
  readable = refl;
  writable = refl;
}

rom_byte : IsRom (machine true).env 0x102 2 2 rom rom_map
rom_byte = record {
  mapped = refl;
  devid_same = refl;
  valid = λ e. omega arith;
  here = refl;
  is_rom = refl;
  at = refl;
  fits = omega arith;
  not_writable = refl;
}

-- What is written at 2 is read at 0x82.
cpu_read8-cpu_write8_example :
    (s' : Sys Machine) × (cpu_write8 links 2 0x77 (machine true) ≡ done tt s')
    × (cpu_read8 links 0x82 s' ≡ done 0x77 s')
cpu_read8-cpu_write8_example =
    Ram.cpu_read8-cpu_write8 links links-IsQuiet (machine true) 2 0x82 1 2 2 0x77 3 ram ram_map
      ram_map ram_low ram_high refl

-- A fault handler that notes the fault.
abbrev reporting : Links
reporting = record links {
  fault = λ addr type s.
      done tt (record s { env = record (s.env) { fault_addr = addr; fault_type = type } });
}

abbrev faulted : Sys Machine
faulted = record {
  cpu = start;
  env = record ((machine true).env) { fault_addr = 0x102; fault_type = 1 };
}

cpu_write8_rom_example :
    cpu_write8 reporting 0x102 0x77 (machine true)
    ≡ done tt (record { cpu = start; env = stored 2 rom 2 0x77 faulted.env })
cpu_write8_rom_example =
    Faults.cpu_write8_rom reporting (record { reads = λ a s. refl; writes = λ a v s. refl }) 0x102 2
      2 0x77 (machine true) faulted rom rom_map rom_byte refl refl refl

-- A program counter at the end of an address space that no device serves.
abbrev at_end : Sys Machine
at_end = record {
  cpu = record start { pc = 0xffff };
  env = record ((machine false).env) { busmaps = replicate 512 unmapped };
}

abbrev no_hooks : Board Machine
no_hooks = record {
  read8 = λ addr s. done 0 s;
  read16 = λ addr s. done 0 s;
  write8 = λ addr val s. done tt s;
  sim_error = λ s. exited 2 s;
  monitor_call = λ k s. done tt s;
  monitor_return = λ s. done tt s;
  exit_irq_hook = λ k s. done tt s;
}

no_hooks-IsSilent : IsSilent no_hooks
no_hooks-IsSilent = record { returns = λ s. refl; calls = λ k s. refl; counts = λ k s. refl }

bus_board-IsFlat_example : IsFlat (bus_board links no_hooks) IsPlain ram_byte store_ram 0xff00
bus_board-IsFlat_example = Plain.bus_board-IsFlat links links-IsQuiet no_hooks no_hooks-IsSilent

imm_byte-imm_byte_end_example :
    (imm_byte (bus_board links no_hooks) >>= λ first. imm_byte (bus_board links no_hooks)) at_end
    ≡ undefined
imm_byte-imm_byte_end_example = Fetch.imm_byte-imm_byte_end links no_hooks at_end 0xff refl refl (
    Faults.cpu_read8_unmapped links links-IsQuiet 0xffff at_end unmapped null_dev refl refl refl
      refl refl)

-- The machine with an MMU whose registers are clear.
abbrev mmu_machine : Sys Machine
mmu_machine = record {
  cpu = start;
  env = record ((machine true).env) { mmu_regs = replicate 64 0 };
}

-- Page 2 of the address space goes to 4 KB number 5 of device 0.
mmu_write-IsMapped_example :
    (s' : Sys Machine) × (mmu_write 9 5 mmu_machine ≡ done tt s')
    × (mmu_read 9 s' ≡ done 5 s')
    × IsMapped 32 64 0 0x5000 0 mmu_machine.env.busmaps s'.env.busmaps
mmu_write-IsMapped_example =
    Mmu.mmu_write-IsMapped 9 5 0 5 0 mmu_machine (omega arith) refl refl (omega arith) refl refl
      refl

-- Before any device is attached.
abbrev no_devices : Sys Machine
no_devices = record { cpu = start; env = record ((machine false).env) { device_table = [] } }

machine_init_simple-IsPlain_example :
    (s' : Sys Machine) × (machine_init_simple links no_devices ≡ done tt s')
    × (s'.cpu ≡ start)
    × IsPlain s'.env
machine_init_simple-IsPlain_example = Start.machine_init_simple-IsPlain links no_devices refl
