-- ===== src/Machine/Device.antt =====
-- The devices (machine.c: the null, RAM, ROM and console devices and the MMU of EON).
use exec.Base.{
  ℕ, zero, suc, ◌+◌, ◌*◌, ◌/◌, ◌%◌, Bool, Option, none, some, List, get_elem?, set, length, ◌++◌,
  [], ◌∷◌, map, if◌then◌else◌, ◌==◌,
}
use exec.Base.Word.{low, shr}
use exec.Base.Run.{M, done, exited, undefined, ◌>>=◌, ◌>>◌, pure}
use exec.Bus.{BusMap, bus_map}
use exec.Core.Board.{Sys}

-- `struct hw_class`: the classes of machine.c, and those of the other files by a number.
pub data HwClass : Type 0 where
  null_class ram_class rom_class console_class mmu_class : HwClass
  other_class : ℕ → HwClass

-- `struct hw_device`; the device's number is its index. `priv` is the memory of RAM and ROM.
pub record HwDevice : Type 0 where
  pub class_ptr : HwClass
  pub size : ℕ
  pub priv : List ℕ

-- The globals of machine.c, with the console's input still to come and its output so far.
pub record Machine : Type 0 where
  pub device_table : List HwDevice
  pub busmaps : List BusMap
  pub default_busmaps : List BusMap
  pub fault_addr : ℕ
  pub fault_type : ℕ
  pub system_running : Bool
  -- `mmu_regs[page][reg]` at 4 * page + reg
  pub mmu_regs : List ℕ
  pub input : List ℕ
  pub output : List ℕ

-- What machine.c calls of other files: the fault handler of the machine in use, the watchpoints of
-- command.c, and the devices of other classes.
pub record Links : Type 0 where
  pub fault : ℕ → ℕ → M (Sys Machine) (Unit {0})
  pub read_hook : ℕ → M (Sys Machine) (Unit {0})
  pub write_hook : ℕ → ℕ → M (Sys Machine) (Unit {0})
  pub other_read : ℕ → ℕ → ℕ → M (Sys Machine) ℕ
  pub other_write : ℕ → ℕ → ℕ → ℕ → M (Sys Machine) (Unit {0})
  pub other_reset : ℕ → ℕ → M (Sys Machine) (Unit {0})

abbrev pub get_machine : M (Sys Machine) Machine
get_machine s = done s.env s

abbrev pub on_machine : (Machine → Machine) → M (Sys Machine) (Unit {0})
on_machine f s = done tt (record s { env = f s.env })

-- An access that is undefined outside its table.
abbrev pub must : {A : Type 0} → Option A → M (Sys Machine) A
must none s = undefined
must (some a) s = done a s

abbrev pub device_count : Machine → ℕ
device_count m = length m.device_table

-- `machine_init` attaches the null device first.
abbrev pub null_device : ℕ
null_device = 0

abbrev pub max_bus_devices : ℕ
max_bus_devices = 32

-- `buf[addr]` of a device's memory.
unfoldable pub ram_read : HwDevice → ℕ → M (Sys Machine) ℕ
ram_read dev addr = must (get_elem? dev.priv addr)

unfoldable pub ram_write : ℕ → HwDevice → ℕ → ℕ → M (Sys Machine) (Unit {0})
ram_write id dev addr val = do
  old ← must (get_elem? dev.priv addr)
  on_machine λ m. record m {
    device_table = set m.device_table id (record dev { priv = set dev.priv addr val });
  }

unfoldable pub ram_reset : ℕ → HwDevice → M (Sys Machine) (Unit {0})
ram_reset id dev = on_machine λ m. record m {
  device_table = set m.device_table id (record dev { priv = map (λ b. 0) dev.priv });
}

-- `getchar` gives EOF, which is 0xff as a `U8`, when the input is at its end.
unfoldable pub console_read : ℕ → M (Sys Machine) ℕ
console_read addr =
    if addr == 2
    then (do
      m ← get_machine
      elim m.input [
        | [] ↦ pure 0xff
        | ch ∷ rest ↦ on_machine (λ m. record m { input = rest }) >> pure (low ch 8)
      ])
    else pure 0xff

unfoldable pub console_write : ℕ → ℕ → M (Sys Machine) (Unit {0})
console_write addr val =
    if addr == 0
    then on_machine (λ m. record m { output = m.output ++ val ∷ [] })
    else if addr == 1
    then exited val
    else pure tt

-- The register of an MMU address: `page * 4 + reg`.
abbrev pub mmu_reg : ℕ → ℕ
mmu_reg addr = addr / 4 % 16 * 4 + addr % 4

unfoldable pub mmu_read : ℕ → M (Sys Machine) ℕ
mmu_read addr = do
  m ← get_machine
  if addr == 0x60
      then pure (shr m.fault_addr 8)
      else if addr == 0x61
      then pure (low m.fault_addr 8)
      else if addr == 0x62
      then pure m.fault_type
      else must (get_elem? m.mmu_regs (mmu_reg addr))

-- The maps that the three registers of a page describe.
unfoldable pub mmu_map : ℕ → Machine → Option (List BusMap)
unfolding bus_map
mmu_map page m = elim (get_elem? m.mmu_regs (page * 4)) [
  | none ↦ none
  | some devid ↦ elim (get_elem? m.mmu_regs (page * 4 + 1)) [
    | none ↦ none
    | some offset ↦ elim (get_elem? m.mmu_regs (page * 4 + 2)) [
      | none ↦ none
      | some flags ↦ bus_map (page * 4096) devid (offset * 4096) 4096 (low flags 2) m.busmaps
    ]
  ]
]

unfoldable pub mmu_write : ℕ → ℕ → M (Sys Machine) (Unit {0})
unfolding mmu_map
mmu_write addr val = do
  on_machine λ m. record m { mmu_regs = set m.mmu_regs (mmu_reg addr) val }
  m ← get_machine
  maps ← must (mmu_map (addr / 4 % 16) m)
  on_machine λ m. record m { busmaps = maps }

-- The loop of `mmu_reset`, with `count` pages left.
unfoldable pub mmu_reset_loop : ℕ → ℕ → M (Sys Machine) (Unit {0})
unfolding mmu_write
mmu_reset_loop zero page = pure tt
mmu_reset_loop (suc count) page = do
  mmu_write (page * 4 + 0) 0
  mmu_write (page * 4 + 1) 0
  mmu_write (page * 4 + 2) 3
  mmu_reset_loop count (page + 1)

module _ (links : Links) where
  -- The functions of the classes' tables.
  abbrev pub class_read : HwClass → ℕ → HwDevice → ℕ → M (Sys Machine) ℕ
  class_read null_class id dev addr = pure 0xff
  class_read ram_class id dev addr = ram_read dev addr
  class_read rom_class id dev addr = ram_read dev addr
  class_read console_class id dev addr = console_read addr
  class_read mmu_class id dev addr = mmu_read addr
  class_read (other_class k) id dev addr = links.other_read k id addr

  -- ROM is written as RAM is.
  abbrev pub class_write : HwClass → ℕ → HwDevice → ℕ → ℕ → M (Sys Machine) (Unit {0})
  class_write null_class id dev addr val = pure tt
  class_write ram_class id dev addr val = ram_write id dev addr val
  class_write rom_class id dev addr val = ram_write id dev addr val
  class_write console_class id dev addr val = console_write addr val
  class_write mmu_class id dev addr val = mmu_write addr val
  class_write (other_class k) id dev addr val = links.other_write k id addr val

  abbrev pub class_reset : HwClass → ℕ → HwDevice → M (Sys Machine) (Unit {0})
  class_reset null_class id dev = pure tt
  class_reset ram_class id dev = ram_reset id dev
  class_reset rom_class id dev = pure tt
  class_reset console_class id dev = pure tt
  class_reset mmu_class id dev = mmu_reset_loop 16 0
  class_reset (other_class k) id dev = links.other_reset k id

  -- `(*class_ptr->read) (dev, addr)`, and the same for `write` and `reset`.
  unfoldable pub device_read : ℕ → ℕ → M (Sys Machine) ℕ
  unfolding ram_read console_read mmu_read
  device_read id addr = do
    m ← get_machine
    dev ← must (get_elem? m.device_table id)
    class_read dev.class_ptr id dev addr

  unfoldable pub device_write : ℕ → ℕ → ℕ → M (Sys Machine) (Unit {0})
  unfolding ram_write console_write mmu_write
  device_write id addr val = do
    m ← get_machine
    dev ← must (get_elem? m.device_table id)
    class_write dev.class_ptr id dev addr val

  unfoldable pub device_reset : ℕ → M (Sys Machine) (Unit {0})
  unfolding ram_reset mmu_reset_loop
  device_reset id = do
    m ← get_machine
    dev ← must (get_elem? m.device_table id)
    class_reset dev.class_ptr id dev
