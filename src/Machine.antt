-- ===== src/Machine.antt =====
-- The machine that the processor runs in (machine.c): its devices, the faults, and the accesses of
-- the processor through the bus maps.
pub mod Device
pub mod Ram
pub mod Faults
pub mod Fetch
pub mod Plain
pub mod Simple
pub mod Start
pub mod Mmu
pub mod Rom
use exec.Base.{
  ℕ, ◌+◌, ◌*◌, ◌/◌, ◌%◌, ◌^◌, Bool, true, false, Option, none, some, List, get_elem?, set, length,
  ◌++◌, [], ◌∷◌, leb, if◌then◌else◌, ◌==◌, ◌||◌, ◌&&◌, not, bit_or,
}
use exec.Base.Word.{low, shr, shl32, test_bit}
use exec.Base.Run.{M, undefined, ◌>>=◌, ◌>>◌, pure}
use exec.Bus.{BusMap, map_writable, map_readable}
use exec.Core.Board.{Sys}
use exec.Machine.Device.{
  HwDevice, Machine, Links, get_machine, on_machine, device_count, null_device, device_read,
  device_write, must, max_bus_devices, HwClass, device_reset,
}

-- `find_map (addr)`; outside the table the access is undefined.
unfoldable pub find_map : ℕ → M (Sys Machine) BusMap
find_map addr = do m ← get_machine; must (get_elem? m.busmaps (addr / 128))

-- `device * 0x10000000L + reladdr`.
abbrev pub absolute_from_reladdr : ℕ → ℕ → ℕ
absolute_from_reladdr device reladdr = (device * 0x10000000 + reladdr) % 2 ^ 64

-- `map->offset + addr % BUS_MAP_SIZE`.
abbrev pub physical : BusMap → ℕ → ℕ
physical map addr = (map.offset + addr % 128) % 2 ^ 64

module _ (links : Links) where
  unfoldable pub do_fault : ℕ → ℕ → M (Sys Machine) (Unit {0})
  do_fault addr type = do
    m ← get_machine
    if m.system_running then links.fault addr type else pure tt

  -- `find_device (addr, id)`, whose `id` is an `unsigned char`; a device is named by its index.
  unfoldable pub find_device : ℕ → ℕ → M (Sys Machine) ℕ
  unfolding do_fault
  find_device addr id = do
    m ← get_machine
    if (low id 8 == 0xff) || leb (device_count m) (low id 8)
        then (do do_fault addr 2; pure null_device)
        else pure (low id 8)

  unfoldable pub cpu_read8 : ℕ → M (Sys Machine) ℕ
  unfolding find_map find_device device_read
  cpu_read8 addr = do
    map ← find_map addr
    dev ← find_device addr map.devid
    m ← get_machine
    if m.system_running && not (test_bit map.flags map_readable)
        then links.fault addr 3
        else pure tt
    links.read_hook (absolute_from_reladdr map.devid (physical map addr))
    device_read links dev (physical map addr)

  -- Both bytes are read through the map of the first.
  unfoldable pub cpu_read16 : ℕ → M (Sys Machine) ℕ
  unfolding find_map find_device do_fault device_read
  cpu_read16 addr = do
    map ← find_map addr
    dev ← find_device addr map.devid
    m ← get_machine
    if m.system_running && not (test_bit map.flags map_readable) then do_fault addr 3 else pure tt
    links.read_hook (absolute_from_reladdr map.devid (physical map addr))
    high ← device_read links dev (physical map addr)
    rest ← device_read links dev ((physical map addr + 1) % 2 ^ 64)
    pure (bit_or (shl32 high 8) rest)

  unfoldable pub cpu_write8 : ℕ → ℕ → M (Sys Machine) (Unit {0})
  unfolding find_map find_device do_fault device_write
  cpu_write8 addr val = do
    map ← find_map addr
    dev ← find_device addr map.devid
    m ← get_machine
    if m.system_running && not (test_bit map.flags map_writable) then do_fault addr 1 else pure tt
    device_write links dev (physical map addr) val
    links.write_hook (absolute_from_reladdr map.devid (physical map addr)) val

  unfoldable pub to_absolute : ℕ → M (Sys Machine) ℕ
  unfolding find_map find_device
  to_absolute cpuaddr = do
    map ← find_map cpuaddr
    dev ← find_device cpuaddr map.devid
    pure (absolute_from_reladdr map.devid (physical map cpuaddr))

  -- The upper bits of an absolute address select the device, unchecked.
  unfoldable pub abs_read8 : ℕ → M (Sys Machine) ℕ
  unfolding device_read
  abs_read8 addr = device_read links (low (shr addr 28) 32) (low addr 28)

  unfoldable pub abs_write8 : ℕ → ℕ → M (Sys Machine) (Unit {0})
  unfolding device_write
  abs_write8 addr val = device_write links (low (shr addr 28) 32) (low addr 28) val

  -- `device_attach`; past 32 devices the table overflows.
  unfoldable pub device_attach : HwClass → ℕ → List ℕ → M (Sys Machine) ℕ
  unfolding device_reset
  device_attach class_ptr size priv = do
    m ← get_machine
    if leb max_bus_devices (device_count m) then (λ s. undefined) else (do
      on_machine λ m. record m {
        device_table =
            m.device_table ++ record { class_ptr = class_ptr; size = size; priv = priv } ∷ [];
      }
      device_reset links (device_count m)
      pure (device_count m))

abbrev cpu_is_running : M (Sys Machine) (Unit {0})
cpu_is_running = on_machine λ m. record m { system_running = true }
