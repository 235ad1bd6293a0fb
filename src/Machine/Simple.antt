-- ===== src/Machine/Simple.antt =====
-- The simple machine as `machine_init` sets it up (machine.c, `device_define`, `ram_create`,
-- `null_create`, `console_create` and `machine_init`; eon.c, `simple_init`).
use exec.Base.{ℕ, [], replicate}
use exec.Base.Run.{M, ◌>>=◌, ◌>>◌}
use exec.Bus.{BusMap, bus_map, bus_map_size, num_bus_maps}
use exec.Core.Board.{Sys}
use exec.Machine.{device_attach}
use exec.Machine.Device.{
  Machine, Links, null_class, ram_class, console_class, get_machine, on_machine, must,
}

-- `device_define (dev, offset, addr, len, flags)`, the device by its number.
unfoldable pub device_define : ℕ → ℕ → ℕ → ℕ → ℕ → M (Sys Machine) (Unit {0})
unfolding bus_map
device_define dev offset addr len flags = do
  m ← get_machine
  maps ← must (bus_map addr dev offset len flags m.busmaps)
  on_machine λ m. record m { busmaps = maps }

abbrev pub max_cpu_addr : ℕ
max_cpu_addr = 65536

-- The map of no device.
abbrev pub invalid_map : BusMap
invalid_map = record { devid = 0xff; offset = 0; flags = 0 }

module _ (links : Links) where
  unfoldable pub null_create : M (Sys Machine) ℕ
  unfolding device_attach
  null_create = device_attach links null_class 0 []

  -- The bytes that `malloc` gives are arbitrary; the reset of `device_attach` clears them.
  unfoldable pub ram_create : ℕ → M (Sys Machine) ℕ
  unfolding device_attach
  ram_create size = device_attach links ram_class size (replicate size 0)

  unfoldable pub console_create : M (Sys Machine) ℕ
  unfolding device_attach
  console_create = device_attach links console_class bus_map_size []

  -- The RAM everywhere, and then the console's unit over it.
  unfoldable pub simple_init : M (Sys Machine) (Unit {0})
  unfolding ram_create console_create device_define
  simple_init = do
    ram ← ram_create max_cpu_addr
    device_define ram 0 0x0000 max_cpu_addr 3
    console ← console_create
    device_define console 0 0xff00 bus_map_size 3

  -- `machine_init ("simple", ...)`.
  unfoldable pub machine_init_simple : M (Sys Machine) (Unit {0})
  unfolding null_create simple_init
  machine_init_simple = do
    null ← null_create
    on_machine λ m. record m { busmaps = replicate num_bus_maps invalid_map }
    simple_init
    on_machine λ m. record m { default_busmaps = m.busmaps }
