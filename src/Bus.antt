-- ===== src/Bus.antt =====
-- The bus maps (machine.c, `bus_map` and `bus_unmap`; machine.h, `struct bus_map`): which device and
-- which part of it each 128-byte unit of the address space shows.
pub mod Maps
pub mod Unmap
use exec.Base.{
  ℕ, zero, suc, ◌+◌, ◌-◌, ◌*◌, ◌/◌, ◌%◌, ◌^◌, Option, none, some, List, get_elem?, set,
  if◌then◌else◌,
}
use exec.Base.Word.{test_bit}

pub record BusMap : Type 0 where
  pub devid : ℕ
  pub offset : ℕ
  pub flags : ℕ

abbrev pub bus_map_size : ℕ
bus_map_size = 128

abbrev pub num_bus_maps : ℕ
num_bus_maps = 512

-- MAP_FIXED is bit 2 of the flags, MAP_WRITABLE bit 1 and MAP_READABLE bit 0.
abbrev pub map_fixed : ℕ
map_fixed = 2

abbrev pub map_writable : ℕ
map_writable = 1

abbrev pub map_readable : ℕ
map_readable = 0

-- `((x + BUS_MAP_SIZE - 1) / BUS_MAP_SIZE) * BUS_MAP_SIZE`, at a width of 32 or 64 bits.
abbrev pub round_up : ℕ → ℕ → ℕ
round_up width x = (x + 127) % 2 ^ width / 128 * 128

-- The body of the loop of `bus_map`.
abbrev pub remap : BusMap → ℕ → ℕ → ℕ → BusMap
remap map devid offset flags =
    if test_bit map.flags map_fixed
    then map
    else record { devid = devid; offset = offset; flags = flags }

-- The loop, with `count` rounds left; `none` is an access outside `busmaps`.
unfoldable pub bus_map_loop : ℕ → ℕ → ℕ → ℕ → ℕ → List BusMap → Option (List BusMap)
bus_map_loop zero start devid offset flags maps = some maps
bus_map_loop (suc count) start devid offset flags maps = elim (get_elem? maps start) [
  | none ↦ none
  | some map ↦
      bus_map_loop count (start + 1) devid ((offset + 128) % 2 ^ 64) flags
        (set maps start (remap map devid offset flags))
]

-- `bus_map (addr, devid, offset, len, flags)`; the flags are stored in an `unsigned char`.
unfoldable pub bus_map : ℕ → ℕ → ℕ → ℕ → ℕ → List BusMap → Option (List BusMap)
bus_map addr devid offset len flags maps =
    bus_map_loop (round_up 32 len / 128) (round_up 32 addr / 128) devid (round_up 64 offset)
      (flags % 256) maps

-- The `memcpy` of `bus_unmap`, map by map.
unfoldable pub restore_loop : ℕ → ℕ → List BusMap → List BusMap → Option (List BusMap)
restore_loop zero start defaults maps = some maps
restore_loop (suc count) start defaults maps = elim (get_elem? maps start) [
  | none ↦ none
  | some _ ↦ elim (get_elem? defaults start) [
    | none ↦ none
    | some map ↦ restore_loop count (start + 1) defaults (set maps start map)
  ]
]

unfoldable pub bus_unmap : ℕ → ℕ → List BusMap → List BusMap → Option (List BusMap)
bus_unmap addr len defaults maps =
    restore_loop (round_up 32 len / 128) (round_up 32 addr / 128) defaults maps
