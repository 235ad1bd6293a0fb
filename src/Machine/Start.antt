-- ===== src/Machine/Start.antt =====
-- What `machine_init` leaves for the simple machine (machine.c; eon.c, `simple_init`).
use exec.Base.{
  ℕ, ◌/◌, ◌*◌, ◌≢◌, ◌<◌, ◌≡◌, refl, arith, ap, ◌∙◌, List, [], ◌∷◌, get_elem?, length-map,
  length-replicate, get_elem?-replicate, replicate, map, some,
}
use mathlib.Core.Option
use exec.Base.Run.{done, go_on}
use exec.Bus.{BusMap, bus_map}
use exec.Bus.Maps.{IsMapped, mapped, bus_map-IsMapped}
use exec.Core.Board.{Sys}
use exec.Machine.{device_attach}
use exec.Machine.Device.{
  HwDevice, Machine, Links, null_class, ram_class, console_class, device_reset, ram_reset,
}
use exec.Machine.Simple.{
  device_define, invalid_map, null_create, ram_create, console_create, simple_init,
  machine_init_simple,
}
use exec.Machine.Plain.{IsPlain, Served, plain_map}

abbrev with_table : List HwDevice → Sys Machine → Sys Machine
with_table table s = record s { env = record (s.env) { device_table = table } }

abbrev with_maps : List BusMap → Sys Machine → Sys Machine
with_maps maps s = record s { env = record (s.env) { busmaps = maps } }

abbrev with_defaults : List BusMap → Sys Machine → Sys Machine
with_defaults maps s = record s { env = record (s.env) { default_busmaps = maps } }

abbrev null_dev : HwDevice
null_dev = record { class_ptr = null_class; size = 0; priv = [] }

abbrev ram_dev : ℕ → List ℕ → HwDevice
ram_dev size bytes = record { class_ptr = ram_class; size = size; priv = bytes }

abbrev console_dev : HwDevice
console_dev = record { class_ptr = console_class; size = 128; priv = [] }

device_define-bus_map :
    (dev offset addr len flags : ℕ) (s : Sys Machine) (maps : List BusMap)
    → bus_map addr dev offset len flags s.env.busmaps ≡ some maps
    → device_define dev offset addr len flags s ≡ done tt (with_maps maps s)
unfolding device_define
device_define-bus_map dev offset addr len flags s maps e = rw e refl

module _ (links : Links) where
  attach_null :
      (s : Sys Machine)
      → s.env.device_table ≡ []
      → null_create links s ≡ done 0 (with_table (null_dev ∷ []) s)
  unfolding null_create device_attach device_reset
  attach_null s h = rw h refl

  attach_ram :
      (size : ℕ) (bytes : List ℕ) (s : Sys Machine)
      → s.env.device_table ≡ null_dev ∷ []
      → device_attach links ram_class size bytes s
        ≡ done 1 (with_table (null_dev ∷ ram_dev size (map (λ b. 0) bytes) ∷ []) s)
  unfolding device_attach device_reset ram_reset
  attach_ram size bytes s h = rw h refl

  attach_console :
      (ram : HwDevice) (s : Sys Machine)
      → s.env.device_table ≡ null_dev ∷ ram ∷ []
      → console_create links s ≡ done 2 (with_table (null_dev ∷ ram ∷ console_dev ∷ []) s)
  unfolding console_create device_attach device_reset
  attach_console ram s h = rw h refl

-- The RAM after its reset, and the devices in the order of their creation.
abbrev simple_ram : HwDevice
simple_ram = ram_dev 65536 (map {A = ℕ} (λ b. 0) (replicate 65536 0))

abbrev filled : List HwDevice
filled = null_dev ∷ simple_ram ∷ console_dev ∷ []

unit_map :
    (i : ℕ)
    → i < 512
    → i ≢ 510
    → mapped 1 510 2 0 3 i (mapped 512 0 1 0 3 i invalid_map)
      ≡ record { devid = 1; offset = i * 128; flags = 3 }
unit_map i lt ne = ground arith

-- A unit below the console's, or above it, of the two maps one after the other.
shown :
    (addr : ℕ) (m1 m2 : List BusMap)
    → Served addr
    → IsMapped 512 0 1 0 3 (replicate 512 invalid_map) m1
    → IsMapped 1 510 2 0 3 m1 m2
    → get_elem? m2 (addr / 128) ≡ some (plain_map addr)
shown addr m1 m2 at first second =
    second.unit (addr / 128)
    ∙ ap (Option.map (mapped 1 510 2 0 3 (addr / 128))) (
        first.unit (addr / 128)
        ∙ ap (Option.map (mapped 512 0 1 0 3 (addr / 128)))
            (get_elem?-replicate 512 (addr / 128) invalid_map (omega arith)))
    ∙ ap some (unit_map (addr / 128) (omega arith) (λ e. omega arith))

module _ (links : Links) where
  simple_init-maps :
      (s : Sys Machine) (m1 m2 : List BusMap)
      → s.env.device_table ≡ null_dev ∷ []
      → bus_map 0 1 0 65536 3 s.env.busmaps ≡ some m1
      → bus_map 0xff00 2 0 128 3 m1 ≡ some m2
      → simple_init links s ≡ done tt (with_maps m2 (with_table filled s))
  unfolding simple_init ram_create
  simple_init-maps s m1 m2 h e1 e2 = go_on _ _ (attach_ram links 65536 (replicate 65536 0) s h) (
      go_on _ _ (device_define-bus_map 1 0 0 65536 3 _ m1 e1) (
        go_on _ (λ dev. device_define dev 0 0xff00 128 3)
          (attach_console links simple_ram
            (with_maps m1 (with_table (null_dev ∷ simple_ram ∷ []) s)) refl)
          (device_define-bus_map 2 0 0xff00 128 3 _ m2 e2)))

  machine_init_simple-maps :
      (s : Sys Machine) (m1 m2 : List BusMap)
      → s.env.device_table ≡ []
      → bus_map 0 1 0 65536 3 (replicate 512 invalid_map) ≡ some m1
      → bus_map 0xff00 2 0 128 3 m1 ≡ some m2
      → machine_init_simple links s
        ≡ done tt (with_defaults m2 (with_maps m2 (with_table filled s)))
  unfolding machine_init_simple
  machine_init_simple-maps s m1 m2 h e1 e2 =
      go_on _ _ (attach_null links s h) (go_on _ _ (simple_init-maps _ m1 m2 refl e1 e2) refl)

  -- With no device attached yet: `machine_init` for the simple machine returns, changes nothing of
  -- the processor, and leaves a machine whose device 1 is 64 KB of RAM that the bus maps show from
  -- 0 on, readable and writable, but for the unit at 0xff00.
  pub machine_init_simple-IsPlain :
      (s : Sys Machine)
      → s.env.device_table ≡ []
      → (s' : Sys Machine) × (machine_init_simple links s ≡ done tt s')
        × (s'.cpu ≡ s.cpu)
        × IsPlain s'.env
  machine_init_simple-IsPlain s h =
      let (m1, e1, first) =
        bus_map-IsMapped 0 1 0 65536 3 (replicate 512 invalid_map) (omega arith) (omega arith) in
      let (m2, e2, second) =
        bus_map-IsMapped 0xff00 2 0 128 3 m1 (omega (arith, first.same_length)) (omega arith) in
      (
        _,
        machine_init_simple-maps s m1 m2 h e1 e2,
        refl,
        record {
          ram = simple_ram;
          here = refl;
          is_ram = refl;
          size =
              length-map {A = ℕ} {B = ℕ} (replicate 65536 0) (λ b. 0)
              ∙ length-replicate {A = ℕ} 65536 0;
          maps = λ addr at. shown addr m1 m2 at first second;
        },
      )
