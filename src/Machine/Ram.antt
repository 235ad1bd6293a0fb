-- ===== src/Machine/Ram.antt =====
-- RAM behind the bus maps (machine.c, `cpu_read8`, `cpu_read16` and `cpu_write8`).
use exec.Base.{
  ◌%◌, ◌^◌, ◌+◌, bit_or, ℕ, ◌/◌, ◌<◌, ◌≡◌, ◌≢◌, refl, arith, ap, ◌∙◌, Bool, true, false, some,
  get_elem?, set, length, if◌then◌else◌, ◌==◌, ◌&&◌, not, get_elem?-lt, get_elem?-some, List,
  get_elem?-set_self, get_elem?-set_ne, length-set,
}
use native.Mathlib.Decide.{ℕ_discrete}
use exec.Base.Word.{shl32, low, test_bit}
use exec.Base.Run.{M, done, go_on, pure}
use exec.Bus.{BusMap}
use exec.Core.Board.{Sys}
use exec.Machine.Device.{
  HwDevice, Machine, Links, ram_class, class_read, class_write, device_read, device_write, ram_read,
  ram_write,
}
use exec.Machine.{cpu_read16, physical, do_fault, find_map, find_device, cpu_read8, cpu_write8}

-- The address `addr` shows the byte `phys` of the RAM `dev`, device `id`, for reading and writing.
pub record IsRam (m : Machine) (addr id phys : ℕ) (dev : HwDevice) (map : BusMap) : Type 0 where
  pub mapped : get_elem? m.busmaps (addr / 128) ≡ some map
  pub devid_same : low map.devid 8 ≡ id
  pub valid : id ≢ 0xff
  pub here : get_elem? m.device_table id ≡ some dev
  pub is_ram : dev.class_ptr ≡ ram_class
  pub at : physical map addr ≡ phys
  pub fits : phys < length dev.priv
  pub readable : test_bit map.flags 0 ≡ true
  pub writable : test_bit map.flags 1 ≡ true

-- No watchpoint is active.
pub record IsQuiet (links : Links) : Type 0 where
  pub reads : (a : ℕ) (s : Sys Machine) → links.read_hook a s ≡ done tt s
  pub writes : (a v : ℕ) (s : Sys Machine) → links.write_hook a v s ≡ done tt s

-- The machine with one byte of a device's memory stored.
abbrev pub stored : ℕ → HwDevice → ℕ → ℕ → Machine → Machine
stored id dev phys val m = record m {
  device_table = set m.device_table id (record dev { priv = set dev.priv phys val });
}

-- A number in range names its device.
pub found :
    (links : Links) (s : Sys Machine) (addr id : ℕ) (dev : HwDevice) (map : BusMap)
    → low map.devid 8 ≡ id
    → id ≢ 0xff
    → get_elem? s.env.device_table id ≡ some dev
    → find_device links addr map.devid s ≡ done id s
unfolding find_device
found links s addr id dev map same valid here =
    ground (arith, same, valid, get_elem?-lt s.env.device_table id dev here)

-- The fault of an access that is allowed.
allowed :
    (running flag : Bool) (act : M (Sys Machine) (Unit {0})) (s : Sys Machine)
    → flag ≡ true
    → (if running && not flag then act else pure tt) s ≡ done tt s
allowed true flag act s e = rw e refl
allowed false flag act s e = refl

pub byte_after :
    (bytes : List ℕ) (phys val q b : ℕ)
    → phys < length bytes
    → get_elem? bytes q ≡ some b
    → get_elem? (set bytes phys val) q ≡ some (if phys == q then val else b)
byte_after bytes phys val q b fits byte = elim (ℕ_discrete phys q) [
  | yes same ↦ ground (arith, get_elem?-set_self bytes phys val fits)
  | no ne ↦ get_elem?-set_ne bytes val ne ∙ byte ∙ ground arith
]

module _ (links : Links) (quiet : IsQuiet links) where
  device_read_ram :
      (s : Sys Machine) (id phys b : ℕ) (dev : HwDevice)
      → get_elem? s.env.device_table id ≡ some dev
      → dev.class_ptr ≡ ram_class
      → get_elem? dev.priv phys ≡ some b
      → device_read links id phys s ≡ done b s
  device_read_ram s id phys b dev here is_ram byte =
      unfold device_read in
      rw here
        (ap (λ c. class_read links c id dev phys s) is_ram ∙ (unfold ram_read in rw byte refl))

  device_write_ram :
      (s : Sys Machine) (id phys val : ℕ) (dev : HwDevice)
      → get_elem? s.env.device_table id ≡ some dev
      → dev.class_ptr ≡ ram_class
      → phys < length dev.priv
      → device_write links id phys val s
        ≡ done tt (record { cpu = s.cpu; env = stored id dev phys val s.env })
  device_write_ram s id phys val dev here is_ram fits =
      let (old, byte) = get_elem?-some dev.priv phys fits in
      unfold device_write in
      rw here (
        ap (λ c. class_write links c id dev phys val s) is_ram ∙ (unfold ram_write in rw byte refl))

  pub cpu_read8_ram :
      (s : Sys Machine) (addr id phys b : ℕ) (dev : HwDevice) (map : BusMap)
      → IsRam s.env addr id phys dev map
      → get_elem? dev.priv phys ≡ some b
      → cpu_read8 links addr s ≡ done b s
  cpu_read8_ram s addr id phys b dev map r byte =
      unfold cpu_read8 find_map in
      rw (r.mapped, found links s addr id dev map r.devid_same r.valid r.here)
        (go_on _ _ (allowed s.env.system_running (test_bit map.flags 0) _ s r.readable) (
          go_on _ _ (quiet.reads _ s) (
            ap (λ (n : ℕ). device_read links id n s) r.at
            ∙ device_read_ram s id phys b dev r.here r.is_ram byte)))

  pub cpu_write8_ram :
      (s : Sys Machine) (addr id phys val : ℕ) (dev : HwDevice) (map : BusMap)
      → IsRam s.env addr id phys dev map
      → cpu_write8 links addr val s
        ≡ done tt (record { cpu = s.cpu; env = stored id dev phys val s.env })
  cpu_write8_ram s addr id phys val dev map r =
      unfold cpu_write8 find_map do_fault in
      rw (r.mapped, found links s addr id dev map r.devid_same r.valid r.here)
        (go_on _ _ (allowed s.env.system_running (test_bit map.flags 1) _ s r.writable) (
          go_on _ _
            (ap (λ (n : ℕ). device_write links id n val s) r.at
              ∙ device_write_ram s id phys val dev r.here r.is_ram r.fits)
            (quiet.writes _ val _)))

  pub cpu_read16_ram :
      (s : Sys Machine) (addr id phys high rest : ℕ) (dev : HwDevice) (map : BusMap)
      → IsRam s.env addr id phys dev map
      → phys < 2 ^ 32
      → get_elem? dev.priv phys ≡ some high
      → get_elem? dev.priv (phys + 1) ≡ some rest
      → cpu_read16 links addr s ≡ done (bit_or (shl32 high 8) rest) s
  cpu_read16_ram s addr id phys high rest dev map r small byte byte' =
      let next : (physical map addr + 1) % 2 ^ 64 ≡ phys + 1 = omega (arith, r.at) in
      unfold cpu_read16 find_map in
      rw (r.mapped, found links s addr id dev map r.devid_same r.valid r.here)
        (go_on _ _ (allowed s.env.system_running (test_bit map.flags 0) _ s r.readable) (
          go_on _ _ (quiet.reads _ s) (
            go_on _ _
              (ap (λ (n : ℕ). device_read links id n s) r.at
                ∙ device_read_ram s id phys high dev r.here r.is_ram byte)
              (go_on _ _
                (ap (λ (n : ℕ). device_read links id n s) next
                  ∙ device_read_ram s id (phys + 1) rest dev r.here r.is_ram byte')
                refl))))

  -- The same RAM after the write, at any address that shows it.
  IsRam-stored :
      (m : Machine) (id phys val : ℕ) (dev : HwDevice) (at q : ℕ) (map : BusMap)
      → get_elem? m.device_table id ≡ some dev
      → IsRam m at id q dev map
      → IsRam (stored id dev phys val m) at id q (record dev { priv = set dev.priv phys val }) map
  IsRam-stored m id phys val dev at q map here r = record {
    mapped = r.mapped;
    devid_same = r.devid_same;
    valid = r.valid;
    here = get_elem?-set_self m.device_table id _ (get_elem?-lt m.device_table id dev here);
    is_ram = r.is_ram;
    at = r.at;
    fits = omega (arith, r.fits, length-set dev.priv phys val);
    readable = r.readable;
    writable = r.writable;
  }

  -- With no watchpoint active, and two addresses that show bytes of one RAM device through
  -- readable and writable maps: a write through the first returns, and a read through the second
  -- then gives the value written if both show the same byte, and the old byte otherwise.
  pub cpu_read8-cpu_write8 :
      (s : Sys Machine) (addr at id phys q val b : ℕ) (dev : HwDevice) (map map' : BusMap)
      → IsRam s.env addr id phys dev map
      → IsRam s.env at id q dev map'
      → get_elem? dev.priv q ≡ some b
      → (s' : Sys Machine) × (cpu_write8 links addr val s ≡ done tt s')
        × (cpu_read8 links at s' ≡ done (if phys == q then val else b) s')
  cpu_read8-cpu_write8 s addr at id phys q val b dev map map' r r' byte = (
    _,
    cpu_write8_ram s addr id phys val dev map r,
    cpu_read8_ram _ at id q _ _ map' (IsRam-stored s.env id phys val dev at q map' r.here r')
        (byte_after dev.priv phys val q b r.fits byte),
  )
