-- ===== src/Machine/Faults.antt =====
-- Accesses that are not served (machine.c, `find_map`, `find_device`, `cpu_read8` and `cpu_write8`).
use exec.Base.{
  ℕ, ◌/◌, ◌<◌, ◌≤◌, ◌≡◌, ◌≢◌, refl, arith, ap, ◌∙◌, Bool, true, false, some, get_elem?, length,
  if◌then◌else◌, ◌==◌, ◌&&◌, not, get_elem?-none, get_elem?-some,
}
use exec.Base.Word.{low, test_bit}
use exec.Base.Run.{M, done, undefined, go_on, pure}
use exec.Bus.{BusMap}
use exec.Core.Board.{Sys}
use exec.Machine.Device.{
  HwDevice, Machine, Links, rom_class, null_class, class_read, class_write, device_read,
  device_write, ram_write,
}
use exec.Machine.Ram.{found, IsQuiet, stored}
use exec.Machine.{do_fault, find_map, find_device, physical, cpu_read8, cpu_write8}

-- A fault is reported to the machine while the system runs.
reported :
    (running : Bool) (act : M (Sys Machine) (Unit {0})) (s : Sys Machine)
    → running ≡ true
    → (if running then act else pure tt) s ≡ act s
reported running act s e = rw e refl

refused :
    (running flag : Bool) (act : M (Sys Machine) (Unit {0})) (s s' : Sys Machine)
    → running ≡ true
    → flag ≡ false
    → act s ≡ done tt s'
    → (if running && not flag then act else pure tt) s ≡ done tt s'
refused running flag act s s' e off h = rw (e, off) h

null_read :
    (links : Links) (addr : ℕ) (s : Sys Machine) (dev : HwDevice)
    → get_elem? s.env.device_table 0 ≡ some dev
    → dev.class_ptr ≡ null_class
    → device_read links 0 addr s ≡ done 0xff s
null_read links addr s dev null is_null =
    unfold device_read in rw null (ap (λ c. class_read links c 0 dev addr s) is_null)

-- With 512 bus maps, a read at an address of 65536 or more is outside the table, which is
-- undefined.
pub cpu_read8_outside :
    (links : Links) (addr : ℕ) (s : Sys Machine)
    → length s.env.busmaps ≡ 512
    → 65536 ≤ addr
    → cpu_read8 links addr s ≡ undefined
cpu_read8_outside links addr s l out =
    unfold cpu_read8 find_map in rw (get_elem?-none s.env.busmaps (addr / 128) (omega arith)) refl

-- Before the system runs, with no watchpoint active and the null device in its place: a read
-- through a map of no device gives 0xff and changes nothing.
pub cpu_read8_unmapped :
    (links : Links) (quiet : IsQuiet links) (addr : ℕ) (s : Sys Machine) (map : BusMap)
    (dev : HwDevice)
    → get_elem? s.env.busmaps (addr / 128) ≡ some map
    → (low map.devid 8 == 0xff) ≡ true
    → s.env.system_running ≡ false
    → get_elem? s.env.device_table 0 ≡ some dev
    → dev.class_ptr ≡ null_class
    → cpu_read8 links addr s ≡ done 0xff s
cpu_read8_unmapped links quiet addr s map dev here no_device still null is_null =
    unfold cpu_read8 find_map find_device do_fault in
    rw (here, no_device, still)
      (go_on _ _ (quiet.reads _ _) (null_read links (physical map addr) _ dev null is_null))

-- The map shows a byte of ROM, for reading only.
pub record IsRom (m : Machine) (addr id phys : ℕ) (dev : HwDevice) (map : BusMap) : Type 0 where
  pub mapped : get_elem? m.busmaps (addr / 128) ≡ some map
  pub devid_same : low map.devid 8 ≡ id
  pub valid : id ≢ 0xff
  pub here : get_elem? m.device_table id ≡ some dev
  pub is_rom : dev.class_ptr ≡ rom_class
  pub at : physical map addr ≡ phys
  pub fits : phys < length dev.priv
  pub not_writable : test_bit map.flags 1 ≡ false

-- While the system runs, with no watchpoint active and a fault handler that returns and leaves the
-- device as it was: a write to a byte of ROM through a map that is not writable calls the handler
-- with the address and the type 1, and then stores the byte in the state that the handler has
-- left, with no other change.
pub cpu_write8_rom :
    (links : Links) (quiet : IsQuiet links) (addr id phys val : ℕ) (s s' : Sys Machine)
    (dev : HwDevice) (map : BusMap)
    → IsRom s.env addr id phys dev map
    → s.env.system_running ≡ true
    → links.fault addr 1 s ≡ done tt s'
    → get_elem? s'.env.device_table id ≡ some dev
    → cpu_write8 links addr val s
      ≡ done tt (record { cpu = s'.cpu; env = stored id dev phys val s'.env })
cpu_write8_rom links quiet addr id phys val s s' dev map r running faults kept =
    let (old, byte) = get_elem?-some dev.priv phys r.fits in
    unfold cpu_write8 find_map in
    rw (r.mapped, found links s addr id dev map r.devid_same r.valid r.here)
      (go_on _ _
        (refused s.env.system_running (test_bit map.flags 1) (do_fault links addr 1) s s' running
          r.not_writable
          ((unfold do_fault in reported s.env.system_running (links.fault addr 1) s running)
            ∙ faults))
        (go_on _ _ (ap (λ (n : ℕ). device_write links id n val s') r.at ∙ written old byte)
          (quiet.writes _ val _)))
  where
    written :
        (old : ℕ)
        → get_elem? dev.priv phys ≡ some old
        → device_write links id phys val s'
          ≡ done tt (record { cpu = s'.cpu; env = stored id dev phys val s'.env })
    written old byte =
        unfold device_write in
        rw kept (
          ap (λ c. class_write links c id dev phys val s') r.is_rom
          ∙ (unfold ram_write in rw byte refl))
