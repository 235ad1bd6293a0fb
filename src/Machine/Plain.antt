-- ===== src/Machine/Plain.antt =====
-- RAM as plain memory: the states whose device 1 is 64 KB of RAM, shown by the bus maps from 0 on
-- (machine.c, `cpu_read8`, `cpu_read16` and `cpu_write8`).
use exec.Base.{
  ℕ, ◌+◌, ◌*◌, ◌/◌, ◌<◌, ◌≤◌, ◌≡◌, ◌⊎◌, inl, inr, refl, sym, arith, ap, ◌∙◌, bit_or, some, none,
  List, get_elem?, get_or, set, get_elem?-set_self, subst, ◌∷◌, [], suc, zero, length, length-set,
  get_elem?-some, get_elem?-lt, if◌then◌else◌, ◌==◌,
}
use exec.Base.Word.{shl32}
use exec.Base.Run.{done}
use exec.Bus.{BusMap}
use exec.Core.Board.{Sys, Board}
use exec.Core.Flat.{IsFlat}
use exec.Machine.Device.{HwDevice, Machine, Links, ram_class}
use exec.Machine.Fetch.{bus_board}
use exec.Machine.Ram.{
  IsRam, IsQuiet, stored, cpu_read8_ram, cpu_read16_ram, cpu_write8_ram, byte_after,
}

-- The map of the unit that holds an address.
abbrev pub plain_map : ℕ → BusMap
plain_map addr = record { devid = 1; offset = addr / 128 * 128; flags = 3 }

-- The console's unit at 0xff00 is left open.
abbrev pub Served : ℕ → Type 0
Served addr = (addr < 0xff00) ⊎ ((0xff80 ≤ addr) × (addr < 0x10000))

pub record IsPlain (m : Machine) : Type 0 where
  pub ram : HwDevice
  pub here : get_elem? m.device_table 1 ≡ some ram
  pub is_ram : ram.class_ptr ≡ ram_class
  pub size : length ram.priv ≡ 65536
  pub maps : (addr : ℕ) → Served addr → get_elem? m.busmaps (addr / 128) ≡ some (plain_map addr)

-- The byte of the RAM, and the machine with one stored.
abbrev pub ram_byte : Machine → ℕ → ℕ
ram_byte m addr = elim (get_elem? m.device_table 1) [ none ↦ 0 | some dev ↦ get_or dev.priv addr 0 ]

abbrev pub store_ram : ℕ → ℕ → Machine → Machine
store_ram addr val m = elim (get_elem? m.device_table 1) [
  | none ↦ m
  | some dev ↦ stored 1 dev addr val m
]

abbrev pub ram_word : Machine → ℕ → ℕ
ram_word m addr = bit_or (shl32 (ram_byte m addr) 8) (ram_byte m (addr + 1))

Served-range : (addr : ℕ) → Served addr → addr < 65536
Served-range addr at = omega arith

plain-IsRam :
    (m : Machine) (p : IsPlain m) (addr : ℕ)
    → Served addr
    → IsRam m addr 1 addr p.ram (plain_map addr)
plain-IsRam m p addr at = record {
  mapped = p.maps addr at;
  devid_same = refl;
  valid = λ e. omega arith;
  here = p.here;
  is_ram = p.is_ram;
  at = omega (arith, Served-range addr at);
  fits = omega (arith, p.size, Served-range addr at);
  readable = refl;
  writable = refl;
}

get_or-some : (bytes : List ℕ) (i b : ℕ) → get_elem? bytes i ≡ some b → get_or bytes i 0 ≡ b
get_or-some [] i b e = ground (arith, e)
get_or-some (x ∷ bytes) zero b e = ground (arith, e)
get_or-some (x ∷ bytes) (suc i) b e = get_or-some bytes i b e

ram_byte-priv :
    (m : Machine) (p : IsPlain m) (addr : ℕ) → ram_byte m addr ≡ get_or p.ram.priv addr 0
ram_byte-priv m p addr = rw (ram_byte, p.here) refl

store_ram-stored :
    (m : Machine) (p : IsPlain m) (addr val : ℕ) → store_ram addr val m ≡ stored 1 p.ram addr val m
store_ram-stored m p addr val = rw (store_ram, p.here) refl

get_elem?-ram_byte :
    (m : Machine) (p : IsPlain m) (addr : ℕ)
    → addr < 65536
    → get_elem? p.ram.priv addr ≡ some (ram_byte m addr)
get_elem?-ram_byte m p addr lt =
    let (b, e) = get_elem?-some p.ram.priv addr (omega (arith, p.size)) in
    e ∙ ap some (sym (ram_byte-priv m p addr ∙ get_or-some p.ram.priv addr b e))

abbrev stored-IsPlain :
    (m : Machine) (p : IsPlain m) (addr val : ℕ) → IsPlain (stored 1 p.ram addr val m)
stored-IsPlain m p addr val = record {
  ram = record (p.ram) { priv = set p.ram.priv addr val };
  here = get_elem?-set_self m.device_table 1 _ (get_elem?-lt m.device_table 1 p.ram p.here);
  is_ram = p.is_ram;
  size = length-set p.ram.priv addr val ∙ p.size;
  maps = p.maps;
}

store_ram-IsPlain : (addr val : ℕ) (m : Machine) → IsPlain m → IsPlain (store_ram addr val m)
store_ram-IsPlain addr val m p =
    subst IsPlain (sym (store_ram-stored m p addr val)) (stored-IsPlain m p addr val)

ram_byte-store_ram :
    (addr val at : ℕ) (m : Machine)
    → IsPlain m
    → addr < 65536
    → at < 65536
    → ram_byte (store_ram addr val m) at ≡ (if addr == at then val else ram_byte m at)
ram_byte-store_ram addr val at m p lt lt' =
    let q = stored-IsPlain m p addr val in
    ap (λ (n : Machine). ram_byte n at) (store_ram-stored m p addr val)
    ∙ ram_byte-priv (stored 1 p.ram addr val m) q at
    ∙ get_or-some _ at _ (
        byte_after p.ram.priv addr val at (ram_byte m at) (omega (arith, p.size))
          (get_elem?-ram_byte m p at lt'))

-- Hooks that leave the simulated machine alone: no monitor is running.
pub record IsSilent (hooks : Board Machine) : Type 0 where
  pub returns : (s : Sys Machine) → hooks.monitor_return s ≡ done tt s
  pub calls : (k : ℕ) (s : Sys Machine) → hooks.monitor_call k s ≡ done tt s
  pub counts : (k : ℕ) (s : Sys Machine) → hooks.exit_irq_hook k s ≡ done tt s

module _ (links : Links) (quiet : IsQuiet links) (hooks : Board Machine)
    (silent : IsSilent hooks) where
  -- With no watchpoint active and no monitor running: the accesses of `cpu_read8`, `cpu_read16`
  -- and `cpu_write8` through the bus maps serve the processor, in every state whose device 1 is 64
  -- KB of RAM that the maps show from 0 on, but for the unit at 0xff00, as the flat memory that
  -- the theorems on the stack and on interrupts take: a byte written is read back, no other byte
  -- changes, and the state stays such a state.
  pub bus_board-IsFlat : IsFlat (bus_board links hooks) IsPlain ram_byte store_ram 0xff00
  bus_board-IsFlat = record {
    top_range = omega arith;
    read = λ addr s p lt.
        cpu_read8_ram links quiet s addr 1 addr _ p.ram (plain_map addr)
          (plain-IsRam s.env p addr (inl lt)) (get_elem?-ram_byte s.env p addr (omega arith));
    write = λ addr val s p lt.
        cpu_write8_ram links quiet s addr 1 addr val p.ram (plain_map addr)
          (plain-IsRam s.env p addr (inl lt))
        ∙ ap (λ (m : Machine). done tt (record s { env = m }))
            (sym (store_ram-stored s.env p addr val));
    peek-poke =
        λ addr val at m p lt lt'. ram_byte-store_ram addr val at m p (omega arith) (omega arith);
    poke-Ok = λ addr val m p lt. store_ram-IsPlain addr val m p;
    on_return = λ m. m;
    returns = silent.returns;
    peek-on_return = λ m at. refl;
    on_return-Ok = λ m p. p;
    on_call = λ k m. m;
    calls = silent.calls;
    peek-on_call = λ k m at. refl;
    on_call-Ok = λ k m p. p;
    on_rti = λ k m. m;
    counts = silent.counts;
    peek-on_rti = λ k m at. refl;
    on_rti-Ok = λ k m p. p;
    word_at = ram_word;
    read_word = λ addr s p from to.
        cpu_read16_ram links quiet s addr 1 addr _ _ p.ram (plain_map addr)
          (plain-IsRam s.env p addr (inr (omega arith, omega arith))) (omega arith)
          (get_elem?-ram_byte s.env p addr (omega arith))
          (get_elem?-ram_byte s.env p (addr + 1) (omega arith));
  }
