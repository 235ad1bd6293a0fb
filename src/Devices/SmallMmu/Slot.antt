-- ===== src/Devices/SmallMmu/Slot.antt =====
-- What a write to the small MMU maps (mmu.c, `small_mmu_write`).
use exec.Base.{
  ℕ, ◌*◌, ◌/◌, ◌%◌, ◌<◌, ◌≡◌, refl, subst, arith, some, List, length, get_elem?, set,
  get_elem?-some, get_elem?-set_self,
}
use exec.Base.Word.{low}
use exec.Bus.{BusMap, round_up}
use exec.Bus.Maps.{IsMapped, bus_map-IsMapped}
use exec.Devices.SmallMmu.{SmallMmu, map_slot, small_mmu_write, small_mmu_read, set_at}

-- The tables have their sizes; the current slot is one of the 16.
pub record IsMmu (mmu : SmallMmu) (slot : ℕ) : Type 0 where
  pub globals : length mmu.global_regs ≡ 8
  pub pages : length mmu.slot_pages ≡ 16
  pub flags : length mmu.slot_flags ≡ 16
  pub current : get_elem? mmu.global_regs 0 ≡ some slot
  pub in_range : slot < 16

slot_maps :
    (slot devid page flags : ℕ) (maps out : List BusMap)
    → slot < 16
    → page < 256
    → IsMapped
        (round_up 32 4096 / 128)
        (round_up 32 (slot * 4096) / 128)
        devid
        (round_up 64 (page * 4096))
        (low flags 2 % 256)
        maps
        out
    → IsMapped 32 (slot * 32) devid (page * 4096) (flags % 4) maps out
slot_maps slot devid page flags maps out at off m =
    let first_unit : round_up 32 (slot * 4096) / 128 ≡ slot * 32 = omega arith in
    let start : round_up 64 (page * 4096) ≡ page * 4096 = omega arith in
    let permission : low flags 2 % 256 ≡ flags % 4 = omega arith in
    subst (λ n. IsMapped 32 n devid (page * 4096) (flags % 4) maps out) first_unit
      (subst (λ n. IsMapped 32 (round_up 32 (slot * 4096) / 128) devid n (flags % 4) maps out) start
        (subst
          (λ n.
            IsMapped 32 (round_up 32 (slot * 4096) / 128) devid (round_up 64 (page * 4096)) n maps
              out)
          permission m))

pub map_slot-IsMapped :
    (slot page flags : ℕ) (mmu : SmallMmu) (maps : List BusMap)
    → slot < 16
    → page < 256
    → length maps ≡ 512
    → get_elem? mmu.slot_pages slot ≡ some page
    → get_elem? mmu.slot_flags slot ≡ some flags
    → (out : List BusMap) × (map_slot 4096 slot (mmu, maps) ≡ some (mmu, out))
      × IsMapped 32 (slot * 32) mmu.realdev (page * 4096) (flags % 4) maps out
unfolding map_slot
map_slot-IsMapped slot page flags mmu maps at off size p f =
    let (out, ran, m) =
      bus_map-IsMapped (slot * 4096) mmu.realdev (page * 4096) 4096 (low flags 2) maps (omega arith)
        (omega arith) in
    (
      out,
      rw (p, map_slot) (rw (f, map_slot) (rw (ran, map_slot) refl)),
      slot_maps slot mmu.realdev page flags maps out at off m,
    )

pub set_at-some :
    (regs : List ℕ) (i val : ℕ) → i < length regs → set_at regs i val ≡ some (set regs i val)
set_at-some regs i val lt = let (old, here) = get_elem?-some regs i lt in rw here refl

module _ (mmu : SmallMmu) (maps : List BusMap) (slot val : ℕ) (m : IsMmu mmu slot)
    (size : length maps ≡ 512) where
  abbrev pub with_page : SmallMmu
  with_page = record mmu { slot_pages = set mmu.slot_pages slot val }

  abbrev pub with_flags : SmallMmu
  with_flags = record mmu { slot_flags = set mmu.slot_flags slot val }

  pub write_page-IsMapped :
      (flags : ℕ)
      → val < 256
      → get_elem? mmu.slot_flags slot ≡ some flags
      → (out : List BusMap) × (small_mmu_write 6 val (mmu, maps) ≡ some (with_page, out))
        × IsMapped 32 (slot * 32) mmu.realdev (val * 4096) (flags % 4) maps out
  unfolding small_mmu_write
  write_page-IsMapped flags off f =
      let at : slot < length mmu.slot_pages = omega (arith, m.pages, m.in_range) in
      let (out, ran, mapped) =
        map_slot-IsMapped slot val flags with_page maps m.in_range off size
          (get_elem?-set_self mmu.slot_pages slot val at) f in
      (out, rw m.current (rw (set_at-some mmu.slot_pages slot val at) ran), mapped)

  pub write_flags-IsMapped :
      (page : ℕ)
      → page < 256
      → get_elem? mmu.slot_pages slot ≡ some page
      → (out : List BusMap) × (small_mmu_write 7 val (mmu, maps) ≡ some (with_flags, out))
        × IsMapped 32 (slot * 32) mmu.realdev (page * 4096) (val % 4) maps out
  unfolding small_mmu_write
  write_flags-IsMapped page off p =
      let at : slot < length mmu.slot_flags = omega (arith, m.flags, m.in_range) in
      let (out, ran, mapped) =
        map_slot-IsMapped slot page val with_flags maps m.in_range off size p
          (get_elem?-set_self mmu.slot_flags slot val at) in
      (out, rw m.current (rw (set_at-some mmu.slot_flags slot val at) ran), mapped)

  pub small_mmu_write-IsMapped :
      (page flags : ℕ)
      → page < 256
      → val < 256
      → get_elem? mmu.slot_pages slot ≡ some page
      → get_elem? mmu.slot_flags slot ≡ some flags
      → ((out : List BusMap) × (small_mmu_write 6 val (mmu, maps) ≡ some (with_page, out))
          × (small_mmu_read 6 with_page ≡ some val)
          × IsMapped 32 (slot * 32) mmu.realdev (val * 4096) (flags % 4) maps out)
        × ((out : List BusMap) × (small_mmu_write 7 val (mmu, maps) ≡ some (with_flags, out))
            × (small_mmu_read 7 with_flags ≡ some val)
            × IsMapped 32 (slot * 32) mmu.realdev (page * 4096) (val % 4) maps out)
  unfolding small_mmu_read
  small_mmu_write-IsMapped page flags off off' p f =
      let (out, ran, mapped) = write_page-IsMapped flags off' f in
      let (out', ran', mapped') = write_flags-IsMapped page off p in
      (
        (
          out,
          ran,
          rw m.current
              (get_elem?-set_self mmu.slot_pages slot val (omega (arith, m.pages, m.in_range))),
          mapped,
        ),
        (
          out',
          ran',
          rw m.current
              (get_elem?-set_self mmu.slot_flags slot val (omega (arith, m.flags, m.in_range))),
          mapped',
        ),
      )
