-- ===== src/Devices/SmallMmu.antt =====
-- The small MMU (mmu.c): it shows the 4 KB pages of one device in the 16 slots of the address space.
pub mod Slot
pub mod Reset
use exec.Base.{
  ℕ, zero, suc, ◌+◌, ◌*◌, ◌%◌, Option, none, some, List, get_elem?, set, ltb, ◌==◌, if◌then◌else◌,
}
use mathlib.Core.Option
use exec.Base.Word.{low}
use exec.Bus.{BusMap, bus_map}

-- `slot_regs[slot][0]` and `slot_regs[slot][1]` are the page and the flags of a slot; `realdev` is
-- the number of the device.
pub record SmallMmu : Type 0 where
  pub realdev : ℕ
  pub global_regs : List ℕ
  pub slot_pages : List ℕ
  pub slot_flags : List ℕ

-- The MMU and the bus maps. `none` is an access outside the tables.
abbrev pub State : Type 0
State = SmallMmu × List BusMap

infixl 5 ◌>>=◌
abbrev pub ◌>>=◌ : {A B : Type 0} → Option A → (A → Option B) → Option B
none >>= f = none
some a >>= f = f a

-- The page and the flags of the slot are mapped; `unit` is the size that a page number counts in.
unfoldable pub map_slot : ℕ → ℕ → State → Option State
unfolding bus_map
map_slot unit slot (mmu, maps) = do
  page ← get_elem? mmu.slot_pages slot
  flags ← get_elem? mmu.slot_flags slot
  maps' ← bus_map (slot * 4096) mmu.realdev (page * unit) 4096 (low flags 2) maps
  some (mmu, maps')

-- The page number is not multiplied by the size of a page here.
unfoldable pub small_mmu_update_slot : ℕ → State → Option State
unfolding map_slot
small_mmu_update_slot slot s = map_slot 1 slot s

unfoldable pub small_mmu_update_current : State → Option State
unfolding small_mmu_update_slot
small_mmu_update_current s = do slot ← get_elem? s.0.global_regs 0; small_mmu_update_slot slot s

-- The loop of `small_mmu_update_all`, with `count` slots left.
unfoldable pub update_loop : ℕ → ℕ → State → Option State
unfolding small_mmu_update_slot
update_loop zero slot s = some s
update_loop (suc count) slot s = small_mmu_update_slot slot s >>= update_loop count (slot + 1)

unfoldable pub small_mmu_update_all : State → Option State
unfolding update_loop
small_mmu_update_all = update_loop 16 0

unfoldable pub small_mmu_read : ℕ → SmallMmu → Option ℕ
small_mmu_read addr mmu = if ltb addr 6 then get_elem? mmu.global_regs addr else (do
  slot ← get_elem? mmu.global_regs 0
  if addr == 6
      then get_elem? mmu.slot_pages slot
      else if addr == 7
      then get_elem? mmu.slot_flags slot
      else none)

-- A write outside the table is undefined.
abbrev pub set_at : List ℕ → ℕ → ℕ → Option (List ℕ)
set_at regs i val = Option.map (λ _. set regs i val) (get_elem? regs i)

unfoldable pub small_mmu_write : ℕ → ℕ → State → Option State
unfolding map_slot
small_mmu_write addr val (mmu, maps) =
    if ltb addr 6
    then (do regs ← set_at mmu.global_regs addr val; some (record mmu { global_regs = regs }, maps))
    else (do
      slot ← get_elem? mmu.global_regs 0
      if addr == 6
          then (do
            pages ← set_at mmu.slot_pages slot val
            map_slot 4096 slot (record mmu { slot_pages = pages }, maps))
          else if addr == 7
          then (do
            flags ← set_at mmu.slot_flags slot val
            map_slot 4096 slot (record mmu { slot_flags = flags }, maps))
          else none)

-- The body of the loop of `small_mmu_reset`; 3 is MAP_READWRITE.
unfoldable pub reset_page : ℕ → State → Option State
unfolding small_mmu_write
reset_page page s = do
  s1 ← small_mmu_write 0 page s
  s2 ← small_mmu_write 6 page s1
  small_mmu_write 7 3 s2

-- The loop, with `count` pages left.
unfoldable pub reset_loop : ℕ → ℕ → State → Option State
unfolding reset_page
reset_loop zero page s = some s
reset_loop (suc count) page s = reset_page page s >>= reset_loop count (page + 1)

unfoldable pub small_mmu_reset : State → Option State
unfolding reset_loop
small_mmu_reset = reset_loop 16 0
