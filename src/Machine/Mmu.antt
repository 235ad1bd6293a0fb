-- ===== src/Machine/Mmu.antt =====
-- The MMU of EON (machine.c, `mmu_read`, `mmu_write` and `mmu_reset_complete`).
use exec.Base.{
  ℕ, ◌+◌, ◌*◌, ◌/◌, ◌%◌, ◌<◌, ◌≡◌, refl, subst, false, arith, ap, ◌∙◌, some, get_elem?, set, length,
  get_elem?-set_self, List, ◌==◌,
}
use exec.Base.Word.{low}
use exec.Base.Run.{done, go_on}
use exec.Bus.{BusMap, round_up, bus_map}
use exec.Bus.Maps.{IsMapped, bus_map-IsMapped}
use exec.Core.Board.{Sys}
use exec.Machine.Device.{Machine, mmu_reg, mmu_map, mmu_read, mmu_write, must}

-- The page of an MMU address.
abbrev pub page_of : ℕ → ℕ
page_of addr = addr / 4 % 16

-- The registers after a write.
abbrev pub written : ℕ → ℕ → Machine → List ℕ
written addr val m = set m.mmu_regs (mmu_reg addr) val

page_maps :
    (addr devid offset flags : ℕ) (maps out : List BusMap)
    → offset < 256
    → IsMapped
        (round_up 32 4096 / 128)
        (round_up 32 (page_of addr * 4096) / 128)
        devid
        (round_up 64 (offset * 4096))
        (low flags 2 % 256)
        maps
        out
    → IsMapped 32 (page_of addr * 32) devid (offset * 4096) (flags % 4) maps out
page_maps addr devid offset flags maps out off m =
    let first_unit : round_up 32 (page_of addr * 4096) / 128 ≡ page_of addr * 32 = omega arith in
    let start : round_up 64 (offset * 4096) ≡ offset * 4096 = omega arith in
    let permission : low flags 2 % 256 ≡ flags % 4 = omega arith in
    subst (λ n. IsMapped 32 n devid (offset * 4096) (flags % 4) maps out) first_unit
      (subst
        (λ n. IsMapped 32 (round_up 32 (page_of addr * 4096) / 128) devid n (flags % 4) maps out)
        start
        (subst
          (λ n.
            IsMapped 32 (round_up 32 (page_of addr * 4096) / 128) devid
              (round_up 64 (offset * 4096)) n maps out)
          permission m))

described_maps :
    (page devid offset flags : ℕ) (m : Machine) (out : List BusMap)
    → get_elem? m.mmu_regs (page * 4) ≡ some devid
    → get_elem? m.mmu_regs (page * 4 + 1) ≡ some offset
    → get_elem? m.mmu_regs (page * 4 + 2) ≡ some flags
    → bus_map (page * 4096) devid (offset * 4096) 4096 (low flags 2) m.busmaps ≡ some out
    → mmu_map page m ≡ some out
unfolding mmu_map
described_maps page devid offset flags m out d o f ran =
    rw (d, mmu_map) (rw (o, mmu_map) (rw (f, mmu_map) ran))

read_back :
    (addr val : ℕ) (s : Sys Machine) (regs : List ℕ)
    → addr < 0x60
    → length regs ≡ 64
    → s.env.mmu_regs ≡ set regs (mmu_reg addr) val
    → mmu_read addr s ≡ done val s
unfolding mmu_read
read_back addr val s regs lt size e =
    let self : get_elem? s.env.mmu_regs (mmu_reg addr) ≡ some val =
      ap (λ r. get_elem? r (mmu_reg addr)) e
      ∙ get_elem?-set_self regs (mmu_reg addr) val (omega arith) in
    let first_no : (addr == 0x60) ≡ false = ground arith in
    let second_no : (addr == 0x61) ≡ false = ground arith in
    let third_no : (addr == 0x62) ≡ false = ground arith in
    rw (first_no, second_no, third_no, self) refl

-- With 512 bus maps and 64 MMU registers: a write to a register of a page, at an address below
-- 0x60, returns, reads back, and maps the 32 units of the page to the device, the 4 KB unit and
-- the permissions that the page's three registers then hold, but for fixed units.
pub mmu_write-IsMapped :
    (addr val devid offset flags : ℕ) (s : Sys Machine)
    → addr < 0x60
    → length s.env.busmaps ≡ 512
    → length s.env.mmu_regs ≡ 64
    → offset < 256
    → get_elem? (written addr val s.env) (page_of addr * 4) ≡ some devid
    → get_elem? (written addr val s.env) (page_of addr * 4 + 1) ≡ some offset
    → get_elem? (written addr val s.env) (page_of addr * 4 + 2) ≡ some flags
    → (s' : Sys Machine) × (mmu_write addr val s ≡ done tt s')
      × (mmu_read addr s' ≡ done val s')
      × IsMapped 32
          (page_of addr * 32)
          devid
          (offset * 4096)
          (flags % 4)
          s.env.busmaps
          s'.env.busmaps
unfolding mmu_write
mmu_write-IsMapped addr val devid offset flags s lt maps regs off d o f =
    let (out, ran, m) =
      bus_map-IsMapped (page_of addr * 4096) devid (offset * 4096) 4096 (low flags 2) s.env.busmaps
        (omega arith) (omega arith) in
    let described : mmu_map (page_of addr) (record (s.env) { mmu_regs = written addr val s.env })
        ≡ some out =
      described_maps (page_of addr) devid offset flags
        (record (s.env) { mmu_regs = written addr val s.env }) out d o f ran in
    let entered : Sys Machine = record {
      cpu = s.cpu;
      env = record (s.env) { mmu_regs = written addr val s.env };
    } in
    let s' : Sys Machine = record {
      cpu = s.cpu;
      env = record (s.env) { mmu_regs = written addr val s.env; busmaps = out };
    } in
    (
      s',
      go_on _ _ (ap (λ o. must o entered) described) refl,
      read_back addr val s' s.env.mmu_regs lt regs refl,
      page_maps addr devid offset flags s.env.busmaps out off m,
    )
