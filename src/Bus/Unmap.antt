-- ===== src/Bus/Unmap.antt =====
-- `bus_unmap` against its description, and as the inverse of `bus_map`.
use exec.Base.{
  ℕ, zero, suc, ◌+◌, ◌/◌, ◌%◌, ◌^◌, ◌≤◌, ◌<◌, ◌≡◌, refl, sym, arith, ap, ◌∙◌, Option, none, some,
  List, length, get_elem?, set, leb, ltb, ◌&&◌, if◌then◌else◌, length-set, get_elem?-set_self,
  get_elem?-set_ne, get_elem?-some, get_elem?_ext,
}
use mathlib.Core.Option
use native.Mathlib.Decide.{ℕ_discrete}
use exec.Bus.{BusMap, round_up, bus_map, bus_unmap, restore_loop}
use exec.Bus.Maps.{mapped, bus_map-IsMapped}

-- `out` is `maps` with `count` units from `start` taken from `defaults`.
pub record IsRestored (count start : ℕ) (defaults maps out : List BusMap) : Type 0 where
  pub same_length : length out ≡ length maps
  pub unit :
      (i : ℕ)
      → get_elem? out i
        ≡ (if leb start i && ltb i (start + count) then get_elem? defaults i else get_elem? maps i)

IsRestored-suc :
    (count start : ℕ) (defaults maps out : List BusMap) (map : BusMap)
    → start < length maps
    → get_elem? defaults start ≡ some map
    → IsRestored count (start + 1) defaults (set maps start map) out
    → IsRestored (suc count) start defaults maps out
IsRestored-suc count start defaults maps out map lt e rest = record {
  same_length = rest.same_length ∙ length-set maps start map;
  unit = λ i. elim (ℕ_discrete start i) [
    | yes same ↦ ground (arith, rest.unit start, get_elem?-set_self maps start map lt)
    | no ne ↦ ground (arith, rest.unit i, get_elem?-set_ne maps map ne)
  ];
}

restore_loop-suc :
    (count start : ℕ) (defaults maps : List BusMap) (old map : BusMap)
    → get_elem? maps start ≡ some old
    → get_elem? defaults start ≡ some map
    → restore_loop (suc count) start defaults maps
      ≡ restore_loop count (start + 1) defaults (set maps start map)
unfolding restore_loop
restore_loop-suc count start defaults maps old map here e =
    rw (here, restore_loop) (rw (e, restore_loop))

restore_loop-IsRestored :
    (count start : ℕ) (defaults maps : List BusMap)
    → start + count ≤ length maps
    → length defaults ≡ length maps
    → (out : List BusMap) × (restore_loop count start defaults maps ≡ some out)
      × IsRestored count start defaults maps out
unfolding restore_loop
restore_loop-IsRestored zero start defaults maps h l =
    (maps, refl, record { same_length = refl; unit = λ i. ground arith })
restore_loop-IsRestored (suc count) start defaults maps h l =
    let (old, here) = get_elem?-some maps start (omega arith) in
    let (map, e) = get_elem?-some defaults start (omega arith) in
    let (out, ran, rest) =
      restore_loop-IsRestored count (start + 1) defaults (set maps start map)
        (rw length-set (omega arith)) (l ∙ sym (length-set maps start map)) in
    (
      out,
      restore_loop-suc count start defaults maps old map here e ∙ ran,
      IsRestored-suc count start defaults maps out map (omega arith) e rest,
    )

-- When the rounded range fits the table, and the default table is as long: `bus_unmap` succeeds,
-- and puts the default maps back over the rounded range, fixed or not, and nowhere else.
pub bus_unmap-IsRestored :
    (addr len : ℕ) (defaults maps : List BusMap)
    → round_up 32 addr / 128 + round_up 32 len / 128 ≤ length maps
    → length defaults ≡ length maps
    → (out : List BusMap) × (bus_unmap addr len defaults maps ≡ some out)
      × IsRestored (round_up 32 len / 128) (round_up 32 addr / 128) defaults maps out
unfolding bus_unmap
bus_unmap-IsRestored addr len defaults maps h l =
    restore_loop-IsRestored (round_up 32 len / 128) (round_up 32 addr / 128) defaults maps h l

mapped_restored :
    (count start devid offset flags i : ℕ) (o : Option BusMap)
    → (if leb start i && ltb i (start + count)
        then o
        else Option.map (mapped count start devid offset flags i) o)
      ≡ o
mapped_restored count start devid offset flags i none = ground arith
mapped_restored count start devid offset flags i (some map) = ground arith

-- When the rounded range fits the default table and the rounded offset does not wrap: mapping the
-- range over the default table and unmapping it again gives the default table.
pub bus_unmap-bus_map :
    (addr devid offset len flags : ℕ) (defaults : List BusMap)
    → round_up 32 addr / 128 + round_up 32 len / 128 ≤ length defaults
    → round_up 64 offset + round_up 32 len < 2 ^ 64
    → (mid : List BusMap) × (bus_map addr devid offset len flags defaults ≡ some mid)
      × (bus_unmap addr len defaults mid ≡ some defaults)
bus_unmap-bus_map addr devid offset len flags defaults h o =
    let (mid, mapping, m) = bus_map-IsMapped addr devid offset len flags defaults h o in
    let (out, unmapping, r) =
      bus_unmap-IsRestored addr len defaults mid (rw m.same_length h) (sym m.same_length) in
    (
      mid,
      mapping,
      unmapping
          ∙ ap some (
              get_elem?_ext out defaults (r.same_length ∙ m.same_length) λ i.
                r.unit i
                ∙ rw (m.unit i) (
                    mapped_restored (round_up 32 len / 128) (round_up 32 addr / 128) devid
                      (round_up 64 offset) (flags % 256) i (get_elem? defaults i))),
    )
