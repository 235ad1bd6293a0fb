-- ===== src/Bus/Maps.antt =====
-- `bus_map` against its description unit by unit.
use exec.Base.{
  ℕ, zero, suc, ◌+◌, ◌-◌, ◌*◌, ◌/◌, ◌%◌, ◌^◌, ◌≤◌, ◌<◌, ◌≡◌, ◌≢◌, refl, arith, ap, ◌∙◌, Option,
  none, some, List, length, get_elem?, set, leb, ltb, ◌&&◌, not, if◌then◌else◌, length-set,
  get_elem?-set_self, get_elem?-set_ne, get_elem?-some, sym, subst,
}
use mathlib.Core.Option
use native.Mathlib.Decide.{ℕ_discrete}
use exec.Base.Word.{test_bit}
use exec.Bus.{BusMap, remap, round_up, bus_map, bus_map_loop}

-- What a unit `i` holds after mapping `count` units from `start`.
abbrev pub mapped : ℕ → ℕ → ℕ → ℕ → ℕ → ℕ → BusMap → BusMap
mapped count start devid offset flags i map =
    if leb start i && ltb i (start + count) && not (test_bit map.flags 2)
    then record { devid = devid; offset = offset + (i - start) * 128; flags = flags }
    else map

-- `out` is the table after such a mapping of `maps`.
pub record IsMapped (count start devid offset flags : ℕ) (maps out : List BusMap) : Type 0 where
  pub same_length : length out ≡ length maps
  pub unit :
      (i : ℕ)
      → get_elem? out i ≡ Option.map (mapped count start devid offset flags i) (get_elem? maps i)

mapped_none :
    (start devid offset flags i : ℕ) (map : BusMap) → mapped 0 start devid offset flags i map ≡ map
mapped_none start devid offset flags i map = ground arith

map_none :
    (start devid offset flags i : ℕ) (o : Option BusMap)
    → o ≡ Option.map (mapped 0 start devid offset flags i) o
map_none start devid offset flags i none = refl
map_none start devid offset flags i (some map) =
    ap some (sym (mapped_none start devid offset flags i map))

-- One round of the loop, seen from the unit that it writes and from any other.
first_unit :
    (count start devid offset flags : ℕ) (map : BusMap)
    → mapped count (start + 1) devid (offset + 128) flags start (remap map devid offset flags)
      ≡ mapped (suc count) start devid offset flags start map
first_unit count start devid offset flags map = ground arith

later_unit :
    (count start devid offset flags i : ℕ) (map : BusMap)
    → start ≢ i
    → mapped count (start + 1) devid (offset + 128) flags i map
      ≡ mapped (suc count) start devid offset flags i map
later_unit count start devid offset flags i map ne = ground arith

map_cong :
    (f g : BusMap → BusMap) (o : Option BusMap)
    → ((m : BusMap) → f m ≡ g m)
    → Option.map f o ≡ Option.map g o
map_cong f g none h = refl
map_cong f g (some m) h = ap some (h m)

IsMapped-suc :
    (count start devid offset flags : ℕ) (maps out : List BusMap) (map : BusMap)
    → start < length maps
    → get_elem? maps start ≡ some map
    → IsMapped count
        (start + 1)
        devid
        (offset + 128)
        flags
        (set maps start (remap map devid offset flags))
        out
    → IsMapped (suc count) start devid offset flags maps out
IsMapped-suc count start devid offset flags maps out map lt e rest = record {
  same_length = rest.same_length ∙ length-set maps start (remap map devid offset flags);
  unit = λ i. elim (ℕ_discrete start i) [
    | yes same ↦
        subst
          (λ j.
            get_elem? out j
            ≡ Option.map (mapped (suc count) start devid offset flags j) (get_elem? maps j))
          same at_start
    | no ne ↦
        rest.unit i
        ∙ ap (Option.map (mapped count (start + 1) devid (offset + 128) flags i))
            (get_elem?-set_ne maps (remap map devid offset flags) ne)
        ∙ map_cong _ _ (get_elem? maps i) (λ m. later_unit count start devid offset flags i m ne)
  ];
}
  where
    at_start :
        get_elem? out start
        ≡ Option.map (mapped (suc count) start devid offset flags start) (get_elem? maps start)
    at_start =
        rest.unit start
        ∙ ap (Option.map (mapped count (start + 1) devid (offset + 128) flags start))
            (get_elem?-set_self maps start (remap map devid offset flags) lt)
        ∙ rw e (ap some (first_unit count start devid offset flags map))

bus_map_loop-suc :
    (count start devid offset flags : ℕ) (maps : List BusMap) (map : BusMap)
    → get_elem? maps start ≡ some map
    → offset + 128 < 2 ^ 64
    → bus_map_loop (suc count) start devid offset flags maps
      ≡ bus_map_loop count
          (start + 1)
          devid
          (offset + 128)
          flags
          (set maps start (remap map devid offset flags))
unfolding bus_map_loop
bus_map_loop-suc count start devid offset flags maps map e o =
    let no_wrap : (offset + 128) % 2 ^ 64 ≡ offset + 128 = omega arith in
    rw (e, no_wrap, bus_map_loop)

bus_map_loop-IsMapped :
    (count start devid offset flags : ℕ) (maps : List BusMap)
    → start + count ≤ length maps
    → offset + count * 128 < 2 ^ 64
    → (out : List BusMap) × (bus_map_loop count start devid offset flags maps ≡ some out)
      × IsMapped count start devid offset flags maps out
unfolding bus_map_loop
bus_map_loop-IsMapped zero start devid offset flags maps h o = (
  maps,
  refl,
  record { same_length = refl; unit = λ i. map_none start devid offset flags i (get_elem? maps i) },
)
bus_map_loop-IsMapped (suc count) start devid offset flags maps h o =
    let (map, e) = get_elem?-some maps start (omega arith) in
    let (out, ran, rest) =
      bus_map_loop-IsMapped count (start + 1) devid (offset + 128) flags
        (set maps start (remap map devid offset flags)) (rw length-set (omega arith))
        (omega arith) in
    (
      out,
      bus_map_loop-suc count start devid offset flags maps map e (omega arith) ∙ ran,
      IsMapped-suc count start devid offset flags maps out map (omega arith) e rest,
    )

-- When the rounded range fits the table and the rounded offset does not wrap: `bus_map` succeeds,
-- and the table then maps the units of the rounded range to the device, each 128 bytes after the
-- one before, but for fixed units, which keep their map, as does every unit outside the range.
pub bus_map-IsMapped :
    (addr devid offset len flags : ℕ) (maps : List BusMap)
    → round_up 32 addr / 128 + round_up 32 len / 128 ≤ length maps
    → round_up 64 offset + round_up 32 len < 2 ^ 64
    → (out : List BusMap) × (bus_map addr devid offset len flags maps ≡ some out)
      × IsMapped
          (round_up 32 len / 128)
          (round_up 32 addr / 128)
          devid
          (round_up 64 offset)
          (flags % 256)
          maps
          out
unfolding bus_map
bus_map-IsMapped addr devid offset len flags maps h o =
    bus_map_loop-IsMapped (round_up 32 len / 128) (round_up 32 addr / 128) devid
      (round_up 64 offset) (flags % 256) maps h (omega arith)
