-- ===== src/Devices/SmallMmu/Reset.antt =====
-- The reset of the small MMU (mmu.c, `small_mmu_reset`).
use exec.Base.{
  ℕ, zero, suc, ◌+◌, ◌*◌, ◌%◌, ◌<◌, ◌≡◌, refl, subst, arith, ap, ◌∙◌, Bool, true, false, Option,
  none, some, List, length, get_elem?, set, get_elem?-some, get_elem?-none, get_elem?-set_self,
  length-set, ltb, if◌then◌else◌, Option-cases, Bool-cases, ltb→lt, inl, inr,
}
use exec.Base.Word.{test_bit}
use exec.Bus.{BusMap}
use exec.Bus.Maps.{IsMapped, mapped}
use exec.Devices.SmallMmu.{
  SmallMmu, State, small_mmu_write, reset_page, reset_loop, small_mmu_reset, ◌>>=◌,
}
use exec.Devices.SmallMmu.Slot.{
  IsMmu, set_at-some, write_page-IsMapped, write_flags-IsMapped, with_page, with_flags,
}

abbrev pub linear : ℕ → ℕ → BusMap
linear dev i = record { devid = dev; offset = i * 128; flags = 3 }

abbrev pub fixed_at : Option BusMap → Bool
fixed_at none = false
fixed_at (some map) = test_bit map.flags 2

-- No unit is fixed.
abbrev pub NoneFixed : List BusMap → Type 0
NoneFixed maps = (i : ℕ) → fixed_at (get_elem? maps i) ≡ false

pub record IsSized (s : State) : Type 0 where
  pub globals : length s.0.global_regs ≡ 8
  pub pages : length s.0.slot_pages ≡ 16
  pub flags : length s.0.slot_flags ≡ 16
  pub units : length s.1 ≡ 512

-- The first pages are shown in their order.
record IsLinear (page : ℕ) (s : State) : Type 0 where
  sized : IsSized s
  loose : NoneFixed s.1
  shown : (i : ℕ) → ltb i (page * 32) ≡ true → get_elem? s.1 i ≡ some (linear s.0.realdev i)

-- A mapping fixes nothing.
IsMapped-NoneFixed :
    (count start dev offset flags : ℕ) (maps out : List BusMap)
    → IsMapped count start dev offset (flags % 4) maps out
    → NoneFixed maps
    → NoneFixed out
IsMapped-NoneFixed count start dev offset flags maps out m loose i =
    elim (Option-cases (get_elem? maps i)) [
      | inl absent ↦ ground (arith, m.unit i, absent)
      | inr (old, here) ↦ ground (arith, m.unit i, here, loose i)
    ]

current_page :
    (page : ℕ) (s : State)
    → IsSized s
    → small_mmu_write 0 page s
      ≡ some (record (s.0) { global_regs = set s.0.global_regs 0 page }, s.1)
unfolding small_mmu_write
current_page page s z = rw (set_at-some s.0.global_regs 0 page (omega (arith, z.globals))) refl

next_unit :
    (page dev i : ℕ) (old : BusMap)
    → ltb i (page * 32) ≡ false
    → ltb i ((page + 1) * 32) ≡ true
    → test_bit old.flags 2 ≡ false
    → mapped 32 (page * 32) dev (page * 4096) 3 i old ≡ linear dev i
next_unit page dev i old above below loose = ground arith

earlier_unit :
    (page dev i : ℕ) (old : BusMap) (flags : ℕ)
    → ltb i (page * 32) ≡ true
    → mapped 32 (page * 32) dev (page * 4096) flags i old ≡ old
earlier_unit page dev i old flags before = ground arith

and_then :
    {A B : Type 0} (o : Option A) (f : A → Option B) {a : A} {r : Option B}
    → o ≡ some a
    → f a ≡ r
    → (o >>= f) ≡ r
and_then o f e h = ap (λ o. o >>= f) e ∙ h

shown_after :
    (page flags dev : ℕ) (maps maps2 maps3 : List BusMap)
    → page < 16
    → length maps ≡ 512
    → IsMapped 32 (page * 32) dev (page * 4096) (flags % 4) maps maps2
    → IsMapped 32 (page * 32) dev (page * 4096) (3 % 4) maps2 maps3
    → ((i : ℕ) → ltb i (page * 32) ≡ true → get_elem? maps i ≡ some (linear dev i))
    → NoneFixed maps2
    → (i : ℕ) → ltb i ((page + 1) * 32) ≡ true
    → get_elem? maps3 i ≡ some (linear dev i)
shown_after page flags dev maps maps2 maps3 lt size m2 m3 before loose2 i below =
    elim (Bool-cases (ltb i (page * 32))) [
      | inl earlier ↦ ground (
        arith,
        m3.unit i,
        m2.unit i,
        before i earlier,
        earlier_unit page dev i (linear dev i) (flags % 4) earlier,
        earlier_unit page dev i (linear dev i) 3 earlier,
      )
      | inr here ↦
          let (old, e) = get_elem?-some maps2 i (omega (arith, ltb→lt i _ below, m2.same_length)) in
          ground (arith, m3.unit i, e, next_unit page dev i old here below, loose2 i)
    ]

reset_page-IsLinear :
    (page : ℕ) (s : State)
    → page < 16
    → IsLinear page s
    → (s' : State) × (reset_page page s ≡ some s')
      × IsLinear (page + 1) s'
      × (s'.0.realdev ≡ s.0.realdev)
unfolding reset_page
reset_page-IsLinear page (mmu, maps) lt r =
    let z = r.sized in
    let mmu1 : SmallMmu = record mmu { global_regs = set mmu.global_regs 0 page } in
    let (flags, f) = get_elem?-some mmu.slot_flags page (omega (arith, z.flags)) in
    let one : IsMmu mmu1 page = record {
      globals = length-set mmu.global_regs 0 page ∙ z.globals;
      pages = z.pages;
      flags = z.flags;
      current = get_elem?-set_self mmu.global_regs 0 page (omega (arith, z.globals));
      in_range = lt;
    } in
    let (maps2, ran2, m2) =
      write_page-IsMapped mmu1 maps page page one z.units flags (omega arith) f in
    let mmu2 = with_page mmu1 maps page page one z.units in
    let two : IsMmu mmu2 page = record {
      globals = one.globals;
      pages = length-set mmu.slot_pages page page ∙ z.pages;
      flags = z.flags;
      current = one.current;
      in_range = lt;
    } in
    let units2 : length maps2 ≡ 512 = m2.same_length ∙ z.units in
    let (maps3, ran3, m3) =
      write_flags-IsMapped mmu2 maps2 page 3 two units2 page (omega arith)
        (get_elem?-set_self mmu.slot_pages page page (omega (arith, z.pages))) in
    let loose2 =
      IsMapped-NoneFixed 32 (page * 32) mmu.realdev (page * 4096) flags maps maps2 m2 r.loose in
    (
      (with_flags mmu2 maps2 page 3 two units2, maps3),
      and_then _ _ (current_page page (mmu, maps) z) (and_then _ _ ran2 ran3),
      record {
        sized = record {
          globals = two.globals;
          pages = two.pages;
          flags = length-set mmu.slot_flags page 3 ∙ z.flags;
          units = m3.same_length ∙ units2;
        };
        loose = IsMapped-NoneFixed 32 (page * 32) mmu.realdev (page * 4096) 3 maps2 maps3 m3 loose2;
        shown = λ i below.
            shown_after page flags mmu.realdev maps maps2 maps3 lt z.units m2 m3 r.shown loose2 i
              below;
      },
      refl,
    )

reset_loop-IsLinear :
    (count page : ℕ) (s : State)
    → count + page ≡ 16
    → IsLinear page s
    → (s' : State) × (reset_loop count page s ≡ some s')
      × IsLinear 16 s'
      × (s'.0.realdev ≡ s.0.realdev)
unfolding reset_loop
reset_loop-IsLinear zero page s e r =
    (s, refl, subst (λ n. IsLinear n s) (omega (arith, e)) r, refl)
reset_loop-IsLinear (suc count) page s e r =
    let (s1, ran, r1, same) = reset_page-IsLinear page s (omega arith) r in
    let (s2, rest, r2, same') = reset_loop-IsLinear count (page + 1) s1 (omega arith) r1 in
    (s2, and_then _ _ ran rest, r2, same' ∙ same)

-- With tables of their sizes, 512 bus maps and no fixed one: `small_mmu_reset` succeeds, and the
-- bus maps then show the device behind the MMU from its start over the whole address space,
-- readable and writable.
pub small_mmu_reset-linear :
    (s : State)
    → IsSized s
    → NoneFixed s.1
    → (s' : State) × (small_mmu_reset s ≡ some s')
      × ((i : ℕ) → get_elem? s'.1 i ≡ (if ltb i 512 then some (linear s.0.realdev i) else none))
unfolding small_mmu_reset
small_mmu_reset-linear s z loose =
    let start : IsLinear 0 s = record {
      sized = z;
      loose = loose;
      shown = λ i h. ground (arith, h);
    } in
    let (s', ran, r, same) = reset_loop-IsLinear 16 0 s (omega arith) start in
    (
      s',
      ran,
      λ i. elim (Bool-cases (ltb i 512)) [
        | inl inside ↦
            rw inside (r.shown i (ground (arith, inside)) ∙ ap (λ (n : ℕ). some (linear n i)) same)
        | inr outside ↦ rw outside (get_elem?-none s'.1 i (ground (arith, outside, r.sized.units)))
      ],
    )
