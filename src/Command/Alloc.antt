-- ===== src/Command/Alloc.antt =====
-- Claiming and freeing an entry of the table (command.c, `brkalloc`, `brkfree`, `brkfree_temps`).
use exec.Base.{
  ℕ, zero, suc, ◌+◌, ◌≡◌, ◌≢◌, refl, arith, Bool, true, false, Option, none, some, List, [], ◌∷◌,
  get_elem?, if◌then◌else◌, ◌&&◌, ltb, leb, get_elem?-none, Bool-cases, inl, inr, ap, ◌⊎◌, ◌==◌,
  get_elem?-set_ne, get_elem?-set_self, get_elem?-lt, Option-cases, ◌∙◌,
}
use mathlib.Core.Option
use native.Mathlib.Decide.{ℕ_discrete, dec_lt}
use exec.Command.{
  Breakpoint, Breaks, max_breaks, brk_enable, claimed, first_unused, write_break, brkalloc, brkfree,
  brkfree_temps_loop, brkfree_temps,
}
use exec.Command.Table.{IsCounted, write_break-IsCounted, brk_enable-IsCounted, brkfree-IsCounted}

unfoldable pub all_used : List Breakpoint → Bool
all_used [] = true
all_used (br ∷ rest) = br.used && all_used rest

pub first_unused-get_elem? :
    (k n : ℕ) (tab : List Breakpoint)
    → first_unused k tab ≡ some n
    → (i : ℕ) × (br : Breakpoint) × (n ≡ k + i) × (get_elem? tab i ≡ some br) × (br.used ≡ false)
unfolding first_unused
first_unused-get_elem? k n [] e = cc
first_unused-get_elem? k n (x ∷ tab) e = elim (Bool-cases x.used) [
  | inl busy ↦
      let (i, br, at, here, free) = first_unused-get_elem? (k + 1) n tab (rw busy at e) in
      (suc i, br, omega arith, here, free)
  | inr free ↦ (0, x, ground arith, refl, free)
]

abbrev pub allocated : Breaks → ℕ → Breaks
allocated breaks n = brk_enable n true (write_break n claimed breaks)

abbrev clear_used : Breakpoint → Breakpoint
clear_used br = record br { used = false }

abbrev pub freed : Breakpoint → Breakpoint
freed br = record br { used = false; enabled = false }

-- What `brkfree_temps` leaves of an entry.
abbrev pub without_temp : Breakpoint → Breakpoint
without_temp br = if br.used && br.temp then record br { used = false; enabled = false } else br

pub brkalloc-first_unused :
    (breaks : Breaks) (n : ℕ)
    → first_unused 0 breaks.breaktab ≡ some n
    → brkalloc breaks ≡ some (n, allocated breaks n)
unfolding brkalloc brk_enable
brkalloc-first_unused breaks n found = rw (found, brkalloc) refl

pub write_break-entry :
    (breaks : Breaks) (n : ℕ) (f : Breakpoint → Breakpoint) (br : Breakpoint)
    → get_elem? breaks.breaktab n ≡ some br
    → get_elem? (write_break n f breaks).breaktab n ≡ some (f br)
unfolding write_break
write_break-entry breaks n f br here = ground (
  arith,
  here,
  get_elem?-set_self breaks.breaktab n (f br) (get_elem?-lt breaks.breaktab n br here),
)

first_unused-none :
    (k : ℕ) (tab : List Breakpoint) → first_unused k tab ≡ none → all_used tab ≡ true
unfolding first_unused all_used
first_unused-none k [] e = refl
first_unused-none k (x ∷ tab) e = ground (arith, first_unused-none (k + 1) tab)

allocated-IsCounted :
    (breaks : Breaks) (c : IsCounted breaks) (n : ℕ) (br : Breakpoint)
    → get_elem? breaks.breaktab n ≡ some br
    → br.used ≡ false
    → IsCounted (allocated breaks n)
allocated-IsCounted breaks c n br here free =
    brk_enable-IsCounted (write_break n claimed breaks)
      (write_break-IsCounted breaks c n claimed (λ br' e. (refl, ground arith))) n true
      (λ br' e. ground (arith, write_break-entry breaks n claimed br here, e))

write_break-elsewhere :
    (breaks : Breaks) (n i : ℕ) (f : Breakpoint → Breakpoint)
    → n ≢ i
    → get_elem? (write_break n f breaks).breaktab i ≡ get_elem? breaks.breaktab i
unfolding write_break
write_break-elsewhere breaks n i f ne = elim (Option-cases (get_elem? breaks.breaktab n)) [
  | inl absent ↦ ground (arith, absent)
  | inr (br, here) ↦ ground (arith, here, get_elem?-set_ne breaks.breaktab (f br) ne)
]

brk_enable-elsewhere :
    (breaks : Breaks) (n i : ℕ) (flag : Bool)
    → n ≢ i
    → get_elem? (brk_enable n flag breaks).breaktab i ≡ get_elem? breaks.breaktab i
unfolding brk_enable
brk_enable-elsewhere breaks n i flag ne = elim (Option-cases (get_elem? breaks.breaktab n)) [
  | inl absent ↦ ground (arith, absent)
  | inr (br, here) ↦
      ground (arith, here, get_elem?-set_ne breaks.breaktab (record br { enabled = flag }) ne)
]

pub brk_enable-entry :
    (breaks : Breaks) (n : ℕ) (flag : Bool) (br : Breakpoint)
    → get_elem? breaks.breaktab n ≡ some br
    → get_elem? (brk_enable n flag breaks).breaktab n ≡ some (record br { enabled = flag })
unfolding brk_enable
brk_enable-entry breaks n flag br here = ground (
  arith,
  here,
  get_elem?-set_self breaks.breaktab n (record br { enabled = flag })
      (get_elem?-lt breaks.breaktab n br here),
)

allocated-entry :
    (breaks : Breaks) (n i : ℕ) (br : Breakpoint)
    → get_elem? breaks.breaktab n ≡ some br
    → get_elem? (allocated breaks n).breaktab i ≡ (
        if i == n
        then some (record (claimed br) { enabled = true })
        else get_elem? breaks.breaktab i)
allocated-entry breaks n i br here = elim (ℕ_discrete n i) [
  | yes same ↦ ground (
    arith,
    brk_enable-entry (write_break n claimed breaks) n true (claimed br)
        (write_break-entry breaks n claimed br here),
  )
  | no ne ↦ ground (
    arith,
    brk_enable-elsewhere (write_break n claimed breaks) n i true ne,
    write_break-elsewhere breaks n i claimed ne,
  )
]

-- When the count of active breakpoints is that of the enabled entries among the 32 of the table,
-- and no unused one is enabled: if all entries are used `brkalloc` gives nothing; else it gives an
-- unused entry, which is then used and enabled, unconditional, not temporary, for every thread,
-- with no ignore count, set to stop the processor, and keeps its other fields, the address
-- included; the other entries do not change, and the count is again that of the enabled ones.
pub brkalloc_lem :
    (breaks : Breaks)
    → IsCounted breaks
    → ((all_used breaks.breaktab ≡ true) × (brkalloc breaks ≡ none))
      ⊎ ((n : ℕ) × (br : Breakpoint) × (after : Breaks) × (get_elem? breaks.breaktab n ≡ some br)
          × (br.used ≡ false)
          × (brkalloc breaks ≡ some (n, after))
          × ((i : ℕ)
              → get_elem? after.breaktab i ≡ (
                  if i == n
                  then some (record br {
                    used = true;
                    enabled = true;
                    conditional = false;
                    threaded = false;
                    keep_running = false;
                    ignore_count = 0;
                    temp = false;
                  })
                  else get_elem? breaks.breaktab i))
          × IsCounted after)
unfolding brkalloc
brkalloc_lem breaks c = elim (Option-cases (first_unused 0 breaks.breaktab)) [
  | inl full ↦ inl (first_unused-none 0 breaks.breaktab full, ground (arith, full))
  | inr (n, found) ↦
      let (i, br, at, here', free) = first_unused-get_elem? 0 n breaks.breaktab found in
      let same : n ≡ i = omega (arith, at) in
      let here : get_elem? breaks.breaktab n ≡ some br =
        ap (λ (k : ℕ). get_elem? breaks.breaktab k) same ∙ here' in
      inr (
        n,
        br,
        allocated breaks n,
        here,
        free,
        brkalloc-first_unused breaks n found,
        λ i. allocated-entry breaks n i br here,
        allocated-IsCounted breaks c n br here free,
      )
]

pub brkfree-entry :
    (breaks : Breaks) (n i : ℕ) (br : Breakpoint)
    → get_elem? breaks.breaktab n ≡ some br
    → get_elem? (brkfree n breaks).breaktab i
      ≡ (if i == n then some (freed br) else get_elem? breaks.breaktab i)
unfolding brkfree
brkfree-entry breaks n i br here = elim (ℕ_discrete n i) [
  | yes same ↦ ground (
    arith,
    write_break-entry (brk_enable n false breaks) n clear_used (record br { enabled = false })
        (brk_enable-entry breaks n false br here),
  )
  | no ne ↦ ground (
    arith,
    write_break-elsewhere (brk_enable n false breaks) n i clear_used ne,
    brk_enable-elsewhere breaks n i false ne,
  )
]

abbrev free_temp : ℕ → Breaks → Breaks
free_temp n breaks = elim (get_elem? breaks.breaktab n) [
  | none ↦ breaks
  | some br ↦ if br.used && br.temp then brkfree n breaks else breaks
]

free_temp-entry :
    (breaks : Breaks) (n i : ℕ)
    → get_elem? (free_temp n breaks).breaktab i ≡ (
        if i == n
        then Option.map without_temp (get_elem? breaks.breaktab i)
        else get_elem? breaks.breaktab i)
free_temp-entry breaks n i = elim (ℕ_discrete i n) [
  | yes same ↦ elim (Option-cases (get_elem? breaks.breaktab n)) [
    | inl absent ↦ ground (arith, absent, ap (λ (k : ℕ). get_elem? breaks.breaktab k) same)
    | inr (br, here) ↦ ground (
      arith,
      here,
      ap (λ (k : ℕ). get_elem? breaks.breaktab k) same,
      brkfree-entry breaks n i br here,
    )
  ]
  | no ne ↦ elim (Option-cases (get_elem? breaks.breaktab n)) [
    | inl absent ↦ ground (arith, absent)
    | inr (br, here) ↦ ground (arith, here, brkfree-entry breaks n i br here)
  ]
]

free_temp-IsCounted : (n : ℕ) (breaks : Breaks) → IsCounted breaks → IsCounted (free_temp n breaks)
free_temp-IsCounted n breaks c = by_entry (get_elem? breaks.breaktab n)
  where
    by_test : (b : Bool) → IsCounted (if b then brkfree n breaks else breaks)
    by_test true = brkfree-IsCounted breaks n c
    by_test false = c

    by_entry :
        (o : Option Breakpoint)
        → IsCounted (elim o [
          | none ↦ breaks
          | some br ↦ if br.used && br.temp then brkfree n breaks else breaks
        ])
    by_entry none = c
    by_entry (some br) = by_test (br.used && br.temp)

brkfree_temps_loop-entry :
    (count n i : ℕ) (breaks : Breaks)
    → get_elem? (brkfree_temps_loop count n breaks).breaktab i ≡ (
        if leb n i && ltb i (n + count)
        then Option.map without_temp (get_elem? breaks.breaktab i)
        else get_elem? breaks.breaktab i)
unfolding brkfree_temps_loop
brkfree_temps_loop-entry zero n i breaks = ground arith
brkfree_temps_loop-entry (suc count) n i breaks =
    brkfree_temps_loop-entry count (n + 1) i (free_temp n breaks)
    ∙ ground (arith, free_temp-entry breaks n i)

brkfree_temps_loop-IsCounted :
    (count n : ℕ) (breaks : Breaks)
    → IsCounted breaks
    → IsCounted (brkfree_temps_loop count n breaks)
unfolding brkfree_temps_loop
brkfree_temps_loop-IsCounted zero n breaks c = c
brkfree_temps_loop-IsCounted (suc count) n breaks c =
    brkfree_temps_loop-IsCounted count (n + 1) (free_temp n breaks) (free_temp-IsCounted n breaks c)

-- When the count of active breakpoints is that of the enabled entries among the 32 of the table,
-- and no unused one is enabled: `brkfree_temps` leaves the used temporary entries unused and
-- disabled and every other entry as it was, and the count is again that of the enabled ones.
pub brkfree_temps_lem :
    (breaks : Breaks)
    → IsCounted breaks
    → IsCounted (brkfree_temps breaks)
      × ((i : ℕ)
          → get_elem? (brkfree_temps breaks).breaktab i
            ≡ Option.map without_temp (get_elem? breaks.breaktab i))
unfolding brkfree_temps
brkfree_temps_lem breaks c = (
  brkfree_temps_loop-IsCounted max_breaks 0 breaks c,
  λ i. elim (dec_lt i 32) [
    | yes lt ↦ brkfree_temps_loop-entry max_breaks 0 i breaks ∙ ground arith
    | no ge ↦
        brkfree_temps_loop-entry max_breaks 0 i breaks
        ∙ ground (arith, get_elem?-none breaks.breaktab i (omega (arith, c.size)))
  ],
)
