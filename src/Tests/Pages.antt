-- ===== src/Tests/Pages.antt =====
-- The small MMU (mmu.c).
use exec.Base.{ℕ, zero, suc, ◌≡◌, refl, ltb, if◌then◌else◌, false, none, some, replicate, get_elem?}
use exec.Devices.SmallMmu.{State, small_mmu_reset}
use exec.Devices.SmallMmu.Reset
use exec.Devices.SmallMmu.Reset.{linear, IsSized, NoneFixed, fixed_at}

-- The small MMU shows device 2.
abbrev unset : State
unset = (
  record {
    realdev = 2;
    global_regs = replicate 8 0;
    slot_pages = replicate 16 0;
    slot_flags = replicate 16 0;
  },
  replicate 512 (record { devid = 0; offset = 0; flags = 0 }),
)

replicate-NoneFixed :
    (n i : ℕ)
    → fixed_at (get_elem? (replicate n (record { devid = 0; offset = 0; flags = 0 })) i) ≡ false
replicate-NoneFixed zero i = refl
replicate-NoneFixed (suc n) zero = refl
replicate-NoneFixed (suc n) (suc i) = replicate-NoneFixed n i

unset-NoneFixed : NoneFixed unset.1
unset-NoneFixed i = replicate-NoneFixed 512 i

small_mmu_reset-linear_example :
    (s' : State) × (small_mmu_reset unset ≡ some s')
    × ((i : ℕ) → get_elem? s'.1 i ≡ (if ltb i 512 then some (linear 2 i) else none))
small_mmu_reset-linear_example =
    Reset.small_mmu_reset-linear unset
      (record { globals = refl; pages = refl; flags = refl; units = refl }) unset-NoneFixed
