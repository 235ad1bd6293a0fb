-- ===== src/Command/Table.antt =====
-- The table of breakpoints (command.c, `brk_enable`, `brkalloc`, `brkfree` and `brkfree_temps`).
use exec.Base.{
  ℕ, zero, suc, ◌+◌, ◌≤◌, ◌≡◌, refl, arith, Bool, true, false, Option, none, some, List, [], ◌∷◌,
  length, get_elem?, set, if◌then◌else◌, ◌&&◌, not, inl, inr, get_elem?-set_self, get_elem?-lt,
  Option-cases, length-set, ◌∙◌,
}
use exec.Base.Word.{of_bool, add32, sub32}
use exec.Command.{Breakpoint, Breaks, max_breaks, brk_enable, write_break, brkfree}

-- How many are enabled.
unfoldable pub count_enabled : List Breakpoint → ℕ
count_enabled [] = 0
count_enabled (br ∷ rest) = of_bool br.enabled + count_enabled rest

-- What is not in use is not enabled.
abbrev pub IsFreeDisabled : List Breakpoint → Type 0
IsFreeDisabled [] = Unit {0}
IsFreeDisabled (br ∷ rest) = ((br.enabled && not br.used) ≡ false) × IsFreeDisabled rest

pub record IsCounted (breaks : Breaks) : Type 0 where
  pub size : length breaks.breaktab ≡ max_breaks
  pub counted : breaks.active_break_count ≡ count_enabled breaks.breaktab
  pub disabled : IsFreeDisabled breaks.breaktab

count_enabled-le : (tab : List Breakpoint) → count_enabled tab ≤ length tab
unfolding count_enabled
count_enabled-le [] = omega arith
count_enabled-le (br ∷ rest) = ground (arith, count_enabled-le rest)

count_enabled-set :
    (tab : List Breakpoint) (n : ℕ) (br new : Breakpoint)
    → get_elem? tab n ≡ some br
    → count_enabled (set tab n new) + of_bool br.enabled ≡ count_enabled tab + of_bool new.enabled
unfolding count_enabled
count_enabled-set [] n br new e = ground arith
count_enabled-set (x ∷ tab) zero br new e = ground arith
count_enabled-set (x ∷ tab) (suc n) br new e = ground (arith, count_enabled-set tab n br new e)

IsFreeDisabled-set :
    (tab : List Breakpoint) (n : ℕ) (new : Breakpoint)
    → IsFreeDisabled tab
    → (new.enabled && not new.used) ≡ false
    → IsFreeDisabled (set tab n new)
IsFreeDisabled-set [] n new h e = tt
IsFreeDisabled-set (x ∷ tab) zero new h e = (e, h.1)
IsFreeDisabled-set (x ∷ tab) (suc n) new h e = (h.0, IsFreeDisabled-set tab n new h.1 e)

module _ (breaks : Breaks) (c : IsCounted breaks) where
  pub write_break-IsCounted :
      (n : ℕ) (f : Breakpoint → Breakpoint)
      → ((br : Breakpoint)
          → get_elem? breaks.breaktab n ≡ some br
          → ((f br).enabled ≡ br.enabled) × (((f br).enabled && not (f br).used) ≡ false))
      → IsCounted (write_break n f breaks)
  unfolding write_break
  write_break-IsCounted n f keeps = by_entry (get_elem? breaks.breaktab n) refl
    where
      by_entry :
          (o : Option Breakpoint)
          → get_elem? breaks.breaktab n ≡ o
          → IsCounted (elim o [
            | none ↦ breaks
            | some br ↦ record breaks { breaktab = set breaks.breaktab n (f br) }
          ])
      by_entry none e = c
      by_entry (some br) e = record {
        size = length-set breaks.breaktab n (f br) ∙ c.size;
        counted =
            ground (arith, c.counted, count_enabled-set breaks.breaktab n br (f br) e, keeps br e);
        disabled = IsFreeDisabled-set breaks.breaktab n (f br) c.disabled (keeps br e).1;
      }

  pub brk_enable-IsCounted :
      (n : ℕ) (flag : Bool)
      → ((br : Breakpoint) → get_elem? breaks.breaktab n ≡ some br → (flag && not br.used) ≡ false)
      → IsCounted (brk_enable n flag breaks)
  unfolding brk_enable
  brk_enable-IsCounted n flag keeps = by_entry (get_elem? breaks.breaktab n) refl
    where
      by_test :
          (b : Bool) (tab : List Breakpoint) (k : ℕ)
          → IsFreeDisabled tab
          → IsFreeDisabled
              (if b then record { breaktab = tab; active_break_count = k } else breaks).breaktab
      by_test true tab k h = h
      by_test false tab k h = c.disabled

      by_entry :
          (o : Option Breakpoint)
          → get_elem? breaks.breaktab n ≡ o
          → IsCounted (elim o [
            | none ↦ breaks
            | some br ↦
                if (if br.enabled then not flag else flag)
                then record {
                  breaktab = set breaks.breaktab n (record br { enabled = flag });
                  active_break_count =
                      if flag
                      then add32 breaks.active_break_count 1
                      else sub32 breaks.active_break_count 1;
                }
                else breaks
          ])
      by_entry none e = c
      by_entry (some br) e = record {
        size = ground (arith, c.size, length-set breaks.breaktab n (record br { enabled = flag }));
        counted = ground (
          arith,
          c.counted,
          c.size,
          count_enabled-le breaks.breaktab,
          count_enabled-set breaks.breaktab n br (record br { enabled = flag }) e,
          count_enabled-le (set breaks.breaktab n (record br { enabled = flag })),
          length-set breaks.breaktab n (record br { enabled = flag }),
        );
        disabled = by_test (if br.enabled then not flag else flag) _ _ (
            IsFreeDisabled-set breaks.breaktab n (record br { enabled = flag }) c.disabled
              (keeps br e));
      }

brk_enable-enabled :
    (breaks : Breaks) (n : ℕ) (flag : Bool) (br : Breakpoint)
    → get_elem? (brk_enable n flag breaks).breaktab n ≡ some br
    → br.enabled ≡ flag
unfolding brk_enable
brk_enable-enabled breaks n flag br e = elim (Option-cases (get_elem? breaks.breaktab n)) [
  | inl absent ↦ ground (arith, absent, e)
  | inr (old, here) ↦ ground (
    arith,
    here,
    e,
    get_elem?-set_self breaks.breaktab n (record old { enabled = flag })
        (get_elem?-lt breaks.breaktab n old here),
  )
]

pub brkfree-IsCounted : (breaks : Breaks) (n : ℕ) → IsCounted breaks → IsCounted (brkfree n breaks)
unfolding brkfree
brkfree-IsCounted breaks n c =
    write_break-IsCounted (brk_enable n false breaks)
      (brk_enable-IsCounted breaks c n false (λ br e. refl)) n _
      (λ br e. (refl, rw (brk_enable-enabled breaks n false br e) refl))

pub free_is_disabled :
    (tab : List Breakpoint) (n : ℕ) (br : Breakpoint)
    → IsFreeDisabled tab
    → get_elem? tab n ≡ some br
    → (br.enabled && not br.used) ≡ false
free_is_disabled [] n br h e = cc
free_is_disabled (x ∷ tab) zero br h e = ground (arith, h.0, e)
free_is_disabled (x ∷ tab) (suc n) br h e = free_is_disabled tab n br h.1 e

-- What neither enables nor claims an entry.
pub write_break-Counted :
    (n : ℕ) (f : Breakpoint → Breakpoint)
    → ((br : Breakpoint) → ((f br).enabled ≡ br.enabled) × ((f br).used ≡ br.used))
    → (breaks : Breaks) → IsCounted breaks
    → IsCounted (write_break n f breaks)
write_break-Counted n f same breaks c = write_break-IsCounted breaks c n f λ br e. (
  (same br).0,
  ground (arith, (same br).0, (same br).1, free_is_disabled breaks.breaktab n br c.disabled e),
)
