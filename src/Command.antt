-- ===== src/Command.antt =====
-- The debugger (command.c): its breakpoints, its expressions, the hooks that the processor and the
-- bus call, and its command lines.
pub mod Table
pub mod Alloc
pub mod Text
pub mod Session
pub mod Eval
pub mod Hooks
pub mod Shell
pub mod Tokens
use exec.Base.{
  zero, suc, ℕ, ◌+◌, Bool, true, false, Option, none, some, List, [], ◌∷◌, length, get_elem?, set,
  if◌then◌else◌, ◌==◌, ◌&&◌, not,
}
use exec.Base.Word.{add32, sub32}
use exec.Symtab.{CString}

-- `breakpoint_t`, less `id`, which is its index, and the fields that nothing uses.
pub record Breakpoint : Type 0 where
  pub used : Bool
  pub enabled : Bool
  pub conditional : Bool
  pub threaded : Bool
  pub on_read : Bool
  pub on_write : Bool
  pub on_execute : Bool
  pub keep_running : Bool
  pub temp : Bool
  pub last_write : ℕ
  pub write_mask : ℕ
  pub addr : ℕ
  pub condition : CString
  pub tid : ℕ
  pub ignore_count : ℕ

-- `breaktab` and `active_break_count`.
pub record Breaks : Type 0 where
  pub breaktab : List Breakpoint
  pub active_break_count : ℕ

abbrev pub max_breaks : ℕ
max_breaks = 32

-- `brk_enable (&breaktab[n], flag)`; an index outside the table is undefined, and changes nothing.
unfoldable pub brk_enable : ℕ → Bool → Breaks → Breaks
brk_enable n flag breaks = elim (get_elem? breaks.breaktab n) [
  | none ↦ breaks
  | some br ↦
      if (if br.enabled then not flag else flag)
      then record {
        breaktab = set breaks.breaktab n (record br { enabled = flag });
        active_break_count =
            if flag then add32 breaks.active_break_count 1 else sub32 breaks.active_break_count 1;
      }
      else breaks
]

-- The fields that `brkalloc` sets; `addr`, the three conditions and the mask keep their values.
abbrev pub claimed : Breakpoint → Breakpoint
claimed br = record br {
  used = true;
  conditional = false;
  threaded = false;
  keep_running = false;
  ignore_count = 0;
  temp = false;
}

-- The index of the first that is not in use, in a table that starts at index `n`.
unfoldable pub first_unused : ℕ → List Breakpoint → Option ℕ
first_unused n [] = none
first_unused n (br ∷ rest) = if not br.used then some n else first_unused (n + 1) rest

unfoldable pub write_break : ℕ → (Breakpoint → Breakpoint) → Breaks → Breaks
write_break n f breaks = elim (get_elem? breaks.breaktab n) [
  | none ↦ breaks
  | some br ↦ record breaks { breaktab = set breaks.breaktab n (f br) }
]

-- `none` stands for NULL.
unfoldable pub brkalloc : Breaks → Option (ℕ × Breaks)
unfolding first_unused write_break brk_enable
brkalloc breaks = elim (first_unused 0 breaks.breaktab) [
  | none ↦ none
  | some n ↦ some (n, brk_enable n true (write_break n claimed breaks))
]

unfoldable pub brkfree : ℕ → Breaks → Breaks
unfolding write_break brk_enable
brkfree n breaks = write_break n (λ br. record br { used = false }) (brk_enable n false breaks)

-- The loop of `brkfree_temps`, with `count` entries left.
unfoldable pub brkfree_temps_loop : ℕ → ℕ → Breaks → Breaks
unfolding brkfree
brkfree_temps_loop zero n breaks = breaks
brkfree_temps_loop (suc count) n breaks =
    brkfree_temps_loop count (n + 1) (elim (get_elem? breaks.breaktab n) [
      | none ↦ breaks
      | some br ↦ if br.used && br.temp then brkfree n breaks else breaks
    ])

unfoldable pub brkfree_temps : Breaks → Breaks
unfolding brkfree_temps_loop
brkfree_temps = brkfree_temps_loop max_breaks 0

-- The first entry with the address, whether it is in use or not.
unfoldable pub find_addr : ℕ → ℕ → List Breakpoint → Option ℕ
find_addr addr n [] = none
find_addr addr n (br ∷ rest) = if br.addr == addr then some n else find_addr addr (n + 1) rest

unfoldable pub brkfind_by_addr : ℕ → Breaks → Option ℕ
unfolding find_addr
brkfind_by_addr addr breaks = find_addr addr 0 breaks.breaktab
