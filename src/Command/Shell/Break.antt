-- ===== src/Command/Shell/Break.antt =====
-- A breakpoint that `break` sets stops the processor (command.c, `cmd_break` and `command_insn_hook`).
use exec.Base.{
  ℕ, zero, suc, ◌+◌, ◌≡◌, ◌≢◌, refl, sym, ◌∙◌, ap, subst, arith, true, false, Option, none, some,
  List, [], ◌∷◌, get_elem?, set, inl, inr, Option-cases,
}
use exec.Base.Run.{done, go_on}
use exec.Base.Kept.{Ends}
use exec.Symtab.{CString}
use exec.Command.{
  Breakpoint, Breaks, write_break, claimed, first_unused, brkalloc, find_addr, brkfind_by_addr,
}
use exec.Command.Table.{IsCounted, count_enabled}
use exec.Command.Alloc.{
  all_used, first_unused-get_elem?, brkalloc-first_unused, brkalloc_lem, write_break-entry,
}
use exec.Command.Session.{Debugger, Target, Session}
use exec.Command.Text.{strtok}
use exec.Command.Eval.{eval, eval_lvalue}
use exec.Command.Eval.Kept
use exec.Command.Hooks.{command_insn_hook}
use exec.Command.Hooks.Stops.{IsAt, command_insn_hook-stops, traced}
use exec.Command.Hooks.Freed.{brkfind_by_addr-brk_enable, brkfind_by_addr-write_break}
use exec.Command.Shell.{
  Shell, Controls, getarg, with_arguments, new_break, with_breaks, with_outcome, in_shell,
}
use exec.Command.Shell.Handlers.{break_option, cmd_break}

-- An address that no entry has, in entry `n`.
find_addr-here :
    (addr k n : ℕ) (tab : List Breakpoint) (br new : Breakpoint)
    → find_addr addr k tab ≡ none
    → get_elem? tab n ≡ some br
    → new.addr ≡ addr
    → find_addr addr k (set tab n new) ≡ some (k + n)
unfolding find_addr
find_addr-here addr k n [] br new absent here at = cc
find_addr-here addr k zero (x ∷ tab) br new absent here at = ground (arith, at)
find_addr-here addr k (suc n) (x ∷ tab) br new absent here at =
    ground (arith, find_addr-here addr (k + 1) n tab br new)

brkfind_by_addr-here :
    (addr n : ℕ) (f : Breakpoint → Breakpoint) (br : Breakpoint) (breaks : Breaks)
    → brkfind_by_addr addr breaks ≡ none
    → get_elem? breaks.breaktab n ≡ some br
    → (f br).addr ≡ addr
    → brkfind_by_addr addr (write_break n f breaks) ≡ some n
unfolding brkfind_by_addr write_break
brkfind_by_addr-here addr n f br breaks absent here at =
    ground (arith, here, find_addr-here addr 0 n breaks.breaktab br (f br) absent here at)

brkalloc-none : (breaks : Breaks) → first_unused 0 breaks.breaktab ≡ none → brkalloc breaks ≡ none
unfolding brkalloc
brkalloc-none breaks full = ground (arith, full)

brkfind_by_addr-brkalloc :
    (addr n : ℕ) (breaks out : Breaks)
    → brkalloc breaks ≡ some (n, out)
    → brkfind_by_addr addr out ≡ brkfind_by_addr addr breaks
brkfind_by_addr-brkalloc addr n breaks out e =
    elim (Option-cases (first_unused 0 breaks.breaktab)) [
      | inl full ↦ absurd (empty_handed full)
      | inr (k, found) ↦
          let (i, br, at, here', free) = first_unused-get_elem? 0 k breaks.breaktab found in
          let here : get_elem? breaks.breaktab k ≡ some br =
            ap (λ (j : ℕ). get_elem? breaks.breaktab j) (omega (arith, at)) ∙ here' in
          ap (brkfind_by_addr addr) (second (sym e ∙ brkalloc-first_unused breaks k found))
          ∙ brkfind_by_addr-brk_enable addr k true (claimed br) (write_break k claimed breaks)
              (write_break-entry breaks k claimed br here)
          ∙ brkfind_by_addr-write_break addr k claimed br breaks here refl
    ]
  where
    second :
        {k : ℕ} {x y : Breaks} → ◌≡◌ {A = Option (ℕ × Breaks)} (some (n, x)) (some (k, y)) → x ≡ y
    second {x = x} h = ap (λ (o : Option (ℕ × Breaks)). elim o [ none ↦ x | some p ↦ p.1 ]) h

    empty_handed : first_unused 0 breaks.breaktab ≡ none → ⊥
    empty_handed full = cc (brkalloc-none breaks full)

count_enabled-some :
    (tab : List Breakpoint) (n : ℕ) (br : Breakpoint)
    → get_elem? tab n ≡ some br
    → br.enabled ≡ true
    → count_enabled tab ≢ 0
unfolding count_enabled
count_enabled-some [] n br here on = cc
count_enabled-some (x ∷ tab) zero br here on = ground (arith, here, on)
count_enabled-some (x ∷ tab) (suc n) br here on = ground (arith, count_enabled-some tab n br)

module _ (abspc : ℕ) (breaks : Breaks) (c : IsCounted breaks)
    (room : all_used breaks.breaktab ≡ false) where
  -- The entry that `break` takes, and the table with it.
  record Taken : Type 0 where
    index : ℕ
    old : Breakpoint
    table : Breaks
    allocates : brkalloc breaks ≡ some (index, table)
    entry : get_elem? table.breaktab index ≡ some (record (claimed old) { enabled = true })
    active : table.active_break_count ≢ 0

  taken : Taken
  taken = elim (brkalloc_lem breaks c) [
    | inl (full, _) ↦ absurd (differ full)
    | inr (n, br, after, here, free, gives, other, counted) ↦ record {
      index = n;
      old = br;
      table = after;
      allocates = gives;
      entry = other n ∙ ground arith;
      active = λ z.
          count_enabled-some after.breaktab n (record (claimed br) { enabled = true })
            (other n ∙ ground arith) refl (sym counted.counted ∙ z);
    }
  ]
    where
      differ : all_used breaks.breaktab ≡ true → ⊥
      differ full = cc

write_break-active :
    (n : ℕ) (f : Breakpoint → Breakpoint) (breaks : Breaks)
    → (write_break n f breaks).active_break_count ≡ breaks.active_break_count
unfolding write_break
write_break-active n f breaks = elim (Option-cases (get_elem? breaks.breaktab n)) [
  | inl absent ↦ ground (arith, absent)
  | inr (br, here) ↦ ground (arith, here)
]

-- The entry that `break` sets, on execution at the address.
abbrev pub placed : ℕ → Breakpoint → Breakpoint
placed val br = record br { addr = val; on_execute = true }

module _ {T : Type 0} (ops : Target T) (ctl : Controls T) where
  abbrev with_table : Breaks → Session T → Session T
  with_table breaks s = record s { dbg = record (s.dbg) { breaks = breaks } }

  getarg-strtok :
      (sh : Shell T) (o : Option (CString × CString))
      → strtok sh.arguments ≡ o
      → getarg sh ≡ with_arguments o sh
  unfolding getarg
  getarg-strtok sh o e = ap (λ o. with_arguments o sh) e

  cmd_break-run :
      (sh : Shell T) (text rest left : CString) (val n : ℕ) (s1 : Session T) (table : Breaks)
      → strtok sh.arguments ≡ some (text, rest)
      → strtok rest ≡ none
      → eval_lvalue ops (eval ops) text sh.session ≡ done (val, left) s1
      → brkalloc s1.dbg.breaks ≡ some (n, table)
      → cmd_break ops ctl sh
        ≡ done tt (record sh {
          session = with_table (write_break n (placed val) table) s1;
          arguments = [];
        })
  unfolding cmd_break new_break break_option
  cmd_break-run sh text rest left val n s1 table first last evaluated allocates =
      let sh1 : Shell T = record sh { arguments = rest } in
      let sh2 : Shell T = record sh1 { session = s1 } in
      let sh3 : Shell T = with_breaks (λ _. table) sh2 in
      go_on _ _ (getarg-strtok sh _ first) (
        go_on _ _ (ap (in_shell sh1) evaluated) (
          go_on _ _ (ap (λ o. with_outcome o sh2) allocates) (
            go_on _ _ (getarg-strtok (with_breaks (write_break n (placed val)) sh3) none last)
              refl)))

  eval_lvalue-same :
      (text left : CString) (val : ℕ) (s s1 : Session T)
      → eval_lvalue ops (eval ops) text s ≡ done (val, left) s1
      → s1.dbg.breaks ≡ s.dbg.breaks
  eval_lvalue-same text left val s s1 e =
      subst (Ends (λ (s' : Session T). s'.dbg.breaks ≡ s.dbg.breaks)) e (
        (Kept.eval_lvalue-Keeps ops s.dbg.breaks (eval ops) (Kept.eval-Keeps ops s.dbg.breaks)
            text).ends
          s refl)

  -- When the arguments hold one word, whose evaluation as an address returns, the table of
  -- breakpoints is counted, has an unused entry and none, used or not, with that address:
  -- `cmd_break` returns, and on every machine whose PC has that absolute address, read without a
  -- change, the next call of `command_insn_hook` turns the monitor on.
  pub cmd_break-command_insn_hook :
      (sh : Shell T) (text rest left : CString) (s1 : Session T) (t : T) (pc abspc : ℕ)
      → strtok sh.arguments ≡ some (text, rest)
      → strtok rest ≡ none
      → eval_lvalue ops (eval ops) text sh.session ≡ done (abspc, left) s1
      → IsCounted sh.session.dbg.breaks
      → all_used sh.session.dbg.breaks.breaktab ≡ false
      → brkfind_by_addr abspc sh.session.dbg.breaks ≡ none
      → IsAt ops t pc abspc
      → (d : Debugger) × (cmd_break ops ctl sh
          ≡ done tt (record sh { session = record s1 { dbg = d }; arguments = [] }))
        × (command_insn_hook ops (record { dbg = d; target = t })
            ≡ done tt (record { dbg = record (traced pc d) { monitor_on = true }; target = t }))
  cmd_break-command_insn_hook sh text rest left s1 t pc abspc first last evaluated c room absent
        at =
      let same = sym (eval_lvalue-same text left abspc sh.session s1 evaluated) in
      let k =
        taken abspc s1.dbg.breaks (subst IsCounted same c)
          (subst (λ (b : Breaks). all_used b.breaktab ≡ false) same room) in
      let br : Breakpoint = record (claimed k.old) { enabled = true } in
      let d : Debugger = (with_table (write_break k.index (placed abspc) k.table) s1).dbg in
      (
        d,
        cmd_break-run sh text rest left abspc k.index s1 k.table first last evaluated k.allocates,
        command_insn_hook-stops ops t pc abspc d k.index (placed abspc br) at
            (record {
              active = λ z. k.active (sym (write_break-active k.index (placed abspc) k.table) ∙ z);
              first =
                  brkfind_by_addr-here abspc k.index (placed abspc) br k.table
                    (brkfind_by_addr-brkalloc abspc k.index s1.dbg.breaks k.table k.allocates
                      ∙ subst (λ b. brkfind_by_addr abspc b ≡ none) same absent)
                    k.entry refl;
              entry = write_break-entry k.table k.index (placed abspc) br k.entry;
            })
            (record {
              on = refl;
              execute = refl;
              every_thread = refl;
              always = refl;
              stops = refl;
              stays = refl;
            })
            refl,
      )
