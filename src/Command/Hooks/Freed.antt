-- ===== src/Command/Hooks/Freed.antt =====
-- A breakpoint that was deleted hides the ones after it (command.c, `brkfind_by_addr`).
use exec.Base.{
  ℕ, ◌≡◌, refl, ◌∙◌, ap, arith, Bool, false, some, get_elem?, ◌==◌, Bool-cases, inl, inr,
}
use exec.Base.Run.{done, go_on}
use exec.Command.{Breakpoint, Breaks, write_break, brk_enable, brkfree, brkfind_by_addr}
use exec.Command.Alloc.{brk_enable-entry, brkfree-entry, freed}
use exec.Command.Session.{Debugger, Target, lifted}
use exec.Command.Hooks.{command_trace_insn, command_insn_hook}
use exec.Command.Hooks.Stops.{find_addr-set, traced, IsAt, IsFirst, command_insn_hook-first}

pub brkfind_by_addr-brk_enable :
    (addr n : ℕ) (flag : Bool) (br : Breakpoint) (breaks : Breaks)
    → get_elem? breaks.breaktab n ≡ some br
    → brkfind_by_addr addr (brk_enable n flag breaks) ≡ brkfind_by_addr addr breaks
unfolding brkfind_by_addr brk_enable
brkfind_by_addr-brk_enable addr n flag br breaks here = ground (
  arith,
  here,
  find_addr-set addr 0 n breaks.breaktab br (record br { enabled = flag }) here refl,
)

pub brkfind_by_addr-write_break :
    (addr n : ℕ) (f : Breakpoint → Breakpoint) (br : Breakpoint) (breaks : Breaks)
    → get_elem? breaks.breaktab n ≡ some br
    → (f br).addr ≡ br.addr
    → brkfind_by_addr addr (write_break n f breaks) ≡ brkfind_by_addr addr breaks
unfolding brkfind_by_addr write_break
brkfind_by_addr-write_break addr n f br breaks here same =
    ground (arith, here, find_addr-set addr 0 n breaks.breaktab br (f br) here same)

-- The address of the entry stays.
brkfind_by_addr-brkfree :
    (addr n : ℕ) (br : Breakpoint) (breaks : Breaks)
    → get_elem? breaks.breaktab n ≡ some br
    → brkfind_by_addr addr (brkfree n breaks) ≡ brkfind_by_addr addr breaks
unfolding brkfree
brkfind_by_addr-brkfree addr n br breaks here =
    brkfind_by_addr-write_break addr n _ (record br { enabled = false }) (brk_enable n false breaks)
      (brk_enable-entry breaks n false br here) refl
    ∙ brkfind_by_addr-brk_enable addr n false br breaks here

module _ {T : Type 0} (ops : Target T) (t : T) (pc abspc : ℕ) where
  -- Where PC and its absolute address are read without a change, the first entry of the table with
  -- that address is a given one, and some breakpoint is counted as active: after `brkfree` of that
  -- entry, `command_insn_hook` at that address only notes the instruction in its trace, whatever
  -- breakpoints on the address the later entries hold.
  pub command_insn_hook-brkfree :
      (d : Debugger) (n : ℕ) (br : Breakpoint)
      → IsAt ops t pc abspc
      → IsFirst ops t pc abspc d n br
      → command_insn_hook ops
          (record { dbg = record d { breaks = brkfree n d.breaks }; target = t })
        ≡ done tt
            (record { dbg = traced pc (record d { breaks = brkfree n d.breaks }); target = t })
  unfolding command_insn_hook command_trace_insn
  command_insn_hook-brkfree d n br at f =
      elim (Bool-cases ((brkfree n d.breaks).active_break_count == 0)) [
        | inl idle ↦
            go_on _ _
              (ap (lifted (record d { breaks = brkfree n d.breaks })) (at.reads d.monitor_on))
              (rw idle refl)
        | inr active ↦
            command_insn_hook-first ops t pc abspc (record d { breaks = brkfree n d.breaks }) n
              (freed br) at
              (record {
                active = ground (arith, active);
                first = brkfind_by_addr-brkfree abspc n br d.breaks f.entry ∙ f.first;
                entry = ground (arith, brkfree-entry d.breaks n n br f.entry);
              })
      ]
