-- ===== src/Command/Hooks/Stops.antt =====
-- Where the processor stops at a breakpoint (command.c, `command_insn_hook` and `breakpoint_hit`).
use exec.Base.{
  ℕ, zero, suc, ◌+◌, ◌-◌, ◌%◌, ◌≡◌, ◌≢◌, refl, ◌∙◌, ap, arith, Bool, true, false, ◌&&◌, not, some,
  List, [], ◌∷◌, get_elem?, set, ◌==◌, if◌then◌else◌, get_elem?-set_self, get_elem?-lt,
}
use exec.Base.Word.{low, nonzero, add32}
use exec.Base.Run.{M, done, go_on, pure, ◌>>◌}
use exec.Command.{Breakpoint, write_break, find_addr, brkfind_by_addr}
use exec.Command.Session.{Debugger, Simulated, Target, Session, lifted}
use exec.Command.Hooks.{
  max_trace, command_trace_insn, find_break, count_hit, breakpoint_hit, stop_at, command_insn_hook,
}

pub find_addr-set :
    (addr k n : ℕ) (tab : List Breakpoint) (br new : Breakpoint)
    → get_elem? tab n ≡ some br
    → new.addr ≡ br.addr
    → find_addr addr k (set tab n new) ≡ find_addr addr k tab
unfolding find_addr
find_addr-set addr k n [] br new here same = refl
find_addr-set addr k zero (x ∷ tab) br new here same = ground (arith, here, same)
find_addr-set addr k (suc n) (x ∷ tab) br new here same =
    ground (arith, find_addr-set addr (k + 1) n tab br new here same)

-- The debugger after it has noted the address of an instruction.
abbrev pub traced : ℕ → Debugger → Debugger
traced pc d = record d {
  trace_buffer = set d.trace_buffer d.trace_offset (low pc 16);
  trace_offset = add32 d.trace_offset 1 % max_trace;
}

-- A test that is decided.
pub chosen :
    {S A : Type 0} (b : Bool) (m m' : M S A) (s : S) → b ≡ true → (if b then m else m') s ≡ m s
chosen true m m' s e = refl
chosen false m m' s e = cc

pub unchosen :
    {S A : Type 0} (b : Bool) (m m' : M S A) (s : S) → b ≡ false → (if b then m else m') s ≡ m' s
unchosen true m m' s e = cc
unchosen false m m' s e = refl

-- A command several times.
abbrev pub times : {S : Type 0} → ℕ → M S (Unit {0}) → M S (Unit {0})
times zero m = pure tt
times (suc k) m = m >> times k m

module _ {T : Type 0} (ops : Target T) (t : T) (pc abspc : ℕ) where
  abbrev pub simulated : Bool → Simulated T
  simulated on = record { machine = t; monitor_on = on }

  -- PC and its absolute address are read without a change of the machine or a report.
  pub record IsAt : Type 0 where
    pub reads : (on : Bool) → ops.get_pc (simulated on) ≡ done pc (simulated on)
    pub maps : (on : Bool) → ops.to_absolute (low pc 16) (simulated on) ≡ done abspc (simulated on)

  -- The first entry with the address is entry `n`, which is `br`, and some breakpoint is active.
  pub record IsFirst (d : Debugger) (n : ℕ) (br : Breakpoint) : Type 0 where
    pub active : d.breaks.active_break_count ≢ 0
    pub first : brkfind_by_addr abspc d.breaks ≡ some n
    pub entry : get_elem? d.breaks.breaktab n ≡ some br

  abbrev pub at_target : Debugger → Session T
  at_target d = record { dbg = d; target = t }

  traced-IsFirst :
      (d : Debugger) (n : ℕ) (br : Breakpoint) → IsFirst d n br → IsFirst (traced pc d) n br
  traced-IsFirst d n br f = record { active = f.active; first = f.first; entry = f.entry }

  find_break-first :
      (d : Debugger) (n : ℕ) (br : Breakpoint)
      → IsFirst d n br
      → find_break ops abspc (at_target d) ≡ done (some (n, br)) (at_target d)
  unfolding find_break
  find_break-first d n br f = rw (f.first, f.entry) refl

  not_zero : (k : ℕ) → k ≢ 0 → (k == 0) ≡ false
  not_zero k ne = ground arith

  pub command_insn_hook-first :
      (d : Debugger) (n : ℕ) (br : Breakpoint)
      → IsAt
      → IsFirst d n br
      → command_insn_hook ops (at_target d)
        ≡ (if br.enabled && br.on_execute then stop_at ops n br else pure tt)
            (at_target (traced pc d))
  unfolding command_insn_hook command_trace_insn
  command_insn_hook-first d n br at f = go_on _ _ (ap (lifted d) (at.reads d.monitor_on)) (
      rw (not_zero d.breaks.active_break_count f.active) (
        go_on _ _ (ap (lifted (traced pc d)) (at.maps d.monitor_on))
          (go_on _ _ (find_break-first (traced pc d) n br (traced-IsFirst d n br f)) refl)))

  -- A breakpoint on execution with no condition, which stops the processor and stays.
  pub record IsSimple (br : Breakpoint) : Type 0 where
    pub on : br.enabled ≡ true
    pub execute : br.on_execute ≡ true
    pub every_thread : br.threaded ≡ false
    pub always : br.conditional ≡ false
    pub stops : br.keep_running ≡ false
    pub stays : br.temp ≡ false

  breakpoint_hit-count_hit :
      (n : ℕ) (br : Breakpoint) (s : Session T)
      → IsSimple br
      → breakpoint_hit ops n br s ≡ count_hit ops n br s
  unfolding breakpoint_hit
  breakpoint_hit-count_hit n br s p = rw (p.every_thread, p.always) refl

  stop_at-simple :
      (n : ℕ) (br : Breakpoint) (s s' : Session T)
      → IsSimple br
      → count_hit ops n br s ≡ done tt s'
      → stop_at ops n br s ≡ done tt s'
  unfolding stop_at
  stop_at-simple n br s s' p counts =
      go_on _ _ (breakpoint_hit-count_hit n br s p ∙ counts)
        (unchosen (s'.dbg.monitor_on && br.temp) _ _ s' (ground (arith, p.stays)))

  abbrev counted : Breakpoint → Breakpoint
  counted br = record br { ignore_count = br.ignore_count - 1 }

  abbrev passed : ℕ → Debugger → Debugger
  passed n d = record (traced pc d) { breaks = write_break n counted d.breaks }

  passed-IsFirst :
      (d : Debugger) (n : ℕ) (br : Breakpoint)
      → IsFirst d n br
      → IsFirst (passed n d) n (counted br)
  unfolding write_break brkfind_by_addr
  passed-IsFirst d n br f = record {
    active = ground (arith, f.active, f.entry);
    first = ground (
      arith,
      f.entry,
      f.first,
      find_addr-set abspc 0 n d.breaks.breaktab br (counted br) f.entry refl,
    );
    entry = ground (
      arith,
      f.entry,
      get_elem?-set_self d.breaks.breaktab n (counted br)
          (get_elem?-lt d.breaks.breaktab n br f.entry),
    );
  }

  passed-IsSimple : (br : Breakpoint) → IsSimple br → IsSimple (counted br)
  passed-IsSimple br p = record {
    on = p.on;
    execute = p.execute;
    every_thread = p.every_thread;
    always = p.always;
    stops = p.stops;
    stays = p.stays;
  }

  -- It is counted down,
  command_insn_hook-passed :
      (d : Debugger) (n k : ℕ) (br : Breakpoint)
      → IsAt
      → IsFirst d n br
      → IsSimple br
      → br.ignore_count ≡ suc k
      → command_insn_hook ops (at_target d) ≡ done tt (at_target (passed n d))
  unfolding count_hit
  command_insn_hook-passed d n k br at f p left =
      command_insn_hook-first d n br at f
      ∙ chosen (br.enabled && br.on_execute) _ _ _ (ground (arith, p.on, p.execute))
      ∙ stop_at-simple n br (at_target (traced pc d)) (at_target (passed n d)) p
          (chosen (nonzero br.ignore_count) _ _ _ (ground (arith, left)))

  -- and stops the processor then.
  pub command_insn_hook-stops :
      (d : Debugger) (n : ℕ) (br : Breakpoint)
      → IsAt
      → IsFirst d n br
      → IsSimple br
      → br.ignore_count ≡ 0
      → command_insn_hook ops (at_target d)
        ≡ done tt (at_target (record (traced pc d) { monitor_on = true }))
  unfolding count_hit
  command_insn_hook-stops d n br at f p left =
      command_insn_hook-first d n br at f
      ∙ chosen (br.enabled && br.on_execute) _ _ _ (ground (arith, p.on, p.execute))
      ∙ stop_at-simple n br (at_target (traced pc d)) _ p (
          unchosen (nonzero br.ignore_count) _ _ _ (ground (arith, left))
          ∙ ap (λ b. done tt (at_target (record (traced pc d) { monitor_on = not b }))) p.stops)

  -- Where the processor stays at an address whose first entry in the table is an enabled,
  -- unconditional breakpoint on execution for every thread, which stops the processor and is not
  -- temporary, where PC and its absolute address are read without a change, some breakpoint is
  -- counted as active, and the monitor is off: after as many calls of `command_insn_hook` as the
  -- ignore count says the monitor is still off, and the next call turns it on.
  pub command_insn_hook-ignore_count :
      (d : Debugger) (n k : ℕ) (br : Breakpoint)
      → IsAt
      → IsFirst d n br
      → IsSimple br
      → br.ignore_count ≡ k
      → d.monitor_on ≡ false
      → (d1 : Debugger) × (d2 : Debugger) × (times k (command_insn_hook ops) (at_target d)
          ≡ done tt (at_target d1))
        × (d1.monitor_on ≡ false)
        × (command_insn_hook ops (at_target d1) ≡ done tt (at_target d2))
        × (d2.monitor_on ≡ true)
  command_insn_hook-ignore_count d n zero br at f p left off = (
    d,
    record (traced pc d) { monitor_on = true },
    refl,
    off,
    command_insn_hook-stops d n br at f p left,
    refl,
  )
  command_insn_hook-ignore_count d n (suc k) br at f p left off =
      let (d1, d2, runs, off1, stops, on2) =
        command_insn_hook-ignore_count (passed n d) n k (counted br) at (passed-IsFirst d n br f)
          (passed-IsSimple br p) (omega arith) off in
      (d1, d2, go_on _ _ (command_insn_hook-passed d n k br at f p left) runs, off1, stops, on2)
