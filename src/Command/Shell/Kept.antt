-- ===== src/Command/Shell/Kept.antt =====
-- What a command line keeps (command.c): the table of breakpoints stays counted.
use exec.Base.{ℕ, zero, suc, ◌+◌, ◌≡◌, refl, ◌∙◌, sym, ap, subst, Option, none, some, inl, inr}
use exec.Base.Run.{M, Outcome, done, exited, undefined}
use exec.Base.Kept.{Ends, Keeps}
use exec.Symtab.{CString}
use exec.Command.{Breakpoint, Breaks, write_break, brkalloc, brkfree}
use exec.Command.Table.{IsCounted, write_break-Counted, brkfree-IsCounted}
use exec.Command.Alloc.{brkalloc_lem}
use exec.Command.Session.{Session, must}
use exec.Command.Text.{strtok}
use exec.Command.Shell.{
  Shell, in_shell, on_session, get_shell, on_shell, on_breaks, try_breaks, with_arguments,
  with_outcome, getarg, getargs, new_break, change_break,
}
use exec.Command.Shell.Handlers.{delete_all}

abbrev pub Counted : {T : Type 0} → Shell T → Type 0
Counted sh = IsCounted sh.session.dbg.breaks

brkalloc-IsCounted :
    (breaks : Breaks)
    → IsCounted breaks
    → (n : ℕ) (out : Breaks) → brkalloc breaks ≡ some (n, out)
    → IsCounted out
brkalloc-IsCounted breaks c n out e = elim (brkalloc_lem breaks c) [
  | inl (_, full) ↦ cc
  | inr (k, br, after, _, _, gives, _, counted) ↦
      subst IsCounted (second after out (sym gives ∙ e)) counted
]
  where
    second :
        (x y : Breaks) {k n : ℕ} → ◌≡◌ {A = Option (ℕ × Breaks)} (some (k, x)) (some (n, y)) → x ≡ y
    second x y h = ap (λ (o : Option (ℕ × Breaks)). elim o [ none ↦ x | some p ↦ p.1 ]) h

module _ {T : Type 0} where
  pub on_session-Keeps :
      {A : Type 0} {m : M (Session T) A}
      → ((b : Breaks) → Keeps (λ (s : Session T). s.dbg.breaks ≡ b) m)
      → Keeps Counted (on_session m)
  on_session-Keeps {m = m} h = record {
    ends = λ sh c. by_outcome sh c (m sh.session) ((h sh.session.dbg.breaks).ends sh.session refl);
  }
    where
      by_outcome :
          {A : Type 0} (sh : Shell T)
          → Counted sh
          → (r : Outcome (Session T) A)
          → Ends (λ (s : Session T). s.dbg.breaks ≡ sh.session.dbg.breaks) r
          → Ends Counted (in_shell sh r)
      by_outcome sh c (done a s) e = subst IsCounted (sym e) c
      by_outcome sh c (exited k s) e = tt
      by_outcome sh c undefined e = tt

  -- A command of the session that may change the breakpoints, but keeps them counted.
  pub on_session-Counted :
      {A : Type 0} {m : M (Session T) A}
      → Keeps (λ (s : Session T). IsCounted s.dbg.breaks) m
      → Keeps Counted (on_session m)
  on_session-Counted {m = m} h = record {
    ends = λ sh c. by_outcome sh (m sh.session) (h.ends sh.session c);
  }
    where
      by_outcome :
          {A : Type 0} (sh : Shell T) (r : Outcome (Session T) A)
          → Ends (λ (s : Session T). IsCounted s.dbg.breaks) r
          → Ends Counted (in_shell sh r)
      by_outcome sh (done a s) e = e
      by_outcome sh (exited k s) e = tt
      by_outcome sh undefined e = tt

  pub on_shell-Keeps :
      (f : Shell T → Shell T)
      → ((sh : Shell T) → (f sh).session.dbg.breaks ≡ sh.session.dbg.breaks)
      → Keeps Counted (on_shell f)
  on_shell-Keeps f h = record { ends = λ sh c. subst IsCounted (sym (h sh)) c }

  pub on_breaks-Keeps :
      (f : Breaks → Breaks)
      → ((breaks : Breaks) → IsCounted breaks → IsCounted (f breaks))
      → Keeps {S = Shell T} Counted (on_breaks f)
  on_breaks-Keeps f h = record { ends = λ sh c. h sh.session.dbg.breaks c }

  pub Keeps-must : {A : Type 0} (o : Option A) → Keeps {S = Shell T} Counted (must o)
  Keeps-must none = record { ends = λ s p. tt }
  Keeps-must (some a) = record { ends = λ s p. p }

  pub get_shell-Keeps : Keeps {S = Shell T} Counted get_shell
  get_shell-Keeps = record { ends = λ sh c. c }

  pub getarg-Keeps : Keeps {S = Shell T} Counted getarg
  unfolding getarg
  getarg-Keeps = record { ends = λ sh c. by_token sh c (strtok sh.arguments) }
    where
      by_token :
          (sh : Shell T)
          → Counted sh
          → (o : Option (CString × CString)) → Ends Counted (with_arguments o sh)
      by_token sh c none = c
      by_token sh c (some (t, r)) = c

  pub getargs-Keeps : Keeps {S = Shell T} Counted getargs
  unfolding getargs
  getargs-Keeps = record { ends = λ sh c. c }

  pub try_breaks-Keeps :
      {A : Type 0} (f : Breaks → Option (A × Breaks))
      → ((breaks : Breaks)
          → IsCounted breaks
          → (a : A) (out : Breaks) → f breaks ≡ some (a, out)
          → IsCounted out)
      → Keeps {S = Shell T} Counted (try_breaks f)
  try_breaks-Keeps {A} f h = record {
    ends = λ sh c. by_outcome sh c (f sh.session.dbg.breaks) refl;
  }
    where
      by_outcome :
          (sh : Shell T)
          → Counted sh
          → (o : Option (A × Breaks)) → f sh.session.dbg.breaks ≡ o
          → Ends Counted (with_outcome o sh)
      by_outcome sh c none e = tt
      by_outcome sh c (some (a, out)) e = h sh.session.dbg.breaks c a out e

  pub new_break-Keeps : Keeps {S = Shell T} Counted new_break
  unfolding new_break
  new_break-Keeps = try_breaks-Keeps brkalloc brkalloc-IsCounted

pub change_break-Keeps :
    {T : Type 0} (n : ℕ) (f : Breakpoint → Breakpoint)
    → ((br : Breakpoint) → ((f br).enabled ≡ br.enabled) × ((f br).used ≡ br.used))
    → Keeps {S = Shell T} Counted (change_break n f)
unfolding change_break
change_break-Keeps n f same = on_breaks-Keeps (write_break n f) (write_break-Counted n f same)

pub delete_all-IsCounted :
    (count id : ℕ) (breaks : Breaks) → IsCounted breaks → IsCounted (delete_all count id breaks)
unfolding delete_all
delete_all-IsCounted zero id breaks c = c
delete_all-IsCounted (suc count) id breaks c =
    delete_all-IsCounted count (id + 1) (brkfree id breaks) (brkfree-IsCounted breaks id c)
