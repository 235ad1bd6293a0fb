-- ===== src/Command/Shell/Options.antt =====
-- What the options of a watchpoint keep of its entry (command.c, `cmd_watch1`).
use exec.Base.{
  ℕ, ◌≡◌, refl, ◌∙◌, ap, subst, Bool, true, false, Option, none, some, List, [], ◌∷◌, get_elem?,
  if◌then◌else◌, arith, ltb, length,
}
use exec.Base.Word.{low}
use exec.Symtab.{CString, str_eq}
use exec.Command.{Breakpoint, Breaks, write_break}
use exec.Command.Table.{IsCounted, write_break-IsCounted, free_is_disabled}
use exec.Command.Text.{strtoul}
use exec.Command.Shell.Handlers.{watch_break, watch_options, word_print, word_mask, word_if}

-- The options leave an entry enabled and claimed as it was.
data SameFlags (br : Breakpoint) : Option Breakpoint → Type 0 where
  refused : SameFlags br none
  same :
      {out : Breakpoint} → out.enabled ≡ br.enabled → out.used ≡ br.used → SameFlags br (some out)

SameFlags-if :
    {br : Breakpoint} (b : Bool) {x y : Option Breakpoint}
    → SameFlags br x
    → SameFlags br y
    → SameFlags br (if b then x else y)
SameFlags-if true h k = h
SameFlags-if false h k = k

SameFlags-changed :
    {br new : Breakpoint} {o : Option Breakpoint}
    → new.enabled ≡ br.enabled
    → new.used ≡ br.used
    → SameFlags new o
    → SameFlags br o
SameFlags-changed e u refused = refused
SameFlags-changed e u (same h k) = same (h ∙ e) (k ∙ u)

watch_options-SameFlags :
    (options : List CString) (br : Breakpoint) → SameFlags br (watch_options options br)
unfolding watch_options
watch_options-SameFlags [] br = same refl refl
watch_options-SameFlags (word ∷ []) br =
    SameFlags-if _ (same refl refl)
      (SameFlags-if _ refused (SameFlags-if _ refused (same refl refl)))
watch_options-SameFlags (word ∷ arg ∷ rest) br =
    let printing : Breakpoint = record br { keep_running = true } in
    let masked : Breakpoint = record br { write_mask = low (strtoul 0 arg) 16 } in
    let conditional : Breakpoint = record br { conditional = true; condition = arg } in
    SameFlags-if (str_eq word word_print)
      (SameFlags-changed {new = printing} refl refl (watch_options-SameFlags (arg ∷ rest) printing))
      (SameFlags-if (str_eq word word_mask)
        (SameFlags-changed {new = masked} refl refl (watch_options-SameFlags rest masked))
        (SameFlags-if (str_eq word word_if)
          (SameFlags-if (ltb (length arg) 128)
            (SameFlags-changed {new = conditional} refl refl
              (watch_options-SameFlags rest conditional))
            refused)
          (watch_options-SameFlags (arg ∷ rest) br)))

module _ (n : ℕ) (options : List CString) (breaks : Breaks) (c : IsCounted breaks) where
  watched-IsCounted :
      (br watched : Breakpoint)
      → get_elem? breaks.breaktab n ≡ some br
      → watched.enabled ≡ br.enabled
      → watched.used ≡ br.used
      → IsCounted (write_break n (λ _. watched) breaks)
  watched-IsCounted br watched here e u =
      write_break-IsCounted breaks c n (λ _. watched)
        λ br' here'. (
          ground (arith, e, here, here'),
          ground (arith, e, u, free_is_disabled breaks.breaktab n br c.disabled here),
        )

  pub watch_break-IsCounted :
      (a : Unit {0}) (out : Breaks) → watch_break n options breaks ≡ some (a, out) → IsCounted out
  unfolding watch_break
  watch_break-IsCounted a out e = by_entry (get_elem? breaks.breaktab n) refl e
    where
      second :
          (x y : Breaks) → ◌≡◌ {A = Option (Unit {0} × Breaks)} (some (tt, x)) (some (a, y)) → x ≡ y
      second x y h = ap (λ (o : Option (Unit {0} × Breaks)). elim o [ none ↦ x | some p ↦ p.1 ]) h

      by_options :
          (br : Breakpoint)
          → get_elem? breaks.breaktab n ≡ some br
          → {o : Option Breakpoint} → SameFlags br o
          → ◌≡◌ {A = Option (Unit {0} × Breaks)}
              (elim o [
                | none ↦ none
                | some watched ↦ some (tt, write_break n (λ _. watched) breaks)
              ])
              (some (a, out))
          → IsCounted out
      by_options br here refused e = cc
      by_options br here (same {out = watched} h k) e =
          subst IsCounted (second (write_break n (λ _. watched) breaks) out e)
            (watched-IsCounted br watched here h k)

      by_entry :
          (o : Option Breakpoint)
          → get_elem? breaks.breaktab n ≡ o
          → ◌≡◌ {A = Option (Unit {0} × Breaks)}
              (elim o [
                | none ↦ none
                | some br ↦ elim (watch_options options br) [
                  | none ↦ none
                  | some watched ↦ some (tt, write_break n (λ _. watched) breaks)
                ]
              ])
              (some (a, out))
          → IsCounted out
      by_entry none here e = cc
      by_entry (some br) here e = by_options br here (watch_options-SameFlags options br) e
