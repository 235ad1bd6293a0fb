-- ===== src/Command/Shell/Reading.antt =====
-- Reading command lines (command.c, `command_exec` and `command_loop`; monitor.c, `check_break` and
-- `monitor6809`). A script may source itself, so that `command_loop` need not end: it is a relation.
-- A line is what `fgets` gives, with its newline; one of 255 characters or more is not split.
use exec.Base.{
  zero, suc, Bool, true, false, ◌≡◌, Option, none, some, List, [], ◌∷◌, ◌==◌, ◌&&◌, if◌then◌else◌,
}
use exec.Base.Int.{pos, negsuc, ltb_ℤ}
use exec.Base.Run.{M, done, ◌>>=◌, ◌>>◌, pure}
use exec.Symtab.{CString}
use exec.Command.{brkfree_temps}
use exec.Command.Session.{Target}
use exec.Command.Eval.{eval}
use exec.Command.Shell.{Display, Shell, Controls, on_session, get_shell, on_shell, with_breaks}
use exec.Command.Shell.Lookup.{command_exec_line}

-- `check_break`: whether it returns 1.
unfoldable pub check_break : {T : Type 0} → M (Shell T) Bool
check_break sh = elim sh.auto_break_insn_count [
  | zero ↦ done false sh
  | suc left ↦ done (left == 0) (record sh { auto_break_insn_count = left })
]

abbrev pub is_script : {T : Type 0} → Shell T → Bool
is_script sh = elim sh.command_input [ none ↦ false | some _ ↦ true ]

-- The next line of the input, `none` at its end.
unfoldable pub read_line : {T : Type 0} → M (Shell T) (Option CString)
read_line sh = elim sh.command_input [
  | none ↦ elim sh.stdin [
    | [] ↦ done none sh
    | line ∷ rest ↦ done (some line) (record sh { stdin = rest })
  ]
  | some lines ↦ elim lines [
    | [] ↦ done none sh
    | line ∷ rest ↦ done (some line) (record sh { command_input = some rest })
  ]
]

module _ {T : Type 0} (ops : Target T) (ctl : Controls T) where
  -- The expressions are copies.
  unfoldable pub display_print : List Display → M (Shell T) (Unit {0})
  unfolding eval
  display_print [] = pure tt
  display_print (ds ∷ rest) =
      if ds.used
      then (do (_, _) ← on_session (eval ops ds.expr); display_print rest)
      else display_print rest

  -- `command_exec`: false where the input has ended.
  unfoldable pub command_exec : M (Shell T) Bool
  unfolding read_line command_exec_line
  command_exec = do
    input ← read_line
    elim input [ none ↦ pure false | some line ↦ do command_exec_line ops ctl line; pure true ]

  -- The loop over the lines; the flag tells whether the input has ended.
  pub data Reads : Shell T → Bool → Shell T → Type 0 where
    left : {s : Shell T} → ltb_ℤ s.exit_command_loop (pos 0) ≡ false → Reads s false s
    ended :
        {s s' : Shell T}
        → ltb_ℤ s.exit_command_loop (pos 0) ≡ true
        → command_exec s ≡ done false s'
        → Reads s true s'
    again :
        {s s1 s2 : Shell T} {e : Bool}
        → ltb_ℤ s.exit_command_loop (pos 0) ≡ true
        → command_exec s ≡ done true s1
        → Reads s1 e s2
        → Reads s e s2

  -- From `restart` to the loop.
  unfoldable pub begin : M (Shell T) (Unit {0})
  unfolding display_print
  begin = do
    sh ← get_shell
    if is_script sh then pure tt else display_print sh.displaytab
    on_shell (λ sh. record sh { exit_command_loop = negsuc 0 })

  -- After a script the loop goes on with `stdin`.
  pub data Restarts : Shell T → Shell T → Type 0 where
    returned :
        {s s1 s2 : Shell T} {e : Bool}
        → begin s ≡ done tt s1
        → Reads s1 e s2
        → (e && is_script s2) ≡ false
        → Restarts s s2
    restarted :
        {s s1 s2 s3 : Shell T}
        → begin s ≡ done tt s1
        → Reads s1 true s2
        → is_script s2 ≡ true
        → Restarts (record s2 { command_input = none }) s3
        → Restarts s s3

  -- `command_loop`, which returns `exit_command_loop`.
  abbrev pub CommandLoop : Shell T → Shell T → Type 0
  CommandLoop s s' = Restarts (with_breaks brkfree_temps s) s'
