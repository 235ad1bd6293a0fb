-- ===== src/Command/Shell/Invariant.antt =====
-- The command loop keeps the table of breakpoints counted (command.c, `command_loop`).
use exec.Command.Shell.{Shell}
use exec.Command.Shell.Kept.{Counted}
