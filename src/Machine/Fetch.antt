-- ===== src/Machine/Fetch.antt =====
-- The processor on the machine: fetching through the bus (6809.c, `imm_byte`; machine.c, `cpu_read8`).
use exec.Base.{ℕ, ◌≡◌, refl, arith, ap, ◌∙◌, length}
use exec.Base.Word.{add32}
use exec.Base.Run.{M, Outcome, done, undefined, go_on, ◌>>=◌, bind_outcome}
use exec.Core.Board.{Sys, Board}
use exec.Core.Memory.{imm_byte}
use exec.Machine.{cpu_read8, cpu_read16, cpu_write8}
use exec.Machine.Device.{Machine, Links}
use exec.Machine.Faults.{cpu_read8_outside}

-- `read8`, `read16` and `write8` of 6809.c are the accesses of machine.c; the rest is `hooks`.
abbrev pub bus_board : Links → Board Machine → Board Machine
bus_board links hooks = record hooks {
  read8 = cpu_read8 links;
  read16 = cpu_read16 links;
  write8 = cpu_write8 links;
}

stuck :
    {A B : Type 0} (r : Outcome (Sys Machine) A) (f : A → M (Sys Machine) B)
    → r ≡ undefined
    → bind_outcome r f ≡ undefined
stuck r f e = ap (λ r. bind_outcome r f) e

-- On a board that fetches through the 512 bus maps: when PC is 0xffff and the byte there is
-- served, fetching it and then the next byte is undefined, since PC goes on to 65536, which no map
-- covers.
pub imm_byte-imm_byte_end :
    (links : Links) (hooks : Board Machine) (s : Sys Machine) (opcode : ℕ)
    → s.cpu.pc ≡ 0xffff
    → length s.env.busmaps ≡ 512
    → cpu_read8 links 0xffff s ≡ done opcode s
    → (imm_byte (bus_board links hooks) >>= λ first. imm_byte (bus_board links hooks)) s ≡ undefined
unfolding imm_byte
imm_byte-imm_byte_end links hooks s opcode last size served =
    let next : Sys Machine = record {
      cpu = record (s.cpu) { pc = add32 s.cpu.pc 1 };
      env = s.env;
    } in
    go_on _ _ (go_on _ _ (ap (λ (n : ℕ). cpu_read8 links n s) last ∙ served) refl)
      (stuck _ _ (cpu_read8_outside links (add32 s.cpu.pc 1) next size (omega arith)))
