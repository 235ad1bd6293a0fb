-- ===== src/Core/Interrupt/Return.antt =====
-- `rti` over the frame of an interrupt.
use exec.Base.{
  ℕ, suc, ◌+◌, ◌-◌, ◌%◌, ◌^◌, ◌<◌, ◌≤◌, ◌≡◌, refl, arith, ap, ◌∙◌, some, get_elem?, Bool, true,
  bit_and,
}
use exec.Base.Word.{low, shr, test_bit, shl32}
use exec.Base.Run.{M, done, go_on}
use exec.Cpu.{Cpu, tick, get_cc, set_cc, get_pc, get_cycles, efi_mask}
use exec.Core.Board.{Sys, Board}
use exec.Core.Flat.{IsFlat}
use exec.Core.Stack.{sys_ptr, dp_byte, pull8, pull16, to_a, to_b, to_dp, to_x, to_y, to_pc, when}
use exec.Core.Stack.Pull.{word, pulled, KeepsS, pull8_flat, pull16_flat}
use exec.Core.Interrupt.{rti, pull_state, to_u}
use exec.Core.Interrupt.Frame.{frame}

when-true :
    {E : Type 0} (test : Bool) (act : M (Sys E) (Unit {0})) (s : Sys E)
    → test ≡ true
    → when test act s ≡ act s
when-true test act s e = rw e

-- Memory holds the frame of `saved` below the stack pointer `sp`.
abbrev pub Holds : {E : Type 0} → (E → ℕ → ℕ) → E → ℕ → Cpu → Type 0
Holds peek e sp saved = (i b : ℕ) → get_elem? (frame saved) i ≡ some b → peek e (sp - 1 - i) ≡ b

-- A word through its two stacked bytes.
abbrev pub again : ℕ → ℕ
again v = word (low (shr v 8) 8) (low (low v 8) 8)

pub again_same : (v : ℕ) → v < 65536 → again v ≡ v
again_same v h = omega arith

-- The registers after the frame of `saved` was pulled.
abbrev pulled_state : Cpu → ℕ → Cpu → Cpu
pulled_state saved sp cpu = record cpu {
  a = low saved.a 8;
  b = low saved.b 8;
  dp = shl32 (low (dp_byte saved) 8) 8;
  x = again saved.x;
  y = again saved.y;
  u = again saved.u;
  s = sp;
}

module _ {E : Type 0} (board : Board E) (Ok : E → Type 0) (peek : E → ℕ → ℕ) (poke : ℕ → ℕ → E → E)
    (top : ℕ) (flat : IsFlat board Ok peek poke top) (saved : Cpu) (t : ℕ)
    (fit : t + 12 ≤ top) where
  -- The frame read upwards.
  byte_at :
      (e : E) (k i b : ℕ)
      → Holds peek e (t + 12) saved
      → k + i ≡ 11
      → get_elem? (frame saved) i ≡ some b
      → peek e (t + k) ≡ b
  byte_at e k i b held sum at = ap (peek e) (omega arith) ∙ held i b at

  pull_byte :
      (assign : ℕ → Cpu → Cpu) (s : Sys E) (k i v : ℕ)
      → s.cpu.s ≡ t + k
      → k + i ≡ 11
      → get_elem? (frame saved) i ≡ some v
      → Ok s.env
      → Holds peek s.env (t + 12) saved
      → KeepsS (assign v)
      → pull8 board sys_ptr assign s ≡ done tt (pulled (assign v) (t + k + 1) s)
  pull_byte assign s k i v at sum byte ok held =
      pull8_flat board Ok peek poke top flat assign s (t + k) v ok at (omega arith)
        (byte_at s.env k i v held sum byte)

  pull_word :
      (assign : ℕ → Cpu → Cpu) (s : Sys E) (k i v : ℕ)
      → s.cpu.s ≡ t + k
      → k + suc i ≡ 11
      → get_elem? (frame saved) (suc i) ≡ some (low (shr v 8) 8)
      → get_elem? (frame saved) i ≡ some (low (low v 8) 8)
      → Ok s.env
      → Holds peek s.env (t + 12) saved
      → KeepsS (assign (again v))
      → pull16 board sys_ptr assign s ≡ done tt (pulled (assign (again v)) (t + k + 2) s)
  pull_word assign s k i v at sum high rest ok held =
      pull16_flat board Ok peek poke top flat assign s (t + k) (low (shr v 8) 8) (low (low v 8) 8)
        ok at (omega arith) (byte_at s.env k (suc i) _ held sum high)
        (ap (peek s.env) (omega arith) ∙ byte_at s.env (k + 1) i _ held (omega arith) rest)
        (omega arith) (omega arith)

  pull_state_flat :
      (s : Sys E)
      → s.cpu.s ≡ t + 1
      → Ok s.env
      → Holds peek s.env (t + 12) saved
      → pull_state board s
        ≡ done tt (record { cpu = pulled_state saved (t + 8 + 2) (tick 9 s.cpu); env = s.env })
  unfolding pull_state
  pull_state_flat s at ok held =
      let keeps : (cpu : Cpu) → cpu.s ≡ cpu.s = λ c. refl in
      go_on _ _
        (pull_byte to_a (record { cpu = tick 9 s.cpu; env = s.env }) 1 10 (low saved.a 8) at refl
          refl ok held keeps)
        (go_on _ _ (pull_byte to_b _ 2 9 (low saved.b 8) (omega arith) refl refl ok held keeps) (
          go_on _ _
            (pull_byte to_dp _ 3 8 (low (dp_byte saved) 8) (omega arith) refl refl ok held keeps)
            (go_on _ _ (pull_word to_x _ 4 6 saved.x (omega arith) refl refl refl ok held keeps) (
              go_on _ _ (pull_word to_y _ 6 4 saved.y (omega arith) refl refl refl ok held keeps)
                (pull_word to_u _ 8 2 saved.u (omega arith) refl refl refl ok held keeps)))))

  -- The state that `rti` leaves: the frame in the registers, the stack pointer above it, and only
  -- the monitor's bookkeeping changed outside.
  abbrev pub rti_cpu : Cpu → Cpu
  rti_cpu cpu =
      record (pulled_state saved (t + 8 + 2)
        (tick 9 (record (set_cc (low (get_cc saved) 8) (tick 6 cpu)) { s = t + 0 + 1 }))) {
          pc = again (get_pc saved);
          s = t + 10 + 2;
        }

  pub rti_flat :
      (s : Sys E)
      → s.cpu.s ≡ t
      → Ok s.env
      → Holds peek s.env (t + 12) saved
      → test_bit (bit_and (low (get_cc saved) 8) efi_mask) 7 ≡ true
      → (e : E) × (rti board s ≡ done tt (record { cpu = rti_cpu s.cpu; env = e }))
        × ((a : ℕ) → peek e a ≡ peek s.env a)
  unfolding rti set_cc
  rti_flat s at ok held entire =
      let k : ℕ = (get_cycles (tick 6 s.cpu) + (2 ^ 64 - s.cpu.irq_start_time)) % 2 ^ 64 in
      let e : E = flat.on_rti k (flat.on_return s.env) in
      let same : (a : ℕ) → peek e a ≡ peek s.env a =
        λ a. flat.peek-on_rti k (flat.on_return s.env) a ∙ flat.peek-on_return s.env a in
      let held' : Holds peek e (t + 12) saved = λ i b h. same _ ∙ held i b h in
      let ok' : Ok e = flat.on_rti-Ok k (flat.on_return s.env) (flat.on_return-Ok s.env ok) in
      let hooked : Sys E = record { cpu = tick 6 s.cpu; env = flat.on_return s.env } in
      let keeps : (cpu : Cpu) → cpu.s ≡ cpu.s = λ c. refl in
      (
        e,
        go_on _ _ (flat.returns s) (
            go_on _ _ (flat.counts k hooked) (
              go_on _ _
                (pull_byte set_cc (record { cpu = tick 6 s.cpu; env = e }) 0 11
                  (low (get_cc saved) 8) (omega arith) refl refl ok' held' keeps)
                (go_on _ _ (when-true _ _ _ entire ∙ pull_state_flat _ (omega arith) ok' held') (
                  pull_word to_pc _ 10 0 (get_pc saved) (omega arith) refl refl refl ok' held'
                    keeps)))),
        same,
      )
