-- ===== src/Core/Stack/Pull.antt =====
-- Pulling from plain memory.
use exec.Base.{ℕ, suc, ◌+◌, ◌*◌, ◌^◌, ◌<◌, ◌≡◌, arith, ap, ◌∙◌, bit_or}
use exec.Base.Word.{add32, low, shl32}
use exec.Base.Bits.{bit_or_fields}
use exec.Base.Run.{done}
use exec.Cpu.{Cpu}
use exec.Core.Board.{Sys, Board}
use exec.Core.Flat.{IsFlat}
use exec.Core.Memory.{rdmem, read_stack16}
use exec.Core.Stack.{sys_ptr, pull8, pull16}

-- The two bytes of a stacked word, high byte first.
abbrev pub word : ℕ → ℕ → ℕ
word high rest = high * 256 + rest

pub join_word :
    (high rest : ℕ) → high < 256 → rest < 256 → bit_or (shl32 high 8) rest ≡ word high rest
join_word high rest p q =
    ap (λ (t : ℕ). bit_or t rest) (unwrapped high p) ∙ bit_or_fields 8 high rest q
  where
    unwrapped : (h : ℕ) → h < 256 → shl32 h 8 ≡ h * 2 ^ 8
    unwrapped h p = omega arith

-- An assignment that leaves the stack pointer alone.
abbrev pub KeepsS : (Cpu → Cpu) → Type 0
KeepsS f = (cpu : Cpu) → (f cpu).s ≡ cpu.s

-- After an assignment, with the pointer at `n`.
abbrev pub pulled : {E : Type 0} → (Cpu → Cpu) → ℕ → Sys E → Sys E
pulled f n s = record { cpu = record (f s.cpu) { s = n }; env = s.env }

module _ {E : Type 0} (board : Board E) (Ok : E → Type 0) (peek : E → ℕ → ℕ) (poke : ℕ → ℕ → E → E)
    (top : ℕ) (flat : IsFlat board Ok peek poke top) where
  next : (m n k : ℕ) → m ≡ n → n + k < suc top → low (add32 m k) 16 ≡ n + k
  next m n k e lt = omega (arith, flat.top_range)

  pull8_here :
      (assign : ℕ → Cpu → Cpu) (s : Sys E) (v : ℕ)
      → Ok s.env
      → s.cpu.s < top
      → peek s.env s.cpu.s ≡ v
      → KeepsS (assign v)
      → pull8 board sys_ptr assign s ≡ done tt (pulled (assign v) (s.cpu.s + 1) s)
  pull8_here assign s v ok lt byte keeps =
      unfold pull8 rdmem in
      rw (flat.read s.cpu.s s ok lt, byte)
        (ap (λ (m : ℕ). done tt (record { cpu = record (assign v s.cpu) { s = m }; env = s.env }))
          (next (assign v s.cpu).s s.cpu.s 1 (keeps s.cpu) (omega arith)))

  pull16_here :
      (assign : ℕ → Cpu → Cpu) (s : Sys E) (high rest : ℕ)
      → Ok s.env
      → s.cpu.s + 1 < top
      → peek s.env s.cpu.s ≡ high
      → peek s.env (s.cpu.s + 1) ≡ rest
      → high < 256
      → rest < 256
      → KeepsS (assign (word high rest))
      → pull16 board sys_ptr assign s ≡ done tt (pulled (assign (word high rest)) (s.cpu.s + 2) s)
  pull16_here assign s high rest ok lt byte byte' p q keeps =
      let second : low (add32 s.cpu.s 1) 16 ≡ s.cpu.s + 1 = omega (arith, flat.top_range) in
      unfold pull16 read_stack16 rdmem in
      rw
        (
          flat.read s.cpu.s s ok (omega arith),
          second,
          flat.read (s.cpu.s + 1) s ok lt,
          byte,
          byte',
          join_word high rest p q,
        )
        (ap
          (λ (m : ℕ).
            done tt
              (record { cpu = record (assign (word high rest) s.cpu) { s = m }; env = s.env }))
          (next (assign (word high rest) s.cpu).s s.cpu.s 2 (keeps s.cpu) (omega arith)))

  -- The two pulls of the core, with the pointer at `n`.
  pub pull8_flat :
      (assign : ℕ → Cpu → Cpu) (s : Sys E) (n v : ℕ)
      → Ok s.env
      → s.cpu.s ≡ n
      → n < top
      → peek s.env n ≡ v
      → KeepsS (assign v)
      → pull8 board sys_ptr assign s ≡ done tt (pulled (assign v) (n + 1) s)
  pull8_flat assign s n v ok at lt byte keeps =
      pull8_here assign s v ok (omega arith) (ap (peek s.env) at ∙ byte) keeps
      ∙ ap (λ (m : ℕ). done tt (pulled (assign v) (m + 1) s)) at

  pub pull16_flat :
      (assign : ℕ → Cpu → Cpu) (s : Sys E) (n high rest : ℕ)
      → Ok s.env
      → s.cpu.s ≡ n
      → n + 1 < top
      → peek s.env n ≡ high
      → peek s.env (n + 1) ≡ rest
      → high < 256
      → rest < 256
      → KeepsS (assign (word high rest))
      → pull16 board sys_ptr assign s ≡ done tt (pulled (assign (word high rest)) (n + 2) s)
  pull16_flat assign s n high rest ok at lt byte byte' p q keeps =
      pull16_here assign s high rest ok (omega arith) (ap (peek s.env) at ∙ byte)
        (ap (λ (m : ℕ). peek s.env (m + 1)) at ∙ byte') p q keeps
      ∙ ap (λ (m : ℕ). done tt (pulled (assign (word high rest)) (m + 2) s)) at
