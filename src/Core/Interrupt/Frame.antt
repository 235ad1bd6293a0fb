-- ===== src/Core/Interrupt/Frame.antt =====
-- The frame that `irq` and the software interrupts leave on the stack.
use exec.Base.{ℕ, ◌+◌, ◌≤◌, ◌≡◌, refl, arith, List, [], ◌∷◌, ◌++◌, length, take}
use exec.Base.Word.{low, shr}
use exec.Base.Run.{done, go_on}
use exec.Cpu.{Cpu, get_cc, get_pc}
use exec.Core.Board.{Sys, Board}
use exec.Core.Flat.{IsFlat}
use exec.Core.Stack.{sys_ptr, dp_byte, push8, push16}
use exec.Core.Stack.Push.{pushed, push16_flat, push8_after, push16_after}
use exec.Core.Interrupt.{push_state}

-- The bytes in the order in which they are stored, downwards from S.
abbrev pub frame : Cpu → List ℕ
frame cpu =
    low (low (get_pc cpu) 8) 8
    ∷ low (shr (get_pc cpu) 8) 8
    ∷ low (low cpu.u 8) 8
    ∷ low (shr cpu.u 8) 8
    ∷ low (low cpu.y 8) 8
    ∷ low (shr cpu.y 8) 8
    ∷ low (low cpu.x 8) 8
    ∷ low (shr cpu.x 8) 8
    ∷ low (dp_byte cpu) 8
    ∷ low cpu.b 8
    ∷ low cpu.a 8
    ∷ low (get_cc cpu) 8
    ∷ []

-- The first `k` bytes of it.
abbrev first : ℕ → Cpu → List ℕ
first k cpu = take k (frame cpu)

module _ {E : Type 0} (board : Board E) (Ok : E → Type 0) (peek : E → ℕ → ℕ) (poke : ℕ → ℕ → E → E)
    (top : ℕ) (flat : IsFlat board Ok peek poke top) (s : Sys E) (ok : Ok s.env) (lo : 12 ≤ s.cpu.s)
    (hi : s.cpu.s ≤ top) where
  word_next :
      (value : Cpu → ℕ) (bs : List ℕ) (v : ℕ)
      → length bs + 2 ≤ 12
      → ((n : ℕ) → value (record (s.cpu) { s = n }) ≡ v)
      → push16 board sys_ptr value (pushed poke bs s)
        ≡ done tt (pushed poke (bs ++ low (low v 8) 8 ∷ low (shr v 8) 8 ∷ []) s)
  word_next value bs v fit =
      push16_after board Ok peek poke top flat value bs v s ok (omega arith) hi

  byte_next :
      (value : Cpu → ℕ) (bs : List ℕ) (v : ℕ)
      → length bs + 1 ≤ 12
      → ((n : ℕ) → value (record (s.cpu) { s = n }) ≡ v)
      → push8 board sys_ptr value (pushed poke bs s) ≡ done tt (pushed poke (bs ++ low v 8 ∷ []) s)
  byte_next value bs v fit =
      push8_after board Ok peek poke top flat value bs v s ok (omega arith) hi

  -- All registers but S are stored, and S is lowered past them.
  pub push_state_flat : push_state board s ≡ done tt (pushed poke (frame s.cpu) s)
  unfolding push_state get_pc get_cc
  push_state_flat =
      go_on _ _ (push16_flat board Ok peek poke top flat get_pc s ok (omega arith) hi) (
        go_on _ _ (word_next (λ c. c.u) (first 2 s.cpu) s.cpu.u (omega arith) (λ n. refl)) (
          go_on _ _ (word_next (λ c. c.y) (first 4 s.cpu) s.cpu.y (omega arith) (λ n. refl)) (
            go_on _ _ (word_next (λ c. c.x) (first 6 s.cpu) s.cpu.x (omega arith) (λ n. refl)) (
              go_on _ _
                (byte_next dp_byte (first 8 s.cpu) (dp_byte s.cpu) (omega arith) (λ n. refl))
                (go_on _ _ (byte_next (λ c. c.b) (first 9 s.cpu) s.cpu.b (omega arith) (λ n. refl))
                  (go_on _ _
                    (byte_next (λ c. c.a) (first 10 s.cpu) s.cpu.a (omega arith) (λ n. refl))
                    (byte_next get_cc (first 11 s.cpu) (get_cc s.cpu) (omega arith)
                      (λ n. refl))))))))
