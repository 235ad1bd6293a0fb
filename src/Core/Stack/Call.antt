-- ===== src/Core/Stack/Call.antt =====
-- A subroutine call and its return (6809.c, `jsr` and `rts`).
use exec.Base.{ℕ, ◌-◌, ◌<◌, ◌≤◌, ◌≡◌, refl, sym, arith, ap, ap₂, ◌∙◌, List, [], ◌∷◌}
use exec.Base.Word.{low, shr}
use exec.Base.Run.{done, go_on, done_injective}
use exec.Cpu.{Cpu, tick, get_pc}
use exec.Core.Board.{Sys, Board}
use exec.Core.Flat.{IsFlat}
use exec.Core.Memory.{change_pc}
use exec.Core.Stack.{to_pc, jsr, rts}
use exec.Core.Stack.Push.{pushes, push16_flat, peek-pushes}
use exec.Core.Stack.Pull.{pull16_flat}

-- The return address, as it is stacked downwards.
abbrev pub return_bytes : Cpu → List ℕ
return_bytes cpu = low (low (get_pc cpu) 8) 8 ∷ low (shr (get_pc cpu) 8) 8 ∷ []

module _ {E : Type 0} (board : Board E) (Ok : E → Type 0) (peek : E → ℕ → ℕ) (poke : ℕ → ℕ → E → E)
    (top : ℕ) (flat : IsFlat board Ok peek poke top) where
  -- The memory in the subroutine: the return address is on the stack.
  abbrev pub called : Sys E → E
  called s = flat.on_call 0 (pushes poke s.cpu.s (return_bytes s.cpu) s.env)

  pub jsr_flat :
      (s : Sys E)
      → Ok s.env
      → 2 ≤ s.cpu.s
      → s.cpu.s ≤ top
      → jsr board s
        ≡ done tt
            (record { cpu = record (s.cpu) { s = s.cpu.s - 2; pc = s.cpu.ea }; env = called s })
  unfolding jsr
  jsr_flat s ok lo hi =
      go_on _ _ (push16_flat board Ok peek poke top flat get_pc s ok lo hi)
        (unfold change_pc get_pc in flat.calls 0 _)

  byte_low :
      (s : Sys E)
      → Ok s.env
      → 2 ≤ s.cpu.s
      → s.cpu.s ≤ top
      → peek (called s) (s.cpu.s - 1) ≡ low (low (get_pc s.cpu) 8) 8
  byte_low s ok lo hi =
      flat.peek-on_call 0 _ (s.cpu.s - 1)
      ∙ ap (peek (pushes poke s.cpu.s (return_bytes s.cpu) s.env)) (below s.cpu.s)
      ∙ peek-pushes board Ok peek poke top flat s.cpu.s (return_bytes s.cpu) s.env 0 _ ok hi lo refl
    where
      below : (n : ℕ) → n - 1 ≡ n - 1 - 0
      below n = omega arith

  byte_high :
      (s : Sys E)
      → Ok s.env
      → 2 ≤ s.cpu.s
      → s.cpu.s ≤ top
      → peek (called s) (s.cpu.s - 2) ≡ low (shr (get_pc s.cpu) 8) 8
  byte_high s ok lo hi =
      flat.peek-on_call 0 _ (s.cpu.s - 2)
      ∙ ap (peek (pushes poke s.cpu.s (return_bytes s.cpu) s.env)) (below s.cpu.s)
      ∙ peek-pushes board Ok peek poke top flat s.cpu.s (return_bytes s.cpu) s.env 1 _ ok hi lo refl
    where
      below : (n : ℕ) → n - 2 ≡ n - 1 - 1
      below n = omega arith

  return_flat :
      (s s2 : Sys E)
      → Ok s.env
      → Ok s2.env
      → 2 ≤ s.cpu.s
      → s.cpu.s ≤ top
      → s2.cpu.s ≡ s.cpu.s - 2
      → ((at : ℕ) → s.cpu.s - 2 ≤ at → at < s.cpu.s → peek s2.env at ≡ peek (called s) at)
      → rts board s2
        ≡ done tt (record {
          cpu = record (tick 5 s2.cpu) { s = s.cpu.s; pc = low s.cpu.pc 16 };
          env = flat.on_return s2.env;
        })
  unfolding rts
  return_flat s s2 ok ok2 lo hi sp same = go_on _ _ (flat.returns s2) (
      pull16_flat board Ok peek poke top flat to_pc
        (record { cpu = tick 5 s2.cpu; env = flat.on_return s2.env }) (s.cpu.s - 2)
        (low (shr (get_pc s.cpu) 8) 8) (low (low (get_pc s.cpu) 8) 8) (flat.on_return-Ok s2.env ok2)
        sp (omega arith)
        (flat.peek-on_return s2.env _
          ∙ same (s.cpu.s - 2) (omega arith) (omega arith)
          ∙ byte_high s ok lo hi)
        (flat.peek-on_return s2.env _
          ∙ ap (peek s2.env) (omega arith)
          ∙ same (s.cpu.s - 1) (omega arith) (omega arith)
          ∙ byte_low s ok lo hi)
        (omega arith) (omega arith) (λ c. refl)
      ∙ ap₂
          (λ (n m : ℕ). done tt (record {
            cpu = record (tick 5 s2.cpu) { s = n; pc = m };
            env = flat.on_return s2.env;
          }))
          (omega arith) (unfold get_pc in omega arith))

  -- On a board that, in its good states, serves the addresses below `top` as plain memory, from
  -- such states, with S between 2 and `top`: after `jsr`, from any state in which S and the two
  -- stacked bytes are as `jsr` left them, `rts` returns, restores S, goes to the 16-bit PC from
  -- before the call, takes 5 cycles, and changes no other register.
  pub rts-jsr :
      (s s1 s2 : Sys E)
      → Ok s.env
      → Ok s2.env
      → 2 ≤ s.cpu.s
      → s.cpu.s ≤ top
      → jsr board s ≡ done tt s1
      → s2.cpu.s ≡ s1.cpu.s
      → ((at : ℕ) → s1.cpu.s ≤ at → at < s.cpu.s → peek s2.env at ≡ peek s1.env at)
      → rts board s2
        ≡ done tt (record {
          cpu = record (tick 5 s2.cpu) { s = s.cpu.s; pc = low s.cpu.pc 16 };
          env = flat.on_return s2.env;
        })
  rts-jsr s s1 s2 ok ok2 lo hi run sp same =
      let left : Sys E = record {
        cpu = record (s.cpu) { s = s.cpu.s - 2; pc = s.cpu.ea };
        env = called s;
      } in
      let entered : left ≡ s1 = done_injective left s1 (sym (jsr_flat s ok lo hi) ∙ run) in
      let sp_same : s.cpu.s - 2 ≡ s1.cpu.s = ap (λ s. s.cpu.s) entered in
      return_flat s s2 ok ok2 lo hi (omega arith)
        (λ at p q. same at (omega arith) q ∙ sym (ap (λ s. peek s.env at) entered))
