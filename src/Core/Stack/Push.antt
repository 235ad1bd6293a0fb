-- ===== src/Core/Stack/Push.antt =====
-- Pushing on plain memory: the bytes of a list, stored downwards.
use exec.Base.{
  ℕ, zero, suc, ◌+◌, ◌-◌, ◌<◌, ◌≤◌, ◌≡◌, refl, sym, arith, ap, ap₂, ◌∙◌, List, [], ◌∷◌, ◌++◌,
  length, some, get_elem?,
}
use exec.Base.Word.{add32, sub32, shr, low}
use exec.Base.Run.{done}
use exec.Cpu.{Cpu}
use exec.Core.Board.{Sys, Board}
use exec.Core.Flat.{IsFlat}
use exec.Core.Memory.{wrmem, write_stack16}
use exec.Core.Stack.{sys_ptr, push8, push16}

module _ {E : Type 0} (poke : ℕ → ℕ → E → E) where
  abbrev pub pushes : ℕ → List ℕ → E → E
  pushes sp [] e = e
  pushes sp (b ∷ bs) e = pushes (sp - 1) bs (poke (sp - 1) b e)

  abbrev pub pushed : List ℕ → Sys E → Sys E
  pushed bs s = record {
    cpu = record (s.cpu) { s = s.cpu.s - length bs };
    env = pushes s.cpu.s bs s.env;
  }

  pushes-append :
      (sp : ℕ) (bs cs : List ℕ) (e : E)
      → pushes sp (bs ++ cs) e ≡ pushes (sp - length bs) cs (pushes sp bs e)
  pushes-append sp [] cs e = ap (λ (n : ℕ). pushes n cs e) (omega arith)
  pushes-append sp (b ∷ bs) cs e =
      pushes-append (sp - 1) bs cs (poke (sp - 1) b e)
      ∙ ap (λ (n : ℕ). pushes n cs (pushes (sp - 1) bs (poke (sp - 1) b e))) (omega arith)

  length-append' : (bs cs : List ℕ) → length (bs ++ cs) ≡ length bs + length cs
  length-append' [] cs = omega arith
  length-append' (b ∷ bs) cs = omega (arith, length-append' bs cs)

  -- Two runs of pushes are one.
  pub pushed-pushed : (bs cs : List ℕ) (s : Sys E) → pushed cs (pushed bs s) ≡ pushed (bs ++ cs) s
  pushed-pushed bs cs s =
      ap₂ (λ (n : ℕ) (e : E). record { cpu = record (s.cpu) { s = n }; env = e })
        (omega (arith, length-append' bs cs)) (sym (pushes-append s.cpu.s bs cs s.env))

module _ {E : Type 0} (board : Board E) (Ok : E → Type 0) (peek : E → ℕ → ℕ) (poke : ℕ → ℕ → E → E)
    (top : ℕ) (flat : IsFlat board Ok peek poke top) where
  -- The two pushes of the core.
  pub push8_flat :
      (value : Cpu → ℕ) (s : Sys E)
      → Ok s.env
      → 1 ≤ s.cpu.s
      → s.cpu.s ≤ top
      → push8 board sys_ptr value s
        ≡ done tt (pushed poke (low (value (record (s.cpu) { s = s.cpu.s - 1 })) 8 ∷ []) s)
  push8_flat value s ok lo hi =
      let fit : low (sub32 s.cpu.s 1) 16 ≡ s.cpu.s - 1 = omega (arith, flat.top_range) in
      unfold push8 wrmem in rw fit (flat.write (s.cpu.s - 1) _ _ ok (omega arith))

  pub push16_flat :
      (value : Cpu → ℕ) (s : Sys E)
      → Ok s.env
      → 2 ≤ s.cpu.s
      → s.cpu.s ≤ top
      → let val = value (record (s.cpu) { s = s.cpu.s - 2 }) in
        push16 board sys_ptr value s
        ≡ done tt (pushed poke (low (low val 8) 8 ∷ low (shr val 8) 8 ∷ []) s)
  push16_flat value s ok lo hi =
      let fit : low (sub32 s.cpu.s 2) 16 ≡ s.cpu.s - 2 = omega (arith, flat.top_range) in
      let next : low (add32 (s.cpu.s - 2) 1) 16 ≡ s.cpu.s - 1 = omega (arith, flat.top_range) in
      let below : s.cpu.s - 2 ≡ s.cpu.s - 1 - 1 = omega arith in
      let lowered : Sys E = record { cpu = record (s.cpu) { s = s.cpu.s - 2 }; env = s.env } in
      let val = value lowered.cpu in
      unfold push16 write_stack16 wrmem in
      rw (fit, next, flat.write (s.cpu.s - 1) (low (low val 8) 8) lowered ok (omega arith))
        (flat.write (s.cpu.s - 2) _ _ (flat.poke-Ok (s.cpu.s - 1) _ s.env ok (omega arith))
            (omega arith)
          ∙ ap
              (λ (n : ℕ). done tt (record {
                cpu = record (s.cpu) { s = s.cpu.s - 2 };
                env = poke n (low (shr (value (record (s.cpu) { s = s.cpu.s - 2 })) 8) 8) (
                    poke (s.cpu.s - 1) (low (low (value (record (s.cpu) { s = s.cpu.s - 2 })) 8) 8)
                      s.env);
              }))
              below)

  -- The pushes keep what the board needs.
  pub pushes-Ok :
      (sp : ℕ) (bs : List ℕ) (e : E) → Ok e → sp ≤ top → length bs ≤ sp → Ok (pushes poke sp bs e)
  pushes-Ok sp [] e ok hi fit = ok
  pushes-Ok sp (b ∷ bs) e ok hi fit =
      pushes-Ok (sp - 1) bs (poke (sp - 1) b e) (flat.poke-Ok (sp - 1) b e ok (omega arith))
        (omega arith) (omega arith)

  -- An address at or above the pointer keeps its byte.
  pub peek-pushes_above :
      (sp : ℕ) (bs : List ℕ) (e : E) (at : ℕ)
      → Ok e
      → sp ≤ top
      → length bs ≤ sp
      → sp ≤ at
      → at < top
      → peek (pushes poke sp bs e) at ≡ peek e at
  peek-pushes_above sp [] e at ok hi fit up lt = refl
  peek-pushes_above sp (b ∷ bs) e at ok hi fit up lt =
      peek-pushes_above (sp - 1) bs (poke (sp - 1) b e) at
        (flat.poke-Ok (sp - 1) b e ok (omega arith)) (omega arith) (omega arith) (omega arith) lt
      ∙ flat.peek-poke (sp - 1) b at e ok (omega arith) lt
      ∙ ground arith

  -- The byte `i` of what was pushed is read back.
  pub peek-pushes :
      (sp : ℕ) (bs : List ℕ) (e : E) (i b : ℕ)
      → Ok e
      → sp ≤ top
      → length bs ≤ sp
      → get_elem? bs i ≡ some b
      → peek (pushes poke sp bs e) (sp - 1 - i) ≡ b
  peek-pushes sp [] e i b ok hi fit at = ground arith
  peek-pushes sp (x ∷ bs) e zero b ok hi fit at =
      peek-pushes_above (sp - 1) bs (poke (sp - 1) x e) (sp - 1 - 0)
        (flat.poke-Ok (sp - 1) x e ok (omega arith)) (omega arith) (omega arith) (omega arith)
        (omega arith)
      ∙ flat.peek-poke (sp - 1) x (sp - 1 - 0) e ok (omega arith) (omega arith)
      ∙ ground arith
  peek-pushes sp (x ∷ bs) e (suc i) b ok hi fit at =
      ap (peek (pushes poke (sp - 1) bs (poke (sp - 1) x e))) (shift sp i)
      ∙ peek-pushes (sp - 1) bs (poke (sp - 1) x e) i b (flat.poke-Ok (sp - 1) x e ok (omega arith))
          (omega arith) (omega arith) at
    where
      shift : (sp i : ℕ) → sp - 1 - suc i ≡ sp - 1 - 1 - i
      shift sp i = omega arith

  -- A push after others, of a value that does not depend on the pointer.
  pub push8_after :
      (value : Cpu → ℕ) (bs : List ℕ) (v : ℕ) (s : Sys E)
      → Ok s.env
      → length bs + 1 ≤ s.cpu.s
      → s.cpu.s ≤ top
      → ((n : ℕ) → value (record (s.cpu) { s = n }) ≡ v)
      → push8 board sys_ptr value (pushed poke bs s) ≡ done tt (pushed poke (bs ++ low v 8 ∷ []) s)
  push8_after value bs v s ok lo hi steady =
      push8_flat value (pushed poke bs s) (pushes-Ok s.cpu.s bs s.env ok hi (omega arith))
        (omega arith) (omega arith)
      ∙ ap (λ (k : ℕ). done tt (pushed poke (low k 8 ∷ []) (pushed poke bs s))) (steady _)
      ∙ ap (done tt) (pushed-pushed poke bs (low v 8 ∷ []) s)

  pub push16_after :
      (value : Cpu → ℕ) (bs : List ℕ) (v : ℕ) (s : Sys E)
      → Ok s.env
      → length bs + 2 ≤ s.cpu.s
      → s.cpu.s ≤ top
      → ((n : ℕ) → value (record (s.cpu) { s = n }) ≡ v)
      → push16 board sys_ptr value (pushed poke bs s)
        ≡ done tt (pushed poke (bs ++ low (low v 8) 8 ∷ low (shr v 8) 8 ∷ []) s)
  push16_after value bs v s ok lo hi steady =
      push16_flat value (pushed poke bs s) (pushes-Ok s.cpu.s bs s.env ok hi (omega arith))
        (omega arith) (omega arith)
      ∙ ap
          (λ (k : ℕ).
            done tt (pushed poke (low (low k 8) 8 ∷ low (shr k 8) 8 ∷ []) (pushed poke bs s)))
          (steady _)
      ∙ ap (done tt) (pushed-pushed poke bs (low (low v 8) 8 ∷ low (shr v 8) 8 ∷ []) s)
