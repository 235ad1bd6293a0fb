-- ===== src/Core/Indexed/Offset.antt =====
-- The effective address of the indexed modes that need no operand byte (6809.c, `indexed`).
use exec.Base.{
  ℕ, ◌+◌, ◌-◌, ◌/◌, ◌%◌, ◌<◌, ◌≡◌, refl, arith, ap, ◌∙◌, false, bit_or, if◌then◌else◌, ltb,
}
use exec.Base.Word.{test_bit, low, shr, add32}
use exec.Base.Table.{all_below, eq_of_table}
use exec.Base.Run.{done}
use exec.Cpu.{Cpu, tick}
use exec.Core.Board.{Sys, Board}
use exec.Core.Memory.{imm_byte}
use exec.Core.Indexed.{indexed, index_reg, offset_from}

-- The five low bits as a signed number, added to a word.
abbrev pub plus_signed5 : ℕ → ℕ → ℕ
plus_signed5 base post =
    if ltb (post % 32) 16
    then (base + post % 32) % 65536
    else (base + 65536 + post % 32 - 32) % 65536

extended_offset :
    (post : ℕ)
    → post < 128
    → low (if test_bit post 4 then bit_or post 0xfff0 else low post 4) 16
      ≡ (if ltb (post % 32) 16 then post % 32 else 65536 + post % 32 - 32)
extended_offset = eq_of_table 128 _ _ (unfold all_below in refl)

abbrev signed_offset : ℕ → ℕ
signed_offset post = if test_bit post 4 then bit_or post 0xfff0 else low post 4

added :
    (base post : ℕ) → post < 128 → low (add32 base (signed_offset post)) 16 ≡ plus_signed5 base post
added base post lt = ground (arith, extended_offset post lt)

same_reg : (r pc : ℕ) (cpu : Cpu) → index_reg r (record cpu { pc = pc }) ≡ index_reg r cpu
same_reg r pc cpu = unfold index_reg in refl

-- The registers after the mode.
abbrev pub offset_cpu : ℕ → Cpu → Cpu
offset_cpu post cpu = record (tick 5 cpu) {
  pc = add32 cpu.pc 1;
  ea = plus_signed5 (index_reg (post / 32) cpu) post;
}

module _ {E : Type 0} (board : Board E) where
  -- When the post byte that is fetched is below 128: the indexed mode returns with the effective
  -- address at the register that the post byte names plus its five low bits as a signed number,
  -- modulo 65536, advances PC by one and takes 5 cycles, and changes nothing else.
  pub indexed_offset :
      (s : Sys E) (post : ℕ)
      → post < 128
      → board.read8 s.cpu.pc s ≡ done post s
      → indexed board s ≡ done tt (record { cpu = offset_cpu post s.cpu; env = s.env })
  unfolding indexed imm_byte offset_from
  indexed_offset s post lt fetched =
      let high : test_bit post 7 ≡ false = ground arith in
      let number : low (shr post 5) 2 ≡ post / 32 = omega arith in
      rw (fetched, high)
        (ap
          (λ (e : ℕ).
            done tt (record {
              cpu = record (tick 5 s.cpu) { pc = add32 s.cpu.pc 1; ea = e };
              env = s.env;
            }))
          (ap (λ (n : ℕ). low (add32 n (signed_offset post)) 16)
              (same_reg (low (shr post 5) 2) (add32 s.cpu.pc 1) s.cpu
                ∙ ap (λ (r : ℕ). index_reg r s.cpu) number)
            ∙ added (index_reg (post / 32) s.cpu) post lt))
