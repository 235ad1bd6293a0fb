-- ===== src/Cpu/Cc.antt =====
-- The condition code register: `get_cc` and `set_cc` of 6809.c.
use exec.Base.{
  ℕ, ◌<◌, ◌≡◌, refl, sym, ◌∙◌, Bool, true, arith, ◌==◌, ◌&&◌, ltb, if◌then◌else◌, bit_and, bit_or,
}
use exec.Base.Word.{test_bit, nonzero}
use exec.Base.Table.{all_below, all_below_sound, eq_of_table, all_bools, all_bools_sound, bool_eq}
use exec.Cpu.{Cpu, get_cc, set_cc, efi_mask}

-- Every byte that `set_cc` stores is read back by `get_cc`.
pub get_cc-set_cc : (arg : ℕ) (cpu : Cpu) → arg < 256 → get_cc (set_cc arg cpu) ≡ arg
get_cc-set_cc arg cpu h = eq_of_table 256 (λ x. get_cc (set_cc x cpu)) (λ x. x) table arg h
  where
    table : all_below 256 (λ x. get_cc (set_cc x cpu) == x) ≡ true
    table = unfold get_cc set_cc all_below in refl

-- `get_cc` of the stored E, F and I flags and of the five flags tested on demand.
cc_of : ℕ → Bool → Bool → Bool → Bool → Bool → ℕ
cc_of e h n z v c =
    let r0 = bit_and e efi_mask in
    let r1 = if h then bit_or r0 0x20 else r0 in
    let r2 = if n then bit_or r1 0x08 else r1 in
    let r3 = if z then bit_or r2 0x04 else r2 in
    let r4 = if v then bit_or r3 0x02 else r3 in if c then bit_or r4 0x01 else r4

-- Whether a byte shows the given flags at their places.
abbrev shows : ℕ → ℕ → Bool → Bool → Bool → Bool → Bool → Bool
shows r e h n z v c =
    ltb r 256
    && (bit_and r efi_mask == bit_and e efi_mask)
    && bool_eq (test_bit r 5) h
    && bool_eq (test_bit r 3) n
    && bool_eq (test_bit r 2) z
    && bool_eq (test_bit r 1) v
    && bool_eq (test_bit r 0) c

shows_table :
    all_below 256 (λ e. all_bools λ h.
      all_bools
        λ n. all_bools λ z. all_bools λ v. all_bools λ c. shows (cc_of e h n z v c) e h n z v c)
    ≡ true
unfolding all_below cc_of
shows_table = refl

cc_of-shows : (e : ℕ) (h n z v c : Bool) → e < 256 → shows (cc_of e h n z v c) e h n z v c ≡ true
cc_of-shows e h n z v c lt =
    all_bools_sound (λ c. shows (cc_of e h n z v c) e h n z v c) c
      (all_bools_sound (λ v. all_bools λ c. shows (cc_of e h n z v c) e h n z v c) v
        (all_bools_sound (λ z. all_bools λ v. all_bools λ c. shows (cc_of e h n z v c) e h n z v c)
          z
          (all_bools_sound
            (λ n.
              all_bools λ z. all_bools λ v. all_bools λ c. shows (cc_of e h n z v c) e h n z v c)
            n
            (all_bools_sound
              (λ h. all_bools λ n.
                all_bools λ z. all_bools λ v. all_bools λ c. shows (cc_of e h n z v c) e h n z v c)
              h
              (all_below_sound 256
                (λ e. all_bools λ h. all_bools λ n.
                  all_bools
                    λ z. all_bools λ v. all_bools λ c. shows (cc_of e h n z v c) e h n z v c)
                e shows_table lt)))))

-- What a byte of condition codes says of the registers, flag by flag.
pub record IsCc (r : ℕ) (cpu : Cpu) : Type 0 where
  pub byte : r < 256
  pub efi_flags : bit_and r efi_mask ≡ bit_and cpu.efi efi_mask
  pub half : test_bit r 5 ≡ test_bit cpu.h 4
  pub negative : test_bit r 3 ≡ test_bit cpu.n 7
  pub zero_flag : test_bit r 2 ≡ (cpu.z == 0)
  pub overflow : test_bit r 1 ≡ test_bit cpu.ov 7
  pub carry : test_bit r 0 ≡ nonzero cpu.c

shows-IsCc :
    (r : ℕ) (cpu : Cpu)
    → shows r cpu.efi
        (test_bit cpu.h 4)
        (test_bit cpu.n 7)
        (cpu.z == 0)
        (test_bit cpu.ov 7)
        (nonzero cpu.c)
      ≡ true
    → IsCc r cpu
shows-IsCc r cpu h = ground arith

-- With the stored E, F and I flags a byte, `get_cc` is a byte that has E, F and I at bits 7, 6 and
-- 4 and H, N, Z, V and C at bits 5, 3, 2, 1 and 0, each as the machine's state tests it.
pub get_cc-IsCc : (cpu : Cpu) → cpu.efi < 256 → IsCc (get_cc cpu) cpu
unfolding get_cc cc_of
get_cc-IsCc cpu lt = shows-IsCc (get_cc cpu) cpu (
    cc_of-shows cpu.efi (test_bit cpu.h 4) (test_bit cpu.n 7) (cpu.z == 0) (test_bit cpu.ov 7)
      (nonzero cpu.c) lt)

-- Two machines with the same condition code byte have the same flags, each as the code tests it.
pub IsCc-unique :
    (r : ℕ) (cpu cpu' : Cpu)
    → IsCc r cpu
    → IsCc r cpu'
    → (bit_and cpu.efi efi_mask ≡ bit_and cpu'.efi efi_mask)
      × (test_bit cpu.h 4 ≡ test_bit cpu'.h 4)
      × (test_bit cpu.n 7 ≡ test_bit cpu'.n 7)
      × ((cpu.z == 0) ≡ (cpu'.z == 0))
      × (test_bit cpu.ov 7 ≡ test_bit cpu'.ov 7)
      × (nonzero cpu.c ≡ nonzero cpu'.c)
IsCc-unique r cpu cpu' p q = (
  sym p.efi_flags ∙ q.efi_flags,
  sym p.half ∙ q.half,
  sym p.negative ∙ q.negative,
  sym p.zero_flag ∙ q.zero_flag,
  sym p.overflow ∙ q.overflow,
  sym p.carry ∙ q.carry,
)
