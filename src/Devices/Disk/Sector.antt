-- ===== src/Devices/Disk/Sector.antt =====
-- A sector that is written is read back (disk.c, `disk_write`).
use exec.Base.{
  ℕ, ◌+◌, ◌-◌, ◌*◌, ◌%◌, ◌^◌, ◌<◌, ◌≤◌, ◌≡◌, refl, ◌∙◌, ap, arith, ◌&&◌, some, ltb, leb,
  if◌then◌else◌, bit_or, lt→ltb, Bool-cases, inl, inr,
}
use exec.Base.Bits.{bit_or_fields}
use exec.Devices.Disk.{
  File, Disk, read_sector, write_sector, control, disk_write, fseek, available, transfer_sector,
  in_memory,
}

-- Where a sector begins.
abbrev pub sector_start : ℕ → ℕ → ℕ
sector_start high rest = (high * 256 + rest) * 512

-- The disk where a page of the RAM and a sector are chosen.
abbrev chosen : ℕ → ℕ → ℕ → Disk → Disk
chosen page high rest disk = record disk {
  ram = page * 512;
  offset = sector_start high rest;
  fp = record (disk.fp) { position = sector_start high rest };
}

pub offset_of :
    (high rest : ℕ)
    → high < 256
    → rest < 256
    → bit_or (high * 256 % 2 ^ 64) rest * 512 % 2 ^ 64 ≡ sector_start high rest
offset_of high rest h r =
    let small : high * 256 % 2 ^ 64 ≡ high * 256 = omega arith in
    ap (λ n. bit_or n rest * 512 % 2 ^ 64) small ∙ omega (arith, bit_or_fields 8 high rest r)

pub fseek-sector :
    (high rest : ℕ) (fp : File)
    → high < 256
    → rest < 256
    → fseek (sector_start high rest) fp ≡ record fp { position = sector_start high rest }
fseek-sector high rest fp h r = rw (lt→ltb (sector_start high rest) (2 ^ 63) (omega arith)) refl

transfer_sector-control :
    (page high rest command : ℕ) (disk : Disk)
    → high < 256
    → rest < 256
    → transfer_sector page high rest command disk ≡ control command (chosen page high rest disk)
unfolding disk_write transfer_sector
transfer_sector-control page high rest command disk h r =
    ap (λ n. control command (record disk { ram = page * 512; offset = n; fp = fseek n disk.fp }))
      (offset_of high rest h r)
    ∙ ap
        (λ fp.
          control command
            (record disk { ram = page * 512; offset = sector_start high rest; fp = fp }))
        (fseek-sector high rest disk.fp h r)

in_memory-some :
    (disk after : Disk) → disk.ram + 512 ≤ disk.memory_size → in_memory disk after ≡ some after
in_memory-some disk after fits = ground arith

abbrev written : ℕ → ℕ → ℕ → Disk → Disk
unfolding write_sector
written page high rest disk =
    write_sector (λ j. disk.memory (page * 512 + j)) (chosen page high rest disk)

write_lem :
    (page high rest : ℕ) (disk : Disk)
    → high < 256
    → rest < 256
    → page * 512 + 512 ≤ disk.memory_size
    → transfer_sector page high rest 2 disk ≡ some (written page high rest disk)
unfolding control written
write_lem page high rest disk h r fits =
    transfer_sector-control page high rest 2 disk h r
    ∙ in_memory-some (chosen page high rest disk) (written page high rest disk) fits

read_lem :
    (page high rest : ℕ) (disk : Disk)
    → high < 256
    → rest < 256
    → page * 512 + 512 ≤ disk.memory_size
    → transfer_sector page high rest 1 disk ≡ some (read_sector (chosen page high rest disk))
unfolding control
read_lem page high rest disk h r fits =
    transfer_sector-control page high rest 1 disk h r
    ∙ in_memory-some (chosen page high rest disk) (read_sector (chosen page high rest disk)) fits

written-available :
    (page page' high rest : ℕ) (disk : Disk)
    → available (chosen page' high rest (written page high rest disk)).fp ≡ 512
unfolding written
written-available page page' high rest disk = ground arith

read_byte :
    (page page' high rest i : ℕ) (disk : Disk)
    → (read_sector (chosen page' high rest (written page high rest disk))).memory i ≡ (
        if leb (page' * 512) i && ltb i (page' * 512 + 512)
        then (written page high rest disk).fp.byte (sector_start high rest + (i - page' * 512))
        else disk.memory i)
unfolding read_sector written
read_byte page page' high rest i disk = rw (written-available page page' high rest disk) refl

written_byte :
    (page high rest k : ℕ) (disk : Disk)
    → k < 512
    → (written page high rest disk).fp.byte (sector_start high rest + k)
      ≡ disk.memory (page * 512 + k)
unfolding written
written_byte page high rest k disk lt =
    let at : sector_start high rest + k - sector_start high rest ≡ k = omega arith in
    ground (arith, ap (λ (n : ℕ). disk.memory (page * 512 + n)) at)

-- With both pages within the RAM device and both bytes of the sector number below 256: writing a
-- page to a sector returns, and leaves the page in the sector and the other bytes of the file as
-- they were, zero where it had none; reading the sector into another page then returns, and leaves
-- in it what the first page held, and the rest of the RAM as it was.
pub disk_write-sector :
    (page page' high rest : ℕ) (disk : Disk)
    → high < 256
    → rest < 256
    → page * 512 + 512 ≤ disk.memory_size
    → page' * 512 + 512 ≤ disk.memory_size
    → (d1 : Disk) × (d2 : Disk) × (transfer_sector page high rest 2 disk ≡ some d1)
      × ((j : ℕ)
          → d1.fp.byte j ≡ (
              if leb (sector_start high rest) j && ltb j (sector_start high rest + 512)
              then disk.memory (page * 512 + (j - sector_start high rest))
              else if ltb j disk.fp.size
              then disk.fp.byte j
              else 0))
      × (transfer_sector page' high rest 1 d1 ≡ some d2)
      × ((i : ℕ)
          → d2.memory i ≡ (
              if leb (page' * 512) i && ltb i (page' * 512 + 512)
              then disk.memory (page * 512 + (i - page' * 512))
              else disk.memory i))
disk_write-sector page page' high rest disk h r fits fits' = (
  written page high rest disk,
  read_sector (chosen page' high rest (written page high rest disk)),
  write_lem page high rest disk h r fits,
  λ j. unfold written in refl,
  read_lem page' high rest (written page high rest disk) h r (unfold written in fits'),
  λ i.
      read_byte page page' high rest i disk
      ∙ elim (Bool-cases (leb (page' * 512) i && ltb i (page' * 512 + 512))) [
        | inl inside ↦ ground (arith, inside, written_byte page high rest (i - page' * 512) disk)
        | inr outside ↦ ground (arith, outside)
      ],
)
