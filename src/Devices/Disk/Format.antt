-- ===== src/Devices/Disk/Format.antt =====
-- Formatting erases every sector (disk.c, `disk_format`).
use exec.Base.{
  ℕ, zero, suc, ◌+◌, ◌*◌, ◌/◌, ◌%◌, ◌<◌, ◌≤◌, ◌≡◌, refl, ◌∙◌, ap, subst, arith, some, ltb,
  Bool-cases, inl, inr,
}
use exec.Devices.Disk.{
  File, Disk, write_sector, control, disk_write, fseek, format_loop, disk_format, ◌>>=◌,
}
use exec.Devices.Disk.Sector.{sector_start, offset_of, fseek-sector}

abbrev chosen : ℕ → Disk → Disk
chosen sector disk = record disk {
  offset = sector * 512;
  fp = record (disk.fp) { position = sector * 512 };
}

-- The disk after a sector is erased.
abbrev erased : ℕ → Disk → Disk
unfolding write_sector
erased sector disk = write_sector (λ j. 0xff) (chosen sector disk)

start_of :
    (sector : ℕ) → sector < 65536 → sector_start (sector / 256 % 256) (sector % 256) ≡ sector * 512
start_of sector lt = omega arith

erase_lem :
    (sector : ℕ) (disk : Disk)
    → sector < 65536
    → (disk_write 2 (sector / 256 % 256) disk >>= disk_write 3 (sector % 256) >>= disk_write 0 8)
      ≡ some (erased sector disk)
unfolding disk_write control erased
erase_lem sector disk lt =
    let high = sector / 256 % 256 in
    let rest = sector % 256 in
    ap (λ n. control 8 (record disk { offset = n; fp = fseek n disk.fp }))
      (offset_of high rest (omega arith) (omega arith))
    ∙ ap (λ fp. control 8 (record disk { offset = sector_start high rest; fp = fp }))
        (fseek-sector high rest disk.fp (omega arith) (omega arith))
    ∙ ap (λ n. control 8 (record disk { offset = n; fp = record (disk.fp) { position = n } }))
        (start_of sector lt)

-- The sectors below `sector` are erased.
record IsErased (sector : ℕ) (fp : File) : Type 0 where
  long : sector * 512 ≤ fp.size
  blank : (j : ℕ) → j < sector * 512 → fp.byte j ≡ 0xff

erased-IsErased :
    (sector : ℕ) (disk : Disk)
    → IsErased sector disk.fp
    → IsErased (sector + 1) (erased sector disk).fp
unfolding erased
erased-IsErased sector disk e = record {
  long = ground arith;
  blank = λ j lt. elim (Bool-cases (ltb j (sector * 512))) [
    | inl before ↦ ground (arith, before, e.long, e.blank j)
    | inr here ↦ ground (arith, here, lt)
  ];
}

format_loop-IsErased :
    (count sector : ℕ) (disk : Disk)
    → sector + count ≤ 65536
    → IsErased sector disk.fp
    → (d : Disk) × (format_loop count sector disk ≡ some d) × IsErased (sector + count) d.fp
unfolding format_loop
format_loop-IsErased zero sector disk fits e =
    (disk, refl, subst (λ n. IsErased n disk.fp) (omega arith) e)
format_loop-IsErased (suc count) sector disk fits e =
    let (d, ran, e') =
      format_loop-IsErased count (sector + 1) (erased sector disk) (omega arith)
        (erased-IsErased sector disk e) in
    (
      d,
      ap (λ o. o >>= format_loop count (sector + 1)) (erase_lem sector disk (omega arith)) ∙ ran,
      subst (λ n. IsErased n d.fp) (omega arith) e',
    )

-- For a disk of at most 65536 sectors and a byte of one of them: `disk_format` returns, the file
-- is then at least as long as the sectors, and the byte is 0xff.
pub disk_format-erases :
    (disk : Disk) (j : ℕ)
    → disk.sectors ≤ 65536
    → j < disk.sectors * 512
    → (d : Disk) × (disk_format disk ≡ some d)
      × (disk.sectors * 512 ≤ d.fp.size)
      × (d.fp.byte j ≡ 0xff)
unfolding disk_format disk_write control
disk_format-erases disk j fits lt =
    let start : IsErased 0 disk.fp = record {
      long = omega arith;
      blank = λ k h. absurd (omega (arith, h));
    } in
    let (d, ran, e) = format_loop-IsErased disk.sectors 0 disk (omega (arith, fits)) start in
    (d, ap (λ o. o >>= disk_write 0 4) ran, omega (arith, e.long), e.blank j (omega (arith, lt)))
