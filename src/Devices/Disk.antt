-- ===== src/Devices/Disk.antt =====
-- The disk (disk.c): it moves sectors between a file and a RAM device. C's `fread`, `fwrite` and
-- `fseek` are written out for a file that is there, as POSIX has them.
pub mod Sector
pub mod Format
use exec.Base.{
  ℕ, zero, suc, ◌+◌, ◌-◌, ◌*◌, ◌/◌, ◌%◌, ◌^◌, Bool, ◌&&◌, Option, none, some, ltb, leb, ◌==◌,
  if◌then◌else◌, bit_or,
}
use exec.Base.Word.{test_bit}

abbrev pub sector_size : ℕ
sector_size = 512

-- `FILE`: the bytes of the file, and where it is read and written.
pub record File : Type 0 where
  pub size : ℕ
  pub byte : ℕ → ℕ
  pub position : ℕ

-- `struct disk_priv`, less what nothing uses; `memory` is what `ramdev->priv` points to, and `ram` an
-- offset in it.
pub record Disk : Type 0 where
  pub fp : File
  pub offset : ℕ
  pub ram : ℕ
  pub sectors : ℕ
  pub memory : ℕ → ℕ
  pub memory_size : ℕ

-- At the end of the file fewer bytes are read.
abbrev pub available : File → ℕ
available fp =
    if leb (fp.position + sector_size) fp.size then sector_size else fp.size - fp.position

unfoldable pub read_sector : Disk → Disk
read_sector disk = record disk {
  fp = record (disk.fp) { position = disk.fp.position + available disk.fp };
  memory = λ i.
      if leb disk.ram i && ltb i (disk.ram + available disk.fp)
      then disk.fp.byte (disk.fp.position + (i - disk.ram))
      else disk.memory i;
}

-- The bytes of the sector are those of `source`; a gap before it is filled with zeros.
unfoldable pub write_sector : (ℕ → ℕ) → Disk → Disk
write_sector source disk = record disk {
  fp = record {
    size =
        if ltb disk.fp.size (disk.fp.position + sector_size)
        then disk.fp.position + sector_size
        else disk.fp.size;
    byte = λ j.
        if leb disk.fp.position j && ltb j (disk.fp.position + sector_size)
        then source (j - disk.fp.position)
        else if ltb j disk.fp.size
        then disk.fp.byte j
        else 0;
    position = disk.fp.position + sector_size;
  };
}

-- A sector outside the RAM device is undefined.
abbrev pub in_memory : Disk → Disk → Option Disk
in_memory disk after = if leb (disk.ram + sector_size) disk.memory_size then some after else none

-- The control register; flushing changes nothing here.
unfoldable pub control : ℕ → Disk → Option Disk
unfolding read_sector write_sector
control val disk =
    if test_bit val 0
    then in_memory disk (read_sector disk)
    else if test_bit val 1
    then in_memory disk (write_sector (λ j. disk.memory (disk.ram + j)) disk)
    else if test_bit val 3
    then some (write_sector (λ j. 0xff) disk)
    else some disk

-- A negative offset is refused.
abbrev pub fseek : ℕ → File → File
fseek offset fp = record fp { position = if ltb offset (2 ^ 63) then offset else fp.position }

unfoldable pub disk_write : ℕ → ℕ → Disk → Option Disk
unfolding control
disk_write addr val disk =
    if addr == 1
    then some (record disk { ram = val * sector_size })
    else if addr == 2
    then some (record disk { offset = val })
    else if addr == 3
    then (let offset = bit_or (disk.offset * 256 % 2 ^ 64) val * sector_size % 2 ^ 64 in
        some (record disk { offset = offset; fp = fseek offset disk.fp }))
    else if addr == 0
    then control val disk
    else some disk

infixl 5 ◌>>=◌
abbrev pub ◌>>=◌ : Option Disk → (Disk → Option Disk) → Option Disk
none >>= f = none
some disk >>= f = f disk

unfoldable pub disk_reset : Disk → Option Disk
unfolding disk_write
disk_reset disk = disk_write 1 0 disk >>= disk_write 2 0 >>= disk_write 3 0 >>= disk_write 0 4

-- The loop of `disk_format`, with `count` sectors left.
unfoldable pub format_loop : ℕ → ℕ → Disk → Option Disk
unfolding disk_write
format_loop zero sector disk = some disk
format_loop (suc count) sector disk =
    disk_write 2 (sector / 256 % 256) disk
    >>= disk_write 3 (sector % 256)
    >>= disk_write 0 8
    >>= format_loop count (sector + 1)

unfoldable pub disk_format : Disk → Option Disk
unfolding format_loop disk_write
disk_format disk = format_loop disk.sectors 0 disk >>= disk_write 0 4

-- The registers that choose a page of the RAM and a sector, and then the command.
abbrev pub transfer_sector : ℕ → ℕ → ℕ → ℕ → Disk → Option Disk
unfolding disk_write
transfer_sector page high rest command disk =
    disk_write 1 page disk >>= disk_write 2 high >>= disk_write 3 rest >>= disk_write 0 command
