-- ===== src/Store/Disk.antt =====
-- The file system's memory and the disk: the two tables are flat bytes, as the code copies them to
-- and from sectors. A disk access always succeeds here: no caller looks at its result.
pub mod Laws
pub mod Words
use shahi_n_kernel.Prelude.{
  ℕ, zero, suc, ◌+◌, ◌-◌, ◌*◌, ◌/◌, ◌%◌, ◌^◌, Bool, ◌&&◌, List, [], ◌∷◌, ltb, leb, ◌==◌,
  if◌then◌else◌,
}

abbrev pub sector_size : ℕ
sector_size = 512

abbrev pub file_table_sector : ℕ
file_table_sector = 2

abbrev pub file_table_sectors : ℕ
file_table_sectors = 8

abbrev pub inode_table_sector : ℕ
inode_table_sector = 20

abbrev pub inode_table_sectors : ℕ
inode_table_sectors = 128

abbrev pub data_start_sector : ℕ
data_start_sector = 10

abbrev pub max_files : ℕ
max_files = 65536

abbrev pub max_inodes : ℕ
max_inodes = 65536

abbrev pub inode_direct_blocks : ℕ
inode_direct_blocks = 12

-- Bytes by address, and sectors by number.
abbrev pub Bytes : Type 0
Bytes = ℕ → ℕ

pub record Store : Type 0 where
  pub table : Bytes
  pub inode_table : Bytes
  pub disk : ℕ → Bytes

-- The sector goes to the 512 bytes at `at`.
unfoldable pub read_sector : (disk : ℕ → Bytes) (lba at : ℕ) → Bytes → Bytes
read_sector disk lba at mem =
    λ a. if leb at a && ltb a (at + sector_size) then disk lba (a - at) else mem a

-- The 512 bytes at `at` go to the sector.
unfoldable pub write_sector : (lba at : ℕ) → Bytes → (ℕ → Bytes) → ℕ → Bytes
write_sector lba at mem disk =
    λ s. λ j. if (s == lba) && ltb j sector_size then mem (at + j) else disk s j

-- The loops over the first `n` sectors of a table.
unfoldable pub load_sectors : (n base : ℕ) (disk : ℕ → Bytes) → Bytes → Bytes
unfolding read_sector
load_sectors zero base disk mem = mem
load_sectors (suc s) base disk mem =
    read_sector disk (base + s) (s * sector_size) (load_sectors s base disk mem)

unfoldable pub save_sectors : (n base : ℕ) → Bytes → (ℕ → Bytes) → ℕ → Bytes
unfolding write_sector
save_sectors zero base mem disk = disk
save_sectors (suc s) base mem disk =
    write_sector (base + s) (s * sector_size) mem (save_sectors s base mem disk)

unfoldable pub load_table : Store → Store
unfolding load_sectors
load_table w = record w { table = load_sectors file_table_sectors file_table_sector w.disk w.table }

unfoldable pub save_table : Store → Store
unfolding save_sectors
save_table w = record w { disk = save_sectors file_table_sectors file_table_sector w.table w.disk }

unfoldable pub inode_load : Store → Store
unfolding load_sectors
inode_load w = record w {
  inode_table = load_sectors inode_table_sectors inode_table_sector w.disk w.inode_table;
}

unfoldable pub inode_save : Store → Store
unfolding save_sectors
inode_save w = record w {
  disk = save_sectors inode_table_sectors inode_table_sector w.inode_table w.disk;
}

-- An unsigned int, low byte first.
unfoldable pub get32 : Bytes → ℕ → ℕ
get32 mem a = mem a + 2 ^ 8 * mem (a + 1) + 2 ^ 16 * mem (a + 2) + 2 ^ 24 * mem (a + 3)

unfoldable pub put_byte : ℕ → ℕ → Bytes → Bytes
put_byte at v mem = λ a. if a == at then v % 2 ^ 8 else mem a

unfoldable pub put32 : ℕ → ℕ → Bytes → Bytes
unfolding put_byte
put32 at v mem = put_byte at v (
    put_byte (at + 1) (v / 2 ^ 8)
      (put_byte (at + 2) (v / 2 ^ 16) (put_byte (at + 3) (v / 2 ^ 24) mem)))

-- `strcpy` of a string to `at`, with its NUL.
unfoldable pub put_string : (at : ℕ) → List ℕ → Bytes → Bytes
unfolding put_byte
put_string at [] mem = put_byte at 0 mem
put_string at (c ∷ s) mem = put_string (at + 1) s (put_byte at c mem)

-- `strcmp(mem + at, s) == 0`
unfoldable pub holds_string : (at : ℕ) → List ℕ → Bytes → Bool
holds_string at [] mem = mem at == 0
holds_string at (c ∷ s) mem = (mem at == c) && holds_string (at + 1) s mem

unfoldable pub memzero : (size : ℕ) → Bytes → Bytes
memzero zero mem = mem
memzero (suc i) mem = λ a. if a == i then 0 else memzero i mem a
