-- ===== src/Store/Inodes.antt =====
-- The inodes, and the writing of a file's data.
use shahi_n_kernel.Prelude.{
  ℕ, zero, suc, ◌+◌, ◌-◌, ◌*◌, ◌/◌, ◌%◌, ◌^◌, Option, none, some, List, ltb, ◌==◌, if◌then◌else◌,
  length, get_or,
}
use shahi_n_kernel.Store.Disk.{
  Bytes, Store, sector_size, data_start_sector, inode_direct_blocks, max_inodes, get32, put32,
  write_sector,
}
use shahi_n_kernel.Store.Inode

unfoldable pub first_unused : (rounds i : ℕ) → Bytes → Option ℕ
unfolding get32
first_unused zero i inodes = none
first_unused (suc rounds) i inodes =
    let rest = first_unused rounds (suc i) inodes in
    if get32 inodes (Inode.used i) == 0 then some i else rest

unfoldable pub clear_blocks : (n i : ℕ) → Bytes → Bytes
unfolding put32
clear_blocks zero i inodes = inodes
clear_blocks (suc j) i inodes = put32 (Inode.blocks i j) 0 (clear_blocks j i inodes)

unfoldable pub claim : Option ℕ → Store → Option ℕ × Store
unfolding clear_blocks put32
claim none w = (none, w)
claim (some i) w = (
  some i,
  record w {
    inode_table = clear_blocks inode_direct_blocks i (put32 (Inode.used i) 1 w.inode_table);
  },
)

unfoldable pub inode_alloc : Store → Option ℕ × Store
unfolding first_unused claim
inode_alloc w = claim (first_unused max_inodes 0 w.inode_table) w

-- The pointer is known by the index. A null pointer is `none`.
unfoldable pub inode_get : ℕ → Option ℕ
inode_get id = if ltb id max_inodes then some id else none

unfoldable pub sectors_of : (size : ℕ) → ℕ
sectors_of size = (size + sector_size - 1) % 2 ^ 32 / sector_size

-- The buffer of the `i`-th sector: data, and zeros behind it.
unfoldable pub buffer_of : (i : ℕ) (data_ : List ℕ) → Bytes
buffer_of i data_ = λ j. get_or data_ (i * sector_size + j) 0

-- Where the `i`-th sector of an inode with this `used` goes.
unfoldable pub sector_for : (used i : ℕ) → ℕ
sector_for used i = (data_start_sector + used * 20 + i) % 2 ^ 32

unfoldable pub write_blocks : (rounds i node : ℕ) (data_ : List ℕ) → Store → Store
unfolding get32 put32 write_sector sector_for buffer_of
write_blocks zero i node data_ w = w
write_blocks (suc rounds) i node data_ w =
    let sector = sector_for (get32 w.inode_table (Inode.used node)) i in
    let disk = write_sector sector 0 (buffer_of i data_) w.disk in
    let inode_table = put32 (Inode.blocks node i) sector w.inode_table in
    write_blocks rounds (suc i) node data_ (record w { disk = disk; inode_table = inode_table })

unfoldable pub rounds_of : (sectors : ℕ) → ℕ
rounds_of sectors = if ltb sectors inode_direct_blocks then sectors else inode_direct_blocks

unfoldable pub arabfs_write_data : (node : ℕ) (data_ : List ℕ) → Store → Store
unfolding put32 write_blocks rounds_of sectors_of
arabfs_write_data node data_ w =
    let size = length data_ % 2 ^ 32 in
    let w' = record w { inode_table = put32 (Inode.size node) size w.inode_table } in
    write_blocks (rounds_of (sectors_of size)) 0 node data_ w'
