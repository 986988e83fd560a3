-- ===== src/Store/Lost.antt =====
-- The data of a new file against the tables that are saved around it.
use shahi_n_kernel.Store.Placed.{claim-used, create_at-blocks}
use shahi_n_kernel.Prelude.{
  ◌-◌, ◌^◌, length, ℕ, ◌+◌, ◌*◌, ◌<◌, ◌≡◌, inr, ap, ◌∙◌, true, Option, none, some, List, arith,
}
use shahi_n_kernel.Store.Disk.{
  get32, max_inodes, Bytes, Store, inode_direct_blocks, sector_size, put32, put_string, max_files,
  save_table, inode_save, inode_table_sector, inode_table_sectors, load_table, inode_load,
}
use shahi_n_kernel.Store.Disk.Laws.{save_sectors-inside, save_sectors-outside}
use shahi_n_kernel.Store.Inode
use shahi_n_kernel.Store.Paths.{arabfs_resolve, arabfs_get_parent}
use shahi_n_kernel.Store.Inodes.{first_unused, claim, inode_alloc, arabfs_write_data}
use shahi_n_kernel.Store.Files.{create_at, first_free_entry, fill_entry, create_in, diskfs_create}

-- Saving the inode table and then the file table leaves the inode table on sectors 20 to 147.
saved-overlaid :
    (w : Store) (table : Bytes) (s j : ℕ)
    → s < inode_table_sectors
    → j < sector_size
    → (save_table (record (inode_save w) { table = table })).disk (inode_table_sector + s) j
      ≡ w.inode_table (s * sector_size + j)
unfolding save_table inode_save
saved-overlaid w table s j hs hj =
    save_sectors-outside 8 2 (inode_table_sector + s) j table (inode_save w).disk
      (inr (omega arith))
    ∙ save_sectors-inside inode_table_sectors inode_table_sector s j w.inode_table w.disk hs hj

Overlaid : Store → Type 0
Overlaid w =
    (s j : ℕ)
    → s < inode_table_sectors
    → j < sector_size
    → w.disk (inode_table_sector + s) j ≡ w.inode_table (s * sector_size + j)

create_at-Overlaid :
    (parent : ℕ) (name data_ : List ℕ) (found : Option ℕ) (w : Store)
    → (create_at parent name data_ (found, w)).0 ≡ true
    → Overlaid (create_at parent name data_ (found, w)).1
unfolding create_at Overlaid
create_at-Overlaid parent name data_ none w ok = absurd (ground (arith, ok))
create_at-Overlaid parent name data_ (some node) w ok =
    let inodes = put32 (Inode.parent node) parent (put32 (Inode.kind node) 0 w.inode_table) in
    let named = record w { inode_table = put_string (Inode.name node) name inodes } in
    let written = arabfs_write_data node data_ named in
    let entry = first_free_entry max_files 0 (inode_save written).table in
    saved-overlaid written (fill_entry entry node parent name (inode_save written).table)

create_in-Overlaid :
    (parent : Option ℕ) (name data_ : List ℕ) (w : Store)
    → (create_in parent name data_ w).0 ≡ true
    → Overlaid (create_in parent name data_ w).1
unfolding create_in
create_in-Overlaid none name data_ w ok = absurd (ground (arith, ok))
create_in-Overlaid (some parent) name data_ w ok =
    create_at-Overlaid parent name data_ (inode_alloc w).0 (inode_alloc w).1 ok

create_in-blocks :
    (parent : Option ℕ) (node k : ℕ) (name data_ : List ℕ) (w : Store)
    → (create_in parent name data_ w).0 ≡ true
    → first_unused max_inodes 0 w.inode_table ≡ some node
    → k < inode_direct_blocks
    → k * sector_size < length data_
    → length data_ + sector_size < 2 ^ 32
    → get32 (create_in parent name data_ w).1.inode_table (Inode.blocks node k) ≡ 30 + k
unfolding create_in inode_alloc claim
create_in-blocks none node k name data_ w ok e h l m = absurd (ground (arith, ok))
create_in-blocks (some parent) node k name data_ w ok e h l m =
    rw e (create_at-blocks parent node k name data_ _ (claim-used node w) h l m)

-- The contents of a new file are lost. Let `node` be the first inode of the loaded table that is not
-- in use, and let a `diskfs_create` of less than 4 GB of data succeed. Then for each sector of the
-- data, up to the twelfth, the inode names a block of which every byte is, on the disk, one of the
-- inode table: the data went to sectors 30 to 41, and the table was saved over it.
pub diskfs_create_overlaid :
    (path data_ : List ℕ) (w : Store) (node i j : ℕ)
    → (diskfs_create path data_ w).0 ≡ true
    → first_unused max_inodes 0 (inode_load w).inode_table ≡ some node
    → i < inode_direct_blocks
    → i * sector_size < length data_
    → length data_ + sector_size < 2 ^ 32
    → j < sector_size
    → let w' = (diskfs_create path data_ w).1 in
      let sector = get32 w'.inode_table (Inode.blocks node i) in
      (sector ≡ 30 + i)
      × (w'.disk sector j ≡ w'.inode_table ((sector - inode_table_sector) * sector_size + j))
unfolding diskfs_create load_table Overlaid
diskfs_create_overlaid path data_ w node i j ok free hi within small hj =
    let w' = load_table (inode_load w) in
    let (parent_path, name) = arabfs_get_parent path in
    let parent = arabfs_resolve parent_path w'.table in
    let block = create_in-blocks parent node i name data_ w' ok free hi within small in
    let over =
      create_in-Overlaid parent name data_ w' ok (30 + i - inode_table_sector) j (omega arith) hj in
    let here : 30 + i ≡ inode_table_sector + (30 + i - inode_table_sector) = omega arith in
    (block, rw block (ap (λ s. (diskfs_create path data_ w).1.disk s j) here ∙ over))
