-- ===== src/Store/Tests.antt =====
-- Runs of the file system on small disks, and the theorems at concrete stores.
use shahi_n_kernel.Prelude.{◌-◌, some, ℕ, ◌+◌, ◌*◌, ◌≡◌, refl, true, List, [], ◌∷◌, arith}
use mathlib.Core.Option
use shahi_n_kernel.Store.Disk.{
  inode_table_sector, inode_load, max_inodes, get32, Bytes, Store, sector_size, max_files,
  load_sectors, save_sectors,
}
use shahi_n_kernel.Store.Disk.Laws.{load-save}
use shahi_n_kernel.Store.Paths.{
  slash, arabfs_find_entry, resolve_from, arabfs_resolve, arabfs_get_parent,
}
use shahi_n_kernel.Store.Paths.Laws.{Finds, arabfs_find_entry-Finds, arabfs_resolve-append}
use shahi_n_kernel.Store.Inode
use shahi_n_kernel.Store.Inodes.{first_unused}
use shahi_n_kernel.Store.Files.{diskfs_create}
use shahi_n_kernel.Store.Folders.{arabfs_mkdir}
use shahi_n_kernel.Store.Lost.{diskfs_create_overlaid}

abbrev zeros : Store
zeros = record { table = λ a. 0; inode_table = λ a. 0; disk = λ s. λ a. 0 }

-- "a/b"
abbrev nested_path : List ℕ
nested_path = 97 ∷ slash ∷ 98 ∷ []

split_nested : arabfs_get_parent nested_path ≡ (97 ∷ [], 98 ∷ [])
unfolding arabfs_get_parent
split_nested = refl

split_root : arabfs_get_parent (slash ∷ 97 ∷ []) ≡ (slash ∷ [], 97 ∷ [])
unfolding arabfs_get_parent
split_root = refl

create_zeros : (diskfs_create (97 ∷ []) (104 ∷ 105 ∷ []) zeros).0 ≡ true
unfolding diskfs_create Option.bind
create_zeros = refl

free_zeros : first_unused max_inodes 0 (inode_load zeros).inode_table ≡ some 0
unfolding first_unused inode_load
free_zeros = refl

diskfs_create_overlaid_example :
    let w' = (diskfs_create (97 ∷ []) (104 ∷ 105 ∷ []) zeros).1 in
    let sector = get32 w'.inode_table (Inode.blocks 0 0) in
    (sector ≡ 30)
    × (w'.disk sector 1 ≡ w'.inode_table ((sector - inode_table_sector) * sector_size + 1))
diskfs_create_overlaid_example =
    diskfs_create_overlaid (97 ∷ []) (104 ∷ 105 ∷ []) zeros 0 0 1 create_zeros free_zeros
      (omega arith) (omega arith) (omega arith) (omega arith)

abbrev with_folder : Bytes
with_folder = (arabfs_mkdir (97 ∷ []) zeros).1.table

arabfs_find_entry-Finds_test :
    Finds 0 max_files (97 ∷ []) 0 with_folder (arabfs_find_entry (97 ∷ []) 0 with_folder)
arabfs_find_entry-Finds_test = arabfs_find_entry-Finds (97 ∷ []) 0 with_folder

arabfs_resolve-append_example :
    arabfs_resolve nested_path with_folder
    ≡ Option.bind
        (arabfs_resolve (97 ∷ []) with_folder)
        (λ folder. resolve_from folder [] (98 ∷ []) with_folder)
arabfs_resolve-append_example = arabfs_resolve-append (97 ∷ []) (98 ∷ []) with_folder

load-save_example : load_sectors 8 2 (save_sectors 8 2 (λ a. a) (λ s. λ j. 0)) (λ a. 7) 1000 ≡ 1000
load-save_example = load-save 8 2 1000 (λ s. λ j. 0) (λ a. a) (λ a. 7) (omega arith)
