-- ===== src/Store/Files.antt =====
-- Files: create, read, delete, copy, and the format of a disk. A result `none` is a fault: the code
-- goes on through a null pointer. Names and paths are taken to fit the buffers that they are copied
-- to.
use shahi_n_kernel.Prelude.{
  ℕ, zero, suc, ◌*◌, Bool, true, false, Option, none, some, List, [], ◌∷◌, ◌==◌, if◌then◌else◌,
}
use shahi_n_kernel.Store.Disk.{
  Bytes, Store, sector_size, max_files, get32, put32, put_string, holds_string, memzero,
  read_sector, write_sector, load_table, save_table, inode_load, inode_save,
}
use shahi_n_kernel.Store.Entry
use shahi_n_kernel.Store.Inode
use shahi_n_kernel.Store.Paths.{arabfs_resolve, arabfs_get_parent, slash}
use shahi_n_kernel.Store.Inodes.{inode_alloc, inode_get, arabfs_write_data, sectors_of, rounds_of}

-- "ARABFS"
abbrev pub signature_text : List ℕ
signature_text = 65 ∷ 82 ∷ 65 ∷ 66 ∷ 70 ∷ 83 ∷ []

abbrev pub signature_sector : ℕ
signature_sector = 1

unfoldable pub diskfs_is_formatted : Store → Bool
unfolding holds_string
diskfs_is_formatted w = holds_string 0 signature_text (w.disk signature_sector)

-- The entry of the root folder.
unfoldable pub root_table : Bytes → Bytes
unfolding memzero put32 put_string
root_table table =
    let zeros = memzero (52 * max_files) table in
    let entry =
      put32 (Entry.parent_id 0) 0
        (put32 (Entry.id 0) 0 (put32 (Entry.kind 0) 1 (put32 (Entry.used 0) 1 zeros))) in
    put_string (Entry.name 0) (slash ∷ []) entry

unfoldable pub diskfs_format : Store → Store
unfolding root_table save_table write_sector put_string
diskfs_format w =
    let w' = save_table (record w { table = root_table w.table }) in
    record w' {
      disk = write_sector signature_sector 0 (put_string 0 signature_text (λ a. 0)) w'.disk;
    }

unfoldable pub arabfs_init : Store → Store
unfolding diskfs_is_formatted diskfs_format
arabfs_init w = if diskfs_is_formatted w then w else diskfs_format w

unfoldable pub first_free_entry : (rounds i : ℕ) → Bytes → Option ℕ
unfolding get32
first_free_entry zero i table = none
first_free_entry (suc rounds) i table =
    let rest = first_free_entry rounds (suc i) table in
    if get32 table (Entry.used i) == 0 then some i else rest

-- A file's entry; its id is left as it is. Without a free entry nothing is written.
unfoldable pub fill_entry : Option ℕ → (inode_id parent : ℕ) (name : List ℕ) → Bytes → Bytes
unfolding put32 put_string
fill_entry none inode_id parent name table = table
fill_entry (some i) inode_id parent name table = put_string (Entry.name i) name (
    put32 (Entry.parent_id i) parent
      (put32 (Entry.inode_id i) inode_id (put32 (Entry.kind i) 0 (put32 (Entry.used i) 1 table))))

-- From the inode on.
unfoldable pub create_at : (parent : ℕ) (name data_ : List ℕ) → Option ℕ × Store → Bool × Store
unfolding put32 put_string arabfs_write_data inode_save first_free_entry fill_entry save_table
create_at parent name data_ (none, w) = (false, w)
create_at parent name data_ (some node, w) =
    let inodes = put32 (Inode.parent node) parent (put32 (Inode.kind node) 0 w.inode_table) in
    let named = record w { inode_table = put_string (Inode.name node) name inodes } in
    let saved = inode_save (arabfs_write_data node data_ named) in
    let entry = first_free_entry max_files 0 saved.table in
    (true, save_table (record saved { table = fill_entry entry node parent name saved.table }))

unfoldable pub create_in : (parent : Option ℕ) (name data_ : List ℕ) → Store → Bool × Store
unfolding create_at inode_alloc
create_in none name data_ w = (false, w)
create_in (some parent) name data_ w = create_at parent name data_ (inode_alloc w)

unfoldable pub diskfs_create : (path data_ : List ℕ) → Store → Bool × Store
unfolding inode_load load_table arabfs_get_parent create_in arabfs_resolve
diskfs_create path data_ w =
    let w' = load_table (inode_load w) in
    let (parent_path, name) = arabfs_get_parent path in
    create_in (arabfs_resolve parent_path w'.table) name data_ w'

unfoldable pub diskfs_exists_wrapper : List ℕ → Store → Bool
diskfs_exists_wrapper path w = elim (arabfs_resolve path w.table) [ none ↦ false | some id ↦ true ]

-- The file's sectors go to the buffer, one behind the other.
unfoldable pub read_blocks : (n node : ℕ) → Store → Bytes → Bytes
unfolding read_sector get32
read_blocks zero node w buffer = buffer
read_blocks (suc i) node w buffer =
    read_sector w.disk (get32 w.inode_table (Inode.blocks node i)) (i * sector_size)
      (read_blocks i node w buffer)

unfoldable pub read_inode : (inode : Option ℕ) → Store → Bytes → Option Bytes
unfolding read_blocks
read_inode none w buffer = none
read_inode (some node) w buffer =
    some (read_blocks (sectors_of (get32 w.inode_table (Inode.size node))) node w buffer)

unfoldable pub read_entry : (id : Option ℕ) → Store → Bytes → Option Bytes
unfolding read_inode inode_get
read_entry none w buffer = some (λ a. if a == 0 then 0 else buffer a)
read_entry (some id) w buffer = read_inode (inode_get (get32 w.table (Entry.inode_id id))) w buffer

-- The buffer, and the tables as they were read.
unfoldable pub diskfs_read : (path : List ℕ) → Store → Bytes → Option Bytes × Store
unfolding inode_load load_table read_entry arabfs_resolve
diskfs_read path w buffer =
    let w' = load_table (inode_load w) in (read_entry (arabfs_resolve path w'.table) w' buffer, w')

unfoldable pub drop_blocks : (n node : ℕ) → Bytes → Bytes
unfolding put32 get32
drop_blocks zero node inodes = inodes
drop_blocks (suc i) node inodes =
    let rest = drop_blocks i node inodes in
    if get32 rest (Inode.blocks node i) == 0 then rest else put32 (Inode.blocks node i) 0 rest

unfoldable pub delete_inode : (id : ℕ) (inode : Option ℕ) → Store → Option (Bool × Store)
unfolding drop_blocks put32 inode_save save_table rounds_of
delete_inode id none w = none
delete_inode id (some node) w =
    let rounds = rounds_of (sectors_of (get32 w.inode_table (Inode.size node))) in
    let inodes =
      put32 (Inode.size node) 0
        (put32 (Inode.used node) 0 (drop_blocks rounds node w.inode_table)) in
    let w' = inode_save (record w { inode_table = inodes }) in
    some (true, save_table (record w' { table = put32 (Entry.used id) 0 w'.table }))

unfoldable pub delete_entry : (id : Option ℕ) → Store → Option (Bool × Store)
unfolding delete_inode inode_get
delete_entry none w = some (false, w)
delete_entry (some id) w =
    if get32 w.table (Entry.kind id) == 0
    then delete_inode id (inode_get (get32 w.table (Entry.inode_id id))) w
    else some (false, w)

unfoldable pub diskfs_delete : (path : List ℕ) → Store → Option (Bool × Store)
unfolding load_table delete_entry arabfs_resolve
diskfs_delete path w = let w' = load_table w in delete_entry (arabfs_resolve path w'.table) w'
