-- ===== src/Store/Folders.antt =====
-- Folders: create, delete, list; and the deletion of either kind of entry.
pub mod Laws
use shahi_n_kernel.Prelude.{
  ℕ, zero, suc, ◌+◌, Bool, true, false, not, ◌&&◌, ◌||◌, Option, none, some, List, [], ◌∷◌, ◌==◌,
  if◌then◌else◌, take, drop,
}
use shahi_n_kernel.Store.Disk.{
  Bytes, Store, max_files, get32, put32, put_string, write_sector, load_table, save_table,
  inode_load, inode_save,
}
use shahi_n_kernel.Store.Entry
use shahi_n_kernel.Store.Inode
use shahi_n_kernel.Store.Paths.{arabfs_resolve, arabfs_find_entry, last_slash}
use shahi_n_kernel.Store.Inodes.{inode_get, sectors_of, rounds_of}
use shahi_n_kernel.Store.Files.{first_free_entry}

-- The parent's index, and the name. A name without a slash is the root's.
unfoldable pub folder_parent : (last : Option ℕ) (path : List ℕ) → Bytes → Option ℕ × List ℕ
unfolding arabfs_resolve
folder_parent none path table = (some 0, path)
folder_parent (some i) path table = (arabfs_resolve (take i path) table, drop (i + 1) path)

unfoldable pub fill_folder : (slot : Option ℕ) (name : List ℕ) (parent : ℕ) → Store → Bool × Store
unfolding put32 put_string save_table
fill_folder none name parent w = (false, w)
fill_folder (some i) name parent w =
    let entry =
      put32 (Entry.parent_id i) parent
        (put32 (Entry.id i) i (put32 (Entry.kind i) 1 (put32 (Entry.used i) 1 w.table))) in
    (true, save_table (record w { table = put_string (Entry.name i) name entry }))

unfoldable pub mkdir_new : (found : Option ℕ) (name : List ℕ) (parent : ℕ) → Store → Bool × Store
unfolding fill_folder first_free_entry
mkdir_new (some k) name parent w = (false, w)
mkdir_new none name parent w = fill_folder (first_free_entry max_files 0 w.table) name parent w

unfoldable pub mkdir_in : (parent : Option ℕ) (name : List ℕ) → Store → Bool × Store
unfolding mkdir_new arabfs_find_entry
mkdir_in none name w = (false, w)
mkdir_in (some parent) name w = mkdir_new (arabfs_find_entry name parent w.table) name parent w

unfoldable pub arabfs_mkdir : (path : List ℕ) → Store → Bool × Store
unfolding load_table folder_parent mkdir_in last_slash
arabfs_mkdir path w =
    let w' = load_table w in
    let (parent, name) = folder_parent (last_slash 0 none path) path w'.table in
    mkdir_in parent name w'

-- Has the folder an entry among `rounds` ones from `k` on?
unfoldable pub has_child : (rounds k parent : ℕ) → Bytes → Bool
unfolding get32
has_child zero k parent table = false
has_child (suc rounds) k parent table =
    let rest = has_child rounds (suc k) parent table in
    (not (get32 table (Entry.used k) == 0) && (get32 table (Entry.parent_id k) == parent)) || rest

unfoldable pub rmdir_entry : (id : Option ℕ) → Store → Bool × Store
unfolding has_child put32 save_table
rmdir_entry none w = (false, w)
rmdir_entry (some id) w =
    if not (get32 w.table (Entry.kind id) == 1) || has_child max_files 0 id w.table || (id == 0)
    then (false, w)
    else (true, save_table (record w { table = put32 (Entry.used id) 0 w.table }))

unfoldable pub arabfs_rmdir : (path : List ℕ) → Store → Bool × Store
unfolding load_table rmdir_entry arabfs_resolve
arabfs_rmdir path w = let w' = load_table w in rmdir_entry (arabfs_resolve path w'.table) w'

-- The entries whose names go to the callback, in order.
unfoldable pub children : (rounds k parent : ℕ) → Bytes → List ℕ
unfolding get32
children zero k parent table = []
children (suc rounds) k parent table =
    let rest = children rounds (suc k) parent table in
    if not (get32 table (Entry.used k) == 0) && (get32 table (Entry.parent_id k) == parent)
    then k ∷ rest
    else rest

unfoldable pub arabfs_list_path : (parent : ℕ) → Store → List ℕ × Store
unfolding load_table children
arabfs_list_path parent w = let w' = load_table w in (children max_files 0 parent w'.table, w')

-- The sectors of a file that is deleted are filled with zeros.
unfoldable pub wipe_blocks : (n node : ℕ) → Store → Store
unfolding get32 put32 write_sector
wipe_blocks zero node w = w
wipe_blocks (suc i) node w =
    let w' = wipe_blocks i node w in
    let block = get32 w'.inode_table (Inode.blocks node i) in
    if block == 0 then w' else record w' {
      disk = write_sector block 0 (λ a. 0) w'.disk;
      inode_table = put32 (Inode.blocks node i) 0 w'.inode_table;
    }

unfoldable pub delete_file : (id : ℕ) (inode : Option ℕ) → Store → Bool × Store
unfolding wipe_blocks put32 get32 inode_save save_table rounds_of
delete_file id none w = (false, w)
delete_file id (some node) w =
    if get32 w.inode_table (Inode.used node) == 0
    then (false, w)
    else let rounds = rounds_of (sectors_of (get32 w.inode_table (Inode.size node))) in
      let wiped = wipe_blocks rounds node w in
      let inodes = put32 (Inode.size node) 0 (put32 (Inode.used node) 0 wiped.inode_table) in
      let w' = inode_save (record wiped { inode_table = inodes }) in
      (true, save_table (record w' { table = put32 (Entry.used id) 0 w'.table }))

unfoldable pub delete_kind : (id : ℕ) → Store → Bool × Store
unfolding rmdir_entry delete_file inode_load inode_get
delete_kind id w =
    if get32 w.table (Entry.kind id) == 1
    then rmdir_entry (some id) w
    else let w' = inode_load w in delete_file id (inode_get (get32 w.table (Entry.inode_id id))) w'

unfoldable pub delete_used : (id : Option ℕ) → Store → Bool × Store
unfolding delete_kind get32
delete_used none w = (false, w)
delete_used (some id) w =
    if get32 w.table (Entry.used id) == 0 then (false, w) else delete_kind id w

-- The path is cut off at 127 bytes.
unfoldable pub arabfs_delete : (path : List ℕ) → Store → Bool × Store
unfolding load_table delete_used arabfs_resolve
arabfs_delete path w =
    let w' = load_table w in delete_used (arabfs_resolve (take 127 path) w'.table) w'
