-- ===== src/Store/Folders/Laws.antt =====
-- Which folders can be removed.
use shahi_n_kernel.Prelude.{
  ℕ, zero, suc, ◌+◌, ◌≤◌, ◌<◌, ◌≡◌, ◌≢◌, refl, ap, Bool, true, false, not, ◌||◌, Option, none, some,
  List, ◌==◌, if◌then◌else◌, arith,
}
use shahi_n_kernel.Store.Disk.{Bytes, Store, get32, put32, save_table, load_table, max_files}
use shahi_n_kernel.Store.Entry
use shahi_n_kernel.Store.Paths.{arabfs_resolve}
use shahi_n_kernel.Store.Folders.{has_child, rmdir_entry, arabfs_rmdir}

-- Where the loop finds no child, no used entry has the folder as its parent.
has_child-false :
    (rounds k parent : ℕ) (table : Bytes) (j : ℕ)
    → has_child rounds k parent table ≡ false
    → k ≤ j
    → j < k + rounds
    → get32 table (Entry.used j) ≢ 0
    → get32 table (Entry.parent_id j) ≢ parent
unfolding has_child
has_child-false zero k parent table j e lo hi u = absurd (omega arith)
has_child-false (suc rounds) k parent table j e lo hi u =
    let later = λ (l : suc k ≤ j). λ (f : has_child rounds (suc k) parent table ≡ false).
      has_child-false rounds (suc k) parent table j f l (omega arith) u in
    let same_used = λ (q : j ≡ k). ap (λ t. get32 table (Entry.used t)) q in
    let same_parent = λ (q : j ≡ k). ap (λ t. get32 table (Entry.parent_id t)) q in
    λ p. ground (arith, later, same_used, same_parent, p)

-- What holds of a folder that is removed.
pub IsRemovable : (id : Option ℕ) → Bytes → Type 0
IsRemovable none table = ⊥
IsRemovable (some id) table =
    (get32 table (Entry.kind id) ≡ 1)
    × (id ≢ 0)
    × ((j : ℕ)
        → j < max_files
        → get32 table (Entry.used j) ≢ 0
        → get32 table (Entry.parent_id j) ≢ id)

-- A step behind a guard was taken, so the guard is false.
passed :
    (guard : Bool) (w w' : Store)
    → (if◌then◌else◌ {A = Bool × Store} guard (false, w) (true, w')).0 ≡ true
    → guard ≡ false
passed true w w' ok = absurd (ground (arith, ok))
passed false w w' ok = refl

none_holds : (a b c : Bool) → (a || b || c) ≡ false → (a ≡ false) × (b ≡ false) × (c ≡ false)
none_holds a b c e = (ground (arith, e), ground (arith, e), ground (arith, e))

not_one : (n : ℕ) → not (n == 1) ≡ false → n ≡ 1
not_one n e = ground (arith, e)

not_zero : (n : ℕ) → (n == 0) ≡ false → n ≢ 0
not_zero n e = ground (arith, e)

rmdir_entry-IsRemovable :
    (id : Option ℕ) (w : Store) → (rmdir_entry id w).0 ≡ true → IsRemovable id w.table
unfolding rmdir_entry IsRemovable
rmdir_entry-IsRemovable none w ok = ground (arith, ok)
rmdir_entry-IsRemovable (some id) w ok =
    let guard =
      none_holds (not (get32 w.table (Entry.kind id) == 1)) (has_child max_files 0 id w.table)
        (id == 0)
        (passed
          (not (get32 w.table (Entry.kind id) == 1)
            || has_child max_files 0 id w.table
            || (id == 0))
          w (save_table (record w { table = put32 (Entry.used id) 0 w.table })) ok) in
    (
      not_one (get32 w.table (Entry.kind id)) guard.0,
      not_zero id guard.2,
      λ j h u. has_child-false max_files 0 id w.table j guard.1 (omega arith) (omega (arith, h)) u,
    )

-- A folder that `arabfs_rmdir` removes is a folder, is not the root, and no used entry lies in it.
pub arabfs_rmdir-IsRemovable :
    (path : List ℕ) (w : Store)
    → (arabfs_rmdir path w).0 ≡ true
    → IsRemovable (arabfs_resolve path (load_table w).table) (load_table w).table
unfolding arabfs_rmdir
arabfs_rmdir-IsRemovable path w ok =
    rmdir_entry-IsRemovable (arabfs_resolve path (load_table w).table) (load_table w) ok
