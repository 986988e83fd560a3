-- ===== src/Store/Paths.antt =====
-- Paths: the search of a name in a folder, the walk from the root, and the split at the last slash.
pub mod Laws
use shahi_n_kernel.Prelude.{
  ℕ, zero, suc, ◌+◌, ◌-◌, Bool, not, ◌&&◌, Option, none, some, List, [], ◌∷◌, ◌++◌, ◌==◌,
  if◌then◌else◌, take, drop,
}
use mathlib.Core.Option
use shahi_n_kernel.Store.Disk.{Bytes, max_files, get32, holds_string}
use shahi_n_kernel.Store.Entry
use shahi_n_kernel.Store.Inode

abbrev pub slash : ℕ
slash = 47

unfoldable pub is_child : (name : List ℕ) (parent k : ℕ) → Bytes → Bool
unfolding get32 holds_string
is_child name parent k table =
    not (get32 table (Entry.used k) == 0)
    && (get32 table (Entry.parent_id k) == parent)
    && holds_string (Entry.name k) name table

-- The first child from entry `k` on, among `rounds` entries.
unfoldable pub find_from : (rounds k : ℕ) (name : List ℕ) (parent : ℕ) → Bytes → Option ℕ
unfolding is_child
find_from zero k name parent table = none
find_from (suc rounds) k name parent table =
    let rest = find_from rounds (suc k) name parent table in
    if is_child name parent k table then some k else rest

unfoldable pub arabfs_find_entry : (name : List ℕ) (parent : ℕ) → Bytes → Option ℕ
unfolding find_from
arabfs_find_entry name parent table = find_from max_files 0 name parent table

-- An empty component stays where it is.
unfoldable pub enter : (current : ℕ) (name : List ℕ) → Bytes → Option ℕ
unfolding arabfs_find_entry
enter current [] table = some current
enter current (c ∷ s) table = arabfs_find_entry (c ∷ s) current table

-- The walk over what remains of the path; `name` is the component read so far.
unfoldable pub resolve_from : (current : ℕ) (name path : List ℕ) → Bytes → Option ℕ
unfolding enter
resolve_from current name [] table = enter current name table
resolve_from current name (c ∷ path) table =
    if c == slash
    then Option.bind (enter current name table) (λ next. resolve_from next [] path table)
    else resolve_from current (name ++ c ∷ []) path table

-- The entry's index, or `none` for -1. A leading slash ends an empty component.
unfoldable pub arabfs_resolve : (path : List ℕ) → Bytes → Option ℕ
unfolding resolve_from
arabfs_resolve path table = resolve_from 0 [] path table

-- The index of the last slash, given that of the last one before `i`.
unfoldable pub last_slash : (i : ℕ) (last : Option ℕ) (path : List ℕ) → Option ℕ
last_slash i last [] = last
last_slash i last (c ∷ path) = last_slash (suc i) (if c == slash then some i else last) path

unfoldable pub without_slash : List ℕ → List ℕ
without_slash [] = []
without_slash (c ∷ path) = if c == slash then path else c ∷ path

unfoldable pub split_at : (last : Option ℕ) (path : List ℕ) → List ℕ × List ℕ
unfolding without_slash
split_at none path = (slash ∷ [], without_slash path)
split_at (some zero) path = (slash ∷ [], without_slash path)
split_at (some (suc i)) path = (take (suc i) path, drop (suc i + 1) path)

-- The parent's path and the name.
unfoldable pub arabfs_get_parent : (path : List ℕ) → List ℕ × List ℕ
unfolding last_slash split_at
arabfs_get_parent path = split_at (last_slash 0 none path) path
