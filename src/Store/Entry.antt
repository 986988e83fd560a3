-- ===== src/Store/Entry.antt =====
-- Where the fields of `table[i]` stand in the bytes of the file table.
use shahi_n_kernel.Prelude.{ℕ, ◌+◌, ◌*◌}

abbrev pub used : ℕ → ℕ
used i = i * 52

abbrev pub kind : ℕ → ℕ
kind i = i * 52 + 4

abbrev pub id : ℕ → ℕ
id i = i * 52 + 8

abbrev pub parent_id : ℕ → ℕ
parent_id i = i * 52 + 12

abbrev pub inode_id : ℕ → ℕ
inode_id i = i * 52 + 16

abbrev pub name : ℕ → ℕ
name i = i * 52 + 20
