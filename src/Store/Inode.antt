-- ===== src/Store/Inode.antt =====
-- Where the fields of `inode_table[i]` stand in the bytes of the inode table.
use shahi_n_kernel.Prelude.{ℕ, ◌+◌, ◌*◌}

abbrev pub used : ℕ → ℕ
used i = i * 104

abbrev pub size : ℕ → ℕ
size i = i * 104 + 4

abbrev pub kind : ℕ → ℕ
kind i = i * 104 + 8

abbrev pub parent : ℕ → ℕ
parent i = i * 104 + 12

abbrev pub name : ℕ → ℕ
name i = i * 104 + 16

abbrev pub blocks : (i j : ℕ) → ℕ
blocks i j = i * 104 + 48 + 4 * j
