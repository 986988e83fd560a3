-- ===== src/Store/Placed.antt =====
-- Where the data of a new file goes: the blocks that its inode names.
use shahi_n_kernel.Store.Files.{create_at}
use native.Mathlib.Decide.{ℕ_discrete}
use shahi_n_kernel.Prelude.{
  ◌/◌, ◌%◌, ℕ, zero, suc, ◌+◌, ◌-◌, ◌*◌, ◌^◌, ◌≤◌, ◌<◌, ◌≡◌, inl, refl, ◌∙◌, List, arith, length,
  some,
}
use shahi_n_kernel.Store.Disk.{
  save_table, inode_save, sector_size, Bytes, Store, get32, put32, put_string, inode_direct_blocks,
}
use shahi_n_kernel.Store.Disk.Words.{get32-put32, get32-put32_other, get32-put_string}
use shahi_n_kernel.Store.Inode
use shahi_n_kernel.Store.Inodes.{
  sectors_of, arabfs_write_data, rounds_of, claim, clear_blocks, write_blocks, sector_for,
}

-- One round keeps the flag of use, and the blocks before it.
write_blocks-before :
    (rounds i node k : ℕ) (data_ : List ℕ) (w : Store)
    → k < i
    → get32 (write_blocks rounds i node data_ w).inode_table (Inode.blocks node k)
      ≡ get32 w.inode_table (Inode.blocks node k)
unfolding write_blocks
write_blocks-before zero i node k data_ w h = refl
write_blocks-before (suc rounds) i node k data_ w h =
    write_blocks-before rounds (suc i) node k data_ _ (omega arith)
    ∙ get32-put32_other (Inode.blocks node i) (sector_for (get32 w.inode_table (Inode.used node)) i)
        (Inode.blocks node k) w.inode_table (inl (omega arith))

-- The loop names sector 30 + `k` as the `k`-th block of an inode that is in use.
pub write_blocks-blocks :
    (rounds i node k : ℕ) (data_ : List ℕ) (w : Store)
    → get32 w.inode_table (Inode.used node) ≡ 1
    → i ≤ k
    → k < i + rounds
    → i + rounds ≤ inode_direct_blocks
    → get32 (write_blocks rounds i node data_ w).inode_table (Inode.blocks node k) ≡ 30 + k
unfolding write_blocks sector_for
write_blocks-blocks zero i node k data_ w u l h m = absurd (omega arith)
write_blocks-blocks (suc rounds) i node k data_ w u l h m =
    let sector : ℕ = sector_for (get32 w.inode_table (Inode.used node)) i in
    let here : sector ≡ 30 + i = omega (arith, u) in
    elim (ℕ_discrete i k) [
      | yes e ↦
          write_blocks-before rounds (suc i) node k data_ _ (omega arith)
          ∙ (rw (← e) (get32-put32 (Inode.blocks node i) sector w.inode_table (omega arith) ∙ here))
      | no ne ↦
          write_blocks-blocks rounds (suc i) node k data_ _
            (get32-put32_other (Inode.blocks node i) sector (Inode.used node) w.inode_table
                (inl (omega arith))
              ∙ u)
            (omega (arith, ne)) (omega arith) (omega arith)
    ]

clear_blocks-used :
    (n i : ℕ) (inodes : Bytes)
    → get32 (clear_blocks n i inodes) (Inode.used i) ≡ get32 inodes (Inode.used i)
unfolding clear_blocks
clear_blocks-used zero i inodes = refl
clear_blocks-used (suc j) i inodes =
    get32-put32_other (Inode.blocks i j) 0 (Inode.used i) (clear_blocks j i inodes)
      (inl (omega arith))
    ∙ clear_blocks-used j i inodes

-- An inode that is handed out is in use.
pub claim-used :
    (node : ℕ) (w : Store) → get32 (claim (some node) w).1.inode_table (Inode.used node) ≡ 1
unfolding claim
claim-used node w =
    clear_blocks-used inode_direct_blocks node (put32 (Inode.used node) 1 w.inode_table)
    ∙ get32-put32 (Inode.used node) 1 w.inode_table (omega arith)

-- The fields of a new file's inode, before its data is written.
abbrev filled : (node parent : ℕ) (name : List ℕ) → Bytes → Bytes
filled node parent name inodes =
    put_string (Inode.name node) name
      (put32 (Inode.parent node) parent (put32 (Inode.kind node) 0 inodes))

filled-used :
    (node parent : ℕ) (name : List ℕ) (inodes : Bytes)
    → get32 (filled node parent name inodes) (Inode.used node) ≡ get32 inodes (Inode.used node)
filled-used node parent name inodes =
    get32-put_string (Inode.name node) (Inode.used node) name
      (put32 (Inode.parent node) parent (put32 (Inode.kind node) 0 inodes)) (inl (omega arith))
    ∙ (get32-put32_other (Inode.parent node) parent (Inode.used node)
          (put32 (Inode.kind node) 0 inodes) (inl (omega arith))
        ∙ get32-put32_other (Inode.kind node) 0 (Inode.used node) inodes (inl (omega arith)))

rounds_of-within :
    (k size : ℕ)
    → k < inode_direct_blocks
    → k * sector_size < size
    → size + sector_size < 2 ^ 32
    → (k < rounds_of (sectors_of (size % 2 ^ 32)))
      × (rounds_of (sectors_of (size % 2 ^ 32)) ≤ inode_direct_blocks)
unfolding rounds_of sectors_of
rounds_of-within k size h l m =
    let small : size % 2 ^ 32 ≡ size = omega arith in
    let sectors : k < (size % 2 ^ 32 + sector_size - 1) % 2 ^ 32 / sector_size =
      omega (arith, small) in
    (ground (arith, sectors), ground arith)

-- Writing data to an inode in use names sector 30 + `k` as its `k`-th block.
arabfs_write_data-blocks :
    (node k : ℕ) (data_ : List ℕ) (w : Store)
    → get32 w.inode_table (Inode.used node) ≡ 1
    → k < inode_direct_blocks
    → k * sector_size < length data_
    → length data_ + sector_size < 2 ^ 32
    → get32 (arabfs_write_data node data_ w).inode_table (Inode.blocks node k) ≡ 30 + k
unfolding arabfs_write_data
arabfs_write_data-blocks node k data_ w u h l m =
    let within = rounds_of-within k (length data_) h l m in
    let size : ℕ = length data_ % 2 ^ 32 in
    write_blocks-blocks (rounds_of (sectors_of size)) 0 node k data_
      (record w { inode_table = put32 (Inode.size node) size w.inode_table })
      (get32-put32_other (Inode.size node) size (Inode.used node) w.inode_table (inl (omega arith))
        ∙ u)
      (omega arith) (omega (arith, within.0)) (omega (arith, within.1))

-- So it is in the inode table that `diskfs_create` saves.
pub create_at-blocks :
    (parent node k : ℕ) (name data_ : List ℕ) (w : Store)
    → get32 w.inode_table (Inode.used node) ≡ 1
    → k < inode_direct_blocks
    → k * sector_size < length data_
    → length data_ + sector_size < 2 ^ 32
    → get32 (create_at parent name data_ (some node, w)).1.inode_table (Inode.blocks node k)
      ≡ 30 + k
unfolding create_at inode_save save_table
create_at-blocks parent node k name data_ w u h l m =
    arabfs_write_data-blocks node k data_
      (record w { inode_table = filled node parent name w.inode_table })
      (filled-used node parent name w.inode_table ∙ u) h l m
