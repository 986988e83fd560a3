-- ===== src/Memory/Heap/Blocks.antt =====
-- The heap as its client sees it: a row of used and free blocks, in which a request takes the first
-- free block that is large enough and a release joins free neighbours.
use shahi_n_kernel.Prelude.{
  ℕ, ◌+◌, ◌-◌, Bool, true, false, not, ◌&&◌, Option, none, some, List, [], ◌∷◌, ◌==◌, leb,
  if◌then◌else◌,
}
use mathlib.Core.Option

-- Sizes count the header.
pub record Block : Type 0 where
  pub used : Bool
  pub size : ℕ

abbrev pub used_block : ℕ → Block
used_block n = record { used = true; size = n }

abbrev pub free_block : ℕ → Block
free_block n = record { used = false; size = n }

-- The first `n` bytes of a free block, and the rest as a free block if it is worth one.
unfoldable pub place : (n : ℕ) → Block → List Block → List Block
place n b bs =
    if leb b.size (n + 32)
    then used_block b.size ∷ bs
    else used_block n ∷ free_block (b.size - n) ∷ bs

abbrev pub suits : (n : ℕ) → Block → Bool
suits n b = not b.used && leb n b.size

-- The offset of the block taken, and the row with it taken.
unfoldable pub take_first : (n : ℕ) → List Block → Option (ℕ × List Block)
unfolding place
take_first n [] = none
take_first n (b ∷ bs) =
    if suits n b
    then some (0, place n b bs)
    else Option.map (λ r. (b.size + r.0, b ∷ r.1)) (take_first n bs)

-- A block in front of a row, joined with the row's first block if that is free.
unfoldable pub absorb : Block → List Block → List Block
absorb b [] = b ∷ []
absorb b (c ∷ bs) = if c.used then b ∷ c ∷ bs else record b { size = b.size + c.size } ∷ bs

-- The block at an offset is released, and joined with what is behind it and then with what is before.
unfoldable pub release_at : (offset : ℕ) → List Block → List Block
unfolding absorb
release_at offset [] = []
release_at offset (b ∷ bs) =
    let rest = release_at (offset - b.size) bs in
    if offset == 0
    then absorb (free_block b.size) bs
    else if (offset == b.size) && not b.used
    then absorb b rest
    else b ∷ rest

-- The block at an offset, if one starts there.
unfoldable pub block_at : (offset : ℕ) → List Block → Option Block
block_at offset [] = none
block_at offset (b ∷ bs) =
    let rest = block_at (offset - b.size) bs in
    if offset == 0 then some b else if leb b.size offset then rest else none

unfoldable pub total : List Block → ℕ
total [] = 0
total (b ∷ bs) = b.size + total bs
