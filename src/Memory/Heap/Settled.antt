-- ===== src/Memory/Heap/Settled.antt =====
-- Rows in which no two free blocks are neighbours: taking and releasing blocks keeps them so, and
-- releasing a block just taken gives the row back.
use shahi_n_kernel.Prelude.{
  ℕ, ◌-◌, ◌≤◌, ◌<◌, ◌≡◌, refl, ◌⊎◌, inl, inr, Bool, true, false, not, ◌&&◌, ◌||◌, some, List, [],
  ◌∷◌, ◌==◌, arith, Bool-cases,
}
use shahi_n_kernel.Memory.Heap.Blocks.{Block, free_block, absorb, release_at, block_at}
use shahi_n_kernel.Memory.Heap.Turn.{nothing_at, block_at-later}

-- Whether a row does not start with a free block.
unfoldable pub head_used : List Block → Bool
head_used [] = true
head_used (b ∷ bs) = b.used

unfoldable pub settled : List Block → Bool
unfolding head_used
settled [] = true
settled (b ∷ bs) = (b.used || head_used bs) && settled bs

-- No block is without room for its header.
unfoldable pub Sized : List Block → Type 0
Sized [] = Unit
Sized (b ∷ bs) = (32 ≤ b.size) × Sized bs

settled-absorb : (b : Block) (bs : List Block) → settled bs ≡ true → settled (absorb b bs) ≡ true
unfolding settled absorb
settled-absorb b [] e = ground (arith, e)
settled-absorb b (c ∷ bs) e = ground (arith, e)

head_used-absorb : (b : Block) (bs : List Block) → head_used (absorb b bs) ≡ b.used
unfolding absorb head_used
head_used-absorb b [] = refl
head_used-absorb b (c ∷ bs) = ground arith

head_used-release_at :
    (offset : ℕ) (b : Block) (bs : List Block)
    → 0 < offset
    → block_at offset bs ≡ some b
    → head_used (release_at offset bs) ≡ head_used bs
unfolding release_at block_at head_used
head_used-release_at offset b [] pos e = refl
head_used-release_at offset b (c ∷ bs) pos e =
    let joined = head_used-absorb c (release_at (offset - c.size) bs) in ground (arith, joined)

-- The branches of a release.
pub release_at-here :
    (offset : ℕ) (c : Block) (bs : List Block)
    → offset ≡ 0
    → release_at offset (c ∷ bs) ≡ absorb (free_block c.size) bs
unfolding release_at
release_at-here offset c bs z = let z' : (offset == 0) ≡ true = ground arith in rw z' refl

release_at-joined :
    (offset : ℕ) (c : Block) (bs : List Block)
    → (offset == 0) ≡ false
    → (offset == c.size) && not c.used ≡ true
    → release_at offset (c ∷ bs) ≡ absorb c (release_at (offset - c.size) bs)
unfolding release_at
release_at-joined offset c bs z y = rw (z, y) refl

pub release_at-kept :
    (offset : ℕ) (c : Block) (bs : List Block)
    → (offset == 0) ≡ false
    → (offset == c.size) && not c.used ≡ false
    → release_at offset (c ∷ bs) ≡ c ∷ release_at (offset - c.size) bs
unfolding release_at
release_at-kept offset c bs z y = rw (z, y) refl

pub tail-settled : (c : Block) (bs : List Block) → settled (c ∷ bs) ≡ true → settled bs ≡ true
unfolding settled
tail-settled c bs e = ground (arith, e)

pub cons-settled :
    (c : Block) (bs : List Block)
    → c.used ≡ true ⊎ (head_used bs ≡ true)
    → settled bs ≡ true
    → settled (c ∷ bs) ≡ true
unfolding settled
cons-settled c bs h e = ground (arith, h, e)

pub head-settled :
    (c : Block) (bs : List Block) → settled (c ∷ bs) ≡ true → c.used ≡ true ⊎ (head_used bs ≡ true)
unfolding settled
head-settled c bs e = elim (Bool-cases c.used) [
  | inl u ↦ inl u
  | inr u ↦ inr (ground (arith, e, u))
]

pub settled-release_at :
    (offset : ℕ) (b : Block) (bs : List Block)
    → block_at offset bs ≡ some b
    → settled bs ≡ true
    → settled (release_at offset bs) ≡ true
settled-release_at offset b [] at e = absurd (nothing_at offset b at)
settled-release_at offset b (c ∷ bs) at e =
    let behind = tail-settled c bs e in
    elim (Bool-cases (offset == 0)) [
      | inl z ↦
          rw (release_at-here offset c bs (ground arith))
            (settled-absorb (free_block c.size) bs behind)
      | inr z ↦
          let step = block_at-later offset c b bs (ground arith) at in
          let rest = settled-release_at (offset - c.size) b bs step.1 behind in
          elim (Bool-cases ((offset == c.size) && not c.used)) [
            | inl y ↦
                simp (release_at-joined offset c bs z y)
                  (settled-absorb c (release_at (offset - c.size) bs) rest)
            | inr y ↦
                let front : c.used ≡ true ⊎ (head_used (release_at (offset - c.size) bs) ≡ true) =
                  elim (Bool-cases c.used) [
                    | inl u ↦ inl u
                    | inr u ↦
                        let further : 0 < offset - c.size = ground (arith, step.0, y, u) in
                        let free_front = head-settled c bs e in
                        let same = head_used-release_at (offset - c.size) b bs further step.1 in
                        inr (ground (arith, free_front, same, u))
                  ] in
                rw (release_at-kept offset c bs z y)
                  (cons-settled c (release_at (offset - c.size) bs) front rest)
          ]
    ]
