-- ===== src/Memory/Heap/Reuse.antt =====
-- Taking blocks of a row without free neighbours, and releasing them again.
use shahi_n_kernel.Prelude.{
  ℕ, ◌+◌, ◌-◌, ◌≡◌, ◌≢◌, refl, sym, ap, ◌∙◌, ◌⊎◌, inl, inr, true, false, not, ◌&&◌, some, List, [],
  ◌∷◌, ◌==◌, leb, arith, Bool-cases, Option-cases,
}
use mathlib.Core.Option.{some-injective}
use shahi_n_kernel.Memory.Heap.Blocks.{
  Block, free_block, used_block, place, suits, take_first, absorb, release_at, block_at,
}
use shahi_n_kernel.Memory.Heap.Settled.{
  head_used, settled, Sized, tail-settled, cons-settled, head-settled, release_at-kept,
}

-- A block that was taken, first or further behind.
abbrev Taken : (n : ℕ) → Block → List Block → ℕ × List Block → Type 0
Taken n b bs r =
    ((suits n b ≡ true) × (r ≡ (0, place n b bs)))
    ⊎ ((suits n b ≡ false)
        × ((q : ℕ × List Block) × (take_first n bs ≡ some q) × (r ≡ (b.size + q.0, b ∷ q.1))))

take_first-cases :
    (n : ℕ) (b : Block) (bs : List Block) (r : ℕ × List Block)
    → take_first n (b ∷ bs) ≡ some r
    → Taken n b bs r
unfolding take_first
take_first-cases n b bs r e = elim (Bool-cases (suits n b)) [
  | inl s ↦ inl (s, some-injective r (0, place n b bs) (sym (simp s at e)))
  | inr s ↦ elim (Option-cases (take_first n bs)) [
    | inl o ↦ absurd (ground (arith, e, s, o))
    | inr (q, o) ↦
        inr (s, (q, o, some-injective r (b.size + q.0, b ∷ q.1) (sym (simp (s, o) at e))))
  ]
]

none_taken : (n : ℕ) (r : ℕ × List Block) → take_first n [] ≢ some r
unfolding take_first
none_taken n r e = cc

settled-place :
    (n : ℕ) (b : Block) (bs : List Block)
    → suits n b ≡ true
    → settled (b ∷ bs) ≡ true
    → (head_used (place n b bs) ≡ true) × (settled (place n b bs) ≡ true)
unfolding place settled head_used
settled-place n b bs s e = (ground arith, ground (arith, s, e))

-- Taking a block leaves no free neighbours, and no free block in front of where there was none.
pub settled-taken :
    (n : ℕ) (bs : List Block) (r : ℕ × List Block)
    → take_first n bs ≡ some r
    → settled bs ≡ true
    → (head_used bs ≡ true → head_used r.1 ≡ true) × (settled r.1 ≡ true)
unfolding head_used
settled-taken n [] r t e = absurd (none_taken n r t)
settled-taken n (b ∷ bs) r t e = elim (take_first-cases n b bs r t) [
  | inl (s, p) ↦ let whole = settled-place n b bs s e in rw p ((λ h. whole.0), whole.1)
  | inr (s, (q, o, p)) ↦
      let rest = settled-taken n bs q o (tail-settled b bs e) in
      let front : b.used ≡ true ⊎ (head_used q.1 ≡ true) = elim (head-settled b bs e) [
        | inl u ↦ inl u
        | inr u ↦ inr (rest.0 u)
      ] in
      rw p ((λ h. h), cons-settled b q.1 front rest.1)
]

-- A block taken at the start of a row was its first, and free.
first_was_free :
    (n : ℕ) (bs : List Block) (r : ℕ × List Block)
    → Sized bs
    → take_first n bs ≡ some r
    → r.0 ≡ 0
    → head_used bs ≡ false
unfolding head_used Sized
first_was_free n [] r z t e = absurd (none_taken n r t)
first_was_free n (b ∷ bs) r z t e = elim (take_first-cases n b bs r t) [
  | inl (s, p) ↦ ground (arith, s)
  | inr (s, (q, o, p)) ↦
      let far = ap (λ (x : ℕ × List Block). x.0) p in absurd (omega (arith, far, e, z.0))
]

absorb-settled : (b : Block) (bs : List Block) → head_used bs ≡ true → absorb b bs ≡ b ∷ bs
unfolding absorb head_used
absorb-settled b [] e = refl
absorb-settled b (c ∷ bs) e = rw e refl

free-settled : (b : Block) (n : ℕ) → b.used ≡ false → n ≡ b.size → free_block n ≡ b
free-settled b n e s =
    ap (λ m. free_block m) s ∙ ap (λ u. record { used = u; size = b.size }) (sym e)

release-place :
    (n : ℕ) (b : Block) (bs : List Block)
    → suits n b ≡ true
    → settled (b ∷ bs) ≡ true
    → release_at 0 (place n b bs) ≡ b ∷ bs
unfolding place release_at absorb settled
release-place n b bs s e =
    let unused : b.used ≡ false = ground (arith, s) in
    elim (Bool-cases (leb b.size (n + 32))) [
      | inl l ↦ rw l (
          absorb-settled (free_block b.size) bs (ground (arith, e, unused))
          ∙ ap (λ c. c ∷ bs) (free-settled b b.size unused refl))
      | inr l ↦
          rw l (ap (λ c. c ∷ bs) (free-settled b (n + (b.size - n)) unused (ground (arith, l))))
    ]

block_at-place :
    (n : ℕ) (b : Block) (bs : List Block)
    → (c : Block) × (block_at 0 (place n b bs) ≡ some c) × (c.used ≡ true)
unfolding place block_at
block_at-place n b bs = elim (Bool-cases (leb b.size (n + 32))) [
  | inl e ↦ (used_block b.size, rw e refl, refl)
  | inr e ↦ (used_block n, rw e refl, refl)
]

-- The block taken starts at the offset named, and is in use.
pub block_at-taken :
    (n : ℕ) (bs : List Block) (r : ℕ × List Block)
    → Sized bs
    → take_first n bs ≡ some r
    → (c : Block) × (block_at r.0 r.1 ≡ some c) × (c.used ≡ true)
unfolding Sized block_at
block_at-taken n [] r z t = absurd (none_taken n r t)
block_at-taken n (b ∷ bs) r z t = elim (take_first-cases n b bs r t) [
  | inl (s, p) ↦ rw p (block_at-place n b bs)
  | inr (s, (q, o, p)) ↦
      let rest = block_at-taken n bs q z.1 o in
      let far : (b.size + q.0 == 0) ≡ false = ground (arith, z.0) in
      let past : leb b.size (b.size + q.0) ≡ true = ground arith in
      let back : b.size + q.0 - b.size ≡ q.0 = omega arith in rw (p, far, past, back) rest
]

-- Releasing the block just taken gives the row back.
pub release_at-taken :
    (n : ℕ) (bs : List Block) (r : ℕ × List Block)
    → Sized bs
    → settled bs ≡ true
    → take_first n bs ≡ some r
    → release_at r.0 r.1 ≡ bs
unfolding Sized
release_at-taken n [] r z e t = absurd (none_taken n r t)
release_at-taken n (b ∷ bs) r z e t = elim (take_first-cases n b bs r t) [
  | inl (s, p) ↦ rw p (release-place n b bs s e)
  | inr (s, (q, o, p)) ↦
      let rest = release_at-taken n bs q z.1 (tail-settled b bs e) o in
      let far : (b.size + q.0 == 0) ≡ false = ground (arith, z.0) in
      let front = head-settled b bs e in
      let apart : (b.size + q.0 == b.size) && not b.used ≡ false = elim (Bool-cases (q.0 == 0)) [
        | inl y ↦
            let was_free = first_was_free n bs q z.1 o (ground arith) in
            ground (arith, was_free, front)
        | inr y ↦ ground (arith, y)
      ] in
      let back : b.size + q.0 - b.size ≡ q.0 = omega arith in
      rw p (
        release_at-kept (b.size + q.0) b q.1 far apart
        ∙ ap (λ x. b ∷ release_at x q.1) back
        ∙ ap (λ x. b ∷ x) rest)
]
