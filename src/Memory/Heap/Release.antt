-- ===== src/Memory/Heap/Release.antt =====
-- `kfree` on a heap that holds a row of blocks, against the row with the block released.
use shahi_n_kernel.Prelude.{
  ℕ, ◌+◌, ◌-◌, ◌^◌, ◌≤◌, ◌<◌, ◌≡◌, refl, sym, ap, ◌∙◌, ◌⊎◌, inl, inr, Bool, true, false, not, ◌||◌,
  some, List, [], ◌∷◌, ◌==◌, if◌then◌else◌, leb, ltb, arith, sub64, Bool-cases,
}
use mathlib.Core.Path.{subst}
use mathlib.Core.Option.{some-injective}
use shahi_n_kernel.Memory.Paging.{Words, put_word}
use shahi_n_kernel.Memory.Heap.{
  Heap, block_used, block_free, magic, next, prev, block_coalesce_next, block_coalesce_prev,
  release, kfree, header_size,
}
use shahi_n_kernel.Memory.Heap.Blocks.{Block, release_at, block_at}
use shahi_n_kernel.Memory.Heap.Chain.{Chain, Holds, magic_of, Chain-length}
use shahi_n_kernel.Memory.Heap.Join.{coalesces, coalesced, joined_words, Row}
use shahi_n_kernel.Memory.Heap.Free.{freed, fronted, joins_front, released}
use shahi_n_kernel.Memory.Heap.Turn.{release-Turns, release_at-link, nothing_at, block_at-later}

-- A heap with other words and another last block.
settle : Words × ℕ → Heap → Heap
settle s h = record h { words = s.0; last_block = s.1 }

coalesce_next-settle :
    (b : ℕ) (h : Heap) → block_coalesce_next b h ≡ settle (coalesced b (h.words, h.last_block)) h
unfolding block_coalesce_next settle coalesced coalesces joined_words
coalesce_next-settle b h = elim (Bool-cases (h.words (next b) == 0)) [
  | inl e ↦ rw e refl
  | inr e ↦ elim (Bool-cases (h.words (magic (h.words (next b))) == block_free)) [
    | inl m ↦ elim (Bool-cases (h.words (next (h.words (next b))) == 0)) [
      | inl n ↦ rw (e, m, n) refl
      | inr n ↦ rw (e, m, n) refl
    ]
    | inr m ↦ rw (e, m) refl
  ]
]

coalesce_prev-settle :
    (b : ℕ) (h : Heap) → block_coalesce_prev b h ≡ settle (fronted b (h.words, h.last_block)) h
unfolding block_coalesce_prev settle fronted joins_front
coalesce_prev-settle b h = elim (Bool-cases (h.words (prev b) == 0)) [
  | inl e ↦ rw e refl
  | inr e ↦ elim (Bool-cases (h.words (magic (h.words (prev b))) == block_free)) [
    | inl m ↦ rw (e, m) (coalesce_next-settle (h.words (prev b)) h)
    | inr m ↦ rw (e, m) refl
  ]
]

release-settle : (b : ℕ) (h : Heap) → release b h ≡ settle (released b (h.words, h.last_block)) h
unfolding release settle released freed
release-settle b h =
    let h' = record h { words = put_word (magic b) block_free h.words } in
    rw (coalesce_next-settle b h')
      (coalesce_prev-settle b (settle (freed b (h.words, h.last_block)) h))

-- The header at an offset where a block starts.
header-at :
    (w : Words) (before a offset : ℕ) (bs : List Block) (b : Block) (stop : ℕ)
    → block_at offset bs ≡ some b
    → Chain w before a bs stop
    → (w (magic (a + offset)) ≡ magic_of b.used) × (a + offset + 32 ≤ stop)
unfolding block_at Chain
header-at w before a offset [] b stop e c = absurd (nothing_at offset b e)
header-at w before a offset (d ∷ bs) b stop e c = elim (Bool-cases (offset == 0)) [
  | inl z ↦
      let there : a + offset ≡ a = ground arith in
      let same : some d ≡ some b = simp z at e in
      rw (there, sym (some-injective d b same))
        (c.0, omega (arith, c.4, Chain-length w a (a + d.size) bs stop c.6))
  | inr z ↦
      let step = block_at-later offset d b bs (ground arith) e in
      let there : a + d.size + (offset - d.size) ≡ a + offset = omega (arith, step.0) in
      subst (λ x. (w (magic x) ≡ magic_of b.used) × (x + 32 ≤ stop)) there
        (header-at w a (a + d.size) (offset - d.size) bs b stop step.1 c.6)
]

release-Holds :
    (h : Heap) (bs : List Block) (offset : ℕ) (b : Block)
    → Holds h bs
    → block_at offset bs ≡ some b
    → Holds (release (h.heap_start + offset) h) (release_at offset bs)
unfolding settle Row
release-Holds h bs offset b v e =
    let t =
      release-Turns h.words h.last_block 0 h.heap_start offset bs b h.heap_current
        (omega (arith, v.placed)) (omega (arith, v.mapped, v.below)) (λ z. refl) e
        (v.chained, v.last) in
    rw (release-settle (h.heap_start + offset) h) (record {
      chained = t.row.0;
      first = v.first ∙ sym (release_at-link h.heap_start offset b bs e);
      last = t.row.1;
      placed = v.placed;
      aligned = v.aligned;
      mapped = v.mapped;
      below = v.below;
    })

-- Past its guards, `kfree` releases the block.
kfree-released :
    (ptr : ℕ) (h : Heap)
    → (ptr == 0)
        || ltb (sub64 ptr header_size) h.heap_start
        || leb h.heap_end (sub64 ptr header_size)
        || not (h.words (magic (sub64 ptr header_size)) == block_used)
      ≡ false
    → kfree ptr h ≡ release (sub64 ptr header_size) h
unfolding kfree release
kfree-released ptr h e = rw e refl

-- On a heap that holds a row, `kfree` of the payload of any block of it: the heap then holds the row
-- with that block released, joined with the block behind it and then the one in front of it where
-- these are free, if the block was in use, and the same row if it was free already.
pub kfree-release :
    (h : Heap) (bs : List Block) (offset : ℕ) (b : Block)
    → Holds h bs
    → block_at offset bs ≡ some b
    → Holds (kfree (h.heap_start + offset + 32) h) (if b.used then release_at offset bs else bs)
unfolding kfree
kfree-release h bs offset b v e =
    let at = header-at h.words 0 h.heap_start offset bs b h.heap_current e v.chained in
    let there : sub64 (h.heap_start + offset + 32) 32 ≡ h.heap_start + offset =
      omega (arith, at.1, v.mapped, v.below) in
    let some_pointer : (h.heap_start + offset + 32 == 0) ≡ false = ground arith in
    let not_below : ltb (h.heap_start + offset) h.heap_start ≡ false = ground arith in
    let not_above : leb h.heap_end (h.heap_start + offset) ≡ false =
      ground (arith, at.1, v.mapped) in
    elim (Bool-cases b.used) [
      | inl u ↦
          let m : (h.words (h.heap_start + offset) == block_used) ≡ true =
            ground (arith, at.0, u) in
          let test =
            ap
              (λ x.
                (h.heap_start + offset + 32 == 0)
                || ltb x h.heap_start
                || leb h.heap_end x
                || not (h.words (magic x) == block_used))
              there
            ∙ rw (some_pointer, not_below, not_above, m) refl in
          rw (kfree-released (h.heap_start + offset + 32) h test, there, u)
            (release-Holds h bs offset b v e)
      | inr u ↦
          let m : (h.words (h.heap_start + offset) == block_used) ≡ false =
            ground (arith, at.0, u) in
          rw (there, some_pointer, not_below, not_above, m, u) v
    ]

kfree-refused :
    (ptr : ℕ) (h : Heap)
    → (ptr == 0)
        || ltb (sub64 ptr header_size) h.heap_start
        || leb h.heap_end (sub64 ptr header_size)
        || not (h.words (magic (sub64 ptr header_size)) == block_used)
      ≡ true
    → kfree ptr h ≡ h
unfolding kfree release
kfree-refused ptr h e = rw e refl

-- In a heap that ends below 2^63, `kfree` of a 64-bit pointer that is 0, or whose header would stand
-- outside of the heap, changes nothing.
pub kfree-outside :
    (ptr : ℕ) (h : Heap)
    → ptr < 2 ^ 64
    → h.heap_end < 2 ^ 63
    → ptr ≡ 0 ⊎ ptr < h.heap_start + 32 ⊎ h.heap_end + 32 ≤ ptr
    → kfree ptr h ≡ h
kfree-outside ptr h bound below out =
    kfree-refused ptr h (outside (h.words (magic (sub64 ptr header_size)) == block_used))
  where
    header : ptr ≡ 0 ⊎ sub64 ptr header_size < h.heap_start ⊎ h.heap_end ≤ sub64 ptr header_size
    header = elim out [
      | inl e ↦ inl e
      | inr (inl e) ↦ elim (Bool-cases (ltb ptr 32)) [
        | inl low ↦ inr (inr (ground (arith, low)))
        | inr high ↦ inr (inl (ground (arith, high)))
      ]
      | inr (inr e) ↦ inr (inr (omega arith))
    ]

    outside :
        (known : Bool)
        → (ptr == 0)
            || ltb (sub64 ptr header_size) h.heap_start
            || leb h.heap_end (sub64 ptr header_size)
            || not known
          ≡ true
    outside known = ground (arith, header)
