-- ===== src/Memory/Heap/Allocate.antt =====
-- `kmalloc` on a heap that holds a row of blocks.
use shahi_n_kernel.Prelude.{
  ℕ, ◌+◌, ◌^◌, ◌<◌, ◌≡◌, refl, sym, ap, ◌∙◌, inl, inr, false, some, List, ◌==◌, leb, arith, add64,
  align_down, Bool-cases,
}
use mathlib.Core.Option
use shahi_n_kernel.Memory.Heap.{
  Heap, size, next, find_block, block_split, hand_out, header_size, min_split, kmalloc, kmalloc_at,
  find_fuel, align16,
}
use shahi_n_kernel.Memory.Heap.Blocks.{Block, take_first}
use shahi_n_kernel.Memory.Heap.Chain.{Holds, Chain-length}
use shahi_n_kernel.Memory.Heap.Split.{split_words, find_block-take_first}
use shahi_n_kernel.Memory.Heap.Take.{need, marked, taken_words, last_after, Leaves, take-Leaves}

-- What the two steps of an allocation in a found block leave of the heap.
split_heap : (b bytes : ℕ) → Heap → Heap
split_heap b bytes h = record h {
  words = taken_words b bytes h.words;
  last_block = last_after h.words b bytes h.last_block;
}

module _ (h : Heap) (b bytes : ℕ) (low : b < 2 ^ 63) (few : bytes < 2 ^ 62) where
  hand_out-words : (hand_out b bytes (block_split b (align16 bytes) h)).1 ≡ split_heap b bytes h
  unfolding split_heap taken_words last_after hand_out block_split marked split_words
  hand_out-words =
      let aligned : align16 bytes ≡ align_down 16 (bytes + 15) = omega arith in
      let total : add64 header_size (align_down 16 (bytes + 15)) ≡ need bytes = omega arith in
      let rem : add64 b (need bytes) ≡ b + need bytes = omega arith in
      let bound : add64 (need bytes) min_split ≡ need bytes + 32 = omega arith in
      let p : add64 b header_size ≡ b + 32 = omega arith in
      elim (Bool-cases (leb (h.words (size b)) (need bytes + 32))) [
        | inl e ↦ rw (aligned, total, bound, p, e) refl
        | inr e ↦ elim (Bool-cases (h.words (next b) == 0)) [
          | inl z ↦ rw (aligned, total, bound, rem, p, e, z) refl
          | inr z ↦ rw (aligned, total, bound, rem, p, e, z) refl
        ]
      ]

  hand_out-address : (h' : Heap) → (hand_out b bytes h').0 ≡ b + 32
  unfolding hand_out
  hand_out-address h' = omega arith

-- The search finds what the row's search finds.
pub find-first :
    (h : Heap) (bs : List Block) (bytes : ℕ)
    → Holds h bs
    → bytes < 2 ^ 62
    → find_block (find_fuel h) h.first_block (align16 bytes) h.words
      ≡ Option.map (λ r. h.heap_start + r.0) (take_first (need bytes) bs)
find-first h bs bytes v few =
    let aligned : align16 bytes ≡ align_down 16 (bytes + 15) = omega arith in
    let long = Chain-length h.words 0 h.heap_start bs h.heap_current v.chained in
    rw (aligned, v.first)
      (find_block-take_first (find_fuel h) h.words 0 h.heap_start (align_down 16 (bytes + 15)) bs
        h.heap_current (omega (arith, v.placed)) (omega arith) (omega (arith, long)) v.chained)

split_heap-Holds :
    (h : Heap) (bs : List Block) (bytes : ℕ) (r : ℕ × List Block)
    → Holds h bs
    → Leaves h.words 0 h.heap_start bytes bs h.heap_current r
    → Holds (split_heap (h.heap_start + r.0) bytes h) r.1
unfolding split_heap
split_heap-Holds h bs bytes r v l = record {
  chained = l.chained;
  first = v.first ∙ sym (l.linked h.heap_start);
  last = ap (last_after h.words (h.heap_start + r.0) bytes) v.last ∙ sym l.lasts;
  placed = v.placed;
  aligned = v.aligned;
  mapped = v.mapped;
  below = v.below;
}

-- On a heap that holds a row of blocks, a request for more than 0 and fewer than 2^62 bytes, for which
-- the row has a free block large enough with the header and the rounding to 16: `kmalloc` returns the
-- payload of the first such block, and the heap then holds the row with that block taken, split where
-- more than 32 bytes stay over.
pub kmalloc-take :
    (h : Heap) (bs : List Block) (bytes : ℕ) (r : ℕ × List Block)
    → Holds h bs
    → 0 < bytes
    → bytes < 2 ^ 62
    → take_first (need bytes) bs ≡ some r
    → ((kmalloc bytes h).0 ≡ h.heap_start + r.0 + 32) × Holds (kmalloc bytes h).1 r.1
unfolding kmalloc kmalloc_at
kmalloc-take h bs bytes r v pos few e =
    let some_bytes : (bytes == 0) ≡ false = ground arith in
    let b : ℕ = h.heap_start + r.0 in
    let leaves =
      take-Leaves h.words 0 h.heap_start bytes bs h.heap_current r (omega (arith, v.placed))
        v.chained e in
    let low : b < 2 ^ 63 = omega (arith, leaves.within, v.mapped, v.below) in
    rw (some_bytes, find-first h bs bytes v few, e)
      (
        hand_out-address h b bytes low few (block_split b (align16 bytes) h),
        rw (hand_out-words h b bytes low few) (split_heap-Holds h bs bytes r v leaves),
      )

pub heap_start-kmalloc :
    (h : Heap) (bs : List Block) (bytes : ℕ) (r : ℕ × List Block)
    → Holds h bs
    → 0 < bytes
    → bytes < 2 ^ 62
    → take_first (need bytes) bs ≡ some r
    → (kmalloc bytes h).1.heap_start ≡ h.heap_start
unfolding kmalloc kmalloc_at split_heap
heap_start-kmalloc h bs bytes r v pos few e =
    let some_bytes : (bytes == 0) ≡ false = ground arith in
    let b : ℕ = h.heap_start + r.0 in
    let leaves =
      take-Leaves h.words 0 h.heap_start bytes bs h.heap_current r (omega (arith, v.placed))
        v.chained e in
    let low : b < 2 ^ 63 = omega (arith, leaves.within, v.mapped, v.below) in
    rw (some_bytes, find-first h bs bytes v few, e)
      (ap (λ (t : Heap). t.heap_start) (hand_out-words h b bytes low few))
