-- ===== src/Memory/Heap/Tidy.antt =====
-- The heap over several calls: it is in good order from `heap_init` on, and what `kmalloc` took
-- `kfree` gives back.
use shahi_n_kernel.Prelude.{
  ℕ, ◌+◌, ◌*◌, ◌^◌, ◌<◌, ◌≡◌, ◌≢◌, refl, sym, ap, ◌∙◌, inl, inr, true, false, some, List, [], ◌∷◌,
  ◌++◌, ◌==◌, arith, Bool-cases, Option-cases,
}
use mathlib.Core.Path.{subst}
use shahi_n_kernel.Memory.Frames.{alloc_frame, page_size}
use shahi_n_kernel.Memory.Heap.{Heap, heap_init, kmalloc, kfree, block_init}
use shahi_n_kernel.Memory.Paging.{Words, put_word}
use shahi_n_kernel.Memory.Heap.Blocks.{
  Block, free_block, used_block, take_first, release_at, block_at,
}
use shahi_n_kernel.Memory.Heap.Chain.{Chain, Holds, link_to, last_of}
use shahi_n_kernel.Memory.Heap.Take.{need}
use shahi_n_kernel.Memory.Heap.Allocate.{kmalloc-take, heap_start-kmalloc}
use shahi_n_kernel.Memory.Heap.Bump.{kmalloc-grow, Grows}
use shahi_n_kernel.Memory.Heap.Release.{kfree-release}
use shahi_n_kernel.Memory.Heap.Settled.{
  settled, head_used, Sized, settled-release_at, cons-settled, head-settled, tail-settled,
}
use shahi_n_kernel.Memory.Heap.Reuse.{settled-taken, block_at-taken, release_at-taken}

-- The heap holds some row, without free neighbours.
unfoldable pub Tidy : Heap → Type 0
Tidy h = (bs : List Block) × Holds h bs × (settled bs ≡ true)

Chain-Sized :
    (w : Words) (before a : ℕ) (bs : List Block) (stop : ℕ) → Chain w before a bs stop → Sized bs
unfolding Chain Sized
Chain-Sized w before a [] stop c = tt
Chain-Sized w before a (b ∷ bs) stop c = (c.4, Chain-Sized w a (a + b.size) bs stop c.6)

-- After `heap_init`, the heap is one free block of a page, if there was a frame for it.
pub heap_init-Holds :
    (h : Heap)
    → (alloc_frame h.machine.frames).0 ≢ 0
    → Holds (heap_init h) (free_block page_size ∷ [])
unfolding heap_init block_init Chain link_to last_of put_word
heap_init-Holds h e =
    let some_frame : ((alloc_frame h.machine.frames).0 == 0) ≡ false = ground (arith, e) in
    rw some_frame (record {
      chained = (refl, refl, refl, refl, omega arith, omega arith, refl);
      first = refl;
      last = refl;
      placed = omega arith;
      aligned = omega arith;
      mapped = omega arith;
      below = omega arith;
    })

-- On a heap that holds a row without free neighbours, after a request for more than 0 and fewer than
-- 2^62 bytes for which the row has a block, freeing what `kmalloc` returned gives the row back.
pub kfree-kmalloc :
    (h : Heap) (bs : List Block) (bytes : ℕ) (r : ℕ × List Block)
    → Holds h bs
    → settled bs ≡ true
    → 0 < bytes
    → bytes < 2 ^ 62
    → take_first (need bytes) bs ≡ some r
    → Holds (kfree (kmalloc bytes h).0 (kmalloc bytes h).1) bs
kfree-kmalloc h bs bytes r v e pos few t =
    let taken = kmalloc-take h bs bytes r v pos few t in
    let sizes = Chain-Sized h.words 0 h.heap_start bs h.heap_current v.chained in
    let (c, at, u) = block_at-taken (need bytes) bs r sizes t in
    let there : (kmalloc bytes h).0 ≡ (kmalloc bytes h).1.heap_start + r.0 + 32 =
      taken.0 ∙ ap (λ s. s + r.0 + 32) (sym (heap_start-kmalloc h bs bytes r v pos few t)) in
    let freed = kfree-release (kmalloc bytes h).1 r.1 r.0 c taken.1 at in
    let back = release_at-taken (need bytes) bs r sizes e t in
    rw there (
      subst (λ q. Holds (kfree ((kmalloc bytes h).1.heap_start + r.0 + 32) (kmalloc bytes h).1) q)
        back (simp u at freed))

settled-snoc :
    (n : ℕ) (bs : List Block) → settled bs ≡ true → settled (bs ++ used_block n ∷ []) ≡ true
unfolding settled head_used
settled-snoc n [] e = refl
settled-snoc n (b ∷ []) e = ground arith
settled-snoc n (b ∷ c ∷ bs) e =
    cons-settled b (c ∷ bs ++ used_block n ∷ []) (head-settled b (c ∷ bs) e)
      (settled-snoc n (c ∷ bs) (tail-settled b (c ∷ bs) e))

kmalloc-zero : (h : Heap) → (kmalloc 0 h).1 ≡ h
unfolding kmalloc
kmalloc-zero h = refl

-- A heap that holds some row without free neighbours still does after `kmalloc` of any size with which
-- its addresses stay below 2^62, whether it finds a block, makes a new one or fails.
pub kmalloc-Tidy :
    (h : Heap) (bytes : ℕ)
    → Tidy h
    → h.heap_current + bytes + 2 * page_size < 2 ^ 62
    → Tidy (kmalloc bytes h).1
unfolding Tidy Grows
kmalloc-Tidy h bytes (bs, v, e) small = elim (Bool-cases (bytes == 0)) [
  | inl z ↦
      let none_asked : bytes ≡ 0 = ground (arith, z) in (bs, rw (none_asked, kmalloc-zero h) v, e)
  | inr z ↦
      let pos : 0 < bytes = ground (arith, z) in
      elim (Option-cases (take_first (need bytes) bs)) [
        | inl t ↦ elim (kmalloc-grow h bs bytes v pos (omega arith) (omega arith) t) [
          | inl failed ↦ (bs, failed.1, e)
          | inr grown ↦
              (bs ++ used_block (need bytes) ∷ [], grown.1, settled-snoc (need bytes) bs e)
        ]
        | inr (r, t) ↦
            let taken = kmalloc-take h bs bytes r v pos (omega arith) t in
            (r.1, taken.1, (settled-taken (need bytes) bs r t e).1)
      ]
]

-- And by `kfree` of the payload of a block.
pub kfree-Tidy :
    (h : Heap) (bs : List Block) (offset : ℕ) (b : Block)
    → Holds h bs
    → settled bs ≡ true
    → block_at offset bs ≡ some b
    → Tidy (kfree (h.heap_start + offset + 32) h)
unfolding Tidy
kfree-Tidy h bs offset b v e at =
    let freed = kfree-release h bs offset b v at in
    elim (Bool-cases b.used) [
      | inl u ↦ (release_at offset bs, simp u at freed, settled-release_at offset b bs at e)
      | inr u ↦ (bs, simp u at freed, e)
    ]
