-- ===== src/Memory/Heap/Bump.antt =====
-- `kmalloc` where no free block of the row is large enough: a new block behind the last one.
use shahi_n_kernel.Prelude.{
  ℕ, suc, ◌+◌, ◌*◌, ◌/◌, ◌%◌, ◌^◌, ◌≤◌, ◌<◌, ◌≡◌, ◌≢◌, refl, sym, ap, ◌∙◌, ◌⊎◌, inl, inr, Bool,
  false, none, List, [], ◌∷◌, ◌++◌, ◌==◌, if◌then◌else◌, arith, add64, Bool-cases,
}
use mathlib.Core.Path.{subst}
use shahi_n_kernel.Memory.Frames.{page_size}
use shahi_n_kernel.Memory.Paging.{Words, put_word}
use shahi_n_kernel.Memory.Heap.{
  Heap, block_used, block_free, magic, size, next, prev, block_init, clear, kmalloc, kmalloc_at,
  hand_out, hand_out_new, heap_append, append_to, extend, extend_fuel, link_last, align16,
  header_size,
}
use shahi_n_kernel.Memory.Heap.Blocks.{Block, used_block, take_first}
use shahi_n_kernel.Memory.Heap.Chain.{Chain, Holds, link_to, last_of, Chain-length}
use shahi_n_kernel.Memory.Heap.Split.{clear-outside}
use shahi_n_kernel.Memory.Heap.Take.{need}
use shahi_n_kernel.Memory.Heap.Append.{last_of_le, Header, Chain-snoc, last_of-snoc}
use shahi_n_kernel.Memory.Heap.Grow.{Mapped, Exhausted, Extended, extend-Extended}
use shahi_n_kernel.Memory.Heap.Allocate.{find-first}

-- The words with a used block of `n` bytes at `b` behind the block at `last`.
linked_words : (last b n : ℕ) → Words → Words
unfolding block_init put_word
linked_words last b n w =
    let w1 = put_word (prev b) last (block_init b n block_free w) in
    put_word (magic b) block_used (if last == 0 then w1 else put_word (next last) b w1)

module _ (last b n : ℕ) (w : Words) (apart : last + 32 ≤ b) where
  linked-Header : Header (linked_words last b n w) last b n
  unfolding Header linked_words
  linked-Header = (ground arith, ground arith, ground arith, ground arith)

  linked-below : (x : ℕ) → x < b → x ≢ next last → linked_words last b n w x ≡ w x
  unfolding linked_words
  linked-below x l k = ground arith

  linked-next : 0 < last → linked_words last b n w (next last) ≡ b
  unfolding linked_words
  linked-next l = ground arith

new_words : (last b bytes : ℕ) → Words → Words
new_words last b bytes w = clear (b + 32) bytes (linked_words last b (need bytes) w)

-- The clearing spares the header and what is in front of it.
new-linked :
    (last b bytes x : ℕ) (w : Words)
    → x < b + 32
    → new_words last b bytes w x ≡ linked_words last b (need bytes) w x
unfolding new_words
new-linked last b bytes x w h =
    clear-outside (b + 32) bytes x (linked_words last b (need bytes) w) (inl h)

-- The last block's place, with no block in the row being place 0.
last-apart :
    (w : Words) (a : ℕ) (bs : List Block) (stop : ℕ)
    → 32 ≤ a
    → Chain w 0 a bs stop
    → (last_of 0 a bs + 32 ≤ stop) × (bs ≢ [] → 0 < last_of 0 a bs)
unfolding last_of
last-apart w a [] stop low c = (omega (arith, Chain-length w 0 a [] stop c), λ h. absurd (h refl))
last-apart w a (b ∷ bs) stop low c =
    let le = last_of_le w 0 a b bs stop c in (le.1, λ h. omega (arith, le.0))

-- The chain with the new block.
new-Chain :
    (w : Words) (a bytes : ℕ) (bs : List Block) (stop : ℕ)
    → 32 ≤ a
    → Chain w 0 a bs stop
    → Chain
        (new_words (last_of 0 a bs) stop bytes w)
        0
        a
        (bs ++ used_block (need bytes) ∷ [])
        (stop + need bytes)
unfolding Header
new-Chain w a bytes bs stop low c =
    let last : ℕ = last_of 0 a bs in
    let apart = last-apart w a bs stop low c in
    let header = linked-Header last stop (need bytes) w apart.0 in
    Chain-snoc w (new_words last stop bytes w) 0 a (need bytes) bs stop (omega arith) (omega arith)
      (λ x l k.
        new-linked last stop bytes x w (omega arith)
        ∙ linked-below last stop (need bytes) w apart.0 x l k)
      (λ h.
        new-linked last stop bytes (next last) w (omega (arith, apart.0))
        ∙ linked-next last stop (need bytes) w apart.0 (apart.1 h))
      (
        new-linked last stop bytes stop w (omega arith) ∙ header.0,
        new-linked last stop bytes (size stop) w (omega arith) ∙ header.1,
        new-linked last stop bytes (next stop) w (omega arith) ∙ header.2,
        new-linked last stop bytes (prev stop) w (omega arith) ∙ header.3,
      )
      c

-- The heap with the new block.
new_heap : (bytes : ℕ) → Heap → Heap
new_heap bytes h = record h {
  words = new_words h.last_block h.heap_current bytes h.words;
  first_block = if h.last_block == 0 then h.heap_current else h.first_block;
  last_block = h.heap_current;
  heap_current = h.heap_current + need bytes;
}

hand_out-link_last :
    (bytes : ℕ) (h : Heap)
    → 0 < h.heap_current
    → h.heap_current + need bytes < 2 ^ 63
    → hand_out_new bytes (link_last (need bytes) h) ≡ (h.heap_current + 32, new_heap bytes h)
unfolding hand_out_new hand_out link_last new_heap new_words linked_words
hand_out-link_last bytes h pos small =
    let some_place : (h.heap_current == 0) ≡ false = ground arith in
    let p : add64 h.heap_current header_size ≡ h.heap_current + 32 = omega arith in
    let stop : add64 h.heap_current (need bytes) ≡ h.heap_current + need bytes = omega arith in
    elim (Bool-cases (h.last_block == 0)) [
      | inl e ↦ rw (some_place, p, stop, e) refl
      | inr e ↦ rw (some_place, p, stop, e) refl
    ]

new-first :
    (w : Words) (a n : ℕ) (bs : List Block) (stop first : ℕ)
    → 0 < a
    → Chain w 0 a bs stop
    → first ≡ link_to a bs
    → (if last_of 0 a bs == 0 then stop else first) ≡ link_to a (bs ++ used_block n ∷ [])
unfolding link_to last_of Chain
new-first w a n [] stop first pos c e = sym c
new-first w a n (b ∷ bs) stop first pos c e =
    let le = last_of_le w 0 a b bs stop c in
    let some_last : (last_of a (a + b.size) bs == 0) ≡ false =
      not_zero (last_of a (a + b.size) bs) (omega (arith, le.0)) in
    rw some_last e
  where
    not_zero : (x : ℕ) → 0 < x → (x == 0) ≡ false
    not_zero x h = ground arith

-- The heap holds the row with the new block.
new_heap-Holds :
    (bytes : ℕ) (h : Heap) (bs : List Block)
    → Holds h bs
    → h.heap_current + need bytes ≤ h.heap_end
    → Holds (new_heap bytes h) (bs ++ used_block (need bytes) ∷ [])
unfolding new_heap
new_heap-Holds bytes h bs v fits = record {
  chained = rw (v.last) (new-Chain h.words h.heap_start bytes bs h.heap_current v.placed v.chained);
  first = rw (v.last) (
      new-first h.words h.heap_start (need bytes) bs h.heap_current h.first_block
        (omega (arith, v.placed)) v.chained v.first);
  last = sym (last_of-snoc 0 h.heap_start (need bytes) h.words bs h.heap_current v.chained);
  placed = v.placed;
  aligned = v.aligned;
  mapped = fits;
  below = v.below;
}

-- What is mapped behind the heap does not change its row.
Mapped-Holds :
    (h h' : Heap) (bs : List Block)
    → Mapped h h'
    → h.heap_end ≤ h'.heap_end
    → h'.heap_end < 2 ^ 63
    → Holds h bs
    → Holds h' bs
unfolding Mapped
Mapped-Holds h h' bs m grown below v =
    subst (λ (t : Heap). Holds t bs) (sym m)
      (record {
        chained = v.chained;
        first = v.first;
        last = v.last;
        placed = v.placed;
        aligned = v.aligned;
        mapped = omega (arith, v.mapped, grown);
        below = below;
      })

Chain-aligned :
    (w : Words) (before a : ℕ) (bs : List Block) (stop : ℕ)
    → a % 16 ≡ 0
    → Chain w before a bs stop
    → stop % 16 ≡ 0
unfolding Chain
Chain-aligned w before a [] stop even c = omega (arith, c)
Chain-aligned w before a (b ∷ bs) stop even c =
    Chain-aligned w a (a + b.size) bs stop (omega (arith, c.5)) c.6

-- What an allocation behind the last block can come to.
unfoldable pub Grows : (bytes : ℕ) → Heap → List Block → ℕ × Heap → Type 0
Grows bytes h bs r =
    ((r.0 ≡ 0) × Holds r.1 bs × Exhausted r.1)
    ⊎ ((r.0 ≡ h.heap_current + 32) × Holds r.1 (bs ++ used_block (need bytes) ∷ []))

hand_out-none : (bytes : ℕ) (h : Heap) → hand_out_new bytes (0, h) ≡ (0, h)
unfolding hand_out_new
hand_out-none bytes h = refl

append-Grows :
    (bytes : ℕ) (h : Heap) (bs : List Block) (r : Bool × Heap)
    → Holds h bs
    → Extended (need bytes) h r
    → Grows bytes h bs (hand_out_new bytes (append_to (need bytes) r))
unfolding Grows append_to Mapped
append-Grows bytes h bs (ok, h') v x =
    let held = Mapped-Holds h h' bs x.mapped x.grown x.below v in
    let current = ap (λ (t : Heap). t.heap_current) x.mapped in
    let length = Chain-length h.words 0 h.heap_start bs h.heap_current v.chained in
    elim x.result [
      | inl (e, long) ↦ rw e (
          rw
            (hand_out-link_last bytes h' (omega (arith, length, current))
              (omega (arith, long, current, x.below)))
            (inr (
              ap (λ t. t + 32) current,
              new_heap-Holds bytes h' bs held (omega (arith, long, current)),
            )))
      | inr (e, none_left) ↦ rw e (rw (hand_out-none bytes h') (inl (refl, held, none_left)))
    ]

heap_append-extend :
    (bytes : ℕ) (h : Heap)
    → bytes < 2 ^ 62
    → h.heap_current % 16 ≡ 0
    → h.heap_current < 2 ^ 63
    → heap_append (add64 header_size (align16 bytes)) h
      ≡ append_to (need bytes) (extend (extend_fuel (need bytes) h) (need bytes) h)
unfolding heap_append
heap_append-extend bytes h few even small =
    let aligned : align16 (add64 header_size (align16 bytes)) ≡ need bytes = omega arith in
    let current : align16 h.heap_current ≡ h.heap_current = omega arith in
    let whole = λ (t : ℕ). record h { heap_current = t } in
    rw aligned (
      ap
        (λ c.
          append_to (need bytes)
            (extend (extend_fuel (need bytes) (whole c)) (need bytes) (whole c)))
        current)

-- The loop has rounds enough.
extend-enough :
    {bs : List Block} (bytes : ℕ) (h : Heap)
    → Holds h bs
    → h.heap_current + bytes + 2 * page_size < 2 ^ 63
    → Extended (need bytes) h (extend (extend_fuel (need bytes) h) (need bytes) h)
extend-enough bytes h v small =
    let rounds : ℕ = (h.heap_current + need bytes) / page_size in
    subst (λ f. Extended (need bytes) h (extend f (need bytes) h)) (one_more rounds)
      (extend-Extended (rounds + 1) (need bytes) h (omega arith) v.below (omega arith))
  where
    one_more : (n : ℕ) → suc (n + 1) ≡ n + 2
    one_more n = omega arith

-- On a heap that holds a row, a request for more than 0 and fewer than 2^62 bytes, with addresses
-- that stay below 2^63, for which no free block of the row is large enough: `kmalloc` returns the
-- payload of a new block in use behind the row, or 0 with the row unchanged, when a page was needed
-- and no frame was left.
pub kmalloc-grow :
    (h : Heap) (bs : List Block) (bytes : ℕ)
    → Holds h bs
    → 0 < bytes
    → bytes < 2 ^ 62
    → h.heap_current + bytes + 2 * page_size < 2 ^ 63
    → take_first (need bytes) bs ≡ none
    → Grows bytes h bs (kmalloc bytes h)
unfolding kmalloc kmalloc_at
kmalloc-grow h bs bytes v pos few small e =
    let some_bytes : (bytes == 0) ≡ false = ground arith in
    let even = Chain-aligned h.words 0 h.heap_start bs h.heap_current v.aligned v.chained in
    rw
      (
        some_bytes,
        find-first h bs bytes v few,
        e,
        heap_append-extend bytes h few even (omega (arith, v.mapped, v.below)),
      )
      (append-Grows bytes h bs (extend (extend_fuel (need bytes) h) (need bytes) h) v
        (extend-enough bytes h v small))
