-- ===== src/Memory/Heap/Grow.antt =====
-- The loop that maps pages behind the heap, and `kmalloc` where no free block is large enough.
use shahi_n_kernel.Prelude.{
  ℕ, zero, suc, ◌+◌, ◌*◌, ◌^◌, ◌≤◌, ◌<◌, ◌≡◌, refl, ap, ◌∙◌, ◌⊎◌, inl, inr, Bool, true, false, ◌==◌,
  leb, arith, add64, Bool-cases,
}
use mathlib.Core.Path.{subst}
use shahi_n_kernel.Memory.Frames.{Frames, alloc_frame, page_size}
use shahi_n_kernel.Memory.Heap.{Heap, extend, heap_map_one_page}

-- Nothing but the end of the heap and the machine is different.
unfoldable pub Mapped : Heap → Heap → Type 0
Mapped h h' = h' ≡ record h { heap_end = h'.heap_end; machine = h'.machine }

-- No frame was left for the last page asked for.
pub Exhausted : Heap → Type 0
Exhausted h = (f : Frames) × ((alloc_frame f).0 ≡ 0) × (h.machine.frames ≡ (alloc_frame f).1)

heap_map_one_page-Mapped : (h : Heap) → Mapped h (heap_map_one_page h).1
unfolding Mapped heap_map_one_page
heap_map_one_page-Mapped h = elim (Bool-cases ((alloc_frame h.machine.frames).0 == 0)) [
  | inl e ↦ rw e refl
  | inr e ↦ rw e refl
]

heap_map_one_page-cases :
    (h : Heap)
    → (((heap_map_one_page h).0 ≡ true)
        × ((heap_map_one_page h).1.heap_end ≡ add64 h.heap_end page_size))
      ⊎ (((heap_map_one_page h).0 ≡ false)
          × ((heap_map_one_page h).1.heap_end ≡ h.heap_end)
          × Exhausted (heap_map_one_page h).1)
unfolding heap_map_one_page Exhausted
heap_map_one_page-cases h = elim (Bool-cases ((alloc_frame h.machine.frames).0 == 0)) [
  | inl e ↦ rw e (inr (refl, refl, (h.machine.frames, ground (arith, e), refl)))
  | inr e ↦ rw e (inl (refl, refl))
]

-- What the loop leaves: the heap is long enough, or there are no frames.
pub record Extended (bytes : ℕ) (h : Heap) (r : Bool × Heap) : Type 0 where
  pub mapped : Mapped h r.1
  pub grown : h.heap_end ≤ r.1.heap_end
  pub below : r.1.heap_end < 2 ^ 63
  pub result :
      ((r.0 ≡ true) × (h.heap_current + bytes ≤ r.1.heap_end)) ⊎ ((r.0 ≡ false) × Exhausted r.1)

-- Two maps one after the other.
Mapped-trans : (h h' h'' : Heap) → Mapped h h' → Mapped h' h'' → Mapped h h''
unfolding Mapped
Mapped-trans h h' h'' a b =
    b ∙ ap (λ (t : Heap). record t { heap_end = h''.heap_end; machine = h''.machine }) a

current-Mapped : (h h' : Heap) → Mapped h h' → h'.heap_current ≡ h.heap_current
unfolding Mapped
current-Mapped h h' m = ap (λ (t : Heap). t.heap_current) m

Extended-next :
    (bytes : ℕ) (h h' : Heap) (r : Bool × Heap)
    → Mapped h h'
    → h.heap_end ≤ h'.heap_end
    → Extended bytes h' r
    → Extended bytes h r
Extended-next bytes h h' r m g x = record {
  mapped = Mapped-trans h h' r.1 m x.mapped;
  grown = omega (arith, x.grown, g);
  below = x.below;
  result =
      subst (λ c. ((r.0 ≡ true) × (c + bytes ≤ r.1.heap_end)) ⊎ ((r.0 ≡ false) × Exhausted r.1))
        (current-Mapped h h' m) x.result;
}

-- The loop ends at once where the heap is long enough.
Extended-done :
    (bytes : ℕ) (h : Heap)
    → h.heap_current + bytes ≤ h.heap_end
    → h.heap_end < 2 ^ 63
    → Extended bytes h (true, h)
unfolding Mapped
Extended-done bytes h long below = record {
  mapped = refl;
  grown = omega arith;
  below = below;
  result = inl (refl, long);
}

Extended-failed :
    (bytes : ℕ) (h h' : Heap)
    → Mapped h h'
    → h'.heap_end ≡ h.heap_end
    → h.heap_end < 2 ^ 63
    → Exhausted h'
    → Extended bytes h (false, h')
Extended-failed bytes h h' m e below x = record {
  mapped = m;
  grown = omega (arith, e);
  below = omega (arith, e);
  result = inr (refl, x);
}

long_enough :
    (bytes : ℕ) (h : Heap)
    → h.heap_current + bytes + page_size < 2 ^ 63
    → leb (add64 h.heap_current bytes) h.heap_end ≡ leb (h.heap_current + bytes) h.heap_end
long_enough bytes h small =
    ap (λ t. leb t h.heap_end) (sum_small h.heap_current bytes (omega arith))
  where
    sum_small : (a b : ℕ) → a + b < 2 ^ 63 → add64 a b ≡ a + b
    sum_small a b l = omega arith

-- Given a round for each page that is needed, the loop makes the heap long enough, or runs out of
-- frames.
pub extend-Extended :
    (fuel bytes : ℕ) (h : Heap)
    → h.heap_current + bytes ≤ h.heap_end + fuel * page_size
    → h.heap_end < 2 ^ 63
    → h.heap_current + bytes + page_size < 2 ^ 63
    → Extended bytes h (extend (suc fuel) bytes h)
unfolding extend
extend-Extended zero bytes h enough below small =
    let long : leb (h.heap_current + bytes) h.heap_end ≡ true = ground arith in
    rw (long_enough bytes h small, long) (Extended-done bytes h (omega arith) below)
extend-Extended (suc fuel) bytes h enough below small =
    let h' = (heap_map_one_page h).1 in
    let m = heap_map_one_page-Mapped h in
    let same = current-Mapped h h' m in
    elim (Bool-cases (leb (h.heap_current + bytes) h.heap_end)) [
      | inl e ↦ rw (long_enough bytes h small, e) (Extended-done bytes h (ground (arith, e)) below)
      | inr e ↦
          let short : h.heap_end < h.heap_current + bytes = ground (arith, e) in
          elim (heap_map_one_page-cases h) [
            | inl (got, longer) ↦
                rw (long_enough bytes h small, e, got)
                  (Extended-next bytes h h' (extend (suc fuel) bytes h') m (omega (arith, longer)) (
                    extend-Extended fuel bytes h' (omega (arith, longer, same))
                      (omega (arith, longer)) (omega (arith, same))))
            | inr (failed, unmoved, none_left) ↦
                rw (long_enough bytes h small, e, failed)
                  (Extended-failed bytes h h' m unmoved below none_left)
          ]
    ]
