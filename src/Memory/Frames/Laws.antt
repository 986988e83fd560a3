-- ===== src/Memory/Frames/Laws.antt =====
-- `alloc_frame` and `free_frame` of the frame manager, over an allocator in good order.
use shahi_n_kernel.Prelude.{
  ℕ, ◌+◌, ◌*◌, ◌^◌, ◌<◌, ◌≤◌, ◌≡◌, refl, sym, ap, ◌∙◌, ◌≢◌, ◌⊎◌, true, false, ◌||◌, some, List,
  arith, ◌==◌, ltb, leb, Option-cases, length, inl, inr, mul64,
}
use shahi_n_kernel.Memory.Frames.{
  Frames, page_size, taken, mark, unmark, first_clear, take_frame, alloc_frame, free_frame,
  frame_index,
}
use shahi_n_kernel.Memory.Frames.Bitmap.{
  AreBytes, mark-AreBytes, unmark-AreBytes, taken-mark, unmark-mark, length-mark, length-unmark,
  first_clear-some, first_clear-none,
}

-- The bitmap is in place, its bytes are bytes, and no address that it stands for wraps.
pub record IsValid (s : Frames) : Type 0 where
  pub placed : 0 < s.frame_bitmap
  pub based : 0 < s.alloc_base_frame
  pub measured : length s.bitmap ≡ s.bitmap_size
  pub bytes : AreBytes s.bitmap
  pub no_wrap : s.alloc_base_frame + s.bitmap_size * 8 * page_size < 2 ^ 64

-- the address that index `i` stands for
abbrev pub address : Frames → ℕ → ℕ
address s i = s.alloc_base_frame + i * page_size

-- Index `i` is the lowest free one, and `(a, s')` hands out its frame and nothing else.
pub record Hands (s : Frames) (i a : ℕ) (s' : Frames) : Type 0 where
  pub within : i < s.bitmap_size * 8
  pub named : a ≡ address s i
  pub was_free : taken s.bitmap i ≡ false
  pub lowest : (j : ℕ) → j < i → taken s.bitmap j ≡ true
  pub marked : (j : ℕ) → taken s'.bitmap j ≡ ((j == i) || taken s.bitmap j)
  pub kept : s' ≡ record s { bitmap = mark s.bitmap i }

module _ {s : Frames} (v : IsValid s) where
  scan_length : mul64 s.bitmap_size 8 ≡ s.bitmap_size * 8
  scan_length = omega (arith, v.no_wrap)

  alloc_frame-scan : alloc_frame s ≡ take_frame s (first_clear (s.bitmap_size * 8) 0 s.bitmap)
  unfolding alloc_frame
  alloc_frame-scan =
      let p : (s.frame_bitmap == 0) ≡ false = ground (arith, v.placed) in rw (p, scan_length)

  take_frame-Hands :
      (i : ℕ)
      → first_clear (s.bitmap_size * 8) 0 s.bitmap ≡ some i
      → Hands s i (take_frame s (some i)).0 (take_frame s (some i)).1
  unfolding take_frame
  take_frame-Hands i e =
      let found = first_clear-some (s.bitmap_size * 8) 0 s.bitmap e in
      record {
        within = omega (arith, found.1);
        named = omega (arith, found.1, v.no_wrap);
        was_free = found.2;
        lowest = λ j lt. found.3 j (omega arith) lt;
        marked = λ j. taken-mark s.bitmap v.bytes i j (omega (arith, found.1, v.measured));
        kept = refl;
      }

  -- Over a valid allocator `alloc_frame` returns 0, with every index taken and nothing changed, or
  -- the nonzero address of the lowest free index, which it marks, and no other.
  pub alloc_frame_lem :
      (((alloc_frame s).0 ≡ 0)
        × ((alloc_frame s).1 ≡ s)
        × ((j : ℕ) → j < s.bitmap_size * 8 → taken s.bitmap j ≡ true))
      ⊎ ((i : ℕ) × Hands s i (alloc_frame s).0 (alloc_frame s).1 × ((alloc_frame s).0 ≢ 0))
  unfolding take_frame
  alloc_frame_lem = elim (Option-cases (first_clear (s.bitmap_size * 8) 0 s.bitmap)) [
    | inl e ↦ inl (
        rw (alloc_frame-scan, e)
          (
            refl,
            refl,
            λ j lt. first_clear-none (s.bitmap_size * 8) 0 s.bitmap e j (omega arith) (omega arith),
          ))
    | inr (i, e) ↦
        let hands = take_frame-Hands i e in
        inr (rw (alloc_frame-scan, e) (i, hands, omega (arith, hands.named, v.based)))
  ]

  pub alloc_frame-IsValid : IsValid (alloc_frame s).1
  unfolding alloc_frame take_frame
  alloc_frame-IsValid = elim alloc_frame_lem [
    | inl (_, same, _) ↦ rw same v
    | inr (i, hands, _) ↦ rw (hands.kept) (record {
      placed = v.placed;
      based = v.based;
      no_wrap = v.no_wrap;
      measured = length-mark s.bitmap i ∙ v.measured;
      bytes = mark-AreBytes s.bitmap v.bytes i;
    })
  ]

  -- The index that `free_frame` computes for the address of index `i` is `i`.
  index-address : (i : ℕ) → i < s.bitmap_size * 8 → frame_index s (address s i) ≡ i
  index-address i h = omega (arith, v.no_wrap)

  -- Freeing an address below the first frame, or past the last index, changes nothing.
  pub free_frame-outside :
      (a : ℕ)
      → a < 2 ^ 64
      → (a < s.alloc_base_frame) ⊎ (address s (s.bitmap_size * 8) ≤ a)
      → free_frame a s ≡ s
  unfolding free_frame
  free_frame-outside a small out = ground (arith, scan_length, v.no_wrap)

  -- Freeing any address in the frame of index `i` clears that index and leaves the others.
  pub free_frame-inside :
      (i a : ℕ)
      → i < s.bitmap_size * 8
      → address s i ≤ a
      → a < address s i + page_size
      → free_frame a s ≡ record s { bitmap = unmark s.bitmap i }
  unfolding free_frame
  free_frame-inside i a h lo hi =
      let placed : (s.frame_bitmap == 0) ≡ false = ground (arith, v.placed) in
      let above : ltb a s.alloc_base_frame ≡ false = ground arith in
      let index : frame_index s a ≡ i = omega (arith, v.no_wrap) in
      let within : leb (s.bitmap_size * 8) i ≡ false = ground arith in
      rw (placed, above, index, scan_length, within)

  pub unmark-IsValid : (i : ℕ) → IsValid (record s { bitmap = unmark s.bitmap i })
  unmark-IsValid i = record {
    placed = v.placed;
    based = v.based;
    no_wrap = v.no_wrap;
    measured = length-unmark s.bitmap i ∙ v.measured;
    bytes = unmark-AreBytes s.bitmap v.bytes i;
  }

  pub free_frame-IsValid : (a : ℕ) → IsValid (free_frame a s)
  unfolding free_frame
  free_frame-IsValid a = ground (
    arith,
    unmark-IsValid (frame_index s a),
    length-unmark s.bitmap (frame_index s a),
    unmark-AreBytes s.bitmap v.bytes (frame_index s a),
  )

-- Two allocations in a row never hand out one address.
pub alloc_frame_distinct :
    {s : Frames}
    → IsValid s
    → (alloc_frame s).0 ≢ 0
    → (alloc_frame (alloc_frame s).1).0 ≢ (alloc_frame s).0
alloc_frame_distinct {s} v got = elim (alloc_frame_lem v) [
  | inl (zero_address, _, _) ↦ absurd (got zero_address)
  | inr (i, hands, _) ↦ elim (alloc_frame_lem (alloc_frame-IsValid v)) [
    | inl (zero_address, _, _) ↦ λ e. got (sym e ∙ zero_address)
    | inr (j, again, _) ↦
        λ e. ground (arith, hands.marked j, ap (λ (t : Frames). t.alloc_base_frame) hands.kept)
  ]
]

-- `free_frame` undoes a successful `alloc_frame`: the whole state is as it was before.
pub free_frame-alloc_frame :
    {s : Frames}
    → IsValid s
    → (alloc_frame s).0 ≢ 0
    → free_frame (alloc_frame s).0 (alloc_frame s).1 ≡ s
free_frame-alloc_frame {s} v got = elim (alloc_frame_lem v) [
  | inl (zero_address, _, _) ↦ absurd (got zero_address)
  | inr (i, hands, _) ↦
      let base = ap (λ (t : Frames). t.alloc_base_frame) hands.kept in
      let size = ap (λ (t : Frames). t.bitmap_size) hands.kept in
      free_frame-inside (alloc_frame-IsValid v) i (alloc_frame s).0
        (omega (arith, hands.within, size)) (omega (arith, hands.named, base))
        (omega (arith, hands.named, base))
      ∙ ap (λ (t : Frames). record t { bitmap = unmark t.bitmap i }) hands.kept
      ∙ ap (λ (b : List ℕ). record s { bitmap = b })
          (unmark-mark s.bitmap v.bytes i (omega (arith, hands.within, v.measured)) hands.was_free)
]
