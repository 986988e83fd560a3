-- ===== src/Memory/Frames/Init.antt =====
-- `frame_allocator_init` and `frame_allocator_set_ram_size`: the allocator that they set up.
use shahi_n_kernel.Prelude.{
  ap, ℕ, ◌+◌, ◌-◌, ◌*◌, ◌/◌, ◌%◌, ◌<◌, ◌≤◌, ◌≡◌, ◌∙◌, ◌≢◌, false, arith, ltb, length, add64, mul64,
  replicate, get_or-replicate, All-replicate, length-replicate,
}
use shahi_n_kernel.Prelude.Bits.{bit_test-zero}
use shahi_n_kernel.Memory.Frames.{
  Frames, page_size, max_mapped, taken, frame_allocator_set_ram_size, frame_allocator_init,
  first_frame, bitmap_bytes, bitmap_frames,
}
use shahi_n_kernel.Memory.Frames.Bitmap.{AreBytes, taken-reserve, reserve-AreBytes}
use shahi_n_kernel.Memory.Frames.Laws.{IsValid, address}

-- The bytes of RAM that the allocator is told of: at most 64 GB, and unchanged by a size of 0.
pub set_ram_size_bounds :
    (ram : ℕ) (s : Frames)
    → s.last_frame ≤ max_mapped
    → ((frame_allocator_set_ram_size ram s).last_frame ≤ max_mapped)
      × (ram ≢ 0 → ram ≤ max_mapped → (frame_allocator_set_ram_size ram s).last_frame ≡ ram)
unfolding frame_allocator_set_ram_size
set_ram_size_bounds ram s h = ground arith

-- What the boot code meets: the kernel ends above address 0, a page or more below the end of RAM.
pub record Boots (kernel_end : ℕ) (s : Frames) : Type 0 where
  pub positive : 0 < kernel_end
  pub room : kernel_end + 2 * page_size ≤ s.last_frame
  pub mapped : s.last_frame ≤ max_mapped

taken-replicate : (n j : ℕ) → taken (replicate n 0) j ≡ false
unfolding taken
taken-replicate n j = rw (get_or-replicate {A = ℕ} n (j / 8) 0) (bit_test-zero (j % 8))

module _ {kernel_end : ℕ} {s : Frames} (b : Boots kernel_end s) where
  abbrev first : ℕ
  first = first_frame kernel_end

  abbrev size : ℕ
  size = bitmap_bytes s.last_frame first

  abbrev frames : ℕ
  frames = bitmap_frames size

  -- No step of the computation of the layout wraps.
  layout :
      (first ≡ (kernel_end + 4095) / 4096 * 4096)
      × (size ≡ ((s.last_frame - first) / 4096 + 7) / 8)
      × (frames ≡ (size + 4095) / 4096)
      × (add64 first (mul64 frames page_size) ≡ first + frames * page_size)
      × (frames ≤ size * 8)
  layout = (
    omega (arith, b.room, b.mapped),
    omega (arith, b.room, b.mapped),
    omega (arith, b.room, b.mapped),
    omega (arith, b.room, b.mapped),
    omega (arith, b.room, b.mapped),
  )

  zeros : AreBytes (replicate size 0) × (length {A = ℕ} (replicate size 0) ≡ size)
  zeros = (All-replicate (λ b. b < 256) size 0 (omega arith), length-replicate {A = ℕ} size 0)

  set_up-IsValid : IsValid (frame_allocator_init kernel_end s)
  unfolding frame_allocator_init
  set_up-IsValid =
      let kept = reserve-AreBytes frames 0 (replicate size 0) zeros.0 in
      record {
        placed = omega (arith, layout.0, b.positive);
        based = omega (arith, layout.0, layout.3, b.positive);
        measured = kept.1 ∙ zeros.1;
        bytes = kept.0;
        no_wrap = omega (arith, layout, b.room, b.mapped);
      }

  -- Afterwards exactly the lowest indices are taken, as many as the bitmap has frames.
  pub taken-init : (j : ℕ) → taken (frame_allocator_init kernel_end s).bitmap j ≡ ltb j frames
  unfolding frame_allocator_init
  taken-init j = ground (
    arith,
    taken-reserve frames 0 (replicate size 0) j zeros.0 (omega (arith, layout.4, zeros.1)),
    taken-replicate size j,
  )

  -- Every address that the allocator stands for lies above the kernel and above the bitmap.
  pub address-above :
      (i : ℕ)
      → let s' = frame_allocator_init kernel_end s in
        (kernel_end ≤ s'.frame_bitmap) × (s'.frame_bitmap + s'.bitmap_size ≤ address s' i)
  unfolding frame_allocator_init
  address-above i = (omega (arith, layout.0), omega (arith, layout))

  -- Given a kernel end above 0 and two pages or more below the end of RAM, of 64 GB at most,
  -- `frame_allocator_init` leaves an allocator in good order (the bitmap's bytes lie in place, and
  -- no address that it stands for wraps) whose bitmap starts at the kernel's end or above it. Every
  -- frame that it stands for lies past the bitmap, and exactly the lowest indices are taken, as
  -- many as the bitmap needs frames.
  pub init-IsValid :
      let s' = frame_allocator_init kernel_end s in
      IsValid s'
      × (kernel_end ≤ s'.frame_bitmap)
      × ((i : ℕ) → s'.frame_bitmap + s'.bitmap_size ≤ address s' i)
      × ((j : ℕ) → taken s'.bitmap j ≡ ltb j ((s'.bitmap_size + 4095) / 4096))
  unfolding frame_allocator_init
  init-IsValid = (
    set_up-IsValid,
    (address-above 0).0,
    λ i. (address-above i).1,
    λ j. taken-init j ∙ ap (ltb j) layout.2,
  )

  -- The frame of the highest index, which `alloc_frame` hands out last, does not lie within RAM:
  -- indices count from the first frame past the bitmap, and their number from before it.
  pub top_frame_past_ram :
      let s' = frame_allocator_init kernel_end s in
      s'.last_frame < address s' (s'.bitmap_size * 8 - 1) + page_size
  unfolding frame_allocator_init
  top_frame_past_ram = omega (arith, layout, b.room)
