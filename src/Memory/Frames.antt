-- ===== src/Memory/Frames.antt =====
-- The physical frame allocator: the frame manager of the memory engine. Its statics are one record.
-- The bytes behind `frame_bitmap` are a list; the pointer itself is kept, since it is tested for null.
pub mod Bitmap
pub mod Laws
pub mod Init
use shahi_n_kernel.Prelude.{
  ℕ, zero, suc, ◌+◌, ◌*◌, ◌/◌, ◌%◌, ◌^◌, Bool, Option, none, some, List, ◌==◌, ltb, leb,
  if◌then◌else◌, add64, sub64, mul64, align_down, get_or, set, replicate,
}
use shahi_n_kernel.Prelude.Bits.{bit_test, bit_set, bit_clear}

abbrev pub page_size : ℕ
page_size = 4096

-- 64 GB
abbrev pub max_mapped : ℕ
max_mapped = 64 * 1024 * 1024 * 1024

pub record Frames : Type 0 where
  pub first_free_frame : ℕ
  pub alloc_base_frame : ℕ
  pub last_frame : ℕ
  pub frame_bitmap : ℕ
  pub bitmap : List ℕ
  pub bitmap_size : ℕ
  pub total_ram_bytes : ℕ

-- `bitmap[i / 8] & (1 << (i % 8))`
unfoldable pub taken : List ℕ → ℕ → Bool
taken bitmap i = bit_test (get_or bitmap (i / 8) 0) (i % 8)

-- `bitmap[i / 8] |= (1 << (i % 8))`
unfoldable pub mark : List ℕ → ℕ → List ℕ
mark bitmap i = set bitmap (i / 8) (bit_set (get_or bitmap (i / 8) 0) (i % 8))

-- `bitmap[i / 8] &= ~(1 << (i % 8))`
unfoldable pub unmark : List ℕ → ℕ → List ℕ
unmark bitmap i = set bitmap (i / 8) (bit_clear (get_or bitmap (i / 8) 0) (i % 8))

unfoldable pub frame_allocator_set_ram_size : ℕ → Frames → Frames
frame_allocator_set_ram_size total s =
    if total == 0
    then s
    else let ram : ℕ = if ltb max_mapped total then max_mapped else total in
      record s { last_frame = ram; total_ram_bytes = ram }

-- The loop that marks the frames of the bitmap itself: `rounds` more, from index `i`.
unfoldable pub reserve : (rounds i : ℕ) → List ℕ → List ℕ
reserve zero i bitmap = bitmap
reserve (suc rounds) i bitmap = reserve rounds (i + 1) (mark bitmap i)

abbrev pub first_frame : ℕ → ℕ
first_frame kernel_end = align_down page_size (sub64 (add64 kernel_end page_size) 1)

abbrev pub bitmap_bytes : (last first : ℕ) → ℕ
bitmap_bytes last first = add64 (sub64 last first / page_size) 7 / 8

abbrev pub bitmap_frames : ℕ → ℕ
bitmap_frames size = sub64 (add64 size page_size) 1 / page_size

-- `kernel_end` is what `get_kernel_end_phys` returns.
unfoldable pub frame_allocator_init : ℕ → Frames → Frames
unfolding reserve
frame_allocator_init kernel_end s =
    let first = first_frame kernel_end in
    let size = bitmap_bytes s.last_frame first in
    let frames = bitmap_frames size in
    record s {
      first_free_frame = first;
      bitmap_size = size;
      frame_bitmap = first;
      bitmap = reserve frames 0 (replicate size 0);
      alloc_base_frame = add64 first (mul64 frames page_size);
    }

-- The search loop of `alloc_frame`: `rounds` more bits, from index `i`.
unfoldable pub first_clear : (rounds i : ℕ) → List ℕ → Option ℕ
first_clear zero i bitmap = none
first_clear (suc rounds) i bitmap =
    let rest = first_clear rounds (i + 1) bitmap in if taken bitmap i then rest else some i

unfoldable pub take_frame : Frames → Option ℕ → ℕ × Frames
take_frame s none = (0, s)
take_frame s (some i) =
    (add64 s.alloc_base_frame (mul64 i page_size), record s { bitmap = mark s.bitmap i })

-- The address of a frame, or 0.
unfoldable pub alloc_frame : Frames → ℕ × Frames
unfolding first_clear take_frame
alloc_frame s =
    if s.frame_bitmap == 0
    then (0, s)
    else take_frame s (first_clear (mul64 s.bitmap_size 8) 0 s.bitmap)

-- Called where `frame` is not below `alloc_base_frame`.
abbrev pub frame_index : Frames → ℕ → ℕ
frame_index s frame = sub64 frame s.alloc_base_frame / page_size

unfoldable pub free_frame : ℕ → Frames → Frames
free_frame frame s =
    if s.frame_bitmap == 0
    then s
    else if ltb frame s.alloc_base_frame
    then s
    else if leb (mul64 s.bitmap_size 8) (frame_index s frame)
    then s
    else record s { bitmap = unmark s.bitmap (frame_index s frame) }
