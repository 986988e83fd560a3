-- ===== src/Memory/Tests.antt =====
-- The theorems about the memory engine at concrete inputs, and runs of its functions.
use shahi_n_kernel.Prelude.{
  ◌/◌, ltb, ℕ, ◌+◌, ◌*◌, ◌-◌, ◌≤◌, ◌<◌, ◌≡◌, refl, ◌≢◌, ◌⊎◌, true, [], ◌∷◌, arith,
}
use shahi_n_kernel.Prelude.Bits.{bit_test, bit_set, bit_clear}
use shahi_n_kernel.Memory.Frames.{
  Frames, page_size, max_mapped, taken, mark, unmark, frame_allocator_init,
  frame_allocator_set_ram_size, alloc_frame, free_frame,
}
use shahi_n_kernel.Memory.Frames.Laws.{
  IsValid, Hands, address, alloc_frame_lem, free_frame-alloc_frame, alloc_frame_distinct,
  free_frame-inside,
}
use shahi_n_kernel.Memory.Frames.Init.{
  Boots, init-IsValid, taken-init, address-above, top_frame_past_ram, set_ram_size_bounds,
}

-- One byte of bitmap at 0x1000, behind it eight frames, the first two taken.
abbrev two_taken : Frames
two_taken = record {
  first_free_frame = 0x1000;
  alloc_base_frame = 0x2000;
  last_frame = 0xa000;
  frame_bitmap = 0x1000;
  bitmap = 3 ∷ [];
  bitmap_size = 1;
  total_ram_bytes = 0xa000;
}

two_taken-IsValid : IsValid two_taken
two_taken-IsValid = omega arith

alloc_third : alloc_frame two_taken ≡ (0x4000, record two_taken { bitmap = 7 ∷ [] })
unfolding alloc_frame taken mark bit_test bit_set
alloc_third = refl

free_second : free_frame 0x3abc two_taken ≡ record two_taken { bitmap = 1 ∷ [] }
unfolding free_frame unmark bit_clear
free_second = refl

-- 40 KB of RAM, the kernel up to 0x800.
abbrev boot : Frames
boot = record two_taken { last_frame = 0xa000; frame_bitmap = 0; bitmap = []; bitmap_size = 0 }

boot-Boots : Boots 0x800 boot
boot-Boots = omega arith

init_runs : frame_allocator_init 0x800 boot ≡ record boot {
  first_free_frame = 0x1000;
  frame_bitmap = 0x1000;
  bitmap = 1 ∷ 0 ∷ [];
  bitmap_size = 2;
  alloc_base_frame = 0x2000;
}
unfolding frame_allocator_init mark bit_set
init_runs = refl

alloc_frame_lem_example :
    (((alloc_frame two_taken).0 ≡ 0)
      × ((alloc_frame two_taken).1 ≡ two_taken)
      × ((j : ℕ) → j < 8 → taken (3 ∷ []) j ≡ true))
    ⊎ ((i : ℕ) × Hands two_taken i (alloc_frame two_taken).0 (alloc_frame two_taken).1
        × ((alloc_frame two_taken).0 ≢ 0))
alloc_frame_lem_example = alloc_frame_lem two_taken-IsValid

alloc_nonzero : (alloc_frame two_taken).0 ≢ 0
unfolding alloc_frame taken bit_test
alloc_nonzero = omega arith

free_frame-alloc_frame_example :
    free_frame (alloc_frame two_taken).0 (alloc_frame two_taken).1 ≡ two_taken
free_frame-alloc_frame_example = free_frame-alloc_frame two_taken-IsValid alloc_nonzero

alloc_frame_distinct_test : (alloc_frame (alloc_frame two_taken).1).0 ≢ (alloc_frame two_taken).0
alloc_frame_distinct_test = alloc_frame_distinct two_taken-IsValid alloc_nonzero

free_frame-inside_test :
    free_frame 0x3abc two_taken ≡ record two_taken { bitmap = unmark (3 ∷ []) 1 }
free_frame-inside_test =
    free_frame-inside two_taken-IsValid 1 0x3abc (omega arith) (omega arith) (omega arith)

init-IsValid_example :
    let s' = frame_allocator_init 0x800 boot in
    IsValid s'
    × (0x800 ≤ s'.frame_bitmap)
    × ((i : ℕ) → s'.frame_bitmap + s'.bitmap_size ≤ address s' i)
    × ((j : ℕ) → taken s'.bitmap j ≡ ltb j ((s'.bitmap_size + 4095) / 4096))
init-IsValid_example = init-IsValid boot-Boots

taken-init_test : taken (frame_allocator_init 0x800 boot).bitmap 0 ≡ true
taken-init_test = taken-init boot-Boots 0

address-above_example :
    let s' = frame_allocator_init 0x800 boot in
    (0x800 ≤ s'.frame_bitmap) × (s'.frame_bitmap + s'.bitmap_size ≤ address s' 3)
address-above_example = address-above boot-Boots 3

top_frame_past_ram_example :
    let s' = frame_allocator_init 0x800 boot in
    s'.last_frame < address s' (s'.bitmap_size * 8 - 1) + page_size
top_frame_past_ram_example = top_frame_past_ram boot-Boots

set_ram_size_bounds_example :
    ((frame_allocator_set_ram_size 0x5000 boot).last_frame ≤ max_mapped)
    × (◌≢◌ {A = ℕ} 0x5000 0
        → 0x5000 ≤ max_mapped
        → (frame_allocator_set_ram_size 0x5000 boot).last_frame ≡ 0x5000)
set_ram_size_bounds_example = set_ram_size_bounds 0x5000 boot (omega arith)
