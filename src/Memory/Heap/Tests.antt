-- ===== src/Memory/Heap/Tests.antt =====
-- The theorems about the heap at concrete inputs, and runs of its abstract view.
use shahi_n_kernel.Prelude.{
  ℕ, ◌+◌, ◌≡◌, ◌≢◌, refl, inl, inr, true, some, none, List, [], ◌∷◌, arith, if◌then◌else◌,
}
use shahi_n_kernel.Prelude.Bits.{bit_test, bit_set}
use shahi_n_kernel.Memory.Frames.{alloc_frame, page_size, taken, mark}
use shahi_n_kernel.Memory.Paging.{Machine, put_word}
use shahi_n_kernel.Memory.Heap.{
  Heap, heap_init, kmalloc, kfree, block_init, heap_base, block_free, block_used,
}
use shahi_n_kernel.Memory.Heap.Blocks.{
  Block, free_block, used_block, take_first, release_at, block_at, place, absorb,
}
use shahi_n_kernel.Memory.Heap.Chain.{Chain, Holds, link_to, last_of}
use shahi_n_kernel.Memory.Heap.Take.{need}
use shahi_n_kernel.Memory.Heap.Allocate.{kmalloc-take}
use shahi_n_kernel.Memory.Heap.Bump.{kmalloc-grow, Grows}
use shahi_n_kernel.Memory.Heap.Release.{kfree-release, kfree-outside}
use shahi_n_kernel.Memory.Heap.Settled.{settled}
use shahi_n_kernel.Memory.Heap.Tidy.{Tidy, heap_init-Holds, kfree-kmalloc, kmalloc-Tidy, kfree-Tidy}

-- Eight frames, the first two taken.
abbrev machine : Machine
machine = record {
  frames = record {
    first_free_frame = 0x1000;
    alloc_base_frame = 0x2000;
    last_frame = 0xa000;
    frame_bitmap = 0x1000;
    bitmap = 3 ∷ [];
    bitmap_size = 1;
    total_ram_bytes = 0xa000;
  };
  words = λ a. 0;
  kernel_pml4 = 0x9000;
}

-- A heap of one free block of a page.
abbrev one_free : Heap
one_free = record {
  words = block_init heap_base page_size block_free (λ a. 0);
  heap_start = heap_base;
  heap_current = heap_base + page_size;
  heap_end = heap_base + page_size;
  first_block = heap_base;
  last_block = heap_base;
  machine = machine;
}

one_free-Holds : Holds one_free (free_block page_size ∷ [])
unfolding block_init Chain link_to last_of put_word
one_free-Holds = record {
  chained = (refl, refl, refl, refl, omega arith, omega arith, refl);
  first = refl;
  last = refl;
  placed = omega arith;
  aligned = omega arith;
  mapped = omega arith;
  below = omega arith;
}

-- A request for 100 bytes takes 144, its header included.
abbrev taken_row : ℕ × List Block
taken_row = (0, used_block 144 ∷ free_block 3952 ∷ [])

take_100 : take_first (need 100) (free_block page_size ∷ []) ≡ some taken_row
unfolding take_first place
take_100 = refl

take_5000 : take_first (need 5000) (free_block page_size ∷ []) ≡ none
unfolding take_first
take_5000 = refl

one_free-settled : settled (free_block page_size ∷ []) ≡ true
unfolding settled
one_free-settled = refl

release_joins :
    release_at 144 (free_block 144 ∷ used_block 64 ∷ free_block 96 ∷ []) ≡ free_block 304 ∷ []
unfolding release_at absorb
release_joins = refl

kmalloc-take_example :
    ((kmalloc 100 one_free).0 ≡ heap_base + 0 + 32) × Holds (kmalloc 100 one_free).1 taken_row.1
kmalloc-take_example =
    kmalloc-take one_free (free_block page_size ∷ []) 100 taken_row one_free-Holds (omega arith)
      (omega arith) take_100

kmalloc-grow_test : Grows 5000 one_free (free_block page_size ∷ []) (kmalloc 5000 one_free)
kmalloc-grow_test =
    kmalloc-grow one_free (free_block page_size ∷ []) 5000 one_free-Holds (omega arith)
      (omega arith) (omega arith) take_5000

-- A heap of one block in use.
abbrev one_used : Heap
one_used = record one_free { words = block_init heap_base page_size block_used (λ a. 0) }

one_used-Holds : Holds one_used (used_block page_size ∷ [])
unfolding block_init Chain link_to last_of put_word
one_used-Holds = record {
  chained = (refl, refl, refl, refl, omega arith, omega arith, refl);
  first = refl;
  last = refl;
  placed = omega arith;
  aligned = omega arith;
  mapped = omega arith;
  below = omega arith;
}

used_at : block_at 0 (used_block page_size ∷ []) ≡ some (used_block page_size)
unfolding block_at
used_at = refl

one_used-settled : settled (used_block page_size ∷ []) ≡ true
unfolding settled
one_used-settled = refl

kfree-release_example :
    Holds
      (kfree (heap_base + 0 + 32) one_used)
      (if true then release_at 0 (used_block page_size ∷ []) else used_block page_size ∷ [])
kfree-release_example =
    kfree-release one_used (used_block page_size ∷ []) 0 (used_block page_size) one_used-Holds
      used_at

kfree-outside_example : kfree 0x1000 one_used ≡ one_used
kfree-outside_example =
    kfree-outside 0x1000 one_used (omega arith) (omega arith) (inr (inl (omega arith)))

some_frame : (alloc_frame machine.frames).0 ≢ 0
unfolding alloc_frame taken mark bit_test bit_set
some_frame e = omega (arith, e)

heap_init-Holds_test : Holds (heap_init one_used) (free_block page_size ∷ [])
heap_init-Holds_test = heap_init-Holds one_used some_frame

kfree-kmalloc_example :
    Holds (kfree (kmalloc 100 one_free).0 (kmalloc 100 one_free).1) (free_block page_size ∷ [])
kfree-kmalloc_example =
    kfree-kmalloc one_free (free_block page_size ∷ []) 100 taken_row one_free-Holds one_free-settled
      (omega arith) (omega arith) take_100

one_free-Tidy : Tidy one_free
unfolding Tidy
one_free-Tidy = (free_block page_size ∷ [], one_free-Holds, one_free-settled)

kmalloc-Tidy_test : Tidy (kmalloc 100 one_free).1
kmalloc-Tidy_test = kmalloc-Tidy one_free 100 one_free-Tidy (omega arith)

kfree-Tidy_test : Tidy (kfree (heap_base + 0 + 32) one_used)
kfree-Tidy_test =
    kfree-Tidy one_used (used_block page_size ∷ []) 0 (used_block page_size) one_used-Holds
      one_used-settled used_at
