-- ===== src/Memory/Heap.antt =====
-- The heap manager of the memory engine: a chain of blocks, each with a header of four 64-bit words,
-- which tile the heap from its start. Its memory is a function from the addresses of words to their
-- values; block addresses and sizes are multiples of 16, so that words do not overlap. The words of
-- the heap are kept apart from the physical memory that holds the page tables: that a table's frame
-- lies where the heap is mapped over the identity map, which the source does not exclude, is left out.
pub mod Blocks
pub mod Chain
pub mod Split
pub mod Take
pub mod Append
pub mod Grow
pub mod Allocate
pub mod Bump
pub mod Join
pub mod Free
pub mod Turn
pub mod Release
pub mod Settled
pub mod Reuse
pub mod Tidy
mod Tests
use shahi_n_kernel.Prelude.{
  ℕ, zero, suc, ◌+◌, ◌-◌, ◌*◌, ◌/◌, ◌%◌, ◌^◌, Bool, true, false, not, ◌&&◌, ◌||◌, Option, none,
  some, ◌==◌, ltb, leb, if◌then◌else◌, add64, sub64, align_down,
}
use shahi_n_kernel.Memory.Frames.{alloc_frame, page_size}
use shahi_n_kernel.Memory.Paging.{Words, Machine, put_word, map_page, page_present, page_write}

abbrev pub block_used : ℕ
block_used = 0xBEEFCAFE12345678

abbrev pub block_free : ℕ
block_free = 0xDEADBEEF87654321

abbrev pub header_size : ℕ
header_size = 32

abbrev pub min_split : ℕ
min_split = 32

abbrev pub heap_base : ℕ
heap_base = 0x8000000

-- `(x + 15) & ~15`
abbrev pub align16 : ℕ → ℕ
align16 x = align_down 16 (add64 x 15)

pub record Heap : Type 0 where
  pub words : Words
  pub heap_start : ℕ
  pub heap_current : ℕ
  pub heap_end : ℕ
  pub first_block : ℕ
  pub last_block : ℕ
  pub machine : Machine

-- The fields of the block at `b`.
abbrev pub magic : ℕ → ℕ
magic b = b

abbrev pub size : ℕ → ℕ
size b = b + 8

abbrev pub next : ℕ → ℕ
next b = b + 16

abbrev pub prev : ℕ → ℕ
prev b = b + 24

unfoldable pub heap_map_one_page : Heap → Bool × Heap
heap_map_one_page h =
    let (frame, frames) = alloc_frame h.machine.frames in
    let m = record h.machine { frames = frames } in
    if frame == 0 then (false, record h { machine = m }) else (
      true,
      record h {
        machine = map_page m.kernel_pml4 h.heap_end frame (page_present + page_write) m;
        heap_end = add64 h.heap_end page_size;
      },
    )

unfoldable pub block_init : (addr bytes kind : ℕ) → Words → Words
unfolding put_word
block_init addr bytes kind w =
    put_word (prev addr) 0
      (put_word (next addr) 0 (put_word (size addr) bytes (put_word (magic addr) kind w)))

-- The loop that extends the heap until `bytes` fit behind `heap_current`.
unfoldable pub extend : (fuel bytes : ℕ) → Heap → Bool × Heap
unfolding heap_map_one_page
extend zero bytes h = (false, h)
extend (suc fuel) bytes h =
    let (mapped, h') = heap_map_one_page h in
    let rest = extend fuel bytes h' in
    if leb (add64 h.heap_current bytes) h.heap_end
    then (true, h)
    else if mapped
    then rest
    else (false, h')

-- A new block behind the last one.
unfoldable pub link_last : (bytes : ℕ) → Heap → ℕ × Heap
unfolding block_init put_word
link_last bytes h =
    let b : ℕ = h.heap_current in
    let w = put_word (prev b) h.last_block (block_init b bytes block_free h.words) in
    (
      b,
      record h {
        words = if h.last_block == 0 then w else put_word (next h.last_block) b w;
        first_block = if h.last_block == 0 then b else h.first_block;
        last_block = b;
        heap_current = add64 b bytes;
      },
    )

-- As many rounds of the loop as there can be.
abbrev pub extend_fuel : (bytes : ℕ) → Heap → ℕ
extend_fuel bytes h = (h.heap_current + bytes) / page_size + 2

unfoldable pub append_to : (bytes : ℕ) → Bool × Heap → ℕ × Heap
unfolding link_last
append_to bytes (false, h) = (0, h)
append_to bytes (true, h) = link_last bytes h

unfoldable pub heap_append : (bytes : ℕ) → Heap → ℕ × Heap
unfolding extend append_to
heap_append bytes h =
    let bytes' = align16 bytes in
    let h' = record h { heap_current = align16 h.heap_current } in
    append_to bytes' (extend (extend_fuel bytes' h') bytes' h')

-- A free block that is large enough becomes one of the size needed and a free one behind it.
unfoldable pub block_split : (b payload_needed : ℕ) → Heap → Heap
unfolding block_init put_word
block_split b payload_needed h =
    let total_needed = add64 header_size payload_needed in
    let rem = add64 b total_needed in
    let after : ℕ = h.words (next b) in
    let w1 =
      put_word (prev rem) b (block_init rem (h.words (size b) - total_needed) block_free h.words) in
    let w2 = put_word (next rem) after w1 in
    let w3 = if after == 0 then w2 else put_word (prev after) rem w2 in
    if leb (h.words (size b)) (add64 total_needed min_split) then h else record h {
      words = put_word (next b) rem (put_word (size b) total_needed w3);
      last_block = if after == 0 then rem else h.last_block;
    }

unfoldable pub block_coalesce_next : (b : ℕ) → Heap → Heap
unfolding put_word
block_coalesce_next b h =
    let n : ℕ = h.words (next b) in
    let w1 = put_word (size b) (add64 (h.words (size b)) (h.words (size n))) h.words in
    let w2 = put_word (next b) (h.words (next n)) w1 in
    if (n == 0) || not (h.words (magic n) == block_free) then h else record h {
      words = if h.words (next n) == 0 then w2 else put_word (prev (h.words (next n))) b w2;
      last_block = if h.words (next n) == 0 then b else h.last_block;
    }

unfoldable pub block_coalesce_prev : (b : ℕ) → Heap → Heap
unfolding block_coalesce_next
block_coalesce_prev b h =
    let p : ℕ = h.words (prev b) in
    if (p == 0) || not (h.words (magic p) == block_free) then h else block_coalesce_next p h

unfoldable pub heap_init : Heap → Heap
unfolding block_init
heap_init h =
    let (frame, frames) = alloc_frame h.machine.frames in
    let m = record h.machine { frames = frames } in
    if frame == 0 then record h { machine = m } else record {
      words = block_init heap_base page_size block_free h.words;
      heap_start = heap_base;
      heap_current = heap_base + page_size;
      heap_end = heap_base + page_size;
      first_block = heap_base;
      last_block = heap_base;
      machine = map_page m.kernel_pml4 heap_base frame (page_present + page_write) m;
    }

-- The search for the first free block that is large enough.
unfoldable pub find_block : (fuel b payload : ℕ) → Words → Option ℕ
find_block zero b payload w = none
find_block (suc fuel) b payload w =
    let rest = find_block fuel (w (next b)) payload w in
    if b == 0
    then none
    else if (w (magic b) == block_free) && leb (add64 header_size payload) (w (size b))
    then some b
    else rest

-- `memset(p, 0, bytes)`; in a word that it covers in part, the upper bytes stay.
unfoldable pub clear : (p bytes : ℕ) → Words → Words
clear p bytes w = λ a.
    if leb p a && leb (a + 8) (p + bytes)
    then 0
    else if leb p a && ltb a (p + bytes)
    then align_down (256 ^ (p + bytes - a)) (w a)
    else w a

-- The block is marked, and its payload of `bytes` cleared.
unfoldable pub hand_out : (b bytes : ℕ) → Heap → ℕ × Heap
unfolding put_word clear
hand_out b bytes h =
    let p = add64 b header_size in
    (p, record h { words = clear p bytes (put_word (magic b) block_used h.words) })

unfoldable pub hand_out_new : (bytes : ℕ) → ℕ × Heap → ℕ × Heap
unfolding hand_out
hand_out_new bytes (b, h) = if b == 0 then (0, h) else hand_out b bytes h

unfoldable pub kmalloc_at : (found : Option ℕ) (bytes : ℕ) → Heap → ℕ × Heap
unfolding hand_out hand_out_new block_split heap_append
kmalloc_at (some b) bytes h = hand_out b bytes (block_split b (align16 bytes) h)
kmalloc_at none bytes h = hand_out_new bytes (heap_append (add64 header_size (align16 bytes)) h)

-- No block is smaller than its header, so the chain has no more than this many.
abbrev pub find_fuel : Heap → ℕ
find_fuel h = (h.heap_current - h.heap_start) / header_size + 1

unfoldable pub kmalloc : (bytes : ℕ) → Heap → ℕ × Heap
unfolding find_block kmalloc_at
kmalloc bytes h =
    if bytes == 0
    then (0, h)
    else kmalloc_at (find_block (find_fuel h) h.first_block (align16 bytes) h.words) bytes h

-- The block at `b` is marked as free and joined with its neighbours.
unfoldable pub release : (b : ℕ) → Heap → Heap
unfolding put_word block_coalesce_next block_coalesce_prev
release b h =
    block_coalesce_prev b
      (block_coalesce_next b (record h { words = put_word (magic b) block_free h.words }))

unfoldable pub kfree : (ptr : ℕ) → Heap → Heap
unfolding release
kfree ptr h =
    let b = sub64 ptr header_size in
    if (ptr == 0) || ltb b h.heap_start || leb h.heap_end b || not (h.words (magic b) == block_used)
    then h
    else release b h
