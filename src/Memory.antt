-- ===== src/Memory.antt =====
-- The memory engine: the physical frames, the page tables, the kernel heap, and the address spaces.
pub mod Frames
pub mod Paging
pub mod Heap
pub mod Spaces
mod Tests
