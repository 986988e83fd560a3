-- ===== src/Memory/Paging.antt =====
-- The page manager of the memory engine: the identity map made at boot, and the mapping of one page.
-- The tables lie in physical memory, which is mapped one to one; it is a function from the addresses
-- of 64-bit words to their values.
use shahi_n_kernel.Prelude.{
  ℕ, zero, suc, ◌+◌, ◌-◌, ◌*◌, ◌/◌, ◌%◌, ◌^◌, Bool, not, ◌&&◌, ◌==◌, ltb, leb, if◌then◌else◌,
  bit_or, add64, align_down,
}
use shahi_n_kernel.Memory.Frames.{Frames, alloc_frame, page_size}

abbrev pub Words : Type 0
Words = ℕ → ℕ

-- The frames and the physical memory, with the page tables of the kernel.
pub record Machine : Type 0 where
  pub frames : Frames
  pub words : Words
  pub kernel_pml4 : ℕ

abbrev pub page_present : ℕ
page_present = 1

abbrev pub page_write : ℕ
page_write = 2

abbrev pub page_user : ℕ
page_user = 4

abbrev pub page_huge : ℕ
page_huge = 128

abbrev pub entries : ℕ
entries = 512

-- `entry & PAGE_PRESENT` and `entry & PAGE_HUGE`
unfoldable pub is_present : ℕ → Bool
is_present entry = entry % 2 == 1

unfoldable pub is_huge : ℕ → Bool
is_huge entry = entry / 128 % 2 == 1

-- `flags & PAGE_USER`
abbrev pub user_bit : ℕ → ℕ
user_bit flags = flags / 4 % 2 * 4

-- The index of the entry for `virt` in a table of one level.
abbrev pub pml4_index : ℕ → ℕ
pml4_index virt = virt / 2 ^ 39 % 512

abbrev pub pdpt_index : ℕ → ℕ
pdpt_index virt = virt / 2 ^ 30 % 512

abbrev pub pd_index : ℕ → ℕ
pd_index virt = virt / 2 ^ 21 % 512

abbrev pub pt_index : ℕ → ℕ
pt_index virt = virt / 2 ^ 12 % 512

-- The address of `table[i]`.
abbrev pub slot : (table i : ℕ) → ℕ
slot table i = table + 8 * i

unfoldable pub put_word : (at v : ℕ) → Words → Words
put_word at v w = λ a. if a == at then v else w a

-- `memset(table, 0, 4096)`
unfoldable pub zero_page : (table : ℕ) → Words → Words
zero_page table w = λ a. if leb table a && ltb a (table + page_size) then 0 else w a

-- The table that an entry points to.
abbrev pub table_of : ℕ → ℕ
table_of entry = align_down page_size entry

-- `phys | PAGE_PRESENT | PAGE_WRITE | (flags & PAGE_USER)`
unfoldable pub table_entry : (phys flags : ℕ) → ℕ
table_entry phys flags = bit_or (bit_or (bit_or phys page_present) page_write) (user_bit flags)

-- A new table for the entry at `at`. The frame is not tested for 0.
unfoldable pub new_table : (at flags : ℕ) → Machine → Machine
unfolding put_word zero_page table_entry
new_table at flags m =
    let (phys, frames) = alloc_frame m.frames in
    record m {
      frames = frames;
      words = put_word at (table_entry phys flags) (zero_page phys m.words);
    }

-- The upper two levels: the entry at `at` is made if it is not there.
unfoldable pub ensure_table : (at flags : ℕ) → Machine → Machine
unfolding new_table is_present
ensure_table at flags m = if is_present (m.words at) then m else new_table at flags m

-- `(pd_entry & 0xFFF) & ~PAGE_HUGE`
abbrev pub huge_flags : ℕ → ℕ
huge_flags entry = entry % 128 + entry / 256 % 16 * 256

-- The loop that fills a page table with the pages of a huge one: the first `n` entries.
unfoldable pub fill_pages : (n pt phys flags : ℕ) → Words → Words
unfolding put_word
fill_pages zero pt phys flags w = w
fill_pages (suc i) pt phys flags w =
    put_word (slot pt i) (bit_or (bit_or (add64 phys (i * page_size)) flags) page_present)
      (fill_pages i pt phys flags w)

-- The huge page of the entry at `at` is taken apart into 512 pages.
unfoldable pub split_huge : (at : ℕ) → Machine → Machine
unfolding put_word zero_page fill_pages
split_huge at m =
    let entry : ℕ = m.words at in
    let flags = huge_flags entry in
    let (phys, frames) = alloc_frame m.frames in
    let filled =
      fill_pages entries phys (align_down (2 ^ 21) entry) flags (zero_page phys m.words) in
    record m {
      frames = frames;
      words = put_word at (bit_or (bit_or phys flags) page_present) filled;
    }

-- The third level.
unfoldable pub ensure_page_table : (at flags : ℕ) → Machine → Machine
unfolding new_table split_huge is_present is_huge
ensure_page_table at flags m =
    if not (is_present (m.words at))
    then new_table at flags m
    else if is_huge (m.words at)
    then split_huge at m
    else m

unfoldable pub map_page : (pml4 virt phys flags : ℕ) → Machine → Machine
unfolding ensure_table ensure_page_table put_word
map_page pml4 virt phys flags m =
    let at_pdpt = slot pml4 (pml4_index virt) in
    let m1 = ensure_table at_pdpt flags m in
    let at_pd = slot (table_of (m1.words at_pdpt)) (pdpt_index virt) in
    let m2 = ensure_table at_pd flags m1 in
    let at_pt = slot (table_of (m2.words at_pd)) (pd_index virt) in
    let m3 = ensure_page_table at_pt flags m2 in
    let at_page = slot (table_of (m3.words at_pt)) (pt_index virt) in
    record m3 {
      words =
          put_word at_page (bit_or (bit_or (align_down page_size phys) flags) page_present)
            m3.words;
    }

-- Where the static tables stand.
pub record Statics : Type 0 where
  pub pml4_table : ℕ
  pub pdpt_table : ℕ
  pub pd_tables : ℕ

abbrev pub tables : ℕ
tables = 64

-- How many gigabytes the identity map covers.
unfoldable pub gb_count_of : (total_ram_bytes : ℕ) → ℕ
gb_count_of total_ram_bytes =
    let ram : ℕ = if ltb total_ram_bytes (2 ^ 32) then 2 ^ 32 else total_ram_bytes in
    let rounded : ℕ = add64 ram (2 ^ 30 - 1) / 2 ^ 30 in
    let capped : ℕ = if ltb tables rounded then tables else rounded in
    if ltb capped 1 then 1 else capped

-- The loop over the page directories: the first `n` are cleared and entered.
unfoldable pub link_directories : (n : ℕ) → Statics → Words → Words
unfolding put_word zero_page
link_directories zero s w = w
link_directories (suc t) s w =
    let w' = zero_page (s.pd_tables + t * page_size) (link_directories t s w) in
    put_word (slot s.pdpt_table t)
      (bit_or (bit_or (s.pd_tables + t * page_size) page_present) page_write) w'

-- The loop over the entries of directory `t`.
unfoldable pub fill_directory : (n t : ℕ) → Statics → Words → Words
unfolding put_word
fill_directory zero t s w = w
fill_directory (suc i) t s w =
    put_word (slot (s.pd_tables + t * page_size) i)
      (bit_or (bit_or (bit_or (t * 2 ^ 30 + i * 2 ^ 21) page_present) page_write) page_huge)
      (fill_directory i t s w)

unfoldable pub fill_directories : (n : ℕ) → Statics → Words → Words
unfolding fill_directory
fill_directories zero s w = w
fill_directories (suc t) s w = fill_directory entries t s (fill_directories t s w)

unfoldable pub paging_init : Statics → Machine → Machine
unfolding link_directories fill_directories put_word zero_page gb_count_of
paging_init s m =
    let gb_count = gb_count_of m.frames.total_ram_bytes in
    let cleared = zero_page s.pdpt_table (zero_page s.pml4_table m.words) in
    let linked = link_directories gb_count s cleared in
    let rooted =
      put_word (slot s.pml4_table 0) (bit_or (bit_or s.pdpt_table page_present) page_write)
        linked in
    record m { words = fill_directories gb_count s rooted; kernel_pml4 = s.pml4_table }

unfoldable pub copy_kernel_mappings : (pml4 : ℕ) → Machine → Machine
unfolding put_word
copy_kernel_mappings pml4 m = record m {
  words = put_word (slot pml4 0) (m.words (slot m.kernel_pml4 0)) m.words;
}
