-- ===== src/Memory/Spaces.antt =====
-- The address space manager: the top tables of the processes. The object of a space lies in the heap,
-- and its first word is the address of the top table. As for the heap, the words of the objects are
-- kept apart from the memory of the tables.
use shahi_n_kernel.Prelude.{
  ◌≤◌, ℕ, zero, suc, ◌+◌, ◌⊎◌, ◌^◌, not, ◌||◌, Option, some, ◌==◌, if◌then◌else◌, align_down,
}
use shahi_n_kernel.Memory.Frames.{Frames, alloc_frame, free_frame, page_size}
use shahi_n_kernel.Memory.Paging.{
  Machine, Words, put_word, slot, zero_page, copy_kernel_mappings, is_present, is_huge, table_of,
  entries,
}
use shahi_n_kernel.Memory.Heap.{Heap, kmalloc, kfree}

-- The static variables, and the register that holds the loaded table: the kernel's own space stands
-- at an address of its own, outside of the heap; a space is named by its object's address.
pub record Spaces : Type 0 where
  pub kernel_at : ℕ
  pub kernel_space : ℕ
  pub current_space : Option ℕ
  pub cr3 : ℕ

unfoldable pub address_space_init : Machine → Spaces → Spaces
address_space_init m s = record s { kernel_space = m.kernel_pml4; current_space = some s.kernel_at }

-- `space->pml4`
unfoldable pub pml4_of : (space : ℕ) → Heap → Spaces → ℕ
pml4_of space h s = if space == s.kernel_at then s.kernel_space else h.words space

-- The new top table, cleared but for the kernel's entry.
unfoldable pub fresh_table : (phys : ℕ) → Machine → Machine
unfolding zero_page copy_kernel_mappings
fresh_table phys m = copy_kernel_mappings phys (record m { words = zero_page phys m.words })

-- A space object at `space`, without or with a frame for its table.
unfoldable pub create_at : (space : ℕ) → Heap → ℕ × Heap
unfolding fresh_table put_word
create_at space h =
    let (phys, frames) = alloc_frame h.machine.frames in
    let m = record h.machine { frames = frames } in
    if phys == 0
    then (0, record h { machine = m })
    else (space, record h { machine = fresh_table phys m; words = put_word space phys h.words })

unfoldable pub create_with : ℕ × Heap → ℕ × Heap
unfolding create_at
create_with (space, h) = if space == 0 then (0, h) else create_at space h

-- The object is one word long.
unfoldable pub address_space_create : Heap → ℕ × Heap
address_space_create h = create_with (kmalloc 8 h)

-- A loop over the first `n` entries of a table.
unfoldable pub walk : (n : ℕ) → (ℕ → Frames → Frames) → Frames → Frames
walk zero f s = s
walk (suc i) f s = f i (walk i f s)

module _ (w : Words) where
  -- One entry of a page table, and all of them.
  unfoldable pub free_page : (pt l : ℕ) → Frames → Frames
  free_page pt l s =
      let e : ℕ = w (slot pt l) in if is_present e then free_frame (align_down page_size e) s else s

  unfoldable pub free_page_table : (pt : ℕ) → Frames → Frames
  free_page_table pt s = free_frame pt (walk entries (free_page pt) s)

  -- One entry of a page directory: a page of 2 MB, or a page table.
  unfoldable pub free_directory_entry : (pd k : ℕ) → Frames → Frames
  free_directory_entry pd k s =
      let e : ℕ = w (slot pd k) in
      if not (is_present e)
      then s
      else if is_huge e
      then free_frame (align_down (2 ^ 21) e) s
      else free_page_table (table_of e) s

  unfoldable pub free_directory : (pdpt j : ℕ) → Frames → Frames
  free_directory pdpt j s =
      let e : ℕ = w (slot pdpt j) in
      if is_present e
      then free_frame (table_of e) (walk entries (free_directory_entry (table_of e)) s)
      else s

  -- One entry of the top table, but for the kernel's, which is the first.
  unfoldable pub free_top_entry : (pml4 i : ℕ) → Frames → Frames
  free_top_entry pml4 i s =
      let e : ℕ = w (slot pml4 i) in
      if (i == 0) || not (is_present e)
      then s
      else free_frame (table_of e) (walk entries (free_directory (table_of e)) s)

  unfoldable pub free_tables : (pml4 : ℕ) → Frames → Frames
  free_tables pml4 s = free_frame pml4 (walk entries (free_top_entry pml4) s)

unfoldable pub address_space_destroy : (space : ℕ) → Heap → Spaces → Heap
unfolding free_tables pml4_of
address_space_destroy space h s =
    let pml4 : ℕ = pml4_of space h s in
    let m = record h.machine { frames = free_tables h.machine.words pml4 h.machine.frames } in
    if (space == 0) || (pml4 == 0) then h else kfree space (record h { machine = m })

-- `load_cr3_phys` loads the register.
unfoldable pub address_space_switch : (space : ℕ) → Heap → Spaces → Spaces
unfolding pml4_of
address_space_switch space h s =
    if space == 0 then s else record s { current_space = some space; cr3 = pml4_of space h s }

abbrev pub address_space_current : Spaces → Option ℕ
address_space_current s = s.current_space

-- Two pages that do not meet.
unfoldable pub Apart : ℕ → ℕ → Type 0
Apart a b = a + page_size ≤ b ⊎ b + page_size ≤ a
