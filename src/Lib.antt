-- ===== src/Lib.antt =====
-- The SHAHiN kernel (C) function by function: its memory, process and scheduling engines, the
-- core's C library, the file system, and the source handling of its script language. The
-- source's file names are Arabic; below they are named in English, with the directory they
-- stand in.
--
-- The parts, and how they meet. At boot the frame manager of the memory engine lays its bitmap
-- behind the kernel and hands out frames of 4096 bytes. The page manager takes its tables from
-- there, and the heap manager the pages that it maps behind the heap. The process engine makes
-- a process with memory that it takes from the memory gateway, registers it in the table of the
-- kernel process manager under a free pid, and leaves its stack as the interrupt return wants
-- it. The scheduling engine keeps the ready and the sleep list, charges and wakes at each tick,
-- and picks the process of least virtual time; the timer interrupt of the process engine stores
-- the stack pointer of the process that it interrupts and takes that of the one picked. Wait
-- queues and sleeping move processes between these lists. The file system keeps its two tables
-- on the disk through the SATA driver; the language's loader reads scripts, removes comments
-- and splits lines; its expressions are read into trees and evaluated to typed values, over the
-- variables, functions and arrays of a context.
--
-- The files:
--
-- - Memory.Frames (frame manager, in the administration directory of the memory engine):
--   `Frames` is its static state; `frame_allocator_set_ram_size`, `frame_allocator_init`,
--   `alloc_frame` and `free_frame` are its functions, `taken`, `mark` and `unmark` its bit
--   operations. Its laws are in Memory.Frames.Bitmap, Laws and Init.
-- - Memory.Heap (heap manager, in the same directory): the chain of block headers in a memory
--   of 64-bit words, `kmalloc` and `kfree`. Memory.Heap.Blocks is the abstract view, a row of
--   used and free blocks; Chain says what it means that a heap holds a row, and the other
--   files below Memory.Heap prove the steps against the row.
-- - Memory.Paging (page manager, in the same directory): the tables of the identity map, and
--   `map_page` with the splitting of huge pages. Memory.Spaces (address space manager, in the
--   same directory): making, freeing and switching the tables of processes.
-- - Process.Table (kernel process manager) and Process.Engine (process engine): the process,
--   the pid table, creation, the timer interrupt and exit. The memory gateway is a record of
--   functions that the engine takes.
-- - Sched (scheduling engine), Sched.Wait (wait queue manager and sleep manager): the two
--   lists and what moves between them. Functions end at their yield, an interrupt
--   instruction.
-- - Text.Cstring and Text.Bytes (the C library of the core): string functions that only read,
--   over byte lists; the others over byte-addressed memory. `strcpy` and `strcat` run on
--   fuel.
-- - Lang.Comments (comments, among the concepts of the language): the loop of
--   `comment_remove` as one step at a time; below it, Scripts has the written form of
--   scripts, Turns the steps inside block comments, Blocks what is kept of a script, and
--   Unclosed those with a block comment left open. Lang.Scan (tools of the language): lines,
--   prefixes, archive paths. Lang.Expression and Lang.Parser (mathematics, among the
--   concepts): the reader of expressions. Lang.Grammar is the grammar told apart from it,
--   with the bytes and the tree of an expression; the files below it prove that the reader
--   follows it.
-- - Lang.Value (the tree file of the translation layer): the typed values. Below it, Convert
--   has the conversions and the two between doubles and texts (tools of the language), Coerce
--   the types, Arith the operators; Exact says what doubles keep of integers. Lang.Evaluate
--   is the evaluator of mathematics, over a record of what it asks of the rest; its Meaning
--   is the arithmetic of integers told apart from it, and Sound compares the two. Lang.Arrays
--   (the tree file) has arrays as cells.
-- - Lang.Variables (variables, among the concepts) with Locals (the store of variables, in
--   the translation layer) and Readings, the names that stand for the screen, the mouse and
--   the clock. Store and Refines are the abstract store behind the table, Runs its sequences
--   of operations, and Scope the reading of locals. Lang.Functions, Lang.Structs and
--   Lang.Conditions are the files of those names among the concepts; below Lang.Conditions,
--   Search has the scans, Brackets and Text the written form of a condition, and Truth its
--   evaluation.
-- - Store.Disk, Entry and Inode (the tables of the file system as flat bytes, and their
--   sectors), Store.Paths (paths), Store.Inodes (inodes and writing), Store.Placed and Lost
--   (where the data of a new file goes, and what becomes of it), Store.Files (format, create,
--   read, delete), Store.Folders (mkdir, rmdir, list, and `arabfs_delete`).
-- - Prelude: C arrays as lists, words of 32 and 64 bits with their wrap-around, bits of a
--   byte, signed integers.
--
-- Bounds and fuel. The loops of C that run over an array run on the array's length.
-- `first_clear` has as many rounds as the bitmap has bits; `tick_sleepers` has as many as the
-- sleep list has entries, each round counting one down or taking one off; the comment remover
-- has as many as the script has bytes, each turn taking one at least, and more fuel changes
-- nothing. The search of `kmalloc` has one round more than the heap has room for headers, and
-- the loop that extends the heap as many as there are pages up to the end asked for, and two;
-- each is shown to be enough. The reader of expressions has one unit more than there are bytes,
-- for the nesting of brackets and for each loop over operators, which is enough for every
-- expression of the grammar. Decimal digits are printed with room for twenty, which 64 bits
-- need at most; `doubled` has as many rounds as entries are needed, which is enough, since it
-- starts above 0.
--
-- Not modelled: hardware access (interrupt tables, APIC, timer and ACPI registers, the SATA
-- driver, video, keyboard and mouse), the gateways, which are tables of function pointers, and
-- the language's statements and compiler. Disk accesses always succeed, since no caller looks
-- at their results, and names and paths are taken to fit the buffers on the stack that they are
-- copied to. The words of the heap and the memory of the page tables are two memories: in the
-- source the heap is mapped over the identity map, through which tables are written, and
-- nothing keeps a table's frame from lying under the heap's addresses. Null pointers as
-- arguments are left out, and so are failing allocations of the reader's nodes; the doubles in
-- its nodes are those of the machine, by five operations. Floating-point numbers of the
-- evaluator are a record of operations too; the theorems that need their laws take them as a
-- named hypothesis, for integers of 53 bits. A value that is an array is an address, and
-- copying it does not count as a reference.
pub mod Prelude
pub mod Memory
pub mod Process
pub mod Sched
pub mod Text
pub mod Lang
pub mod Store
