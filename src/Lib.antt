-- ===== src/Lib.antt =====
-- page_table_multiarch: the generic page tables of this repository and the entry formats they are
-- built on, in a model that follows the sources function by function.
--
-- The program has two crates. page_table_entry defines `MappingFlags`, the trait `GenericPTE` and
-- one entry format for each architecture. page_table_multiarch defines the traits that a system
-- provides (`PagingMetaData`, `PagingHandler`), the tables `PageTable64` (three or four levels) and
-- `PageTable32` (two levels, for ARMv7-A) and, for each, the cursor through which it is changed,
-- which collects the TLB flushes that it owes.
--
-- Files and sources:
--   Common, Bits          shared vocabulary; masks and shifts on native numbers.
--   Crates                bitflags, memory_addr, arrayvec and bitmaps: each is a record of the
--                         operations called, a parameter, with a record of what it documents.
--   Entry                 page_table_entry/src/lib.rs. `Entry.Laws` is the contract of
--                         `GenericPTE` that 64-bit tables rely on (`IsLawful`) and the one that
--                         two-level tables rely on (`IsShort`). Entry.A64, X64, Rv64, La64 and A32
--                         are src/arch/aarch64.rs, x86_64.rs, riscv.rs, loongarch64.rs and arm.rs
--                         of that crate.
--   Paging                page_table_multiarch/src/lib.rs. Paging.Run has the commands: state
--                         passing in which an error keeps the state, and a panic is an outcome.
--                         Paging.Flusher (`TlbFlusher`, the requests of a cursor) and Paging.Visit
--                         (the callbacks of `walk`) serve both kinds of table. Paging.Contract is
--                         what the tables rely on. Paging.Arch has the metadata of
--                         page_table_multiarch/src/arch.
--   Table64               page_table_multiarch/src/bits64.rs. Definitions: Defs (tables, descents,
--                         `query`), Walk, Release (`dealloc_tree`, `Drop`), Cursor (`map`, `remap`,
--                         `protect`, `unmap`, `push`, `flush`), Region, Copy (`copy_from`).
--                         Proofs: Height and Pages (addresses by level), Answer (the page walk),
--                         Placed, Link, Create, Descend, Reached, Written, Found (the shape of the
--                         tables under each kind of write); then the operations: New, Mapped,
--                         Progress, Unmapped, Protected, Remapped, Queries, Flush, Tiled, Choose,
--                         MapRegion, UnmapRegion, Restored, ProtectRegion, Copied, CopyFrom,
--                         WalkLimit.
--   Table32               page_table_multiarch/src/bits32.rs. Definitions: Defs (tables, descents,
--                         `query`), Walk, Release (`Drop` of the table, `copy_from`), Cursor, Region.
--                         Proofs: Contract, Answer (the page walk), Placed (whose frame each word
--                         is), Written, Fresh, Grown, Created, Session, Found (the tables under each
--                         kind of write); then the operations: New, Mapped, Unmapped, Protected,
--                         Remapped, Queries, Choose, MapRound, MapRegion, Tiled, Looped,
--                         UnmapRegion, ProtectRegion, Restored, Copied, CopyFrom, Dropped.
--   Tests                 concrete platforms, and the theorems at concrete inputs.
--
-- State. `World` holds the memory of the tables, an entry for each frame and index, the state of
-- the allocator, and the calls of `flush_tlb`. `Session` adds the cursor. A reference to an entry
-- is a `Slot`. A table is well formed (`IsTable`) where a placement gives each frame in use as a
-- table its height and its number within the height, every link leads to the frame placed below
-- it, and the allocator counts all of them as handed out. A two-level table reads its tables through
-- slices that may reach beyond a frame, so there the memory is a word for each physical address, and
-- `Owners` gives each entry of the root the frame of its L2 table.
--
-- Bounds. `usize` has 64 bits for `PageTable64` and 32 bits for `PageTable32`; sums of addresses wrap
-- there, and words of ARMv7-A entries are cut to 32 bits. The region loops run on `size / 4096
-- + 1` rounds, which suffices since each round takes off a page; `dealloc_tree` and
-- `walk_recursive` run on the number of levels, which bounds their recursion.
--
-- Not modelled: `Debug`, the logging macros (with them the sum that a trace message computes),
-- `phys_to_virt` (the memory is indexed by frames), the instructions of `flush_tlb`, the feature
-- `arm-el2`, the feature `xuantie-c9xx`, the conversion to axerrno, and the constants of bits32.rs
-- for targets other than ARMv7-A (tables of 512 entries).
pub mod Common
pub mod Bits
pub mod Crates
pub mod Entry
pub mod Paging
pub mod Table64
pub mod Table32
pub mod Tests
