-- ===== src/Table64.antt =====
-- page_table_multiarch/src/bits64.rs: page tables of three or four levels. The children define
-- the table (`Defs`, `Walk`, `Release`) and its cursor (`Cursor`, `Region`, `Copy`), and prove.
pub mod Defs
pub mod Height
pub mod Answer
pub mod Placed
pub mod Link
pub mod Create
pub mod Descend
pub mod Progress
pub mod Flush
pub mod Reached
pub mod Written
pub mod Found
pub mod Mapped
pub mod Unmapped
pub mod Protected
pub mod Remapped
pub mod Queries
pub mod Pages
pub mod Tiled
pub mod Choose
pub mod MapRegion
pub mod UnmapRegion
pub mod Restored
pub mod ProtectRegion
pub mod New
pub mod Walk
pub mod WalkLimit
pub mod Release
pub mod Cursor
pub mod Region
pub mod Copy
pub mod Copied
pub mod CopyFrom
