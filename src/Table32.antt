-- ===== src/Table32.antt =====
-- page_table_multiarch/src/bits32.rs: page tables of two levels. `Defs`, `Walk` and `Release` define
-- the table, `Cursor` and `Region` its cursor; the other children have the proofs.
pub mod Defs
pub mod Cursor
pub mod Region
pub mod Release
pub mod Walk
pub mod Contract
pub mod Answer
pub mod Placed
pub mod Written
pub mod Fresh
pub mod Grown
pub mod Created
pub mod Session
pub mod Mapped
pub mod Found
pub mod Unmapped
pub mod Protected
pub mod Remapped
pub mod New
pub mod Queries
pub mod Dropped
pub mod MapRound
pub mod MapRegion
pub mod Choose
pub mod Tiled
pub mod Looped
pub mod UnmapRegion
pub mod ProtectRegion
pub mod Restored
pub mod Copied
pub mod CopyFrom
