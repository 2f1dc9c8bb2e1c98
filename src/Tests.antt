-- ===== src/Tests.antt =====
-- A machine on which the definitions run, and the theorems at concrete inputs.
pub mod Machine
pub mod Entries
pub mod Mappings
pub mod Regions
pub mod Holes
pub mod Progress
pub mod Copying
pub mod Machine32
pub mod Mappings32
pub mod Holes32
pub mod Regions32
