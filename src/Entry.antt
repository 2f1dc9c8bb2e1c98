-- ===== src/Entry.antt =====
-- page_table_entry/src/lib.rs: the generic mapping flags and the trait `GenericPTE`, and what the
-- page tables need of an implementation. An entry is its raw bits.
pub mod MappingFlags
pub mod Laws
pub mod Words
pub mod A32
pub mod A64
pub mod X64
pub mod Rv64
pub mod La64
use page_table_multiarch.Common.{ℕ, Bool}

-- The methods that take `&mut self` return the new entry.
pub record GenericPte : Type 0 where
  pub new_page : (paddr flags : ℕ) (is_huge : Bool) → ℕ
  pub new_table : (paddr : ℕ) → ℕ
  pub paddr : ℕ → ℕ
  pub flags : ℕ → ℕ
  pub set_paddr : ℕ → (paddr : ℕ) → ℕ
  pub set_flags : ℕ → (flags : ℕ) (is_huge : Bool) → ℕ
  pub bits : ℕ → ℕ
  pub is_unused : ℕ → Bool
  pub is_present : ℕ → Bool
  pub is_huge : ℕ → Bool
  pub clear : ℕ → ℕ
