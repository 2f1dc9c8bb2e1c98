-- ===== src/Entry/Rv64.antt =====
-- page_table_entry/src/arch/riscv.rs, without the feature `xuantie-c9xx`: Sv39 and Sv48 entries.
-- `usize` has 64 bits. The `debug_assert!` of `new_page` and `set_flags` is left out: it holds of
-- all flags that `Entry.Rv64.Laws.accepts` admits.
pub mod Laws
use page_table_multiarch.Common.{
  ℕ, ◌-◌, ◌*◌, ◌/◌, ◌%◌, ◌^◌, bit_and, bit_or, Bool, not, ◌==◌, if◌then◌else◌,
}
use page_table_multiarch.Crates.{Bitflags}
use page_table_multiarch.Entry.{GenericPte}
use page_table_multiarch.Entry.MappingFlags

abbrev pub v : ℕ
v = 2 ^ 0

abbrev pub r : ℕ
r = 2 ^ 1

abbrev pub w : ℕ
w = 2 ^ 2

abbrev pub x : ℕ
x = 2 ^ 3

abbrev pub u : ℕ
u = 2 ^ 4

abbrev pub a : ℕ
a = 2 ^ 6

abbrev pub d : ℕ
d = 2 ^ 7

-- V, R, W, X, U, G, A and D
abbrev pub all : ℕ
all = 0xff

-- bits 10..54
abbrev pub phys_addr_mask : ℕ
phys_addr_mask = 2 ^ 54 - 2 ^ 10

module _ (b : Bitflags) where
  open b use {contains, intersects, union, from_bits_truncate, is_empty}

  unfoldable pub mapping_flags : ℕ → ℕ
  mapping_flags f =
      if not (contains f v)
      then 0
      else (let ret = if contains f r then union 0 MappingFlags.read else 0 in
          let ret = if contains f w then union ret MappingFlags.write else ret in
          let ret = if contains f x then union ret MappingFlags.execute else ret in
          if contains f u then union ret MappingFlags.user else ret)

  unfoldable pub pte_flags : ℕ → ℕ
  pte_flags f =
      if is_empty f
      then 0
      else (let ret = union (union v a) d in
          let ret = if contains f MappingFlags.read then union ret r else ret in
          let ret = if contains f MappingFlags.write then union ret w else ret in
          let ret = if contains f MappingFlags.execute then union ret x else ret in
          if contains f MappingFlags.user then union ret u else ret)

  unfoldable pub new_page : ℕ → ℕ → Bool → ℕ
  unfolding pte_flags
  new_page p flags _ = bit_or (pte_flags flags) (bit_and (p / 2 ^ 2) phys_addr_mask)

  unfoldable pub new_table : ℕ → ℕ
  new_table p = bit_or v (bit_and (p / 2 ^ 2) phys_addr_mask)

  unfoldable pub paddr : ℕ → ℕ
  paddr word = bit_and word phys_addr_mask * 2 ^ 2 % 2 ^ 64

  unfoldable pub flags : ℕ → ℕ
  unfolding mapping_flags
  flags word = mapping_flags (from_bits_truncate all word)

  unfoldable pub set_paddr : ℕ → ℕ → ℕ
  set_paddr word p =
      bit_or (bit_and word (2 ^ 64 - 1 - phys_addr_mask)) (bit_and (p / 2 ^ 2) phys_addr_mask)

  unfoldable pub set_flags : ℕ → ℕ → Bool → ℕ
  unfolding pte_flags
  set_flags word f _ = bit_or (bit_and word phys_addr_mask) (pte_flags f)

  unfoldable pub is_present : ℕ → Bool
  is_present word = contains (from_bits_truncate all word) v

  unfoldable pub is_huge : ℕ → Bool
  is_huge word = intersects (from_bits_truncate all word) (union r x)

  -- `impl GenericPTE for Rv64PTE`
  unfoldable pub rv64_pte : GenericPte
  unfolding new_page new_table paddr flags set_paddr set_flags is_present is_huge
  rv64_pte = record {
    new_page = new_page;
    new_table = new_table;
    paddr = paddr;
    flags = flags;
    set_paddr = set_paddr;
    set_flags = set_flags;
    bits = λ word. word;
    is_unused = λ word. word == 0;
    is_present = is_present;
    is_huge = is_huge;
    clear = λ _. 0;
  }
