-- ===== src/Entry/X64.antt =====
-- page_table_entry/src/arch/x86_64.rs: x86 entries on 64-bit paging. The flags type `PTF` is
-- `PageTableFlags` of the crate x86_64: its constants are parameters.
pub mod Laws
use page_table_multiarch.Common.{ℕ, ◌-◌, ◌^◌, bit_and, bit_or, Bool, not, ◌||◌, ◌==◌, if◌then◌else◌}
use page_table_multiarch.Crates.{Bitflags}
use page_table_multiarch.Entry.{GenericPte}
use page_table_multiarch.Entry.MappingFlags

pub record PageTableFlags : Type 0 where
  pub present : ℕ
  pub writable : ℕ
  pub user_accessible : ℕ
  pub write_through : ℕ
  pub no_cache : ℕ
  pub huge_page : ℕ
  pub no_execute : ℕ
  -- the union of all constants, these and the others
  pub all : ℕ

-- bits 12..52
abbrev pub phys_addr_mask : ℕ
phys_addr_mask = 0x000f_ffff_ffff_f000

module _ (b : Bitflags) (ptf : PageTableFlags) where
  open b use {contains, union, from_bits_truncate, is_empty}

  unfoldable pub mapping_flags : ℕ → ℕ
  mapping_flags f =
      if not (contains f ptf.present)
      then 0
      else (let ret = MappingFlags.read in
          let ret = if contains f ptf.writable then union ret MappingFlags.write else ret in
          let ret =
            if not (contains f ptf.no_execute) then union ret MappingFlags.execute else ret in
          let ret = if contains f ptf.user_accessible then union ret MappingFlags.user else ret in
          if contains f ptf.no_cache then union ret MappingFlags.uncached else ret)

  unfoldable pub ptf_flags : ℕ → ℕ
  ptf_flags f =
      if is_empty f
      then 0
      else (let ret = ptf.present in
          let ret = if contains f MappingFlags.write then union ret ptf.writable else ret in
          let ret =
            if not (contains f MappingFlags.execute) then union ret ptf.no_execute else ret in
          let ret = if contains f MappingFlags.user then union ret ptf.user_accessible else ret in
          if contains f MappingFlags.device || contains f MappingFlags.uncached
          then union ret (union ptf.no_cache ptf.write_through)
          else ret)

  -- the attributes of a leaf, as `new_page` and `set_flags` build them
  unfoldable pub leaf_attr : ℕ → Bool → ℕ
  unfolding ptf_flags
  leaf_attr f is_huge = if is_huge then union (ptf_flags f) ptf.huge_page else ptf_flags f

  unfoldable pub new_page : ℕ → ℕ → Bool → ℕ
  unfolding leaf_attr
  new_page p f is_huge = bit_or (leaf_attr f is_huge) (bit_and p phys_addr_mask)

  unfoldable pub new_table : ℕ → ℕ
  new_table p =
      bit_or (union (union ptf.present ptf.writable) ptf.user_accessible) (bit_and p phys_addr_mask)

  unfoldable pub paddr : ℕ → ℕ
  paddr w = bit_and w phys_addr_mask

  unfoldable pub flags : ℕ → ℕ
  unfolding mapping_flags
  flags w = mapping_flags (from_bits_truncate ptf.all w)

  unfoldable pub set_paddr : ℕ → ℕ → ℕ
  set_paddr w p = bit_or (bit_and w (2 ^ 64 - 1 - phys_addr_mask)) (bit_and p phys_addr_mask)

  unfoldable pub set_flags : ℕ → ℕ → Bool → ℕ
  unfolding leaf_attr
  set_flags w f is_huge = bit_or (bit_and w phys_addr_mask) (leaf_attr f is_huge)

  unfoldable pub is_present : ℕ → Bool
  is_present w = contains (from_bits_truncate ptf.all w) ptf.present

  unfoldable pub is_huge : ℕ → Bool
  is_huge w = contains (from_bits_truncate ptf.all w) ptf.huge_page

  -- `impl GenericPTE for X64PTE`
  unfoldable pub x64_pte : GenericPte
  unfolding new_page new_table paddr flags set_paddr set_flags is_present is_huge
  x64_pte = record {
    new_page = new_page;
    new_table = new_table;
    paddr = paddr;
    flags = flags;
    set_paddr = set_paddr;
    set_flags = set_flags;
    bits = λ w. w;
    is_unused = λ w. w == 0;
    is_present = is_present;
    is_huge = is_huge;
    clear = λ _. 0;
  }
