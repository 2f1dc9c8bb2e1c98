-- ===== src/Entry/La64.antt =====
-- page_table_entry/src/arch/loongarch64.rs: LoongArch64 entries.
pub mod Laws
use page_table_multiarch.Common.{
  ℕ, ◌+◌, ◌-◌, ◌*◌, ◌^◌, bit_and, bit_or, Bool, not, ◌==◌, if◌then◌else◌,
}
use page_table_multiarch.Crates.{Bitflags}
use page_table_multiarch.Entry.{GenericPte}
use page_table_multiarch.Entry.MappingFlags

abbrev pub v : ℕ
v = 2 ^ 0

abbrev pub d : ℕ
d = 2 ^ 1

abbrev pub plvl : ℕ
plvl = 2 ^ 2

abbrev pub plvh : ℕ
plvh = 2 ^ 3

abbrev pub matl : ℕ
matl = 2 ^ 4

abbrev pub math : ℕ
math = 2 ^ 5

abbrev pub gh : ℕ
gh = 2 ^ 6

abbrev pub p : ℕ
p = 2 ^ 7

abbrev pub w : ℕ
w = 2 ^ 8

abbrev pub g : ℕ
g = 2 ^ 12

abbrev pub nr : ℕ
nr = 2 ^ 61

abbrev pub nx : ℕ
nx = 2 ^ 62

abbrev pub rplv : ℕ
rplv = 2 ^ 63

-- bits 0 to 8, `g`, and bits 61 to 63
abbrev pub all : ℕ
all = 2 ^ 9 - 1 + g + nr + nx + rplv

-- bits 12..48
abbrev pub phys_addr_mask : ℕ
phys_addr_mask = 0x0000_ffff_ffff_f000

module _ (b : Bitflags) where
  open b use {contains, union, from_bits_truncate, is_empty}

  unfoldable pub mapping_flags : ℕ → ℕ
  mapping_flags f =
      if not (contains f v)
      then 0
      else (let ret = if not (contains f nr) then union 0 MappingFlags.read else 0 in
          let ret = if contains f w then union ret MappingFlags.write else ret in
          let ret = if not (contains f nx) then union ret MappingFlags.execute else ret in
          let ret = if contains f (union plvl plvh) then union ret MappingFlags.user else ret in
          if not (contains f matl)
          then if contains f math
            then union ret MappingFlags.uncached
            else union ret MappingFlags.device
          else ret)

  unfoldable pub pte_flags : ℕ → ℕ
  pte_flags f =
      if is_empty f
      then 0
      else (let ret = union v p in
          let ret = if not (contains f MappingFlags.read) then union ret nr else ret in
          let ret = if contains f MappingFlags.write then union ret (union w d) else ret in
          let ret = if not (contains f MappingFlags.execute) then union ret nx else ret in
          let ret = if contains f MappingFlags.user then union ret (union plvh plvl) else ret in
          if not (contains f MappingFlags.device)
          then if contains f MappingFlags.uncached then union ret math else union ret matl
          else ret)

  -- the attributes of a leaf, as `new_page` and `set_flags` build them
  unfoldable pub leaf_attr : ℕ → Bool → ℕ
  unfolding pte_flags
  leaf_attr f is_huge = if is_huge then union (pte_flags f) gh else pte_flags f

  unfoldable pub new_page : ℕ → ℕ → Bool → ℕ
  unfolding leaf_attr
  new_page addr f is_huge = bit_or (leaf_attr f is_huge) (bit_and addr phys_addr_mask)

  unfoldable pub new_table : ℕ → ℕ
  new_table addr = bit_and addr phys_addr_mask

  unfoldable pub paddr : ℕ → ℕ
  paddr word = bit_and word phys_addr_mask

  unfoldable pub flags : ℕ → ℕ
  unfolding mapping_flags
  flags word = mapping_flags (from_bits_truncate all word)

  unfoldable pub set_paddr : ℕ → ℕ → ℕ
  set_paddr word addr =
      bit_or (bit_and word (2 ^ 64 - 1 - phys_addr_mask)) (bit_and addr phys_addr_mask)

  unfoldable pub set_flags : ℕ → ℕ → Bool → ℕ
  unfolding leaf_attr
  set_flags word f is_huge = bit_or (bit_and word phys_addr_mask) (leaf_attr f is_huge)

  unfoldable pub is_present : ℕ → Bool
  is_present word = contains (from_bits_truncate all word) p

  unfoldable pub is_huge : ℕ → Bool
  is_huge word = contains (from_bits_truncate all word) gh

  -- `impl GenericPTE for LA64PTE`
  unfoldable pub la64_pte : GenericPte
  unfolding new_page new_table paddr flags set_paddr set_flags is_present is_huge
  la64_pte = record {
    new_page = new_page;
    new_table = new_table;
    paddr = paddr;
    flags = flags;
    set_paddr = set_paddr;
    set_flags = set_flags;
    bits = λ word. word;
    is_unused = λ word. word == 0;
    is_present = is_present;
    is_huge = is_huge;
    clear = λ _. 0;
  }
