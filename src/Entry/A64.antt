-- ===== src/Entry/A64.antt =====
-- page_table_entry/src/arch/aarch64.rs, without the feature `arm-el2`: VMSAv8-64 descriptors.
-- `MAIR_VALUE` is built from register constants of the crate aarch64_cpu and is left out.
pub mod Laws
use page_table_multiarch.Common.{
  ℕ, ◌+◌, ◌-◌, ◌*◌, ◌/◌, ◌^◌, bit_and, bit_or, Bool, true, false, not, Option, none, some, ◌==◌,
  if◌then◌else◌,
}
use page_table_multiarch.Crates.{Bitflags}
use page_table_multiarch.Entry.{GenericPte}
use page_table_multiarch.Entry.MappingFlags

abbrev pub valid : ℕ
valid = 2 ^ 0

abbrev pub non_block : ℕ
non_block = 2 ^ 1

abbrev pub attr_indx : ℕ
attr_indx = 0b111 * 2 ^ 2

abbrev pub ap_el0 : ℕ
ap_el0 = 2 ^ 6

abbrev pub ap_ro : ℕ
ap_ro = 2 ^ 7

abbrev pub inner : ℕ
inner = 2 ^ 8

abbrev pub shareable : ℕ
shareable = 2 ^ 9

abbrev pub af : ℕ
af = 2 ^ 10

abbrev pub pxn : ℕ
pxn = 2 ^ 53

abbrev pub uxn : ℕ
uxn = 2 ^ 54

-- The constants of `DescriptorAttr` in order: bits 0 to 11, 52 to 54 and 59 to 63.
abbrev pub all : ℕ
all = (2 ^ 12 - 1) + 0b111 * 2 ^ 52 + 0b11111 * 2 ^ 59

pub data MemAttr : Type 0 where
  device normal normal_non_cacheable : MemAttr

abbrev pub index : MemAttr → ℕ
index device = 0
index normal = 1
index normal_non_cacheable = 2

abbrev pub attr_index_mask : ℕ
attr_index_mask = 0b11100

-- bits 12..48
abbrev pub phys_addr_mask : ℕ
phys_addr_mask = 0x0000_ffff_ffff_f000

-- `matches!(idx, Normal | NormalNonCacheable)`
abbrev is_normal : MemAttr → Bool
is_normal device = false
is_normal normal = true
is_normal normal_non_cacheable = true

unfoldable pub from_mem_attr : MemAttr → ℕ
from_mem_attr idx =
    let bits = index idx * 2 ^ 2 in
    if is_normal idx then bit_or bits (bit_or inner shareable) else bits

unfoldable pub mem_attr : ℕ → Option MemAttr
mem_attr attr =
    let idx = bit_and attr attr_index_mask / 2 ^ 2 in
    if idx == 0
    then some device
    else if idx == 1
    then some normal
    else if idx == 2
    then some normal_non_cacheable
    else none

module _ (b : Bitflags) where
  open b use {contains, intersects, union, from_bits_truncate, is_empty}

  -- `match attr.mem_attr()` at the end of `From<DescriptorAttr> for MappingFlags`
  abbrev with_mem_attr : Option MemAttr → ℕ → ℕ
  with_mem_attr none flags = flags
  with_mem_attr (some device) flags = union flags MappingFlags.device
  with_mem_attr (some normal) flags = flags
  with_mem_attr (some normal_non_cacheable) flags = union flags MappingFlags.uncached

  unfoldable pub mapping_flags : ℕ → ℕ
  unfolding mem_attr
  mapping_flags attr =
      if not (contains attr valid)
      then 0
      else let flags = MappingFlags.read in
        let flags = if not (contains attr ap_ro) then union flags MappingFlags.write else flags in
        let flags =
          if contains attr ap_el0
          then (let flags = union flags MappingFlags.user in
              if not (contains attr uxn) then union flags MappingFlags.execute else flags)
          else if not (intersects attr pxn)
          then union flags MappingFlags.execute
          else flags in
        with_mem_attr (mem_attr attr) flags

  unfoldable pub descriptor_attr : ℕ → ℕ
  unfolding from_mem_attr
  descriptor_attr flags =
      if is_empty flags
      then 0
      else let attr =
          if contains flags MappingFlags.device
          then from_mem_attr device
          else if contains flags MappingFlags.uncached
          then from_mem_attr normal_non_cacheable
          else from_mem_attr normal in
        let attr = if contains flags MappingFlags.read then union attr valid else attr in
        let attr = if not (contains flags MappingFlags.write) then union attr ap_ro else attr in
        if contains flags MappingFlags.user
        then (let attr = union attr (union ap_el0 pxn) in
            if not (contains flags MappingFlags.execute) then union attr uxn else attr)
        else let attr = union attr uxn in
          if not (contains flags MappingFlags.execute) then union attr pxn else attr

  -- the attributes of a leaf, as `new_page` and `set_flags` build them
  unfoldable pub leaf_attr : ℕ → Bool → ℕ
  unfolding descriptor_attr
  leaf_attr flags is_huge =
      let attr = union (descriptor_attr flags) af in
      if not is_huge then union attr non_block else attr

  unfoldable pub new_page : ℕ → ℕ → Bool → ℕ
  unfolding leaf_attr
  new_page paddr flags is_huge = bit_or (leaf_attr flags is_huge) (bit_and paddr phys_addr_mask)

  unfoldable pub new_table : ℕ → ℕ
  new_table paddr = bit_or (union non_block valid) (bit_and paddr phys_addr_mask)

  unfoldable pub paddr : ℕ → ℕ
  paddr w = bit_and w phys_addr_mask

  unfoldable pub flags : ℕ → ℕ
  unfolding mapping_flags
  flags w = mapping_flags (from_bits_truncate all w)

  -- `!PHYS_ADDR_MASK` on 64 bits
  unfoldable pub set_paddr : ℕ → ℕ → ℕ
  set_paddr w p = bit_or (bit_and w (2 ^ 64 - 1 - phys_addr_mask)) (bit_and p phys_addr_mask)

  unfoldable pub set_flags : ℕ → ℕ → Bool → ℕ
  unfolding leaf_attr
  set_flags w f is_huge = bit_or (bit_and w phys_addr_mask) (leaf_attr f is_huge)

  unfoldable pub is_present : ℕ → Bool
  is_present w = contains (from_bits_truncate all w) valid

  unfoldable pub is_huge : ℕ → Bool
  is_huge w = not (contains (from_bits_truncate all w) non_block)

  -- `impl GenericPTE for A64PTE`
  unfoldable pub a64_pte : GenericPte
  unfolding new_page new_table paddr flags set_paddr set_flags is_present is_huge
  a64_pte = record {
    new_page = new_page;
    new_table = new_table;
    paddr = paddr;
    flags = flags;
    set_paddr = set_paddr;
    set_flags = set_flags;
    bits = λ w. w;
    is_unused = λ w. w == 0;
    is_present = is_present;
    is_huge = is_huge;
    clear = λ _. 0;
  }
