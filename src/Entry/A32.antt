-- ===== src/Entry/A32.antt =====
-- page_table_entry/src/arch/arm.rs: ARMv7-A short descriptors. `usize` has 32 bits there, so that
-- the casts between `usize` and `u32` change nothing.
pub mod Laws
pub mod Layout
use page_table_multiarch.Common.{
  ℕ, ◌+◌, ◌-◌, ◌*◌, ◌/◌, ◌^◌, bit_and, bit_or, Bool, not, ◌&&◌, ◌||◌, ◌==◌, leb, if◌then◌else◌,
}
use page_table_multiarch.Crates.{Bitflags}
use page_table_multiarch.Entry.{GenericPte}
use page_table_multiarch.Entry.MappingFlags

abbrev pub type_bit0 : ℕ
type_bit0 = 2 ^ 0

abbrev pub type_bit1 : ℕ
type_bit1 = 2 ^ 1

abbrev pub b : ℕ
b = 2 ^ 2

abbrev pub c : ℕ
c = 2 ^ 3

abbrev pub xn_small : ℕ
xn_small = 2 ^ 4

abbrev pub ap0 : ℕ
ap0 = 2 ^ 10

abbrev pub ap1 : ℕ
ap1 = 2 ^ 11

abbrev pub tex0 : ℕ
tex0 = 2 ^ 12

abbrev pub tex1 : ℕ
tex1 = 2 ^ 13

abbrev pub tex2 : ℕ
tex2 = 2 ^ 14

abbrev pub ap2 : ℕ
ap2 = 2 ^ 15

abbrev pub s : ℕ
s = 2 ^ 16

abbrev pub ng : ℕ
ng = 2 ^ 17

abbrev pub section : ℕ
section = type_bit1

abbrev pub page_table : ℕ
page_table = type_bit0

abbrev pub small_page : ℕ
small_page = type_bit1

abbrev pub normal_memory : ℕ
normal_memory = bit_or (bit_or tex0 c) b

abbrev pub device_memory : ℕ
device_memory = b

abbrev pub normal_shareable : ℕ
normal_shareable = bit_or normal_memory s

abbrev pub ap_priv_rw : ℕ
ap_priv_rw = ap0

abbrev pub ap_user_rw : ℕ
ap_user_rw = bit_or ap0 ap1

abbrev pub ap_priv_ro : ℕ
ap_priv_ro = bit_or ap2 ap0

abbrev pub ap_user_ro : ℕ
ap_user_ro = bit_or (bit_or ap2 ap0) ap1

-- The constants of `DescriptorAttr` in order: bits 0 to 17 and 19.
abbrev pub all : ℕ
all = (2 ^ 18 - 1) + 2 ^ 19

-- bits 20..32
abbrev pub section_addr_mask : ℕ
section_addr_mask = 0xfff0_0000

-- bits 10..32
abbrev pub page_table_addr_mask : ℕ
page_table_addr_mask = 0xffff_fc00

-- bits 12..32
abbrev pub small_page_addr_mask : ℕ
small_page_addr_mask = 0xffff_f000

-- The attribute bits that move down by six in a small page.
abbrev shift_mask : ℕ
shift_mask =
    bit_or (bit_or (bit_or (bit_or (bit_or (bit_or (bit_or ap0 ap1) tex0) tex1) tex2) ap2) s) ng

-- `DescriptorAttr::descriptor_type` and `A32PTE::descriptor_type`, on the same bits
unfoldable pub descriptor_type : ℕ → ℕ
descriptor_type w = bit_and w 0b11

unfoldable pub is_valid : ℕ → Bool
unfolding descriptor_type
is_valid attr = not (descriptor_type attr == 0)

unfoldable pub is_section : ℕ → Bool
is_section w = bit_and w 0b11 == 0b10

unfoldable pub is_page_table : ℕ → Bool
unfolding descriptor_type
is_page_table attr = descriptor_type attr == 0b01

unfoldable pub is_small_page : ℕ → Bool
unfolding descriptor_type
is_small_page attr = descriptor_type attr == 0b10

module _ (flags : Bitflags) where
  open flags use {contains, union, from_bits_truncate, is_empty}

  unfoldable pub common_flags : ℕ → ℕ
  common_flags f =
      let bits =
        if contains f MappingFlags.device
        then device_memory
        else if contains f MappingFlags.uncached
        then tex0
        else normal_shareable in
      let has_write = contains f MappingFlags.write in
      if contains f MappingFlags.user
      then if has_write then bit_or bits ap_user_rw else bit_or bits ap_user_ro
      else if has_write
      then bit_or bits ap_priv_rw
      else bit_or bits ap_priv_ro

  unfoldable pub from_mapping_flags_section : ℕ → ℕ
  unfolding common_flags
  from_mapping_flags_section f =
      if is_empty f
      then 0
      else let bits = bit_or section (common_flags f) in
        if not (contains f MappingFlags.execute) then bit_or bits xn_small else bits

  unfoldable pub from_mapping_flags_small_page : ℕ → ℕ
  unfolding common_flags
  from_mapping_flags_small_page f =
      if is_empty f
      then 0
      else let attr = common_flags f in
        let bits = bit_or small_page (bit_and attr (bit_or b c)) in
        let bits = bit_or bits (bit_and attr shift_mask / 2 ^ 6) in
        if not (contains f MappingFlags.execute) then bit_or bits type_bit0 else bits

  -- `From<DescriptorAttr> for MappingFlags`
  unfoldable pub mapping_flags : ℕ → ℕ
  unfolding is_valid
  mapping_flags attr =
      if not (is_valid attr)
      then 0
      else let f = MappingFlags.read in
        let ap = bit_or (bit_and (attr / 2 ^ 10) 0b11) (bit_and (attr / 2 ^ 15) 1 * 2 ^ 2) in
        let f = if ap == 0b001 || ap == 0b011 then union f MappingFlags.write else f in
        let f = if not (bit_and ap 0b10 == 0) then union f MappingFlags.user else f in
        let f = if not (contains attr xn_small) then union f MappingFlags.execute else f in
        let tex = bit_and (attr / 2 ^ 12) 0b111 in
        let c_bit = bit_and (attr / 2 ^ 3) 1 in
        let b_bit = bit_and (attr / 2 ^ 2) 1 in
        if tex == 0 && c_bit == 0 && b_bit == 1
        then union f MappingFlags.device
        else if tex == 1 && c_bit == 0 && b_bit == 0
        then union f MappingFlags.uncached
        else f

  unfoldable pub new_section : (paddr f : ℕ) → ℕ
  unfolding from_mapping_flags_section
  new_section paddr f = bit_or (from_mapping_flags_section f) (bit_and paddr section_addr_mask)

  unfoldable pub new_small_page : (paddr f : ℕ) → ℕ
  unfolding from_mapping_flags_small_page
  new_small_page paddr f =
      bit_or (from_mapping_flags_small_page f) (bit_and paddr small_page_addr_mask)

  unfoldable pub new_page : ℕ → ℕ → Bool → ℕ
  unfolding new_section new_small_page
  new_page paddr f is_huge = if is_huge then new_section paddr f else new_small_page paddr f

  unfoldable pub new_table : ℕ → ℕ
  new_table paddr = bit_or page_table (bit_and paddr page_table_addr_mask)

  unfoldable pub paddr : ℕ → ℕ
  unfolding descriptor_type
  paddr w =
      let desc_type = descriptor_type w in
      if desc_type == 0b01
      then bit_and w page_table_addr_mask
      else if desc_type == 0b10
      then if leb 0x10_0000 (bit_and w section_addr_mask)
        then bit_and w section_addr_mask
        else bit_and w small_page_addr_mask
      else if desc_type == 0b11
      then bit_and w small_page_addr_mask
      else 0

  unfoldable pub flags_of : ℕ → ℕ
  unfolding mapping_flags
  flags_of w = mapping_flags (from_bits_truncate all w)

  -- `(self.0 & !mask) | (paddr & mask)` on 32 bits
  abbrev with_address : (mask w p : ℕ) → ℕ
  with_address mask w p = bit_or (bit_and w (2 ^ 32 - 1 - mask)) (bit_and p mask)

  unfoldable pub set_paddr : ℕ → ℕ → ℕ
  unfolding descriptor_type is_section
  set_paddr w p =
      let desc_type = descriptor_type w in
      if desc_type == 0b01
      then with_address page_table_addr_mask w p
      else if desc_type == 0b10
      then if is_section w
        then with_address section_addr_mask w p
        else with_address small_page_addr_mask w p
      else w

  unfoldable pub set_flags : ℕ → ℕ → Bool → ℕ
  unfolding paddr new_section new_small_page
  set_flags w f is_huge = let p = paddr w in if is_huge then new_section p f else new_small_page p f

  unfoldable pub is_present : ℕ → Bool
  unfolding descriptor_type
  is_present w = not (descriptor_type w == 0)

  -- `impl GenericPTE for A32PTE`
  unfoldable pub a32_pte : GenericPte
  unfolding new_page new_table paddr flags_of set_paddr set_flags is_present is_section
  a32_pte = record {
    new_page = new_page;
    new_table = new_table;
    paddr = paddr;
    flags = flags_of;
    set_paddr = set_paddr;
    set_flags = set_flags;
    bits = λ w. w;
    is_unused = λ w. w == 0;
    is_present = is_present;
    is_huge = is_section;
    clear = λ _. 0;
  }
