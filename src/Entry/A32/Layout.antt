-- ===== src/Entry/A32/Layout.antt =====
-- The words of arm.rs by their fields, as sums: the short descriptors of ARMv7-A. A section has XN at
-- bit 4, AP[1:0] at bit 10, TEX at bit 12, AP[2] at bit 15, S at bit 16; a small page has XN at bit 0,
-- AP[1:0] at bit 4, TEX at bit 6, AP[2] at bit 9, S at bit 10. Both have B at bit 2, C at bit 3.
use mathlib.Core.Path.{subst}
use page_table_multiarch.Common.{
  ℕ, ◌+◌, ◌-◌, ◌*◌, ◌/◌, ◌%◌, ◌^◌, ◌<◌, bit_and, bit_or, ◌≡◌, refl, sym, ap, ◌∙◌, Bool, true, false,
  not, ◌&&◌, ◌||◌, ◌==◌, arith, if◌then◌else◌, all_below,
}
use page_table_multiarch.Crates.{Bitflags, IsBitwise}
use page_table_multiarch.Bits.{
  bit_and_low, bit_and_assoc, bit_and_comm, bit_and-zero, zero-bit_and, bit_or_add, bit_and_field,
}
use page_table_multiarch.Entry.{GenericPte}
use page_table_multiarch.Entry.MappingFlags
use page_table_multiarch.Entry.Words.{documented, documented_lem, all_leaves, all_leaves-elim}
use page_table_multiarch.Entry.A32.{
  from_mapping_flags_section, from_mapping_flags_small_page, new_page, new_section, new_small_page,
  new_table, paddr, set_paddr, set_flags, a32_pte, descriptor_type, is_section, section_addr_mask,
  small_page_addr_mask, page_table_addr_mask,
}

abbrev has : (f flag : ℕ) → Bool
has f flag = bit_and f flag == flag

abbrev pub bit : Bool → ℕ
bit b = if b then 1 else 0

-- Device memory is TEX 0, C 0, B 1; uncached memory TEX 1, C 0, B 0; other memory is cached and
-- shareable, TEX 1, C 1, B 1.
abbrev pub is_device : ℕ → Bool
is_device f = has f MappingFlags.device

abbrev pub is_uncached : ℕ → Bool
is_uncached f = not (is_device f) && has f MappingFlags.uncached

abbrev pub is_cached : ℕ → Bool
is_cached f = not (is_device f) && not (has f MappingFlags.uncached)

-- B and C
abbrev pub cache_field : ℕ → ℕ
cache_field f = bit (is_device f || is_cached f) * 2 ^ 2 + bit (is_cached f) * 2 ^ 3

-- From AP[0] on: AP[0] is set, AP[1] lets user mode in, TEX follows, AP[2] forbids to write, then S.
abbrev pub access_field : ℕ → ℕ
access_field f =
    1
    + bit (has f MappingFlags.user) * 2
    + bit (not (is_device f)) * 2 ^ 2
    + bit (not (has f MappingFlags.write)) * 2 ^ 5
    + bit (is_cached f) * 2 ^ 6

abbrev pub xn : ℕ → ℕ
xn f = bit (not (has f MappingFlags.execute))

-- The attributes of a page with flags; without flags there are none.
abbrev pub attributes : (flags : ℕ) (is_huge : Bool) → ℕ
attributes f true = if f == 0 then 0 else 2 + cache_field f + xn f * 2 ^ 4 + access_field f * 2 ^ 10
attributes f false = if f == 0 then 0 else 2 + xn f + cache_field f + access_field f * 2 ^ 4

-- the bits `low` to 31 of an address, in their place
abbrev pub frame_field : (low address : ℕ) → ℕ
frame_field low p = p / 2 ^ low % 2 ^ (32 - low) * 2 ^ low

abbrev pub frame_low : Bool → ℕ
frame_low h = if h then 20 else 12

-- What an address set anew makes of a word: the type says where the frame stands.
abbrev pub moved : (word paddr : ℕ) → ℕ
moved w p =
    if w % 4 == 1
    then w % 2 ^ 10 + frame_field 10 p
    else if w % 4 == 2
    then w % 2 ^ 20 + frame_field 20 p
    else w

pub record Layout (pte : GenericPte) : Type 0 where
  pub new_page_lem :
      (p f : ℕ) (h : Bool)
      → f < 64
      → pte.new_page p f h ≡ attributes f h + frame_field (frame_low h) p
  pub new_table_lem : (p : ℕ) → pte.new_table p ≡ 1 + frame_field 10 p
  pub set_paddr_lem : (w p : ℕ) → pte.set_paddr w p ≡ moved w p
  pub set_flags_lem :
      (w f : ℕ) (h : Bool)
      → f < 64
      → pte.set_flags w f h ≡ attributes f h + frame_field (frame_low h) (pte.paddr w)

abbrev leaf_attr : ℕ → Bool → ℕ
leaf_attr f h =
    if h
    then from_mapping_flags_section documented f
    else from_mapping_flags_small_page documented f

abbrev leaf_facts : ℕ → Bool → Bool
leaf_facts f h =
    (leaf_attr f h == attributes f h)
    && (bit_and (leaf_attr f h) (if h then section_addr_mask else small_page_addr_mask) == 0)

leaf_table : all_leaves leaf_facts ≡ true
unfolding all_leaves all_below from_mapping_flags_section from_mapping_flags_small_page
leaf_table = refl

-- Attributes and a frame under a mask apart from them.
joined :
    (attr p mask field : ℕ)
    → bit_and attr mask ≡ 0
    → bit_and p mask ≡ field
    → bit_or attr (bit_and p mask) ≡ attr + field
joined attr p mask field apart same =
    bit_or_add attr (bit_and p mask) (
      ap (bit_and attr) (bit_and_comm p mask)
      ∙ sym (bit_and_assoc attr mask p)
      ∙ ap (λ x. bit_and x p) apart
      ∙ zero-bit_and p)
    ∙ ap (λ x. attr + x) same

module _ (p f : ℕ) (small : f < 64) where
  section_sum :
      bit_or (from_mapping_flags_section documented f) (bit_and p section_addr_mask)
      ≡ attributes f true + frame_field 20 p
  section_sum =
      let facts = all_leaves-elim leaf_facts f true leaf_table small in
      joined _ p section_addr_mask _ (ground (arith, facts)) (bit_and_field 20 12 p)
      ∙ ap (λ x. x + frame_field 20 p) (ground (arith, facts))

  small_page_sum :
      bit_or (from_mapping_flags_small_page documented f) (bit_and p small_page_addr_mask)
      ≡ attributes f false + frame_field 12 p
  small_page_sum =
      let facts = all_leaves-elim leaf_facts f false leaf_table small in
      joined _ p small_page_addr_mask _ (ground (arith, facts)) (bit_and_field 12 20 p)
      ∙ ap (λ x. x + frame_field 12 p) (ground (arith, facts))

new_page-attributes :
    (p f : ℕ) (h : Bool)
    → f < 64
    → new_page documented p f h ≡ attributes f h + frame_field (frame_low h) p
unfolding new_page new_section new_small_page
new_page-attributes p f true small = section_sum p f small
new_page-attributes p f false small = small_page_sum p f small

set_flags-attributes :
    (w f : ℕ) (h : Bool)
    → f < 64
    → set_flags documented w f h ≡ attributes f h + frame_field (frame_low h) (paddr documented w)
unfolding set_flags new_section new_small_page
set_flags-attributes w f true small = section_sum (paddr documented w) f small
set_flags-attributes w f false small = small_page_sum (paddr documented w) f small

-- The low bits of a word with another frame.
low_kept :
    (k w p mask field : ℕ)
    → bit_and (2 ^ k - 1) mask ≡ 0
    → bit_and p mask ≡ field
    → bit_or (bit_and w (2 ^ k - 1)) (bit_and p mask) ≡ w % 2 ^ k + field
low_kept k w p mask field apart same =
    joined (bit_and w (2 ^ k - 1)) p mask field
      (bit_and_assoc w (2 ^ k - 1) mask ∙ ap (bit_and w) apart ∙ bit_and-zero w) same
    ∙ ap (λ x. x + field) (bit_and_low k w)

set_paddr-moved : (w p : ℕ) → set_paddr documented w p ≡ moved w p
unfolding set_paddr descriptor_type is_section
set_paddr-moved w p = ground (
  arith,
  bit_and_low 2 w,
  low_kept 10 w p page_table_addr_mask _ refl (bit_and_field 10 22 p),
  low_kept 20 w p section_addr_mask _ refl (bit_and_field 20 12 p),
)

documented-Layout : Layout (a32_pte documented)
unfolding a32_pte new_table
documented-Layout = record {
  new_page_lem = new_page-attributes;
  new_table_lem = λ p. joined 1 p page_table_addr_mask _ refl (bit_and_field 10 22 p);
  set_paddr_lem = set_paddr-moved;
  set_flags_lem = set_flags-attributes;
}

-- The words that the entry format of arm.rs makes, as sums of the fields of ARMv7-A short
-- descriptors. A page with flags, whichever of the 63 sets they are, has bit 1; AP[0]; AP[1] where
-- user mode may use it; AP[2] where it may not be written; XN where it may not be executed; and TEX,
-- C, B and S as its memory is device memory, uncached, or cached and shareable. A section has these
-- at its places and bits 20 to 31 of the frame, a small page at its own and bits 12 to 31. A page
-- without flags has the frame alone. A link is type 1 and bits 10 to 31. `set_flags` makes such a page
-- of the address that the entry gives. `set_paddr` puts bits 10 to 31 of the address into a word of
-- type 1 and bits 20 to 31 into one of type 2, other bits below kept, and leaves other words as they
-- are.
pub a32_pte-Layout : (b : Bitflags) → IsBitwise b → Layout (a32_pte b)
a32_pte-Layout b h = subst (λ c. Layout (a32_pte c)) (sym (documented_lem b h)) documented-Layout
