-- ===== src/Entry/La64/Laws.antt =====
-- The entry format of loongarch64.rs meets the contract of `GenericPTE`. Its constant `g` lies in
-- the address field, so attributes are read through `read_bits`, the bits that are consulted.
use mathlib.Core.Path.{subst}
use page_table_multiarch.Common.{
  ℕ, ◌-◌, ◌<◌, bit_and, ◌≡◌, refl, sym, ap, ◌∙◌, Bool, true, not, ◌&&◌, ◌||◌, ◌==◌, all_below,
  arith, if◌then◌else◌,
}
use page_table_multiarch.Crates.{Bitflags, IsBitwise}
use page_table_multiarch.Bits.{bit_and_assoc, bit_and_field, bit_and-zero}
use page_table_multiarch.Entry.MappingFlags
use page_table_multiarch.Entry.Laws.{frame_of, IsLawful}
use page_table_multiarch.Entry.Words.{
  documented, documented_lem, attr_part, attr_part_right, address_part, address_part_left,
  address_anew, attr_kept, all_leaves, all_leaves-elim,
}
use page_table_multiarch.Entry.La64.{
  p, g, gh, all, phys_addr_mask, leaf_attr, mapping_flags, flags, new_page, set_flags, set_paddr,
  is_present, is_huge, la64_pte,
}

-- Any flag makes a present page.
abbrev pub accepts : ℕ → Bool
accepts f = not (f == 0)

-- Device memory does not read back as uncached.
abbrev pub seen : ℕ → ℕ
seen f =
    if (bit_and f MappingFlags.device == MappingFlags.device)
      && (bit_and f MappingFlags.uncached == MappingFlags.uncached)
    then f - MappingFlags.uncached
    else f

abbrev read_bits : ℕ
read_bits = all - g

flags_read : (word : ℕ) → flags documented word ≡ mapping_flags documented (bit_and word read_bits)
unfolding flags
flags_read word = simp bit_and_assoc

present_read : (word : ℕ) → is_present documented word ≡ (bit_and (bit_and word read_bits) p == p)
unfolding is_present
present_read word = simp bit_and_assoc

huge_read : (word : ℕ) → is_huge documented word ≡ (bit_and (bit_and word read_bits) gh == gh)
unfolding is_huge
huge_read word = simp bit_and_assoc

paddr-frame_of : (word : ℕ) → bit_and word phys_addr_mask ≡ frame_of 48 word
paddr-frame_of word = bit_and_field 12 36 word

abbrev leaf_facts : ℕ → Bool → Bool
leaf_facts f h =
    let attr = bit_and (leaf_attr documented f h) read_bits in
    (bit_and (leaf_attr documented f h) phys_addr_mask == 0)
    && (not (accepts f)
        || ((mapping_flags documented attr == seen f)
            && (bit_and attr p == p)
            && (not h || (bit_and attr gh == gh))))

leaf_table : all_leaves leaf_facts ≡ true
unfolding all_leaves all_below leaf_attr mapping_flags
leaf_table = refl

module _ (f : ℕ) (h : Bool) (small : f < 64) where
  leaf_entry : leaf_facts f h ≡ true
  leaf_entry = all_leaves-elim leaf_facts f h leaf_table small

  leaf_address : bit_and (leaf_attr documented f h) phys_addr_mask ≡ 0
  leaf_address = ground (arith, leaf_entry)

module _ (f : ℕ) (h : Bool) (small : f < 64) (ok : accepts f ≡ true) where
  leaf_flags : mapping_flags documented (bit_and (leaf_attr documented f h) read_bits) ≡ seen f
  leaf_flags = ground (arith, leaf_entry f h small)

  leaf_present : (bit_and (bit_and (leaf_attr documented f h) read_bits) p == p) ≡ true
  leaf_present = ground (arith, leaf_entry f h small)

leaf_huge :
    (f : ℕ)
    → f < 64
    → accepts f ≡ true
    → (bit_and (bit_and (leaf_attr documented f true) read_bits) gh == gh) ≡ true
leaf_huge f small ok = ground (arith, leaf_entry f true small)

page_attr :
    (addr f : ℕ) (h : Bool)
    → bit_and (new_page documented addr f h) read_bits
      ≡ bit_and (leaf_attr documented f h) read_bits
unfolding new_page
page_attr addr f h = attr_part phys_addr_mask read_bits _ addr refl

set_flags_attr :
    (word f : ℕ) (h : Bool)
    → bit_and (set_flags documented word f h) read_bits
      ≡ bit_and (leaf_attr documented f h) read_bits
unfolding set_flags
set_flags_attr word f h = attr_part_right phys_addr_mask read_bits _ word refl

set_paddr_attr :
    (word addr : ℕ) → bit_and (set_paddr documented word addr) read_bits ≡ bit_and word read_bits
unfolding set_paddr
set_paddr_attr word addr = attr_kept phys_addr_mask read_bits word addr _ refl refl

table_attr : (addr : ℕ) → bit_and (bit_and addr phys_addr_mask) read_bits ≡ 0
table_attr addr = simp (bit_and_assoc, bit_and-zero)

documented-IsLawful : IsLawful (la64_pte documented) 48 accepts seen
unfolding la64_pte
documented-IsLawful = record {
  is_unused_lem = λ word. refl;
  clear_lem = λ word. refl;
  paddr-zero = refl;
  is_present-zero = refl;
  paddr-new_table = λ q. simp bit_and_assoc (paddr-frame_of q);
  is_huge-new_table = λ q. rw (huge_read (bit_and q phys_addr_mask), table_attr q);
  paddr-new_page = λ addr f h small.
      address_part phys_addr_mask _ addr refl (leaf_address f h small) ∙ paddr-frame_of addr;
  flags-new_page = λ addr f h small ok.
      flags_read (new_page documented addr f h)
      ∙ ap (mapping_flags documented) (page_attr addr f h)
      ∙ leaf_flags f h small ok;
  is_present-new_page =
      λ addr f h small ok. present_read _ ∙ rw (page_attr addr f h) (leaf_present f h small ok);
  is_huge-new_page =
      λ addr f small ok. huge_read _ ∙ rw (page_attr addr f true) (leaf_huge f small ok);
  paddr-set_paddr =
      λ word addr. address_anew phys_addr_mask word addr _ refl refl ∙ paddr-frame_of addr;
  flags-set_paddr = λ word addr.
      flags_read (set_paddr documented word addr)
      ∙ ap (mapping_flags documented) (set_paddr_attr word addr)
      ∙ sym (flags_read word);
  is_present-set_paddr = λ word addr.
      present_read _
      ∙ ap (λ t. bit_and t p == p) (set_paddr_attr word addr)
      ∙ sym (present_read word);
  is_huge-set_paddr = λ word addr.
      huge_read _ ∙ ap (λ t. bit_and t gh == gh) (set_paddr_attr word addr) ∙ sym (huge_read word);
  paddr-set_flags =
      λ word f h small. address_part_left phys_addr_mask _ word refl (leaf_address f h small);
  flags-set_flags = λ word f h small ok.
      flags_read (set_flags documented word f h)
      ∙ ap (mapping_flags documented) (set_flags_attr word f h)
      ∙ leaf_flags f h small ok;
  is_present-set_flags = λ word f h small ok.
      present_read _ ∙ rw (set_flags_attr word f h) (leaf_present f h small ok);
  is_huge-set_flags =
      λ word f small ok. huge_read _ ∙ rw (set_flags_attr word f true) (leaf_huge f small ok);
}

-- The entry format of loongarch64.rs is a lawful `GenericPTE`: tables and pages give back their
-- frame, pages with any flag are present and give back their flags (device memory without the
-- uncached flag), huge pages are told apart, and `set_paddr` and `set_flags` each change what
-- they name alone.
pub la64_pte-IsLawful : (b : Bitflags) → IsBitwise b → IsLawful (la64_pte b) 48 accepts seen
la64_pte-IsLawful b h =
    subst (λ c. IsLawful (la64_pte c) 48 accepts seen) (sym (documented_lem b h))
      documented-IsLawful
