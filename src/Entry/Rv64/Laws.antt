-- ===== src/Entry/Rv64/Laws.antt =====
-- The entry format of riscv.rs meets the contract of `GenericPTE`.
use mathlib.Core.Path.{subst}
use page_table_multiarch.Common.{
  ℕ, ◌*◌, ◌/◌, ◌%◌, ◌^◌, ◌<◌, bit_and, ◌≡◌, refl, sym, ap, ◌∙◌, Bool, true, not, ◌&&◌, ◌||◌, ◌==◌,
  all_below, arith,
}
use page_table_multiarch.Crates.{Bitflags, IsBitwise}
use page_table_multiarch.Bits.{bit_and_field}
use page_table_multiarch.Entry.Laws.{frame_of, IsLawful}
use page_table_multiarch.Entry.Words.{
  documented, documented_lem, attr_part, attr_part_right, address_part, address_part_left,
  address_anew, attr_kept, all_leaves, all_leaves-elim,
}
use page_table_multiarch.Entry.Rv64.{
  v, all, phys_addr_mask, pte_flags, mapping_flags, new_page, set_flags, set_paddr, rv64_pte,
}

-- A page is readable or executable; other entries with V set point to tables.
abbrev pub accepts : ℕ → Bool
accepts f = not (bit_and f 0b101 == 0)

-- Device and uncached memory are not recorded.
abbrev pub seen : ℕ → ℕ
seen f = bit_and f 0b1111

-- The address field holds the address divided by four.
field-frame_of : (p : ℕ) → bit_and (p / 2 ^ 2) phys_addr_mask * 2 ^ 2 % 2 ^ 64 ≡ frame_of 56 p
field-frame_of p = omega (arith, bit_and_field 10 44 (p / 2 ^ 2))

abbrev read_address : ℕ → ℕ
read_address field = field * 2 ^ 2 % 2 ^ 64

abbrev leaf_facts : ℕ → Bool → Bool
leaf_facts f h =
    let attr = bit_and (pte_flags documented f) all in
    (bit_and (pte_flags documented f) phys_addr_mask == 0)
    && (not (accepts f)
        || ((mapping_flags documented attr == seen f)
            && (bit_and attr v == v)
            && not (bit_and attr 0b1010 == 0)))

leaf_table : all_leaves leaf_facts ≡ true
unfolding all_leaves all_below pte_flags mapping_flags
leaf_table = refl

module _ (f : ℕ) (small : f < 64) where
  leaf_entry : leaf_facts f true ≡ true
  leaf_entry = all_leaves-elim leaf_facts f true leaf_table small

  leaf_address : bit_and (pte_flags documented f) phys_addr_mask ≡ 0
  leaf_address = ground (arith, leaf_entry)

module _ (f : ℕ) (small : f < 64) (ok : accepts f ≡ true) where
  leaf_flags : mapping_flags documented (bit_and (pte_flags documented f) all) ≡ seen f
  leaf_flags = ground (arith, leaf_entry f small)

  leaf_valid : (bit_and (bit_and (pte_flags documented f) all) v == v) ≡ true
  leaf_valid = ground (arith, leaf_entry f small)

  leaf_huge : not (bit_and (bit_and (pte_flags documented f) all) 0b1010 == 0) ≡ true
  leaf_huge = ground (arith, leaf_entry f small)

page_attr :
    (p f : ℕ) (h : Bool)
    → bit_and (new_page documented p f h) all ≡ bit_and (pte_flags documented f) all
unfolding new_page
page_attr p f h = attr_part phys_addr_mask all _ (p / 2 ^ 2) refl

set_flags_attr :
    (word f : ℕ) (h : Bool)
    → bit_and (set_flags documented word f h) all ≡ bit_and (pte_flags documented f) all
unfolding set_flags
set_flags_attr word f h = attr_part_right phys_addr_mask all _ word refl

set_paddr_attr : (word p : ℕ) → bit_and (set_paddr documented word p) all ≡ bit_and word all
unfolding set_paddr
set_paddr_attr word p = attr_kept phys_addr_mask all word (p / 2 ^ 2) _ refl refl

documented-IsLawful : IsLawful (rv64_pte documented) 56 accepts seen
unfolding rv64_pte
documented-IsLawful = record {
  is_unused_lem = λ word. refl;
  clear_lem = λ word. refl;
  paddr-zero = refl;
  is_present-zero = refl;
  paddr-new_table =
      λ q. ap read_address (address_part phys_addr_mask v (q / 2 ^ 2) refl refl) ∙ field-frame_of q;
  is_huge-new_table = λ q. rw (attr_part phys_addr_mask all v (q / 2 ^ 2) refl);
  paddr-new_page = λ p f h small.
      ap read_address (address_part phys_addr_mask _ (p / 2 ^ 2) refl (leaf_address f small))
      ∙ field-frame_of p;
  flags-new_page =
      λ p f h small ok. ap (mapping_flags documented) (page_attr p f h) ∙ leaf_flags f small ok;
  is_present-new_page = λ p f h small ok. rw (page_attr p f h) (leaf_valid f small ok);
  is_huge-new_page = λ p f small ok. rw (page_attr p f true) (leaf_huge f small ok);
  paddr-set_paddr = λ word p.
      ap read_address (address_anew phys_addr_mask word (p / 2 ^ 2) _ refl refl) ∙ field-frame_of p;
  flags-set_paddr = λ word p. ap (mapping_flags documented) (set_paddr_attr word p);
  is_present-set_paddr = λ word p. rw (set_paddr_attr word p);
  is_huge-set_paddr = λ word p. rw (set_paddr_attr word p);
  paddr-set_flags = λ word f h small.
      ap read_address (address_part_left phys_addr_mask _ word refl (leaf_address f small));
  flags-set_flags = λ word f h small ok.
      ap (mapping_flags documented) (set_flags_attr word f h) ∙ leaf_flags f small ok;
  is_present-set_flags = λ word f h small ok. rw (set_flags_attr word f h) (leaf_valid f small ok);
  is_huge-set_flags = λ word f small ok. rw (set_flags_attr word f true) (leaf_huge f small ok);
}

-- The entry format of riscv.rs is a lawful `GenericPTE`: tables and pages give back their frame,
-- pages that are readable or executable are present, count as leaves and give back their
-- permissions, and `set_paddr` and `set_flags` each change what they name alone.
pub rv64_pte-IsLawful : (b : Bitflags) → IsBitwise b → IsLawful (rv64_pte b) 56 accepts seen
rv64_pte-IsLawful b h =
    subst (λ c. IsLawful (rv64_pte c) 56 accepts seen) (sym (documented_lem b h))
      documented-IsLawful
