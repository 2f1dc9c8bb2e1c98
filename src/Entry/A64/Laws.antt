-- ===== src/Entry/A64/Laws.antt =====
-- The entry format of aarch64.rs meets the contract of `GenericPTE`.
use mathlib.Core.Path.{subst}
use page_table_multiarch.Common.{
  ℕ, ◌-◌, ◌<◌, bit_and, ◌≡◌, refl, sym, ap, ◌∙◌, Bool, true, all_below, not, ◌&&◌, ◌||◌, ◌==◌,
  arith, if◌then◌else◌,
}
use page_table_multiarch.Crates.{Bitflags, IsBitwise}
use page_table_multiarch.Bits.{bit_and_field}
use page_table_multiarch.Entry.MappingFlags
use page_table_multiarch.Entry.Laws.{frame_of, IsLawful}
use page_table_multiarch.Entry.Words.{
  documented, documented_lem, attr_part, attr_part_right, address_part, address_part_left,
  address_anew, attr_kept, all_leaves, all_leaves-elim,
}
use page_table_multiarch.Entry.A64.{
  phys_addr_mask, leaf_attr, mapping_flags, new_page, set_paddr, set_flags, a64_pte, all, valid,
  non_block,
}

-- Readable pages are present.
abbrev pub accepts : ℕ → Bool
accepts f = bit_and f MappingFlags.read == MappingFlags.read

-- Device memory does not read back as uncached.
abbrev pub seen : ℕ → ℕ
seen f =
    if (bit_and f MappingFlags.device == MappingFlags.device)
      && (bit_and f MappingFlags.uncached == MappingFlags.uncached)
    then f - MappingFlags.uncached
    else f

paddr-frame_of : (w : ℕ) → bit_and w phys_addr_mask ≡ frame_of 48 w
paddr-frame_of w = bit_and_field 12 36 w

-- What the attributes of a leaf say, for all flags: nothing of the address; and, if the flags are
-- accepted, that the page is present and has those flags.
abbrev leaf_facts : ℕ → Bool → Bool
leaf_facts f h =
    let attr = bit_and (leaf_attr documented f h) all in
    (bit_and (leaf_attr documented f h) phys_addr_mask == 0)
    && (not (accepts f)
        || ((mapping_flags documented attr == seen f)
            && (bit_and attr valid == valid)
            && (not h || not (bit_and attr non_block == non_block))))

leaf_table : all_leaves leaf_facts ≡ true
unfolding all_leaves all_below leaf_attr mapping_flags
leaf_table = refl

module _ (f : ℕ) (h : Bool) (small : f < 64) where
  leaf_entry : leaf_facts f h ≡ true
  leaf_entry = all_leaves-elim leaf_facts f h leaf_table small

  leaf_address : bit_and (leaf_attr documented f h) phys_addr_mask ≡ 0
  leaf_address = ground (arith, leaf_entry)

module _ (f : ℕ) (h : Bool) (small : f < 64) (ok : accepts f ≡ true) where
  leaf_flags : mapping_flags documented (bit_and (leaf_attr documented f h) all) ≡ seen f
  leaf_flags = ground (arith, leaf_entry f h small)

  leaf_valid : (bit_and (bit_and (leaf_attr documented f h) all) valid == valid) ≡ true
  leaf_valid = ground (arith, leaf_entry f h small)

leaf_huge :
    (f : ℕ)
    → f < 64
    → accepts f ≡ true
    → not (bit_and (bit_and (leaf_attr documented f true) all) non_block == non_block) ≡ true
leaf_huge f small ok = ground (arith, leaf_entry f true small)

-- The attribute bits that `flags`, `is_present` and `is_huge` read, of an entry just made.
page_attr :
    (p f : ℕ) (h : Bool)
    → bit_and (new_page documented p f h) all ≡ bit_and (leaf_attr documented f h) all
unfolding new_page
page_attr p f h = attr_part phys_addr_mask all _ p refl

set_flags_attr :
    (w f : ℕ) (h : Bool)
    → bit_and (set_flags documented w f h) all ≡ bit_and (leaf_attr documented f h) all
unfolding set_flags
set_flags_attr w f h = attr_part_right phys_addr_mask all _ w refl

set_paddr_attr : (w p : ℕ) → bit_and (set_paddr documented w p) all ≡ bit_and w all
unfolding set_paddr
set_paddr_attr w p = attr_kept phys_addr_mask all w p _ refl refl

documented-IsLawful : IsLawful (a64_pte documented) 48 accepts seen
unfolding a64_pte
documented-IsLawful = record {
  is_unused_lem = λ w. refl;
  clear_lem = λ w. refl;
  paddr-zero = refl;
  is_present-zero = refl;
  paddr-new_table = λ q. address_part phys_addr_mask 3 q refl refl ∙ paddr-frame_of q;
  is_huge-new_table = λ q. rw (attr_part phys_addr_mask all 3 q refl);
  paddr-new_page = λ p f h small.
      address_part phys_addr_mask _ p refl (leaf_address f h small) ∙ paddr-frame_of p;
  flags-new_page =
      λ p f h small ok. ap (mapping_flags documented) (page_attr p f h) ∙ leaf_flags f h small ok;
  is_present-new_page = λ p f h small ok. rw (page_attr p f h) (leaf_valid f h small ok);
  is_huge-new_page = λ p f small ok. rw (page_attr p f true) (leaf_huge f small ok);
  paddr-set_paddr = λ w p. address_anew phys_addr_mask w p _ refl refl ∙ paddr-frame_of p;
  flags-set_paddr = λ w p. ap (mapping_flags documented) (set_paddr_attr w p);
  is_present-set_paddr = λ w p. rw (set_paddr_attr w p);
  is_huge-set_paddr = λ w p. rw (set_paddr_attr w p);
  paddr-set_flags =
      λ w f h small. address_part_left phys_addr_mask _ w refl (leaf_address f h small);
  flags-set_flags = λ w f h small ok.
      ap (mapping_flags documented) (set_flags_attr w f h) ∙ leaf_flags f h small ok;
  is_present-set_flags = λ w f h small ok. rw (set_flags_attr w f h) (leaf_valid f h small ok);
  is_huge-set_flags = λ w f small ok. rw (set_flags_attr w f true) (leaf_huge f small ok);
}

-- The entry format of aarch64.rs is a lawful `GenericPTE`: tables and pages give back their frame,
-- readable pages are present and give back their flags (device memory without the uncached flag),
-- huge pages are told apart, and `set_paddr` and `set_flags` each change what they name alone.
pub a64_pte-IsLawful : (b : Bitflags) → IsBitwise b → IsLawful (a64_pte b) 48 accepts seen
a64_pte-IsLawful b h =
    subst (λ c. IsLawful (a64_pte c) 48 accepts seen) (sym (documented_lem b h)) documented-IsLawful
