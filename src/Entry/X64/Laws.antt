-- ===== src/Entry/X64/Laws.antt =====
-- The entry format of x86_64.rs meets the contract of `GenericPTE`.
use mathlib.Core.Path.{subst₂}
use page_table_multiarch.Common.{
  ℕ, ◌+◌, ◌-◌, ◌*◌, ◌^◌, ◌<◌, bit_and, bit_or, ◌≡◌, refl, sym, ap, ◌∙◌, Bool, true, not, ◌&&◌, ◌||◌,
  ◌==◌, all_below, arith, if◌then◌else◌,
}
use page_table_multiarch.Crates.{Bitflags, IsBitwise}
use page_table_multiarch.Bits.{bit_and_field}
use page_table_multiarch.Entry.Laws.{frame_of, IsLawful}
use page_table_multiarch.Entry.Words.{
  documented, documented_lem, attr_part, attr_part_right, address_part, address_part_left,
  address_anew, attr_kept, all_leaves, all_leaves-elim,
}
use page_table_multiarch.Entry.X64.{
  PageTableFlags, phys_addr_mask, leaf_attr, mapping_flags, new_page, set_flags, set_paddr, x64_pte,
}

-- `PageTableFlags` as the crate documents it: bits 0 to 11 and 52 to 63 are its constants.
abbrev pub documented_ptf : PageTableFlags
documented_ptf = record {
  present = 2 ^ 0;
  writable = 2 ^ 1;
  user_accessible = 2 ^ 2;
  write_through = 2 ^ 3;
  no_cache = 2 ^ 4;
  huge_page = 2 ^ 7;
  no_execute = 2 ^ 63;
  all = 2 ^ 12 - 1 + (2 ^ 12 - 1) * 2 ^ 52;
}

abbrev ptf : PageTableFlags
ptf = documented_ptf

abbrev all : ℕ
all = ptf.all

-- Any flag makes a present page, and a present page is readable.
abbrev pub accepts : ℕ → Bool
accepts f = not (f == 0)

-- Uncached stands for device memory too.
abbrev pub seen : ℕ → ℕ
seen f =
    let permissions = bit_or (bit_and f 0b1110) 0b1 in
    if bit_and f 0b110000 == 0 then permissions else permissions + 0b100000

paddr-frame_of : (w : ℕ) → bit_and w phys_addr_mask ≡ frame_of 52 w
paddr-frame_of w = bit_and_field 12 40 w

abbrev leaf_facts : ℕ → Bool → Bool
leaf_facts f h =
    let attr = bit_and (leaf_attr documented ptf f h) all in
    (bit_and (leaf_attr documented ptf f h) phys_addr_mask == 0)
    && (not (accepts f)
        || ((mapping_flags documented ptf attr == seen f)
            && (bit_and attr ptf.present == ptf.present)
            && (not h || (bit_and attr ptf.huge_page == ptf.huge_page))))

leaf_table : all_leaves leaf_facts ≡ true
unfolding all_leaves all_below leaf_attr mapping_flags
leaf_table = refl

module _ (f : ℕ) (h : Bool) (small : f < 64) where
  leaf_entry : leaf_facts f h ≡ true
  leaf_entry = all_leaves-elim leaf_facts f h leaf_table small

  leaf_address : bit_and (leaf_attr documented ptf f h) phys_addr_mask ≡ 0
  leaf_address = ground (arith, leaf_entry)

module _ (f : ℕ) (h : Bool) (small : f < 64) (ok : accepts f ≡ true) where
  leaf_flags : mapping_flags documented ptf (bit_and (leaf_attr documented ptf f h) all) ≡ seen f
  leaf_flags = ground (arith, leaf_entry f h small)

  leaf_present :
      (bit_and (bit_and (leaf_attr documented ptf f h) all) ptf.present == ptf.present) ≡ true
  leaf_present = ground (arith, leaf_entry f h small)

leaf_huge :
    (f : ℕ)
    → f < 64
    → accepts f ≡ true
    → (bit_and (bit_and (leaf_attr documented ptf f true) all) ptf.huge_page == ptf.huge_page)
      ≡ true
leaf_huge f small ok = ground (arith, leaf_entry f true small)

page_attr :
    (p f : ℕ) (h : Bool)
    → bit_and (new_page documented ptf p f h) all ≡ bit_and (leaf_attr documented ptf f h) all
unfolding new_page
page_attr p f h = attr_part phys_addr_mask all _ p refl

set_flags_attr :
    (w f : ℕ) (h : Bool)
    → bit_and (set_flags documented ptf w f h) all ≡ bit_and (leaf_attr documented ptf f h) all
unfolding set_flags
set_flags_attr w f h = attr_part_right phys_addr_mask all _ w refl

set_paddr_attr : (w p : ℕ) → bit_and (set_paddr documented ptf w p) all ≡ bit_and w all
unfolding set_paddr
set_paddr_attr w p = attr_kept phys_addr_mask all w p _ refl refl

documented-IsLawful : IsLawful (x64_pte documented ptf) 52 accepts seen
unfolding x64_pte
documented-IsLawful = record {
  is_unused_lem = λ w. refl;
  clear_lem = λ w. refl;
  paddr-zero = refl;
  is_present-zero = refl;
  paddr-new_table = λ q. address_part phys_addr_mask 7 q refl refl ∙ paddr-frame_of q;
  is_huge-new_table = λ q. rw (attr_part phys_addr_mask all 7 q refl);
  paddr-new_page = λ p f h small.
      address_part phys_addr_mask _ p refl (leaf_address f h small) ∙ paddr-frame_of p;
  flags-new_page = λ p f h small ok.
      ap (mapping_flags documented ptf) (page_attr p f h) ∙ leaf_flags f h small ok;
  is_present-new_page = λ p f h small ok. rw (page_attr p f h) (leaf_present f h small ok);
  is_huge-new_page = λ p f small ok. rw (page_attr p f true) (leaf_huge f small ok);
  paddr-set_paddr = λ w p. address_anew phys_addr_mask w p _ refl refl ∙ paddr-frame_of p;
  flags-set_paddr = λ w p. ap (mapping_flags documented ptf) (set_paddr_attr w p);
  is_present-set_paddr = λ w p. rw (set_paddr_attr w p);
  is_huge-set_paddr = λ w p. rw (set_paddr_attr w p);
  paddr-set_flags =
      λ w f h small. address_part_left phys_addr_mask _ w refl (leaf_address f h small);
  flags-set_flags = λ w f h small ok.
      ap (mapping_flags documented ptf) (set_flags_attr w f h) ∙ leaf_flags f h small ok;
  is_present-set_flags = λ w f h small ok. rw (set_flags_attr w f h) (leaf_present f h small ok);
  is_huge-set_flags = λ w f small ok. rw (set_flags_attr w f true) (leaf_huge f small ok);
}

-- The entry format of x86_64.rs is a lawful `GenericPTE`, with the constants of the crate x86_64
-- as documented: tables and pages give back their frame, pages with any flag are present and give
-- back their flags (with the readable flag, and uncached for device or uncached memory), huge
-- pages are told apart, and `set_paddr` and `set_flags` each change what they name alone.
pub x64_pte-IsLawful :
    (b : Bitflags) (constants : PageTableFlags)
    → IsBitwise b
    → constants ≡ documented_ptf
    → IsLawful (x64_pte b constants) 52 accepts seen
x64_pte-IsLawful b constants h k =
    subst₂ (λ c t. IsLawful (x64_pte c t) 52 accepts seen) (sym (documented_lem b h)) (sym k)
      documented-IsLawful
