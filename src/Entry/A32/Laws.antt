-- ===== src/Entry/A32/Laws.antt =====
-- The entry format of arm.rs meets the contract of two-level tables.
use mathlib.Core.Path.{subst}
use page_table_multiarch.Common.{
  ℕ, ◌-◌, ◌*◌, ◌/◌, ◌%◌, ◌^◌, ◌≤◌, ◌<◌, ==_ne, Bool-cases, inl, inr, bit_and, bit_or, ◌≡◌, refl,
  sym, ap, ◌∙◌, Bool, true, false, all_below, not, ◌&&◌, ◌||◌, ◌==◌, ltb, leb, arith, if◌then◌else◌,
}
use page_table_multiarch.Crates.{Bitflags, IsBitwise}
use page_table_multiarch.Bits.{bit_and_field, bit_and_assoc}
use page_table_multiarch.Entry.MappingFlags
use page_table_multiarch.Entry.Laws.{IsShort}
use page_table_multiarch.Entry.Words.{
  documented, documented_lem, attr_part, address_part, all_leaves, all_leaves-elim,
}
use page_table_multiarch.Entry.A32.{
  set_flags, section_addr_mask, small_page_addr_mask, page_table_addr_mask, all, mapping_flags,
  from_mapping_flags_section, from_mapping_flags_small_page, new_page, new_section, new_small_page,
  new_table, paddr, flags_of, is_section, descriptor_type, a32_pte,
}

-- An entry without flags has no type.
abbrev pub accepts : ℕ → Bool
accepts f = not (f == 0)

-- Readable always; device memory does not read back as uncached.
abbrev pub seen : ℕ → ℕ
seen f =
    let f = bit_or f MappingFlags.read in
    if (bit_and f MappingFlags.device == MappingFlags.device)
      && (bit_and f MappingFlags.uncached == MappingFlags.uncached)
    then f - MappingFlags.uncached
    else f

abbrev pub executable : ℕ → Bool
executable f = bit_and f MappingFlags.execute == MappingFlags.execute

-- The frames that read back: sections from 1M on; small pages that are not executable, or below 1M.
abbrev pub exact : ℕ → ℕ → Bool → Bool
exact p f true = (p % 2 ^ 20 == 0) && ltb p (2 ^ 32) && leb (2 ^ 20) p
exact p f false = (p % 2 ^ 12 == 0) && ltb p (2 ^ 32) && (not (executable f) || ltb p (2 ^ 20))

-- Sections give back their flags.
abbrev pub shown : Bool → Bool
shown h = h

abbrev leaf_attr : ℕ → Bool → ℕ
leaf_attr f h =
    if h
    then from_mapping_flags_section documented f
    else from_mapping_flags_small_page documented f

abbrev address_mask : Bool → ℕ
address_mask h = if h then section_addr_mask else small_page_addr_mask

-- What the attributes of a leaf say, for all accepted flags.
abbrev leaf_facts : ℕ → Bool → Bool
leaf_facts f h =
    let attr = leaf_attr f h in
    not (accepts f)
    || ((bit_and attr (address_mask h) == 0)
        && (bit_and attr 3 == (if h || executable f then 2 else 3))
        && (not h || (mapping_flags documented (bit_and attr all) == seen f)))

leaf_table : all_leaves leaf_facts ≡ true
unfolding all_leaves all_below mapping_flags from_mapping_flags_section
    from_mapping_flags_small_page
leaf_table = refl

module _ (f : ℕ) (h : Bool) (small : f < 64) (ok : accepts f ≡ true) where
  leaf_entry : leaf_facts f h ≡ true
  leaf_entry = all_leaves-elim leaf_facts f h leaf_table small

  leaf_address : bit_and (leaf_attr f h) (address_mask h) ≡ 0
  leaf_address = ground (arith, leaf_entry)

  leaf_type : bit_and (leaf_attr f h) 3 ≡ (if h || executable f then 2 else 3)
  leaf_type = ground (arith, leaf_entry)

new_page_lem :
    (p f : ℕ) (h : Bool)
    → new_page documented p f h ≡ bit_or (leaf_attr f h) (bit_and p (address_mask h))
unfolding new_page new_section new_small_page
new_page_lem p f true = refl
new_page_lem p f false = refl

mask-type : (h : Bool) → bit_and (address_mask h) 3 ≡ 0
mask-type true = refl
mask-type false = refl

mask_idem : (h : Bool) → bit_and (address_mask h) (address_mask h) ≡ address_mask h
mask_idem true = refl
mask_idem false = refl

module _ (p f : ℕ) (h : Bool) (small : f < 64) (ok : accepts f ≡ true) where
  page_type : bit_and (new_page documented p f h) 3 ≡ (if h || executable f then 2 else 3)
  page_type =
      rw (new_page_lem p f h)
        (attr_part (address_mask h) 3 (leaf_attr f h) p (mask-type h) ∙ leaf_type f h small ok)

  page_address : bit_and (new_page documented p f h) (address_mask h) ≡ bit_and p (address_mask h)
  page_address =
      rw (new_page_lem p f h)
        (address_part (address_mask h) (leaf_attr f h) p (mask_idem h) (leaf_address f h small ok))

section_bits :
    (w : ℕ)
    → bit_and (bit_and w small_page_addr_mask) section_addr_mask ≡ bit_and w section_addr_mask
section_bits w = bit_and_assoc w small_page_addr_mask section_addr_mask

section_field : (p : ℕ) → bit_and p section_addr_mask ≡ p / 2 ^ 20 % 2 ^ 12 * 2 ^ 20
section_field p = bit_and_field 20 12 p

small_field : (p : ℕ) → bit_and p small_page_addr_mask ≡ p / 2 ^ 12 % 2 ^ 20 * 2 ^ 12
small_field p = bit_and_field 12 20 p

table_field : (p : ℕ) → bit_and p page_table_addr_mask ≡ p / 2 ^ 10 % 2 ^ 22 * 2 ^ 10
table_field p = bit_and_field 10 22 p

page_used :
    (p f : ℕ) (h : Bool) → f < 64 → accepts f ≡ true → (new_page documented p f h == 0) ≡ false
page_used p f h small ok =
    ==_ne _ 0 λ zeroed. let type = page_type p f h small ok in ground (arith, type, zeroed)

page-IsHuge :
    (p f : ℕ) → f < 64 → accepts f ≡ true → is_section (new_page documented p f true) ≡ true
unfolding is_section
page-IsHuge p f small ok = rw (page_type p f true small ok)

-- Where the section bits of a small page's frame are not all zero, they alone are its address if
-- it is executable.
paddr-section :
    (w p : ℕ)
    → bit_and w 3 ≡ 2
    → bit_and w section_addr_mask ≡ p
    → 2 ^ 20 ≤ p
    → paddr documented w ≡ p
unfolding paddr descriptor_type
paddr-section w p type here large = ground arith

paddr-below :
    (w p : ℕ)
    → bit_and w 3 ≡ 2
    → bit_and w section_addr_mask ≡ 0
    → bit_and w small_page_addr_mask ≡ p
    → paddr documented w ≡ p
unfolding paddr descriptor_type
paddr-below w p type low here = ground arith

paddr-xn : (w p : ℕ) → bit_and w 3 ≡ 3 → bit_and w small_page_addr_mask ≡ p → paddr documented w ≡ p
unfolding paddr descriptor_type
paddr-xn w p type here = ground arith

paddr-page :
    (p f : ℕ) (h : Bool)
    → f < 64
    → accepts f ≡ true
    → exact p f h ≡ true
    → paddr documented (new_page documented p f h) ≡ p
paddr-page p f true small ok fits =
    paddr-section _ p (page_type p f true small ok)
      (page_address p f true small ok ∙ ground (arith, section_field p)) (ground arith)
paddr-page p f false small ok fits = elim (Bool-cases (executable f)) [
  | inr xn ↦ paddr-xn _ p (page_type p f false small ok ∙ rw xn refl) (small_address _)
  | inl runs ↦
      paddr-below _ p (page_type p f false small ok ∙ rw runs refl)
        (sym (section_bits _)
          ∙ ap (λ x. bit_and x section_addr_mask) (page_address p f false small ok)
          ∙ section_bits p
          ∙ ground (arith, section_field p))
        (small_address _)
]
  where
    small_address :
        (u : Unit {0}) → bit_and (new_page documented p f false) small_page_addr_mask ≡ p
    small_address u = page_address p f false small ok ∙ ground (arith, small_field p)

paddr-table : (q : ℕ) → q % 2 ^ 12 ≡ 0 → q < 2 ^ 32 → paddr documented (new_table documented q) ≡ q
unfolding paddr descriptor_type new_table
paddr-table q aligned small =
    rw (attr_part page_table_addr_mask 3 1 q refl, address_part page_table_addr_mask 1 q refl refl)
      (ground (arith, table_field q))

table_used : (q : ℕ) → (new_table documented q == 0) ≡ false
unfolding new_table
table_used q =
    ==_ne _ 0
      λ zeroed. let type = attr_part page_table_addr_mask 3 1 q refl in ground (arith, type, zeroed)

table-IsHuge : (q : ℕ) → is_section (new_table documented q) ≡ false
unfolding is_section new_table
table-IsHuge q = rw (attr_part page_table_addr_mask 3 1 q refl)

flags-section :
    (p f : ℕ)
    → f < 64
    → accepts f ≡ true
    → flags_of documented (new_page documented p f true) ≡ seen f
unfolding flags_of
flags-section p f small ok =
    ap (mapping_flags documented)
      (ap (λ w. bit_and w all) (new_page_lem p f true) ∙ attr_part section_addr_mask all _ p refl)
    ∙ ground (arith, leaf_entry f true small ok)

set_flags-page :
    (w f : ℕ) (h : Bool) → set_flags documented w f h ≡ new_page documented (paddr documented w) f h
unfolding set_flags new_page
set_flags-page w f h = refl

documented-IsShort : IsShort (a32_pte documented) accepts exact shown seen
unfolding a32_pte
documented-IsShort = record {
  is_unused_lem = λ w. refl;
  clear_lem = λ w. refl;
  is_unused-new_table = table_used;
  is_huge-new_table = table-IsHuge;
  paddr-new_table = paddr-table;
  is_unused-new_page = page_used;
  is_huge-new_page = page-IsHuge;
  paddr-new_page = paddr-page;
  flags-new_page = λ p f h small ok reads. ground (arith, flags-section p f small ok);
  set_flags_lem = set_flags-page;
}

-- The entry format of arm.rs meets the contract of the two-level tables. Entries of tables are in
-- use, no sections, and give back a 4K frame of 32 bits. Pages with any flag are in use, and huge
-- pages are sections. Sections give back their frame from 1M on, and their flags as readable
-- (device memory without the uncached flag). Small pages give back their frame where they are not
-- executable or lie below 1M. `set_flags` makes the page anew on the frame that the entry gives.
pub a32_pte-IsShort : (b : Bitflags) → IsBitwise b → IsShort (a32_pte b) accepts exact shown seen
a32_pte-IsShort b h =
    subst (λ c. IsShort (a32_pte c) accepts exact shown seen) (sym (documented_lem b h))
      documented-IsShort
