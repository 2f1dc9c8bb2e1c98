-- ===== src/Entry/Words.antt =====
-- An entry word is made of attribute bits and an address field. Each lemma reads such a word
-- through a mask; its premises are equations between the constants of a format.
use mathlib.Core.Path.{fun_ext}
use page_table_multiarch.Common.{
  ℕ, ◌≡◌, ◌<◌, Bool, true, not, ◌&&◌, bit_and, bit_or, ◌==◌, arith, all_below, all_below-elim,
  false,
}
use page_table_multiarch.Crates.{Bitflags, IsBitwise}
use page_table_multiarch.Bits.{
  bit_and_assoc, bit_and-bit_or, bit_and-zero, bit_or-zero, zero-bit_or,
}

-- The operations of bitflags as documented, by which tables are evaluated.
abbrev pub documented : Bitflags
documented = record {
  contains = λ x y. bit_and x y == y;
  intersects = λ x y. not (bit_and x y == 0);
  union = λ x y. bit_or x y;
  from_bits_truncate = λ x y. bit_and y x;
  is_empty = λ x. x == 0;
}

pub documented_lem : (b : Bitflags) → IsBitwise b → b ≡ documented
documented_lem b h = λ i. record {
  contains = fun_ext (λ x. fun_ext (h.contains_lem x)) i;
  intersects = fun_ext (λ x. fun_ext (h.intersects_lem x)) i;
  union = fun_ext (λ x. fun_ext (h.union_lem x)) i;
  from_bits_truncate = fun_ext (λ x. fun_ext (h.truncate_lem x)) i;
  is_empty = fun_ext h.is_empty_lem i;
}

module _ (mask : ℕ) where
  pub attr_part :
      (x f p : ℕ) → bit_and mask x ≡ 0 → bit_and (bit_or f (bit_and p mask)) x ≡ bit_and f x
  attr_part x f p e = simp (bit_and-bit_or, bit_and_assoc, e, bit_and-zero, bit_or-zero)

  pub attr_part_right :
      (x f w : ℕ) → bit_and mask x ≡ 0 → bit_and (bit_or (bit_and w mask) f) x ≡ bit_and f x
  attr_part_right x f w e = simp (bit_and-bit_or, bit_and_assoc, e, bit_and-zero, zero-bit_or)

  pub address_part :
      (f p : ℕ)
      → bit_and mask mask ≡ mask
      → bit_and f mask ≡ 0
      → bit_and (bit_or f (bit_and p mask)) mask ≡ bit_and p mask
  address_part f p i e = simp (bit_and-bit_or, bit_and_assoc, i, e, zero-bit_or)

  pub address_part_left :
      (f w : ℕ)
      → bit_and mask mask ≡ mask
      → bit_and f mask ≡ 0
      → bit_and (bit_or (bit_and w mask) f) mask ≡ bit_and w mask
  address_part_left f w i e = simp (bit_and-bit_or, bit_and_assoc, i, e, bit_or-zero)

  -- the address field written anew; `rest` is the complement of the mask
  pub address_anew :
      (w p rest : ℕ)
      → bit_and mask mask ≡ mask
      → bit_and rest mask ≡ 0
      → bit_and (bit_or (bit_and w rest) (bit_and p mask)) mask ≡ bit_and p mask
  address_anew w p rest i e = simp (bit_and-bit_or, bit_and_assoc, i, e, bit_and-zero, zero-bit_or)

  pub attr_kept :
      (x w p rest : ℕ)
      → bit_and mask x ≡ 0
      → bit_and rest x ≡ x
      → bit_and (bit_or (bit_and w rest) (bit_and p mask)) x ≡ bit_and w x
  attr_kept x w p rest e k = simp (bit_and-bit_or, bit_and_assoc, e, k, bit_and-zero, bit_or-zero)

-- A table over the flags and the page kind.
abbrev both : (ℕ → Bool → Bool) → ℕ → Bool
both p f = p f true && p f false

unfoldable pub all_leaves : (ℕ → Bool → Bool) → Bool
all_leaves p = all_below 64 (both p)

both-elim : (p : ℕ → Bool → Bool) (f : ℕ) (h : Bool) → both p f ≡ true → p f h ≡ true
both-elim p f true t = ground arith
both-elim p f false t = ground arith

pub all_leaves-elim :
    (p : ℕ → Bool → Bool) (f : ℕ) (h : Bool) → all_leaves p ≡ true → f < 64 → p f h ≡ true
unfolding all_leaves
all_leaves-elim p f h t lt = both-elim p f h (all_below-elim 64 (both p) f t lt)
