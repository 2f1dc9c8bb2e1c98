-- ===== src/Table32/Answer.antt =====
-- The two-level page walk that `query` performs, on the numbers of an address.
use page_table_multiarch.Common.{
  ℕ, ◌-◌, ◌/◌, ◌%◌, ◌^◌, bit_and, ◌≡◌, Option, none, some, if◌then◌else◌, arith,
}
use page_table_multiarch.Bits.{bit_and_low}
use page_table_multiarch.Paging.{
  PagingResult, ok, err, PageSize, size_4k, size_1m, size_2m, size_1g, size_of, Platform,
  not_mapped,
}
use page_table_multiarch.Paging.Run.{done}
use page_table_multiarch.Table32.Defs.{
  PageTable32, Memory, entry_at, p1_index, p2_index, get_entry, get_entry_mut, query,
}

-- The numbers of an address within a root and within an L2 table.
unfoldable pub first : ℕ → ℕ
first u = u / 2 ^ 20 % 4096

unfoldable pub second : ℕ → ℕ
second u = u / 2 ^ 12 % 256

pub p1_index_lem : (u : ℕ) → p1_index u ≡ first u
unfolding p1_index first
p1_index_lem u = bit_and_low 12 (u / 2 ^ 20)

pub p2_index_lem : (u : ℕ) → p2_index u ≡ second u
unfolding p2_index second
p2_index_lem u = bit_and_low 8 (u / 2 ^ 12)

-- `vaddr & (size - 1)`
pub offset_lem : (size : PageSize) (u : ℕ) → bit_and u (size_of size - 1) ≡ u % size_of size
offset_lem size_4k u = bit_and_low 12 u
offset_lem size_1m u = bit_and_low 20 u
offset_lem size_2m u = bit_and_low 21 u
offset_lem size_1g u = bit_and_low 30 u

module _ {S V B : Type 0} (e : Platform S V B) where
  open e use {pte}

  module _ (words : ℕ → ℕ) (root : ℕ) where
    -- the entry of an address in the root
    abbrev pub top : ℕ → ℕ
    top u = words (entry_at root (first u))

    -- the place of the entry of an address in its L2 table
    abbrev pub below : ℕ → ℕ
    below u = entry_at (pte.paddr (top u)) (second u)

    -- The place in which the descent of an address ends, with the size of its page.
    unfoldable pub found : ℕ → Option (ℕ × PageSize)
    found u =
        if pte.is_unused (top u)
        then none
        else if pte.is_huge (top u)
        then some (entry_at root (first u), size_1m)
        else some (below u, size_4k)

    abbrev pub used : Option (ℕ × PageSize) → Option (ℕ × PageSize)
    used none = none
    used (some (p, size)) = if pte.is_unused (words p) then none else some (words p, size)

    -- The entry that maps an address, with the size of its page.
    unfoldable pub answer : ℕ → Option (ℕ × PageSize)
    unfolding found
    answer u = used (found u)

  -- What `query` makes of an answer.
  abbrev pub translated : ℕ → Option (ℕ × PageSize) → PagingResult (ℕ × ℕ × PageSize)
  translated u none = err not_mapped
  translated u (some (word, size)) =
      ok (e.addr.add (pte.paddr word) (u % size_of size), pte.flags word, size)

  abbrev pub or_not_mapped : Option (ℕ × PageSize) → PagingResult (ℕ × PageSize)
  or_not_mapped none = err not_mapped
  or_not_mapped (some x) = ok x

  module _ (t : PageTable32) (u : ℕ) (w : Memory S) where
    -- `get_entry_mut` gives the place in which the descent ends.
    pub get_entry_mut_lem :
        get_entry_mut e t u w ≡ done (or_not_mapped (found w.words t.root_paddr u)) w
    unfolding get_entry_mut found
    get_entry_mut_lem = rw (p1_index_lem, p2_index_lem) (ground arith)

    -- `query` gives the address, the flags and the size of the entry that the two-level walk finds,
    -- in the page's frame at the offset of the address, and `NotMapped` where the walk finds none.
    pub query_lem32 : query e t u w ≡ done (translated u (answer w.words t.root_paddr u)) w
    unfolding query get_entry answer found
    query_lem32 =
        rw (p1_index_lem, p2_index_lem) (ground (arith, offset_lem size_4k u, offset_lem size_1m u))
