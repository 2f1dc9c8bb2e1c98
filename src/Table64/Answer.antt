-- ===== src/Table64/Answer.antt =====
-- What a descent from a table finds, as a function of the memory alone: the page walk that the
-- three `get_entry` functions spell out level by level.
use page_table_multiarch.Common.{
  ℕ, zero, suc, ◌-◌, ◌≡◌, refl, ap, ◌⊎◌, inl, inr, Bool, ◌&&◌, leb, arith, if◌then◌else◌,
}
use page_table_multiarch.Paging.{
  PagingResult, ok, err, PageSize, size_4k, Platform, World, not_mapped, align_offset,
}
use page_table_multiarch.Paging.Run.{done}
use page_table_multiarch.Table64.Defs.{
  PageTable64, Slot, slot, next_table, next_table_mut, get_entry_mut, query,
}
use page_table_multiarch.Table64.Height.{
  index_at, size_at, p1_index-index_at, p2_index-index_at, p3_index-index_at, p4_index-index_at,
}

abbrev pub map_ok {ℓ κ} : {A : Type ℓ} {B : Type κ} → (A → B) → PagingResult A → PagingResult B
map_ok f (ok a) = ok (f a)
map_ok f (err x) = err x

abbrev pub Memory : Type 0
Memory = (frame index : ℕ) → ℕ

abbrev pub follow {ℓ} : {A : Type ℓ} → PagingResult ℕ → (ℕ → PagingResult A) → PagingResult A
follow (ok q) k = k q
follow (err x) k = err x

-- Two ways on agree if they agree where the link leads.
pub follow-eq {ℓ} :
    {A : Type ℓ} (r : PagingResult ℕ) (k l : ℕ → PagingResult A)
    → ((q : ℕ) → r ≡ ok q → k q ≡ l q)
    → follow r k ≡ follow r l
follow-eq (ok q) k l same = same q refl
follow-eq (err x) k l same = refl

module _ {S V B : Type 0} (e : Platform S V B) where
  open e use {pte}

  -- May an entry at this height be a page?
  abbrev pub is_leaf : ℕ → ℕ → Bool
  is_leaf h word = leb h 2 && pte.is_huge word

  -- the slot that a descent ends in
  unfoldable pub descend :
      (height : ℕ) → Memory → (table vaddr : ℕ) → PagingResult (Slot × PageSize)
  descend zero mem p v = ok (slot p (index_at 0 v), size_4k)
  descend (suc h) mem p v =
      let word = mem p (index_at (suc h) v) in
      let rest = follow (next_table e word) (λ q. descend h mem q v) in
      if is_leaf (suc h) word then ok (slot p (index_at (suc h) v), size_at (suc h)) else rest

  abbrev pub present : ℕ → PageSize → PagingResult (ℕ × PageSize)
  present word size = if pte.is_present word then ok (word, size) else err not_mapped

  -- the present entry that a descent ends in
  unfoldable pub answer : (height : ℕ) → Memory → (table vaddr : ℕ) → PagingResult (ℕ × PageSize)
  answer zero mem p v = present (mem p (index_at 0 v)) size_4k
  answer (suc h) mem p v =
      let word = mem p (index_at (suc h) v) in
      let rest = follow (next_table e word) (λ q. answer h mem q v) in
      if is_leaf (suc h) word then present word (size_at (suc h)) else rest

  -- Descents agree if they read the same entry and agree where it leads.
  pub answer-eq :
      (h p v : ℕ) (m m' : Memory)
      → m p (index_at (suc h) v) ≡ m' p (index_at (suc h) v)
      → ((q : ℕ)
          → next_table e (m' p (index_at (suc h) v)) ≡ ok q
          → answer h m q v ≡ answer h m' q v)
      → answer (suc h) m p v ≡ answer (suc h) m' p v
  unfolding answer
  answer-eq h p v m m' word below = rw word (
      ap
        (λ r.
          if is_leaf (suc h) (m' p (index_at (suc h) v))
          then present (m' p (index_at (suc h) v)) (size_at (suc h))
          else r)
        (follow-eq (next_table e (m' p (index_at (suc h) v))) (λ q. answer h m q v)
          (λ q. answer h m' q v) below))

  -- What `query` makes of an entry.
  abbrev pub translation : ℕ → ℕ × PageSize → ℕ × ℕ × PageSize
  translation v (word, size) =
      (e.addr.add (pte.paddr word) (align_offset e.addr size v), pte.flags word, size)

  pub next_table_mut_lem : (word : ℕ) → next_table_mut e word ≡ next_table e word
  unfolding next_table_mut next_table
  next_table_mut_lem word = refl

  module _ (t : PageTable64 B) (v : ℕ) (w : World S) where
    pub get_entry_mut_three :
        e.meta.levels ≡ 3 → get_entry_mut e t v w ≡ done (descend 2 w.mem t.root_paddr v) w
    unfolding get_entry_mut descend next_table next_table_mut
    get_entry_mut_three l =
        rw (l, p1_index-index_at v, p2_index-index_at v, p3_index-index_at v) (ground arith)

    pub get_entry_mut_four :
        e.meta.levels ≡ 4 → get_entry_mut e t v w ≡ done (descend 3 w.mem t.root_paddr v) w
    unfolding get_entry_mut descend next_table next_table_mut
    get_entry_mut_four l =
        ground (
          arith,
          p1_index-index_at v,
          p2_index-index_at v,
          p3_index-index_at v,
          p4_index-index_at v,
        )

    pub query_three :
        e.meta.levels ≡ 3
        → query e t v w ≡ done (map_ok (translation v) (answer 2 w.mem t.root_paddr v)) w
    unfolding query answer next_table
    query_three l = ground (arith, p1_index-index_at v, p2_index-index_at v, p3_index-index_at v)

    pub query_four :
        e.meta.levels ≡ 4
        → query e t v w ≡ done (map_ok (translation v) (answer 3 w.mem t.root_paddr v)) w
    unfolding query answer next_table
    query_four l =
        ground (
          arith,
          p1_index-index_at v,
          p2_index-index_at v,
          p3_index-index_at v,
          p4_index-index_at v,
        )

    -- Both kinds of platform at once: the root stands at the height `LEVELS - 1`.
    pub get_entry_mut_lem :
        (e.meta.levels ≡ 3) ⊎ (e.meta.levels ≡ 4)
        → get_entry_mut e t v w ≡ done (descend (e.meta.levels - 1) w.mem t.root_paddr v) w
    get_entry_mut_lem (inl l) = rw (ap (λ n. n - 1) l) (get_entry_mut_three l)
    get_entry_mut_lem (inr l) = rw (ap (λ n. n - 1) l) (get_entry_mut_four l)

    -- `query` on a table of three or four levels: it changes nothing, and its result is the page walk
    -- from the root, a recursion on the height that stops at a leaf or at a missing link, with the entry
    -- found read as a frame plus the offset of the address, its flags and its page size.
    pub query_lem :
        (e.meta.levels ≡ 3) ⊎ (e.meta.levels ≡ 4)
        → query e t v w
          ≡ done (map_ok (translation v) (answer (e.meta.levels - 1) w.mem t.root_paddr v)) w
    query_lem (inl l) = rw (ap (λ n. n - 1) l) (query_three l)
    query_lem (inr l) = rw (ap (λ n. n - 1) l) (query_four l)
