-- ===== src/Table32/Walk.antt =====
-- bits32.rs: `walk` and `walk_recursive`.
use page_table_multiarch.Common.{
  ℕ, zero, suc, ◌+◌, ◌*◌, ◌%◌, ◌^◌, Bool, not, ◌&&◌, List, [], ◌∷◌, ◌++◌, ◌==◌, leb, if◌then◌else◌,
}
use page_table_multiarch.Paging.{Platform}
use page_table_multiarch.Paging.Visit.{Visit, pre, post}
use page_table_multiarch.Table32.Defs.{PageTable32, Memory, entry_count, entry_at}

module _ {S V B : Type 0} (e : Platform S V B) where
  open e use {pte}

  -- The loop over `table.iter().enumerate()`, from index `i` with `left` entries to go and `n`
  -- entries in use behind it. `inner` is the call on a table one level down.
  unfoldable pub walk_entries :
      (inner : ℕ → ℕ → List Visit)
      → Memory S
      → (table level start limit : ℕ) (pre_func post_func : Bool) (left i n : ℕ) → List Visit
  walk_entries inner w table level start limit pre_func post_func zero i n = []
  walk_entries inner w table level start limit pre_func post_func (suc left) i n =
      let shift = if level == 0 then 20 else 12 in
      let vaddr = (start + i * 2 ^ shift) % 2 ^ 32 in
      let entry = w.words (entry_at table i) in
      let below : List Visit =
        if level == 0 && not (pte.is_huge entry) then inner (pte.paddr entry) vaddr else [] in
      let visits : List Visit =
        (if pre_func then pre level i vaddr entry ∷ [] else [])
        ++ (below ++ (if post_func then post level i vaddr entry ∷ [] else [])) in
      let here = not (pte.is_unused entry) in
      let rest =
        walk_entries inner w table level start limit pre_func post_func left (i + 1)
          (if here then n + 1 else n) in
      if here then visits ++ (if leb limit (n + 1) then [] else rest) else rest

  -- The fuel bounds the levels; `level == 0` stops the recursion before it is used up.
  unfoldable pub walk_recursive :
      (fuel : ℕ) → Memory S → (table level start limit : ℕ) (pre_func post_func : Bool) → List Visit
  unfolding walk_entries
  walk_recursive zero w table level start limit pre_func post_func = []
  walk_recursive (suc fuel) w table level start limit pre_func post_func =
      walk_entries
        (λ next vaddr. walk_recursive fuel w next (level + 1) vaddr limit pre_func post_func) w
        table level start limit pre_func post_func entry_count 0 0

  unfoldable pub walk :
      PageTable32 → Memory S → (limit : ℕ) (pre_func post_func : Bool) → List Visit
  unfolding walk_recursive
  walk t w limit pre_func post_func = walk_recursive 2 w t.root_paddr 0 0 limit pre_func post_func
