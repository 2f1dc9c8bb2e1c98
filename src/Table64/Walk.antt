-- ===== src/Table64/Walk.antt =====
-- bits64.rs: `walk` and `walk_recursive`. The callbacks are functions of what they are given, so
-- the walk is the list of their calls.
use page_table_multiarch.Common.{
  ℕ, zero, suc, ◌+◌, ◌-◌, ◌*◌, ◌%◌, ◌^◌, Bool, not, ◌&&◌, List, [], ◌∷◌, ◌++◌, ltb, leb,
  if◌then◌else◌,
}
use page_table_multiarch.Paging.{ok, err, Platform, World}
use page_table_multiarch.Paging.Visit.{Visit, pre, post}
use page_table_multiarch.Table64.Defs.{PageTable64, entry_count, next_table}

module _ {S V B : Type 0} (e : Platform S V B) where
  open e use {meta, pte}

  -- The loop over `table.iter().enumerate()`, from index `i` with `left` entries to go and `n`
  -- present entries behind it. `inner` is the call on a table one level down.
  unfoldable pub walk_entries :
      (inner : ℕ → ℕ → List Visit)
      → World S
      → (table level start limit : ℕ) (pre_func post_func : Bool) (left i n : ℕ) → List Visit
  walk_entries inner w table level start limit pre_func post_func zero i n = []
  walk_entries inner w table level start limit pre_func post_func (suc left) i n =
      let vaddr = (start + i * 2 ^ (12 + (meta.levels - 1 - level) * 9)) % 2 ^ 64 in
      let entry = w.mem table i in
      let below : List Visit = elim (next_table e entry) [
        | ok next ↦
            if ltb level (meta.levels - 1) && not (pte.is_huge entry) then inner next vaddr else []
        | err _ ↦ []
      ] in
      let visits : List Visit =
        (if pre_func then pre level i vaddr entry ∷ [] else [])
        ++ (below ++ (if post_func then post level i vaddr entry ∷ [] else [])) in
      let here = pte.is_present entry in
      let rest =
        walk_entries inner w table level start limit pre_func post_func left (i + 1)
          (if here then n + 1 else n) in
      if here then visits ++ (if leb limit (n + 1) then [] else rest) else rest

  -- The fuel bounds the levels below; `level < LEVELS - 1` stops the recursion before it is used up.
  unfoldable pub walk_recursive :
      (fuel : ℕ) → World S → (table level start limit : ℕ) (pre_func post_func : Bool) → List Visit
  unfolding walk_entries next_table
  walk_recursive zero w table level start limit pre_func post_func = []
  walk_recursive (suc fuel) w table level start limit pre_func post_func =
      walk_entries
        (λ next vaddr. walk_recursive fuel w next (level + 1) vaddr limit pre_func post_func) w
        table level start limit pre_func post_func entry_count 0 0

  unfoldable pub walk :
      PageTable64 B → World S → (limit : ℕ) (pre_func post_func : Bool) → List Visit
  unfolding walk_recursive
  walk t w limit pre_func post_func =
      walk_recursive meta.levels w t.root_paddr 0 0 limit pre_func post_func
