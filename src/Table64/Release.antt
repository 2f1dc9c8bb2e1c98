-- ===== src/Table64/Release.antt =====
-- bits64.rs: `dealloc_tree` and the `Drop` of `PageTable64`.
use page_table_multiarch.Common.{ℕ, zero, suc, ◌+◌, ◌-◌, Bool, ◌&&◌, not, ltb, if◌then◌else◌}
use page_table_multiarch.Paging.{Platform, World}
use page_table_multiarch.Paging.Run.{out_of_fuel, Cmd, pure, ◌>>=◌, ◌>>◌, is_ok}
use page_table_multiarch.Table64.Defs.{PageTable64, entry_count, slot, read, next_table}

module _ {S V B : Type 0} (e : Platform S V B) where
  open e use {meta, pte, handler}

  abbrev pub dealloc_frame : ℕ → Cmd (World S) (Unit {0})
  dealloc_frame paddr w = pure tt (record w { os = handler.dealloc_frame paddr w.os })

  -- The loop over the entries of a table: those that lead to a table have their tree released.
  unfoldable pub dealloc_entries :
      (inner : ℕ → Cmd (World S) (Unit {0}))
      → (skip : ℕ → Bool) (table left i : ℕ) → Cmd (World S) (Unit {0})
  unfolding next_table
  dealloc_entries inner skip table zero i = pure tt
  dealloc_entries inner skip table (suc left) i = do
    entry ← read e (slot table i)
    if not (skip i) && is_ok (next_table e entry) then inner (pte.paddr entry) else pure tt
    dealloc_entries inner skip table left (i + 1)

  -- The fuel bounds the levels below `level`.
  unfoldable pub dealloc_tree : (fuel table_paddr level : ℕ) → Cmd (World S) (Unit {0})
  unfolding dealloc_entries
  dealloc_tree zero table_paddr level = λ _. out_of_fuel
  dealloc_tree (suc fuel) table_paddr level =
      (if ltb level (meta.levels - 1)
        then dealloc_entries (λ next. dealloc_tree fuel next (level + 1)) (λ _. Bool.false)
            table_paddr entry_count 0
        else pure tt)
      >> dealloc_frame table_paddr

  -- `Drop for PageTable64`, with the feature `copy-from`
  unfoldable pub drop_table : PageTable64 B → Cmd (World S) (Unit {0})
  unfolding dealloc_tree
  drop_table t =
      dealloc_entries (λ next. dealloc_tree meta.levels next 1) (e.bitmap.get t.borrowed_entries)
        t.root_paddr entry_count 0
      >> dealloc_frame t.root_paddr
