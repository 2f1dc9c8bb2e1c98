-- ===== src/Table64/Copy.antt =====
-- bits64.rs: `copy_from`, behind the feature of that name.
use page_table_multiarch.Common.{
  ℕ, zero, suc, ◌+◌, ◌-◌, ◌%◌, ◌^◌, Bool, true, not, ◌&&◌, ltb, leb, ◌==◌, if◌then◌else◌,
}
use page_table_multiarch.Paging.{Platform, full}
use page_table_multiarch.Paging.Run.{Cmd, pure, assert, unreachable, is_ok, ◌>>=◌, ◌>>◌}
use page_table_multiarch.Table64.Defs.{
  PageTable64, entry_count, slot, next_table, p3_index, p4_index,
}
use page_table_multiarch.Table64.Cursor.{Session, inner, load, store_entry}
use page_table_multiarch.Table64.Release.{dealloc_tree}

module _ {S V B : Type 0} (e : Platform S V B) where
  open e use {meta, pte, bitmap}

  -- `borrowed_entries.set(i, true)`, which gives the bit that stood there
  abbrev set_borrowed : ℕ → Session S V B → Bool × Session S V B
  set_borrowed i s =
      let (old, b) = bitmap.set s.cursor.inner.borrowed_entries i true in
      (
        old,
        record s {
          cursor = record s.cursor { inner = record s.cursor.inner { borrowed_entries = b } };
        },
      )

  -- One round: entry `i` of the root table, whose subtree is released unless it was borrowed.
  unfoldable pub copy_entry : (src dst i : ℕ) → Cmd (Session S V B) (Unit {0})
  unfolding next_table dealloc_tree
  copy_entry src dst i = do
    entry ← load e (slot dst i)
    was_borrowed ← λ s. let (old, s') = set_borrowed i s in pure old s'
    if not was_borrowed && is_ok (next_table e entry)
        then inner (λ _. dealloc_tree e meta.levels (pte.paddr entry) 1)
        else pure tt
    copied ← load e (slot src i)
    store_entry e (slot dst i) copied

  unfoldable pub copy_entries : (src dst left i : ℕ) → Cmd (Session S V B) (Unit {0})
  unfolding copy_entry
  copy_entries src dst zero i = pure tt
  copy_entries src dst (suc left) i = copy_entry src dst i >> copy_entries src dst left (i + 1)

  unfoldable pub index_fn : ℕ → Cmd (Session S V B) ℕ
  unfolding p3_index p4_index
  index_fn vaddr =
      if meta.levels == 3
      then pure (p3_index vaddr)
      else if meta.levels == 4
      then pure (p4_index vaddr)
      else unreachable

  unfoldable pub copy_from : PageTable64 B → (start size : ℕ) → Cmd (Session S V B) (Unit {0})
  unfolding copy_entries index_fn
  copy_from other start size = if size == 0 then pure tt else do
    start_idx ← index_fn start
    last_idx ← index_fn ((start + size - 1) % 2 ^ 64)
    let end_idx = last_idx + 1
    assert (ltb start_idx entry_count)
    assert (leb end_idx entry_count)
    λ s. copy_entries other.root_paddr s.cursor.inner.root_paddr (end_idx - start_idx) start_idx s
    λ s. pure tt (record s { cursor = record s.cursor { flusher = full } })
