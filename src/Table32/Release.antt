-- ===== src/Table32/Release.antt =====
-- bits32.rs: the `Drop` of `PageTable32`, and `copy_from`, behind the feature of that name.
use page_table_multiarch.Common.{
  ℕ, zero, suc, ◌+◌, ◌-◌, ◌*◌, ◌/◌, ◌%◌, ◌^◌, bit_and, bit_or, Bool, not, ◌&&◌, ltb, leb, ◌==◌,
  if◌then◌else◌,
}
use page_table_multiarch.Paging.{Platform, full}
use page_table_multiarch.Paging.Run.{Cmd, pure, assert, ◌>>=◌, ◌>>◌}
use page_table_multiarch.Table32.Defs.{PageTable32, Memory, entry_count, entry_at, read, p1_index}
use page_table_multiarch.Table32.Cursor.{Session, inner, load, store_entry}

-- `(borrowed_entries[i / 64] & (1 << (i % 64))) != 0`
abbrev pub is_borrowed : (ℕ → ℕ) → ℕ → Bool
is_borrowed borrowed i = not (bit_and (borrowed (i / 64)) (1 * 2 ^ (i % 64)) == 0)

-- `borrowed_entries[i / 64] |= 1 << (i % 64)`
abbrev pub borrow : (ℕ → ℕ) → ℕ → ℕ → ℕ
borrow borrowed i k =
    if k == i / 64 then bit_or (borrowed (i / 64)) (1 * 2 ^ (i % 64)) else borrowed k

module _ {S V B : Type 0} (e : Platform S V B) where
  open e use {pte, handler}

  abbrev pub dealloc_frame : ℕ → Cmd (Memory S) (Unit {0})
  dealloc_frame paddr w = pure tt (record w { os = handler.dealloc_frame paddr w.os })

  abbrev pub dealloc_frames : ℕ → (num : ℕ) → Cmd (Memory S) (Unit {0})
  dealloc_frames paddr num w = pure tt (record w { os = handler.dealloc_frames paddr num w.os })

  -- The loop of `drop` over the entries of the root: those of L2 tables have their frame released.
  unfoldable pub drop_entries : PageTable32 → (left i : ℕ) → Cmd (Memory S) (Unit {0})
  drop_entries t zero i = pure tt
  drop_entries t (suc left) i = do
    entry ← read e (entry_at t.root_paddr i)
    if not (is_borrowed t.borrowed_entries i)
          && not (pte.is_unused entry)
          && not (pte.is_huge entry)
        then dealloc_frame (pte.paddr entry)
        else pure tt
    drop_entries t left (i + 1)

  unfoldable pub drop_table : PageTable32 → Cmd (Memory S) (Unit {0})
  unfolding drop_entries
  drop_table t = drop_entries t entry_count 0 >> dealloc_frames t.root_paddr 4

  abbrev pub set_borrowed : ℕ → Session S V → Session S V
  set_borrowed i s = record s {
    cursor = record s.cursor {
      inner = record s.cursor.inner { borrowed_entries = borrow s.cursor.inner.borrowed_entries i };
    };
  }

  -- One round: entry `i` of the root table, whose L2 table is released unless it was borrowed.
  unfoldable pub copy_entry : (src dst i : ℕ) → Cmd (Session S V) (Unit {0})
  copy_entry src dst i = do
    entry ← load e (entry_at dst i)
    was_borrowed ← λ s. pure (is_borrowed s.cursor.inner.borrowed_entries i) s
    if not was_borrowed
        then (do
          λ s. pure tt (set_borrowed i s)
          if not (pte.is_unused entry) && not (pte.is_huge entry)
              then inner (λ _. dealloc_frame (pte.paddr entry))
              else pure tt)
        else pure tt
    copied ← load e (entry_at src i)
    store_entry e (entry_at dst i) copied

  unfoldable pub copy_entries : (src dst left i : ℕ) → Cmd (Session S V) (Unit {0})
  unfolding copy_entry
  copy_entries src dst zero i = pure tt
  copy_entries src dst (suc left) i = copy_entry src dst i >> copy_entries src dst left (i + 1)

  unfoldable pub copy_from : PageTable32 → (start size : ℕ) → Cmd (Session S V) (Unit {0})
  unfolding copy_entries p1_index
  copy_from other start size = if size == 0 then pure tt else do
    let start_idx = p1_index start
    let end_idx = p1_index ((start + size - 1) % 2 ^ 32) + 1
    assert (ltb start_idx entry_count)
    assert (leb end_idx entry_count)
    λ s. copy_entries other.root_paddr s.cursor.inner.root_paddr (end_idx - start_idx) start_idx s
    λ s. pure tt (record s { cursor = record s.cursor { flusher = full } })
