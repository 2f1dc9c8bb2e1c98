-- ===== src/Table32/Cursor.antt =====
-- bits32.rs: `PageTable32Cursor`, its operations on one mapping, and its flush requests.
use page_table_multiarch.Common.{ℕ, none, some, ◌++◌, not, if◌then◌else◌}
use page_table_multiarch.Paging.{
  PageSize, size_of, is_huge_size, Platform, TlbFlusher, idle, not_mapped, already_mapped,
}
use page_table_multiarch.Paging.Run.{Run, done, panic, out_of_fuel, Cmd, pure, throw, ◌>>=◌, ◌>>◌}
use page_table_multiarch.Paging.Flusher.{pushed, requests}
use page_table_multiarch.Table32.Defs.{
  PageTable32, Memory, read, write, get_entry_mut, get_entry_mut_or_create,
}

pub record Cursor (V : Type 0) : Type 0 where
  pub inner : PageTable32
  pub flusher : TlbFlusher V

-- A cursor and the memory that it changes.
pub record Session (S V : Type 0) : Type 0 where
  pub cursor : Cursor V
  pub memory : Memory S

module _ {S V A : Type 0} where
  abbrev pub in_session : Cursor V → Run (Memory S) A → Run (Session S V) A
  in_session c (done r w) = done r (record { cursor = c; memory = w })
  in_session c panic = panic
  in_session c out_of_fuel = out_of_fuel

  -- a command on the table, `self.inner.…`
  abbrev pub inner : (PageTable32 → Cmd (Memory S) A) → Cmd (Session S V) A
  inner m s = in_session s.cursor (m s.cursor.inner s.memory)

module _ {S V : Type 0} where
  abbrev pub with_flusher : Session S V → TlbFlusher V → Session S V
  with_flusher s f = record s { cursor = record s.cursor { flusher = f } }

module _ {S V B : Type 0} (e : Platform S V B) where
  open e use {pte}

  abbrev pub load : ℕ → Cmd (Session S V) ℕ
  load p = inner (λ _. read e p)

  abbrev pub store_entry : ℕ → ℕ → Cmd (Session S V) (Unit {0})
  store_entry p word = inner (λ _. write e p word)

  -- `PageTable32::cursor`
  unfoldable pub cursor : PageTable32 → Cursor V
  cursor t = record { inner = t; flusher = idle }

  unfoldable pub push : ℕ → Cmd (Session S V) (Unit {0})
  push vaddr s = elim (pushed e.vec s.cursor.flusher vaddr) [
    | none ↦ panic
    | some f ↦ pure tt (with_flusher s f)
  ]

  unfoldable pub map : (vaddr target : ℕ) → PageSize → (flags : ℕ) → Cmd (Session S V) (Unit {0})
  unfolding get_entry_mut_or_create push
  map vaddr target page_size flags = do
    p ← inner (λ t. get_entry_mut_or_create e t vaddr page_size)
    entry ← load p
    if not (pte.is_unused entry) then throw already_mapped else do
      store_entry p (
          pte.new_page (e.addr.align_down target (size_of page_size)) flags
            (is_huge_size page_size))
      push vaddr

  unfoldable pub remap : (vaddr paddr flags : ℕ) → Cmd (Session S V) PageSize
  unfolding get_entry_mut push
  remap vaddr paddr flags = do
    (p, size) ← inner (λ t. get_entry_mut e t vaddr)
    store_entry p (pte.new_page paddr flags (is_huge_size size))
    push vaddr
    pure size

  unfoldable pub protect : (vaddr flags : ℕ) → Cmd (Session S V) PageSize
  unfolding get_entry_mut push
  protect vaddr flags = do
    (p, size) ← inner (λ t. get_entry_mut e t vaddr)
    entry ← load p
    if pte.is_unused entry then throw not_mapped else do
      store_entry p (pte.new_page (pte.paddr entry) flags (is_huge_size size))
      push vaddr
      pure size

  unfoldable pub unmap : (vaddr : ℕ) → Cmd (Session S V) (ℕ × ℕ × PageSize)
  unfolding get_entry_mut push
  unmap vaddr = do
    (p, size) ← inner (λ t. get_entry_mut e t vaddr)
    entry ← load p
    if pte.is_unused entry then throw not_mapped else do
      let paddr = pte.paddr entry
      let flags = pte.flags entry
      store_entry p (pte.clear entry)
      push vaddr
      pure (paddr, flags, size)

  -- `flush`, which is also the `Drop` of the cursor
  unfoldable pub flush : Cmd (Session S V) (Unit {0})
  flush s = pure tt (record s {
    cursor = record s.cursor { flusher = idle };
    memory = record s.memory { tlb = s.memory.tlb ++ requests e.vec s.cursor.flusher };
  })
