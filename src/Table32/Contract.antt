-- ===== src/Table32/Contract.antt =====
-- What two-level tables rely on: 32-bit entries as `IsShort` states them, an allocator of frames and
-- of the aligned block of a root, and the third-party crates as documented.
use page_table_multiarch.Common.{ℕ, ◌+◌, ◌*◌, ◌%◌, ◌<◌, ◌≡◌, Bool, true, some}
use page_table_multiarch.Crates.{IsAlignment, IsBounded}
use page_table_multiarch.Entry.Laws.{IsShort}
use page_table_multiarch.Paging.{PagingHandler, Platform, small_flush_threshold, page_size_4k}
use page_table_multiarch.Paging.Contract.{IsAllocator}
use page_table_multiarch.Table32.Defs.{l1_align, l1_size_pages}

-- `live s p` says that the frame `p` is handed out in the state `s`.
pub record IsBlockAllocator {S : Type 0} (handler : PagingHandler S) (live : S → ℕ → Bool)
    : Type 0 where
  pub alloc_frames_aligned :
      (s : S) (q : ℕ)
      → (handler.alloc_frames l1_size_pages l1_align s).0 ≡ some q
      → q % l1_align ≡ 0
  pub alloc_frames_live :
      (s : S) (q k : ℕ)
      → (handler.alloc_frames l1_size_pages l1_align s).0 ≡ some q
      → k < l1_size_pages
      → live (handler.alloc_frames l1_size_pages l1_align s).1 (q + page_size_4k * k) ≡ true

pub record IsPlatform {S V B : Type 0} (e : Platform S V B) : Type 0 where
  pub accepts : ℕ → Bool
  pub exact : ℕ → ℕ → Bool → Bool
  pub shown : Bool → Bool
  pub seen : ℕ → ℕ
  pub live : S → ℕ → Bool
  pub lawful : IsShort e.pte accepts exact shown seen
  pub allocator : IsAllocator 32 e.handler live
  pub blocks : IsBlockAllocator e.handler live
  pub alignment : IsAlignment 32 e.addr
  pub bounded : IsBounded small_flush_threshold e.vec
