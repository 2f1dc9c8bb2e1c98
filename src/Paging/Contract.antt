-- ===== src/Paging/Contract.antt =====
-- What the page tables rely on: a platform of three or four levels, a lawful entry format, an
-- allocator that hands out free frames, and the third-party crates as documented.
use page_table_multiarch.Common.{ℕ, ◌≡◌, ◌⊎◌, Bool, true, false, none, some, ◌==◌, if◌then◌else◌}
use page_table_multiarch.Crates.{IsAlignment, IsBounded}
use page_table_multiarch.Entry.Laws.{IsFrame, IsLawful}
use page_table_multiarch.Paging.{PagingHandler, Platform, small_flush_threshold}

-- `live s p` says that the frame `p` is handed out in the state `s`.
pub record IsAllocator {S : Type 0} (width : ℕ) (handler : PagingHandler S) (live : S → ℕ → Bool)
    : Type 0 where
  pub alloc_frame_is_frame : (s : S) (q : ℕ) → (handler.alloc_frame s).0 ≡ some q → IsFrame width q
  pub alloc_frame_was_free : (s : S) (q : ℕ) → (handler.alloc_frame s).0 ≡ some q → live s q ≡ false
  pub alloc_frame_live :
      (s : S) (q p : ℕ)
      → (handler.alloc_frame s).0 ≡ some q
      → live (handler.alloc_frame s).1 p ≡ (if p == q then true else live s p)
  pub alloc_frame_failed :
      (s : S) (p : ℕ)
      → (handler.alloc_frame s).0 ≡ none
      → live (handler.alloc_frame s).1 p ≡ live s p

pub record IsPlatform {S V B : Type 0} (e : Platform S V B) : Type 0 where
  pub width : ℕ
  pub accepts : ℕ → Bool
  pub seen : ℕ → ℕ
  pub live : S → ℕ → Bool
  pub levels : (e.meta.levels ≡ 3) ⊎ (e.meta.levels ≡ 4)
  pub lawful : IsLawful e.pte width accepts seen
  pub allocator : IsAllocator width e.handler live
  pub alignment : IsAlignment 64 e.addr
  pub bounded : IsBounded small_flush_threshold e.vec
