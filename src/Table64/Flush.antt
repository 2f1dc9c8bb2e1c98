-- ===== src/Table64/Flush.antt =====
-- The flush requests of a cursor: what `push` records is flushed.
use page_table_multiarch.Common.{ℕ, ◌≡◌, refl, Bool, true, ◌++◌}
use page_table_multiarch.Crates.{IsBounded}
use page_table_multiarch.Paging.{ok, Platform, TlbFlusher, idle, small_flush_threshold}
use page_table_multiarch.Paging.Run.{done}
use page_table_multiarch.Paging.Flusher.{asks, requests, flushes, flushes-later, pushed-Pushed}
use page_table_multiarch.Table64.Cursor.{Session, with_flusher, push, flush}

module _ {S V B : Type 0} (e : Platform S V B)
    (bounded : IsBounded small_flush_threshold e.vec) where
  abbrev pub asked : TlbFlusher V → ℕ → Bool
  asked f u = asks e.vec f u

  -- A push ends well in a flusher that asks for the address and for all that was asked before.
  pub record IsPushed (vaddr : ℕ) (s : Session S V B) : Type 0 where
    pub flusher : TlbFlusher V
    pub ends : push e vaddr s ≡ done (ok tt) (with_flusher s flusher)
    pub new : asked flusher vaddr ≡ true
    pub old : (u : ℕ) → asked s.cursor.flusher u ≡ true → asked flusher u ≡ true

  -- Every push ends well: no panic, and nothing that was asked for is forgotten.
  pub push-IsPushed : (vaddr : ℕ) (s : Session S V B) → IsPushed vaddr s
  unfolding push
  push-IsPushed vaddr s =
      let p = pushed-Pushed e.vec bounded s.cursor.flusher vaddr in
      record { flusher = p.after; ends = rw (p.ends, push); new = p.new; old = p.old }

  -- A flush carries out what was asked for, after the calls made before, and asks for nothing more.
  pub flush_lem :
      (s : Session S V B)
      → flush e s
        ≡ done (ok tt) (record s {
          cursor = record s.cursor { flusher = idle };
          world = record s.world { tlb = s.world.tlb ++ requests e.vec s.cursor.flusher };
        })
  unfolding flush
  flush_lem s = refl

  -- Dropping the cursor after a push: both end well, the address is flushed, together with all that
  -- was asked for before the push, nothing is left to flush and the tables are as they were.
  pub flush-push :
      (vaddr : ℕ) (s : Session S V B)
      → (s' s'' : Session S V B) × (push e vaddr s ≡ done (ok tt) s')
        × (flush e s' ≡ done (ok tt) s'')
        × (flushes s''.world.tlb vaddr ≡ true)
        × ((u : ℕ) → asked s.cursor.flusher u ≡ true → flushes s''.world.tlb u ≡ true)
        × (s''.cursor.flusher ≡ idle)
        × (s''.world.mem ≡ s.world.mem)
  flush-push vaddr s =
      let p = push-IsPushed vaddr s in
      (
        with_flusher s p.flusher,
        _,
        p.ends,
        flush_lem (with_flusher s p.flusher),
        flushes-later s.world.tlb (requests e.vec p.flusher) vaddr p.new,
        λ u h. flushes-later s.world.tlb (requests e.vec p.flusher) u (p.old u h),
        refl,
        refl,
      )
