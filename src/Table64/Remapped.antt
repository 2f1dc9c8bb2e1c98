-- ===== src/Table64/Remapped.antt =====
-- The outcomes of `remap`, in terms of what the addresses are answered.
use mathlib.Core.Path.{fun_ext}
use page_table_multiarch.Common.{ℕ, ◌≤◌, ◌<◌, ◌≡◌, refl, sym, ◌∙◌, ==_refl, true, arith}
use page_table_multiarch.Paging.{
  PagingError, PagingResult, ok, err, PageSize, is_huge_size, Platform, World,
}
use page_table_multiarch.Paging.Run.{Run, done, Cmd, and_then, pure, ◌>>=◌, ◌>>◌}
use page_table_multiarch.Paging.Contract.{IsPlatform}
use page_table_multiarch.Table64.Defs.{Slot, store, get_entry_mut}
use page_table_multiarch.Table64.Height.{size_at}
use page_table_multiarch.Table64.Answer.{Memory, present, descend, get_entry_mut_lem}
use page_table_multiarch.Table64.Placed.{Placement}
use page_table_multiarch.Table64.Create.{top}
use page_table_multiarch.Table64.Flush.{push-IsPushed}
use page_table_multiarch.Table64.Reached.{IsPage}
use page_table_multiarch.Table64.Written.{IsEntry}
use page_table_multiarch.Table64.Found.{Found, found, not_found, get_entry_mut-Found}
use page_table_multiarch.Table64.Mapped.{root_of, IsSession, answers, page_in, Changes, stored}
use page_table_multiarch.Table64.Unmapped.{entry_answers}
use page_table_multiarch.Table64.Protected.{flagged-Changes}
use page_table_multiarch.Table64.Cursor.{Session, in_session, load, store_entry, push, remap}

store_twice : (mem : Memory) (p : Slot) (x y : ℕ) → store (store mem p x) p y ≡ store mem p y
store_twice mem p x y = fun_ext λ q. fun_ext λ i. ground arith

store_back : (mem : Memory) (p : Slot) (x : ℕ) → store mem p x p.frame p.index ≡ x
store_back mem p x = rw (==_refl p.frame, ==_refl p.index)

module _ {S V B : Type 0} {e : Platform S V B} (a : IsPlatform e) where
  -- the entry that `remap` writes
  abbrev pub remap_word : (word paddr flags height : ℕ) → ℕ
  remap_word word paddr f h =
      e.pte.set_flags (e.pte.set_paddr word paddr) f (is_huge_size (size_at h))

  -- the entry that the walk of the links ends in, as a recursion on the height
  abbrev pub walked : (s : Session S V B) (v : ℕ) → PagingResult (Slot × PageSize)
  walked s v = descend e (top a (root_of a s)) s.world.mem (root_of a s) v

  -- Where the walk ends in an entry, that entry is rewritten, present or not; otherwise the error of
  -- the walk is returned, which is the answer that the address had, and nothing changes.
  pub data Remapped (place : Placement) (s : Session S V B) (v paddr f : ℕ)
      : Run (Session S V B) PageSize → Type 0 where
    remapped :
        {s' : Session S V B} {p : Slot} (h word : ℕ)
        → h ≤ 2
        → walked s v ≡ ok (p, size_at h)
        → word ≡ s.world.mem p.frame p.index
        → ((u : ℕ) → page_in a h u ≡ page_in a h v → answers a s u ≡ present e word (size_at h))
        → Changes a place s s' h v (ok (remap_word word paddr f h, size_at h))
        → Remapped place s v paddr f (done (ok (size_at h)) s')
    not_remapped :
        {r : PagingError}
        → walked s v ≡ err r
        → answers a s v ≡ err r
        → Remapped place s v paddr f (done (err r) s)

  abbrev remap_at : (v paddr f : ℕ) → Slot × PageSize → Cmd (Session S V B) PageSize
  remap_at v paddr f (p, size) = do
    entry ← load e p
    store_entry e p (e.pte.set_paddr entry paddr)
    entry ← load e p
    store_entry e p (e.pte.set_flags entry f (is_huge_size size))
    push e v
    pure size

  module _ {place : Placement} (s : Session S V B) (t : IsSession a place s) (h v paddr f : ℕ)
      (p : Slot) (at : IsEntry a (root_of a s) place s.world h v p) (low : h ≤ 2) (small : f < 64)
      (accepted : a.accepts f ≡ true) where
    remap_at-Remapped :
        IsPage a (root_of a s) h (s.world.mem p.frame p.index)
        → walked s v ≡ ok (p, size_at h)
        → Remapped place s v paddr f (remap_at v paddr f (p, size_at h) s)
    remap_at-Remapped kind arrives =
        rw
          (
            store_back s.world.mem p (e.pte.set_paddr (s.world.mem p.frame p.index) paddr),
            store_twice s.world.mem p (e.pte.set_paddr (s.world.mem p.frame p.index) paddr)
                (remap_word (s.world.mem p.frame p.index) paddr f h),
            (push-IsPushed e a.bounded v
                (stored a s p (remap_word (s.world.mem p.frame p.index) paddr f h))).ends,
          )
          (remapped h (s.world.mem p.frame p.index) low arrives refl
            (entry_answers a s t h v p at kind)
            (flagged-Changes a s t h v f p at low small accepted
              (e.pte.set_paddr (s.world.mem p.frame p.index) paddr)))

  ending : {x y : PagingResult (Slot × PageSize)} {w w' : World S} → done x w ≡ done y w' → x ≡ y
  ending same = cc same

  -- `remap` on a well-formed table, with flags that make a present page: it succeeds just where the
  -- walk of the links for the address ends in an entry, one of the lowest table or one that `is_huge`
  -- holds of, whether that entry is present or not. The entry is then rewritten with the new frame and
  -- flags, its page size is returned, all addresses of its page are answered from it, all others as
  -- before, and the address is to be flushed. Where a link is missing on the way, `remap` returns the
  -- error of the walk, which is what the address was answered, and changes nothing.
  pub remap-Remapped :
      {place : Placement} (s : Session S V B) (v paddr f : ℕ)
      → f < 64
      → a.accepts f ≡ true
      → IsSession a place s
      → Remapped place s v paddr f (remap e v paddr f s)
  unfolding remap
  remap-Remapped {place} s v paddr f small accepted t =
      from refl (get_entry_mut-Found a (root_of a s) s.cursor.inner v place s.world refl t)
    where
      from :
          {r : Run (World S) (Slot × PageSize)}
          → get_entry_mut e s.cursor.inner v s.world ≡ r
          → Found a (root_of a s) place s.world v r
          → Remapped place s v paddr f (and_then (in_session s.cursor r) (remap_at v paddr f))
      from same (found {s = p} h low at kind) =
          remap_at-Remapped s t h v paddr f p at low small accepted kind
            (ending (sym (get_entry_mut_lem e s.cursor.inner v s.world a.levels) ∙ same))
      from same (not_found none_there) =
          not_remapped (ending (sym (get_entry_mut_lem e s.cursor.inner v s.world a.levels) ∙ same))
            none_there
