-- ===== src/Table64/Mapped.antt =====
-- The outcomes of `map`, in terms of what the addresses are answered.
use page_table_multiarch.Common.{
  ℕ, ◌-◌, ◌<◌, ◌≡◌, ◌≢◌, refl, sym, ap, ◌∙◌, inl, inr, true, not, Bool-cases, if◌then◌else◌, arith,
}
use page_table_multiarch.Paging.{
  PagingError, PagingResult, ok, err, PageSize, size_4k, size_1m, size_2m, size_1g, size_of,
  is_huge_size, Platform, World, not_mapped, already_mapped,
}
use page_table_multiarch.Paging.Run.{Run, done, Cmd, and_then, throw, ◌>>=◌, ◌>>◌}
use page_table_multiarch.Paging.Contract.{IsPlatform}
use page_table_multiarch.Table64.Defs.{Slot, next_table}
use page_table_multiarch.Table64.Height.{page, size_at, height_of}
use page_table_multiarch.Table64.Answer.{answer, present}
use page_table_multiarch.Table64.Placed.{Placement}
use page_table_multiarch.Table64.Link.{answer-unused}
use page_table_multiarch.Table64.Create.{IsTable}
use page_table_multiarch.Table64.Descend.{
  Created, created, not_created, get_entry_mut_or_create-Created,
}
use page_table_multiarch.Table64.Flush.{asked, push-IsPushed}
use page_table_multiarch.Table64.Reached.{IsPage, IsEnd}
use page_table_multiarch.Table64.Written.{
  IsEntry, answer-entry, shared, rewritten, rewritten-IsTable, rewritten_others, rewritten-page,
}
use page_table_multiarch.Table64.Cursor.{
  Session, in_session, with_flusher, load, store_entry, push, map,
}

module _ {S V B : Type 0} {e : Platform S V B} (a : IsPlatform e) where
  abbrev pub root_of : Session S V B → ℕ
  root_of s = s.cursor.inner.root_paddr

  abbrev pub IsSession : Placement → Session S V B → Type 0
  IsSession place s = IsTable a (root_of s) place s.world

  -- the answer to an address in a session
  abbrev pub answers : Session S V B → ℕ → PagingResult (ℕ × PageSize)
  answers s u = answer e (e.meta.levels - 1) s.world.mem (root_of s) u

  abbrev pub page_in : (height vaddr : ℕ) → ℕ
  page_in h u = page (e.meta.levels - 1) h u

  -- The page of `v` at the height `h` gets the answer `new`, is to be flushed, and nothing else
  -- changes for any address.
  pub record Changes (place : Placement) (s s' : Session S V B) (h v : ℕ)
      (new : PagingResult (ℕ × PageSize)) : Type 0 where
    pub session : IsSession place s'
    pub same_table : s'.cursor.inner ≡ s.cursor.inner
    pub here : (u : ℕ) → page_in h u ≡ page_in h v → answers s' u ≡ new
    pub others : (u : ℕ) → page_in h u ≢ page_in h v → answers s' u ≡ answers s u
    pub asks : asked e a.bounded s'.cursor.flusher v ≡ true
    pub asks_old :
        (u : ℕ)
        → asked e a.bounded s.cursor.flusher u ≡ true
        → asked e a.bounded s'.cursor.flusher u ≡ true

  -- Nothing changes for any address.
  pub record Unchanged (place : Placement) (s s' : Session S V B) : Type 0 where
    pub session : IsSession place s'
    pub same_cursor : s'.cursor ≡ s.cursor
    pub same : (u : ℕ) → answers s' u ≡ answers s u

  -- the entry that `map` writes
  abbrev pub page_word : (target : ℕ) → PageSize → (flags : ℕ) → ℕ
  page_word target size flags =
      e.pte.new_page (e.addr.align_down target (size_of size)) flags (is_huge_size size)

  page_word-IsPage :
      (target : ℕ) (size : PageSize) (f root : ℕ)
      → f < 64
      → a.accepts f ≡ true
      → IsPage a root (height_of size) (page_word target size f)
  page_word-IsPage target size_4k f root small accepted = inl refl
  page_word-IsPage target size_1m f root small accepted = inl refl
  page_word-IsPage target size_2m f root small accepted =
      inr (a.lawful.is_huge-new_page (e.addr.align_down target (size_of size_2m)) f small accepted)
  page_word-IsPage target size_1g f root small accepted =
      inr (a.lawful.is_huge-new_page (e.addr.align_down target (size_of size_1g)) f small accepted)

  pub IsPage-IsEnd : (root h word : ℕ) → IsPage a root h word → IsEnd a root h word
  IsPage-IsEnd root h word (inl lowest) = inl lowest
  IsPage-IsEnd root h word (inr leaf) = inr (λ q link. unfold next_table in ground arith)

  -- the session once an entry is written
  abbrev pub stored : Session S V B → Slot → ℕ → Session S V B
  stored s p word = record s { world = rewritten s.world p word }

  -- the session once the address is pushed, too
  abbrev pub finished : Session S V B → Slot → (word vaddr : ℕ) → Session S V B
  finished s p word v =
      with_flusher (stored s p word) (push-IsPushed e a.bounded v (stored s p word)).flusher

  module _ {place : Placement} {s : Session S V B} (t : IsSession place s) (h v : ℕ) (p : Slot)
      (at : IsEntry a (root_of s) place s.world h v p) (word : ℕ) where
    -- A write to the entry of an address and the push of the address.
    pub finished-Changes :
        (new : PagingResult (ℕ × PageSize))
        → IsEnd a (root_of s) h word
        → ((u : ℕ) → page_in h u ≡ page_in h v → answers (stored s p word) u ≡ new)
        → Changes place s (finished s p word v) h v new
    finished-Changes new ends here = record {
      session = rewritten-IsTable a (root_of s) t at word ends;
      same_table = refl;
      here = here;
      others = rewritten_others a (root_of s) t at word;
      asks = (push-IsPushed e a.bounded v (stored s p word)).new;
      asks_old = (push-IsPushed e a.bounded v (stored s p word)).old;
    }

  -- Changes after a step that changed no answer.
  pub Changes-trans :
      {place : Placement} {s s' : Session S V B} {h v : ℕ} {new : PagingResult (ℕ × PageSize)}
      → (w : World S) → ((u : ℕ) → answers (record s { world = w }) u ≡ answers s u)
      → Changes place (record s { world = w }) s' h v new
      → Changes place s s' h v new
  Changes-trans w same c = record {
    session = c.session;
    same_table = c.same_table;
    here = c.here;
    others = λ u apart. c.others u apart ∙ same u;
    asks = c.asks;
    asks_old = c.asks_old;
  }

  -- A success maps a page that was not mapped; a failure changes nothing.
  pub data Mapped (s : Session S V B) (h v word : ℕ) : Run (Session S V B) (Unit {0}) → Type 0 where
    mapped :
        {s' : Session S V B} (place : Placement)
        → ((u : ℕ) → page_in h u ≡ page_in h v → answers s u ≡ err not_mapped)
        → Changes place s s' h v (present e word (size_at h))
        → Mapped s h v word (done (ok tt) s')
    failed :
        {r : PagingError} {s' : Session S V B} (place : Placement)
        → Unchanged place s s'
        → Mapped s h v word (done (err r) s')

  -- what `map` does with the entry that it has got
  abbrev pub map_at : (v word : ℕ) → Slot → Cmd (Session S V B) (Unit {0})
  map_at v word p = do
    entry ← load e p
    if not (e.pte.is_unused entry) then throw already_mapped else do store_entry e p word; push e v

  map_at-Mapped :
      {place : Placement} {s : Session S V B} (h v word : ℕ) (w : World S) (p : Slot)
      → IsTable a (root_of s) place w
      → ((u : ℕ) → answers (record s { world = w }) u ≡ answers s u)
      → IsEntry a (root_of s) place w h v p
      → IsPage a (root_of s) h word
      → Mapped s h v word (map_at v word p (record s { world = w }))
  map_at-Mapped {place} {s} h v word w p t same at kind =
      elim (Bool-cases (e.pte.is_unused (w.mem p.frame p.index))) [
        | inr used ↦
            rw used (failed place (record { session = t; same_cursor = refl; same = same }))
        | inl unused ↦
            rw (unused, (push-IsPushed e a.bounded v (stored (record s { world = w }) p word)).ends)
              (mapped place (is_free unused) (
                Changes-trans w same (
                  finished-Changes {s = record s { world = w }} t h v p at word _
                    (IsPage-IsEnd (root_of s) h word kind)
                    λ u same_page. rewritten-page a (root_of s) t at word u kind same_page)))
      ]
    where
      is_free :
          e.pte.is_unused (w.mem p.frame p.index) ≡ true
          → (u : ℕ) → page_in h u ≡ page_in h v
          → answers s u ≡ err not_mapped
      is_free unused u in_page =
          let there = shared a (root_of s) t at u in_page in
          sym (same u)
          ∙ answer-entry a (root_of s) t there
          ∙ answer-unused e a.lawful h p.frame u w.mem (
              ap (w.mem p.frame) (sym there.at_index)
              ∙ ground (arith, a.lawful.is_unused_lem (w.mem p.frame p.index)))

  -- `map` on a well-formed table, with flags that make a present page. Either it succeeds: no address
  -- of the page was mapped, all of them now have the entry written, every other address has the answer
  -- it had, and the address is to be flushed. Or it fails and no address has another answer and the
  -- cursor is the same. In both cases the table is well formed on the same root. There is no panic.
  pub map-Mapped :
      {place : Placement} (s : Session S V B) (v target : ℕ) (size : PageSize) (f : ℕ)
      → f < 64
      → a.accepts f ≡ true
      → IsSession place s
      → Mapped s (height_of size) v (page_word target size f) (map e v target size f s)
  unfolding map
  map-Mapped {place} s v target size f small accepted t =
      from
        (get_entry_mut_or_create-Created a (root_of s) s.cursor.inner v size place s.world refl t)
    where
      from :
          {r : Run (World S) Slot}
          → Created a (root_of s) place s.world (height_of size) v (e.meta.levels - 1) (root_of s) r
          → Mapped s
              (height_of size)
              v
              (page_word target size f)
              (and_then (in_session s.cursor r) (map_at v (page_word target size f)))
      from (created {s = p} {w'} place' k there index reaches) =
          map_at-Mapped (height_of size) v (page_word target size f) w' p k.table k.same
            (record { there = there; at_index = index; reaches = reaches })
            (page_word-IsPage target size f (root_of s) small accepted)
      from (not_created place' k) =
          failed place' (record { session = k.table; same_cursor = refl; same = k.same })
