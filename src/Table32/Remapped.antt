-- ===== src/Table32/Remapped.antt =====
-- The outcomes of `remap` on a two-level table.
use page_table_multiarch.Common.{ℕ, ◌<◌, ◌≡◌, refl, inl, Option, none, some, true}
use page_table_multiarch.Paging.{ok, err, PageSize, is_huge_size, Platform, not_mapped}
use page_table_multiarch.Paging.Run.{Run, done, Cmd, and_then, pure, ◌>>◌}
use page_table_multiarch.Table32.Contract.{IsPlatform}
use page_table_multiarch.Table32.Answer.{found, get_entry_mut_lem, or_not_mapped}
use page_table_multiarch.Table32.Placed.{Owners, section, answer-unused}
use page_table_multiarch.Table32.Session.{root_of, IsSession, answers, Changes, push_lem}
use page_table_multiarch.Table32.Found.{
  Found, missing, place, found-Found, at_place, written-Changes,
}
use page_table_multiarch.Table32.Cursor.{Session, in_session, store_entry, push, remap}

module _ {S V B : Type 0} {e : Platform S V B} (a : IsPlatform e) where
  open e use {pte}

  -- The outcomes of `remap`: it needs the place of a page, not its mapping.
  pub data Remapped (owner : Owners) (s : Session S V) (v q f : ℕ)
      : Run (Session S V) PageSize → Type 0 where
    remapped :
        {s' : Session S V} {p : ℕ} {size : PageSize}
        → found e s.memory.words (root_of s) v ≡ some (p, size)
        → Changes a owner s s' size v (some (pte.new_page q f (is_huge_size size), size))
        → Remapped owner s v q f (done (ok size) s')
    no_place :
        found e s.memory.words (root_of s) v ≡ none
        → answers a s v ≡ none
        → Remapped owner s v q f (done (err not_mapped) s)

  -- what `remap` does at the place that it has got
  abbrev remap_at : (v q f : ℕ) → ℕ × PageSize → Cmd (Session S V) PageSize
  remap_at v q f (p, size) = do
    store_entry e p (pte.new_page q f (is_huge_size size))
    push e v
    pure size

  remap_lem : (s : Session S V) (v q f : ℕ) → remap e v q f s ≡ at_place a (remap_at v q f) v s
  unfolding remap
  remap_lem s v q f = rw (get_entry_mut_lem e s.cursor.inner v s.memory) refl

  -- `remap` on a well-formed table, with flags that make a page, writes the entry of the given frame
  -- and flags in the place in which the descent of the address ends, mapped or not: the page has this
  -- entry then, all other addresses keep theirs, and the address is to be flushed. It fails, with
  -- `NotMapped`, only where the root has no entry for the address, and changes nothing then.
  pub remap-Remapped32 :
      {owner : Owners} (s : Session S V) (v q f : ℕ)
      → f < 64
      → a.accepts f ≡ true
      → IsSession a owner s
      → Remapped owner s v q f (remap e v q f s)
  remap-Remapped32 {owner} s v q f small accepted t =
      rw (remap_lem s v q f) (from refl (found-Found a s.memory.words (root_of s) v))
    where
      from :
          {o : Option (ℕ × PageSize)}
          → found e s.memory.words (root_of s) v ≡ o
          → Found a s.memory.words (root_of s) v o
          → Remapped owner s v q f
              (and_then (in_session s.cursor (done (or_not_mapped e o) s.memory)) (remap_at v q f))
      from same (missing unused) =
          no_place same (answer-unused a (root_of s) (section (inl unused)) unused)
      from same (place {p} {size} kind at section_used) =
          rw (push_lem a v) (remapped same (written-Changes a s t at kind q f small accepted))
