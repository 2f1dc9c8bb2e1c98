-- ===== src/Table32/Protected.antt =====
-- The outcomes of `protect` on a two-level table.
use page_table_multiarch.Common.{
  ℕ, ◌<◌, ◌≡◌, refl, inl, inr, Bool-cases, Option, none, some, true, if◌then◌else◌,
}
use page_table_multiarch.Paging.{ok, err, PageSize, is_huge_size, Platform, not_mapped}
use page_table_multiarch.Paging.Run.{Run, done, Cmd, and_then, pure, throw, ◌>>=◌, ◌>>◌}
use page_table_multiarch.Table32.Contract.{IsPlatform}
use page_table_multiarch.Table32.Answer.{get_entry_mut_lem, or_not_mapped}
use page_table_multiarch.Table32.Placed.{Owners, section, answer-used, answer-unused}
use page_table_multiarch.Table32.Session.{root_of, IsSession, answers, Changes, push_lem}
use page_table_multiarch.Table32.Found.{
  Found, missing, place, found-Found, at_place, written-Changes,
}
use page_table_multiarch.Table32.Cursor.{Session, in_session, load, store_entry, push, protect}

module _ {S V B : Type 0} {e : Platform S V B} (a : IsPlatform e) where
  open e use {pte}

  -- The outcomes of `protect`.
  pub data Protected (owner : Owners) (s : Session S V) (v f : ℕ)
      : Run (Session S V) PageSize → Type 0 where
    protected :
        {s' : Session S V} {word : ℕ} {size : PageSize}
        → answers a s v ≡ some (word, size)
        → Changes a owner s s' size v
            (some (pte.new_page (pte.paddr word) f (is_huge_size size), size))
        → Protected owner s v f (done (ok size) s')
    unprotected : answers a s v ≡ none → Protected owner s v f (done (err not_mapped) s)

  -- what `protect` does at the place that it has got
  abbrev protect_at : (v f : ℕ) → ℕ × PageSize → Cmd (Session S V) PageSize
  protect_at v f (p, size) = do
    entry ← load e p
    if pte.is_unused entry then throw not_mapped else do
      store_entry e p (pte.new_page (pte.paddr entry) f (is_huge_size size))
      push e v
      pure size

  protect_lem : (s : Session S V) (v f : ℕ) → protect e v f s ≡ at_place a (protect_at v f) v s
  unfolding protect
  protect_lem s v f = rw (get_entry_mut_lem e s.cursor.inner v s.memory) refl

  -- `protect` on a well-formed table, with flags that make a page, succeeds just where the address is
  -- mapped. The page gets an entry of the frame that the old entry gives, with the new flags; all
  -- other addresses keep their entries, and the address is to be flushed. Elsewhere it fails with
  -- `NotMapped` and changes nothing.
  pub protect-Protected32 :
      {owner : Owners} (s : Session S V) (v f : ℕ)
      → f < 64
      → a.accepts f ≡ true
      → IsSession a owner s
      → Protected owner s v f (protect e v f s)
  protect-Protected32 {owner} s v f small accepted t =
      rw (protect_lem s v f) (from (found-Found a s.memory.words (root_of s) v))
    where
      from :
          {o : Option (ℕ × PageSize)}
          → Found a s.memory.words (root_of s) v o
          → Protected owner s v f
              (and_then (in_session s.cursor (done (or_not_mapped e o) s.memory)) (protect_at v f))
      from (missing unused) =
          unprotected (answer-unused a (root_of s) (section (inl unused)) unused)
      from (place {p} {size} kind at section_used) =
          elim (Bool-cases (pte.is_unused (s.memory.words p))) [
            | inl unused ↦ rw unused (unprotected (answer-unused a (root_of s) at unused))
            | inr used ↦
                rw (used, push_lem a v)
                  (protected (answer-used a (root_of s) at used)
                    (written-Changes a s t at kind (pte.paddr (s.memory.words p)) f small accepted))
          ]
